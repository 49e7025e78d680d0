-- ===== src/Proxy/Execute/Choose.antt =====
-- The first loop of `execute_batch` (pancake_proxy.cpp): which replica each operation accesses.
use pancake.Base.Tests.{
  subst, ℕ, ◌<◌, ◌≡◌, refl, ◌∙◌, Bool, none, some, List, [], ◌∷◌, arith, inl, inr, Option-cases,
}
use pancake.Base.Lists.{length, All}
use pancake.Base.Text.{Text, to_string, to_string_inj, text_eq}
use pancake.Base.Run.{ok, ◌>>=◌, Returns}
use pancake.Base.Dict.{Dict, lookup}
use pancake.Operation.{Operation}
use pancake.Proxy.{Platform, Proxy, replica_name, fetch, number_of}
use pancake.Proxy.Execute.{choose_replica, choose_replicas}
use pancake.Proxy.Execute.Batches.{Picked}
use pancake.Proxy.Execute.Model.{Layout}
use pancake.UpdateCache.Sample.{sample_a_replica-lt}

fetch_present : (k : Text) (m : Dict Text ℕ) (v : ℕ) → lookup k m ≡ some v → fetch k m ≡ (v, m)
unfolding fetch
fetch_present k m v e = rw e

number_of_pos : (k : Text) (m : Dict Text ℕ) → 0 < number_of k m → lookup k m ≡ some (number_of k m)
number_of_pos k m h = elim (Option-cases (lookup k m)) [
  | inl e ↦ absurd (ground arith)
  | inr (v, e) ↦ ground arith
]

module _ (P : Platform) where
  open P use {cuckoo.{find}}

  abbrev reps : Proxy P → Text → ℕ
  reps p k = number_of k p.key_to_number_of_replicas

  abbrev label_number : Proxy P → Text → ℕ → ℕ
  label_number p k i = number_of (replica_name k i) p.replica_to_label

  -- Every replica has a label, and no two have the same.
  pub record Placed (p : Proxy P) : Type 0 where
    pub named :
        (k : Text) (i : ℕ)
        → i < number_of k p.key_to_number_of_replicas
        → (l : ℕ) × (lookup (replica_name k i) p.replica_to_label ≡ some l)
    pub apart :
        (k j : Text) (i n : ℕ)
        → i < number_of k p.key_to_number_of_replicas
        → n < number_of j p.key_to_number_of_replicas
        → number_of (replica_name k i) p.replica_to_label
          ≡ number_of (replica_name j n) p.replica_to_label
        → (k ≡ j) × (i ≡ n)

  abbrev pub layout : (p : Proxy P) → Placed p → Layout
  layout p placed = record {
    reps = λ k. number_of k p.key_to_number_of_replicas;
    label = λ k i. to_string (number_of (replica_name k i) p.replica_to_label);
    apart = λ k j i n h h' e. placed.apart k j i n h h' (to_string_inj _ _ e);
  }

  -- The two proxies have the same numbers of replicas and the same distributions.
  pub record Steady (p q : Proxy P) : Type 0 where
    pub numbers : q.key_to_number_of_replicas ≡ p.key_to_number_of_replicas
    pub real : q.real_distribution ≡ p.real_distribution
    pub fake : q.fake_distribution ≡ p.fake_distribution

  -- The two proxies have the same replicas, caches and servers.
  pub record Same (p q : Proxy P) : Type 0 where
    pub steady : Steady p q
    pub labels : q.replica_to_label ≡ p.replica_to_label
    pub cache : q.update_cache ≡ p.update_cache
    pub missing : q.missing_new_replicas ≡ p.missing_new_replicas
    pub store : q.store ≡ p.store

  Steady-trans : {p q r : Proxy P} → Steady p q → Steady q r → Steady p r
  Steady-trans a b = record {
    numbers = b.numbers ∙ a.numbers;
    real = b.real ∙ a.real;
    fake = b.fake ∙ a.fake;
  }

  Same-trans : {p q r : Proxy P} → Same p q → Same q r → Same p r
  Same-trans a b = record {
    steady = Steady-trans a.steady b.steady;
    labels = b.labels ∙ a.labels;
    cache = b.cache ∙ a.cache;
    missing = b.missing ∙ a.missing;
    store = b.store ∙ a.store;
  }

  pub Placed-congr :
      (p q : Proxy P)
      → q.key_to_number_of_replicas ≡ p.key_to_number_of_replicas
      → q.replica_to_label ≡ p.replica_to_label
      → Placed p
      → Placed q
  Placed-congr p q numbers labels placed = record {
    named = λ k i. rw (numbers, labels) (placed.named k i);
    apart = λ k j i n. rw (numbers, labels) (placed.apart k j i n);
  }

  Picked-Same :
      {p q : Proxy P} (here : Placed p) (there : Placed q) (os : List Operation) (ids : List ℕ)
      (ls : List Text)
      → Same p q
      → Picked (layout q there) os ids ls
      → Picked (layout p here) os ids ls
  Picked-Same here there [] [] [] same c = tt
  Picked-Same here there [] [] (l ∷ ls) same c = c
  Picked-Same here there [] (i ∷ is) ls same c = absurd c
  Picked-Same here there (o ∷ os) [] ls same c = absurd c
  Picked-Same here there (o ∷ os) (i ∷ is) [] same c = c
  Picked-Same here there (o ∷ os) (i ∷ is) (l ∷ ls) same (lt, e, c) =
      (rw same.steady.numbers at lt, rw same.labels at e, Picked-Same here there os is ls same c)

  choose_replica-Returns :
      (key : Text) (is_real : Bool) (p : Proxy P)
      → Placed p
      → 0 < number_of key p.key_to_number_of_replicas
      → find key p.missing_new_replicas ≡ none
      → Returns (choose_replica P key is_real p) λ (id, l, q).
        (id < number_of key p.key_to_number_of_replicas)
        × (l ≡ to_string (number_of (replica_name key id) p.replica_to_label))
        × Same p q
  unfolding choose_replica
  choose_replica-Returns key is_real p placed pos unmissed =
      let n = number_of key p.key_to_number_of_replicas in
      let (frequency, frequencies) = fetch key p.key_to_frequency in
      let ((id, g), run, (lt, _)) =
        sample_a_replica-lt P.cuckoo P.double key n is_real frequency p.p_max p.missing_new_replicas
          p.rng (rw unmissed pos) (rw unmissed (omega arith)) (inr (inl unmissed)) in
      let (l, named) = placed.named key id lt in
      (
        (id, to_string l, record p { key_to_frequency = frequencies; rng = g }),
        rw (fetch_present key p.key_to_number_of_replicas n (number_of_pos key _ pos), run, ◌>>=◌)
            (rw (fetch_present (replica_name key id) p.replica_to_label l named)),
        (
          lt,
          rw named,
          record {
            steady = record { numbers = refl; real = refl; fake = refl };
            labels = refl;
            cache = refl;
            missing = refl;
            store = refl;
          },
        ),
      )

  -- If every operation has a mark and its key has replicas, all replicas have labels and none
  -- is missing, the first loop ends normally. It picks a replica of each operation's key
  -- together with the label of that replica, and the numbers of replicas, the labels, both
  -- caches and the servers stay as they are.
  pub choose_replicas-Returns :
      (os : List Operation) (is_trues : List Bool) (p : Proxy P) (placed : Placed p)
      → length os ≡ length is_trues
      → All (λ o. 0 < number_of o.key p.key_to_number_of_replicas) os
      → ((k : Text) → find k p.missing_new_replicas ≡ none)
      → Returns
          (choose_replicas P os is_trues p)
          λ (ids, labels, q). Picked (layout p placed) os ids labels × Same p q
  unfolding choose_replicas
  choose_replicas-Returns [] ts p placed len pos u = (
    ([], [], p),
    refl,
    (
      tt,
      record {
        steady = record { numbers = refl; real = refl; fake = refl };
        labels = refl;
        cache = refl;
        missing = refl;
        store = refl;
      },
    ),
  )
  choose_replicas-Returns (o ∷ os) [] p placed len pos u = absurd (omega arith)
  choose_replicas-Returns (o ∷ os) (t ∷ ts) p placed len pos u =
      let ((id, l, q), run, (lt, right, same)) =
        choose_replica-Returns o.key t p placed pos.0 (u o.key) in
      let placed' = Placed-congr p q same.steady.numbers same.labels placed in
      let pos' : All (λ w. 0 < number_of w.key q.key_to_number_of_replicas) os =
        rw same.steady.numbers pos.1 in
      let ((ids, ls, r), run', (picked, same')) =
        choose_replicas-Returns os ts q placed' (omega arith) pos' (λ k. rw same.missing (u k)) in
      (
        (id ∷ ids, l ∷ ls, r),
        rw (run, ◌>>=◌) (rw run'),
        ((lt, right, Picked-Same placed placed' os ids ls same picked), Same-trans same same'),
      )

  -- the same of a run that is known
  pub chosen_Picked :
      (os : List Operation) (is_trues : List Bool) (p : Proxy P) (placed : Placed p) (ids : List ℕ)
      (labels : List Text) (q : Proxy P)
      → length os ≡ length is_trues
      → All (λ o. 0 < number_of o.key p.key_to_number_of_replicas) os
      → ((k : Text) → find k p.missing_new_replicas ≡ none)
      → choose_replicas P os is_trues p ≡ ok (ids, labels, q)
      → Picked (layout p placed) os ids labels × Same p q
  chosen_Picked os ts p placed ids labels q len pos u chose =
      let (r, run, facts) = choose_replicas-Returns os ts p placed len pos u in
      let same : r ≡ (ids, labels, q) = cc (run) in
      subst
        (λ ((is, ls, q') : List ℕ × List Text × Proxy P).
          Picked (layout p placed) os is ls × Same p q')
        same facts
