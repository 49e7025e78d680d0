-- ===== src/Proxy/Replicas/Create.antt =====
-- How many labels `create_replicas` (pancake_proxy.cpp) hands out.
use pancake.Base.Tests.{
  ℕ, zero, suc, ◌+◌, ◌-◌, ◌*◌, ◌≤◌, ◌≡◌, refl, ap, ◌∙◌, List, [], ◌∷◌, ◌++◌, true, arith, leb,
}
use pancake.Base.Lists.{length}
use pancake.Base.Text.{Text, text_eq}
use pancake.Base.Run.{◌>>=◌, Returns}
use pancake.Base.Dict.{insert}
use pancake.Proxy.{Platform, Proxy}
use pancake.Proxy.Replicas.{
  insert_replicas, fake_probability, create_loop, add_dummies, create_replicas,
}
use pancake.Proxy.Replicas.Insert.{insert_replicas-Returns}
use pancake.Proxy.Replicas.Labels.{IsNumbered, number_from-IsNumbered}
use pancake.Distribution.{distribution}
use pancake.UpdateCache
use pancake.Util.{Rng, rand_str}

module _ (P : Platform) where
  open P use {double.{F, of_int, sub, mul, div, ceil, trunc}, storage.{IsOpen}, engine.{IsPlain}}

  -- the replicas of keys with the given probabilities
  abbrev pub demand : F → List F → ℕ
  demand alpha [] = 0
  demand alpha (pi ∷ probabilities) = ceil (div pi alpha) + demand alpha probabilities

  -- What the set-up of keys needs and keeps: servers, texts that the engine can carry, and labels
  -- below the count that are unique.
  pub record Ready (p : Proxy P) : Type 0 where
    pub opened : IsOpen p.store
    pub plain : (g : Rng) → IsPlain (rand_str p.object_size g).0
    pub numbered : IsNumbered p.label_count p.replica_to_label

  insert_replicas-Ready :
      (key : Text) (n : ℕ) (p : Proxy P)
      → Ready p
      → Returns (insert_replicas P key n p) λ q.
        Ready q
        × (q.label_count ≡ p.label_count + n)
        × (q.alpha ≡ p.alpha)
        × (q.dummy_keys ≡ p.dummy_keys)
  insert_replicas-Ready key n p r =
      let (q, run, (kept, labels, count, opened, _)) =
        insert_replicas-Returns P key n p r.opened (r.plain p.rng) in
      (
        q,
        run,
        (
          record {
            opened = opened;
            plain = rw kept r.plain;
            numbered =
                rw (labels, count)
                  (number_from-IsNumbered n 0 key p.label_count p.replica_to_label r.numbered);
          },
          count,
          ap (λ (t : Proxy P). t.alpha) kept,
          ap (λ (t : Proxy P). t.dummy_keys) kept,
        ),
      )

  create_loop-Ready :
      (keys : List Text) (probabilities : List F) (p : Proxy P)
      → Ready p
      → length keys ≡ length probabilities
      → Returns (create_loop P keys probabilities p) λ (fakes, pairs, created, q).
        Ready q
        × (created ≡ demand p.alpha probabilities)
        × (q.label_count ≡ p.label_count + demand p.alpha probabilities)
  unfolding create_loop
  create_loop-Ready [] [] p r len = (([], [], 0, p), refl, (r, refl, omega arith))
  create_loop-Ready [] (pi ∷ probabilities) p r len = absurd (omega arith)
  create_loop-Ready (key ∷ keys) [] p r len = absurd (omega arith)
  create_loop-Ready (key ∷ keys) (pi ∷ probabilities) p r len =
      let r_i = ceil (div pi p.alpha) in
      let counted = record p {
        key_to_frequency = insert key (trunc pi) p.key_to_frequency;
        key_to_number_of_replicas = insert key r_i p.key_to_number_of_replicas;
      } in
      let (q, run, (ready, count, same, _)) =
        insert_replicas-Ready key r_i counted
          (record { opened = r.opened; plain = r.plain; numbered = r.numbered }) in
      let ((fakes, pairs, created, t), run', (ready', made, count')) =
        create_loop-Ready keys probabilities q ready (omega arith) in
      let same_demand : demand q.alpha probabilities ≡ demand p.alpha probabilities =
        ap (λ a. demand a probabilities) same in
      (
        (fake_probability P p.alpha p.delta pi r_i ∷ fakes, (key, r_i) ∷ pairs, r_i + created, t),
        rw (run, ◌>>=◌) (rw run'),
        (ready', omega (arith, same_demand, made), omega (arith, same_demand, count, count')),
      )

  add_dummies-Ready :
      (n : ℕ) (fakes : List F) (pairs : List (Text × ℕ)) (p : Proxy P)
      → Ready p
      → Returns (add_dummies P n fakes pairs p) λ (fakes', pairs', q).
        Ready q × (q.label_count ≡ p.label_count + n) × (q.dummy_keys ≡ p.dummy_keys)
  unfolding add_dummies
  add_dummies-Ready zero fakes pairs p r = ((fakes, pairs, p), refl, (r, omega arith, refl))
  add_dummies-Ready (suc n) fakes pairs p r =
      let counted = record p {
        key_to_number_of_replicas = insert p.dummy_key (suc n) p.key_to_number_of_replicas;
      } in
      let (q, run, (ready, count, _, same)) =
        insert_replicas-Ready p.dummy_key (suc n) counted
          (record { opened = r.opened; plain = r.plain; numbered = r.numbered }) in
      let share = mul (div p.alpha (sub (div (of_int 1) p.delta) (of_int 1))) (of_int (suc n)) in
      (
        (fakes ++ share ∷ [], pairs ++ (p.dummy_key, suc n) ∷ [], q),
        rw (run, ◌>>=◌) refl,
        (ready, count, same),
      )

  -- If the servers can be reached, every random text can be carried, each key has a
  -- probability, the replicas that the probabilities ask for are at most twice the keys, and
  -- the labels given so far are below the count and unique, then `create_replicas` ends
  -- normally. It hands out exactly twice as many labels as there are keys, the dummy key gets
  -- those that the keys do not need, and the labels are again below the count and unique.
  pub create_replicas-Ready :
      (p : Proxy P)
      → Ready p
      → length p.real_distribution.items ≡ length p.real_distribution.probabilities
      → demand p.alpha p.real_distribution.probabilities ≤ 2 * length p.real_distribution.items
      → Returns (create_replicas P p) λ q.
        (q.label_count ≡ p.label_count + 2 * length p.real_distribution.items)
        × (q.dummy_keys
            ≡ 2 * length p.real_distribution.items
              - demand p.alpha p.real_distribution.probabilities)
        × Ready q
  unfolding create_replicas
  create_replicas-Ready p r len enough =
      let n = length p.real_distribution.items in
      let probabilities = p.real_distribution.probabilities in
      let ((fakes, pairs, created, q), run, (ready, made, count)) =
        create_loop-Ready p.real_distribution.items probabilities p r len in
      let fits : leb created (2 * n) ≡ true = ground (arith, made, enough) in
      let left = record q { dummy_keys = 2 * n - created } in
      let ((fakes', pairs', t), run', (ready', count', same)) =
        add_dummies-Ready (2 * n - created) fakes pairs left
          (record { opened = ready.opened; plain = ready.plain; numbered = ready.numbered }) in
      (
        record t {
          update_cache = UpdateCache.update_cache P.cuckoo pairs';
          fake_distribution =
              distribution P.double (p.real_distribution.items ++ p.dummy_key ∷ []) fakes';
        },
        rw (run, ◌>>=◌) (rw (fits, run', ◌>>=◌) refl),
        (
          omega (arith, made, count, count', enough),
          same ∙ ap (λ k. 2 * n - k) made,
          record { opened = ready'.opened; plain = ready'.plain; numbered = ready'.numbered },
        ),
      )
