-- ===== src/Proxy/Swapping/Released.antt =====
-- `prepare_for_swapping` (pancake_proxy.cpp): what is left of the labels of replicas that go.
use mathlib.Core.List.{append-nil}
use pancake.Base.Tests.{
  ℕ, zero, suc, ◌+◌, ◌-◌, ◌≤◌, ◌<◌, ◌≡◌, ◌≢◌, refl, sym, ap, ◌∙◌, none, some, List, [], ◌∷◌, ◌++◌,
  arith, ltb, if◌then◌else◌, Bool-cases, inl, inr, nat_eqb, subst,
}
use pancake.Base.Text.{Text, text_eqb, text_eqb_iff, text_eq}
use pancake.Base.Run.{Returns}
use pancake.Base.Dict.{Dict, lookup, erase, lookup-erase}
use pancake.Proxy.{Platform, replica_name}
use pancake.Proxy.Replicas.Labels.{replica_name_inj}
use pancake.Proxy.Swapping.{one_char, new_replicas, release, Swap, prepare_for_swapping}
use pancake.UpdateCache.{edit_bit_vector_size}

-- the texts of the labels of `n` replicas from `i` on
abbrev pub texts : (ℕ → ℕ) → ℕ → ℕ → List Text
texts label i zero = []
texts label i (suc n) = one_char (label i) ∷ texts label (i + 1) n

-- Of the replicas of a key, those from `i` on, `n` in number, have no label in `m'`, and all others have
-- that of `m`.
pub record Without (key : Text) (i n : ℕ) (m m' : Dict Text ℕ) : Type 0 where
  pub gone : (j : ℕ) → i ≤ j → j < i + n → lookup (replica_name key j) m' ≡ none
  pub kept :
      (w : Text) → ((j : ℕ) → i ≤ j → j < i + n → replica_name key j ≢ w) → lookup w m' ≡ lookup w m

erased :
    (key : Text) (i n : ℕ) (m m' : Dict Text ℕ)
    → Without key (i + 1) n (erase (replica_name key i) m) m'
    → Without key i (suc n) m m'
erased key i n m m' w = record {
  gone = λ j le lt. elim (Bool-cases (nat_eqb i j)) [
    | inl same ↦
        let e : i ≡ j = ground (arith, same) in
        subst (λ k. lookup (replica_name key k) m' ≡ none) e
          (w.kept (replica_name key i) (λ k above below f.
              let equal = replica_name_inj key k i f in absurd (omega (arith, above, equal)))
            ∙ ground (
              arith,
              lookup-erase (replica_name key i) (replica_name key i) m,
              text_eqb_iff (replica_name key i) (replica_name key i),
            ))
    | inr differs ↦ w.gone j (ground (arith, differs)) (omega arith)
  ];
  kept = λ v other.
      w.kept v (λ j le lt. other j (omega arith) (omega arith))
      ∙ ground (
        arith,
        lookup-erase (replica_name key i) v m,
        text_eqb_iff (replica_name key i) v,
        other i (omega arith) (omega arith),
      );
}

release-Without :
    (key : Text) (i n : ℕ) (label : ℕ → ℕ) (m : Dict Text ℕ)
    → ((j : ℕ) → i ≤ j → j < i + n → lookup (replica_name key j) m ≡ some (label j))
    → Returns (release key i n m) λ (ls, m'). (ls ≡ texts label i n) × Without key i n m m'
unfolding release
release-Without key i zero label m named = (
  ([], m),
  refl,
  (refl, record { gone = λ j le lt. absurd (omega arith); kept = λ w other. refl }),
)
release-Without key i (suc n) label m named =
    let e = named i (omega arith) (omega arith) in
    let w = replica_name key i in
    let ((ls, m'), run, (same, without)) =
      release-Without key (i + 1) n label (erase w m) (λ j le lt. ground (
        arith,
        lookup-erase w (replica_name key j) m,
        named j (omega arith) (omega arith),
        text_eqb_iff w (replica_name key j),
        replica_name_inj key i j,
      )) in
    (
      (one_char (label i) ∷ ls, m'),
      rw (release, e) (rw run),
      (ap (λ l. one_char (label i) ∷ l) same, erased key i n m m' without),
    )

-- the replicas of a key from `i` on, `n` in number
abbrev pub replicas : Text → ℕ → ℕ → List (Text × ℕ)
replicas key i zero = []
replicas key i (suc n) = (key, i) ∷ replicas key (i + 1) n

new_replicas-replicas : (key : Text) (i n : ℕ) → new_replicas key i n ≡ replicas key i n
unfolding new_replicas
new_replicas-replicas key i zero = refl
new_replicas-replicas key i (suc n) = ap (λ l. (key, i) ∷ l) (new_replicas-replicas key (i + 1) n)

all_kept : (key : Text) (i : ℕ) (m : Dict Text ℕ) → Without key i 0 m m
all_kept key i m = record { gone = λ j le lt. absurd (omega arith); kept = λ w other. refl }

module _ (P : Platform) where
  abbrev pub Prepared : Text → ℕ → ℕ → (ℕ → ℕ) → Swap P → Swap P → Type 0
  Prepared key r_new r_old label s t =
      (t.unassigned_labels ≡ s.unassigned_labels ++ texts label r_new (r_old - r_new))
      × (t.needs_labels ≡ s.needs_labels ++ replicas key r_old (r_new - r_old))
      × Without key r_new (r_old - r_new) s.proxy.replica_to_label t.proxy.replica_to_label

  -- If the replicas of a key that go have labels, then `prepare_for_swapping` ends normally,
  -- whether the key gains replicas, loses some or neither. It adds the low byte of each label
  -- that goes, as a text of one char, to the unassigned labels, and the new replicas to those
  -- that need labels, both in their order. The replicas that go have no label afterwards, and
  -- all other labels are as before.
  pub prepare_for_swapping-Prepared :
      (key : Text) (r_new r_old : ℕ) (label : ℕ → ℕ) (s : Swap P)
      → ((j : ℕ)
          → r_new ≤ j
          → j < r_old
          → lookup (replica_name key j) s.proxy.replica_to_label ≡ some (label j))
      → Returns (prepare_for_swapping P key r_new r_old s) λ t. Prepared key r_new r_old label s t
  unfolding prepare_for_swapping
  prepare_for_swapping-Prepared key r_new r_old label s named =
      elim (Bool-cases (ltb r_old r_new)) [
        | inl grows ↦
            let none_gone : 0 ≡ r_old - r_new = ground (arith, grows) in
            (
              record s {
                needs_labels = s.needs_labels ++ new_replicas key r_old (r_new - r_old);
                proxy = record s.proxy {
                  missing_new_replicas =
                      (if text_eqb key s.proxy.dummy_key
                        then s.proxy.missing_new_replicas
                        else edit_bit_vector_size P.cuckoo key r_new s.proxy.missing_new_replicas);
                };
              },
              rw grows refl,
              (
                subst (λ n. s.unassigned_labels ≡ s.unassigned_labels ++ texts label r_new n)
                    none_gone (sym (append-nil s.unassigned_labels)),
                ap (λ l. s.needs_labels ++ l) (new_replicas-replicas key r_old (r_new - r_old)),
                subst (λ n. Without key r_new n s.proxy.replica_to_label s.proxy.replica_to_label)
                    none_gone (all_kept key r_new s.proxy.replica_to_label),
              ),
            )
        | inr stays ↦
            let none_new : 0 ≡ r_new - r_old = ground (arith, stays) in
            let no_needs : s.needs_labels ≡ s.needs_labels ++ replicas key r_old (r_new - r_old) =
              subst (λ n. s.needs_labels ≡ s.needs_labels ++ replicas key r_old n) none_new
                (sym (append-nil s.needs_labels)) in
            elim (Bool-cases (ltb r_new r_old)) [
              | inl shrinks ↦
                  let ((ls, m'), run, (same, without)) =
                    release-Without key r_new (r_old - r_new) label s.proxy.replica_to_label
                      (λ j le lt. named j le (ground (arith, lt, shrinks))) in
                  (
                    record s {
                      unassigned_labels = s.unassigned_labels ++ ls;
                      proxy = record s.proxy { replica_to_label = m' };
                    },
                    rw stays (rw shrinks (rw run refl)),
                    (ap (λ l. s.unassigned_labels ++ l) same, no_needs, without),
                  )
              | inr equal ↦
                  let none_gone : 0 ≡ r_old - r_new = ground (arith, equal) in
                  (
                    s,
                    rw stays (rw equal refl),
                    (
                      subst (λ n. s.unassigned_labels ≡ s.unassigned_labels ++ texts label r_new n)
                          none_gone (sym (append-nil s.unassigned_labels)),
                      no_needs,
                      subst
                          (λ n.
                            Without key r_new n s.proxy.replica_to_label s.proxy.replica_to_label)
                          none_gone (all_kept key r_new s.proxy.replica_to_label),
                    ),
                  )
            ]
      ]
