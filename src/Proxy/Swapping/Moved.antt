-- ===== src/Proxy/Swapping/Moved.antt =====
-- One replica less for a key and one more for another (pancake_proxy.cpp, `update_distribution`): the
-- label does not move along.
use mathlib.Core.List.{append-nil}
use pancake.Base.Tests.{
  ℕ, ◌+◌, ◌-◌, ◌%◌, ◌<◌, ◌≡◌, ◌≢◌, ◌⊎◌, refl, ap, ◌∙◌, subst, ◌&&◌, some, [], ◌∷◌, ◌++◌, arith, leb,
  Bool-cases, inl, inr,
}
use pancake.Base.Text.{Text, text_eq, text_eqb_iff, codes}
use pancake.Base.Run.{Run, fault, thrown, ◌>>=◌, Returns}
use pancake.Base.Dict.{Dict, lookup, insert, lookup-insert}
use pancake.Proxy.{Platform, replica_name}
use pancake.Proxy.Swapping.{one_char, Swap, prepare_for_swapping, perform_swapping}
use pancake.Proxy.Swapping.Assigned.{perform_swapping-chars}
use pancake.Proxy.Swapping.Released.{texts, replicas, prepare_for_swapping-Prepared}

module _ (P : Platform) where
  -- the key `a` loses its replica `r`, and `b` gains the replica `n`
  abbrev pub swap : Text → ℕ → Text → ℕ → Swap P → Run (Dict Text ℕ)
  swap a r b n s = prepare_for_swapping P a r (r + 1) s >>= λ t.
      prepare_for_swapping P b (n + 1) n t >>= λ u.
      perform_swapping u.unassigned_labels u.needs_labels u.proxy.replica_to_label

  swapped :
      (label n : ℕ) (b : Text) (m : Dict Text ℕ)
      → (perform_swapping (one_char label ∷ []) ((b, n) ∷ []) m ≡ fault (thrown (codes "stoi")))
        ⊎ Returns (perform_swapping (one_char label ∷ []) ((b, n) ∷ []) m) λ m'.
          (given : ℕ) × (lookup (replica_name b n) m' ≡ some given) × (given < 10) × (given ≢ label)
  swapped label n b m =
      let all = perform_swapping-chars (label ∷ []) ((b, n) ∷ []) m (omega arith) in
      elim (Bool-cases (leb 48 (label % 256) && leb (label % 256) 57)) [
        | inl digit ↦ inr (
          insert (replica_name b n) (label % 256 - 48) m,
          all ∙ rw digit refl,
          (
            label % 256 - 48,
            lookup-insert (replica_name b n) (replica_name b n) (label % 256 - 48) m
                ∙ ground (arith, text_eqb_iff (replica_name b n) (replica_name b n)),
            ground (arith, digit),
            ground (arith, digit),
          ),
        )
        | inr other ↦ inl (all ∙ rw other refl)
      ]

  -- When a key loses its last replica, with the label `label`, and another key gains one, with
  -- no other labels to swap, then the swap throws, or the new replica gets a label below 10
  -- that is not `label`.
  pub swap-label :
      (a : Text) (r : ℕ) (b : Text) (n label : ℕ) (s : Swap P)
      → s.unassigned_labels ≡ []
      → s.needs_labels ≡ []
      → lookup (replica_name a r) s.proxy.replica_to_label ≡ some label
      → (swap a r b n s ≡ fault (thrown (codes "stoi")))
        ⊎ Returns (swap a r b n s) λ m'.
          (given : ℕ) × (lookup (replica_name b n) m' ≡ some given) × (given < 10) × (given ≢ label)
  swap-label a r b n label s no_labels no_needs named =
      let (t, run, (labels, needs, _)) =
        prepare_for_swapping-Prepared P a r (r + 1) (λ j. label) s
          (λ j le lt.
            let same : r ≡ j = omega arith in
            subst (λ k. lookup (replica_name a k) s.proxy.replica_to_label ≡ some label) same
              named) in
      let (u, run', (labels', needs', _)) =
        prepare_for_swapping-Prepared P b (n + 1) n (λ j. label) t
          (λ j le lt. absurd (omega arith)) in
      let one : r + 1 - r ≡ 1 = omega arith in
      let none_less : r - (r + 1) ≡ 0 = omega arith in
      let one' : n + 1 - n ≡ 1 = omega arith in
      let none_less' : n - (n + 1) ≡ 0 = omega arith in
      let all_labels : u.unassigned_labels ≡ one_char label ∷ [] =
        labels'
        ∙ ap (λ k. t.unassigned_labels ++ texts (λ j. label) (n + 1) k) none_less'
        ∙ append-nil t.unassigned_labels
        ∙ labels
        ∙ ap (λ k. s.unassigned_labels ++ texts (λ j. label) r k) one
        ∙ ap (λ l. l ++ one_char label ∷ []) no_labels in
      let all_needs : u.needs_labels ≡ (b, n) ∷ [] =
        needs'
        ∙ ap (λ k. t.needs_labels ++ replicas b n k) one'
        ∙ ap (λ l. l ++ (b, n) ∷ [])
            (needs
              ∙ ap (λ k. s.needs_labels ++ replicas a (r + 1) k) none_less
              ∙ append-nil s.needs_labels
              ∙ no_needs) in
      rw (run, ◌>>=◌)
        (rw (run', ◌>>=◌) (rw (all_labels, all_needs) (swapped label n b u.proxy.replica_to_label)))
