-- ===== src/Tests/Swapping.antt =====
-- Replicas that go and come on the proxy of World.antt.
use pancake.Base.Tests.{ℕ, ◌≤◌, ◌<◌, ◌≡◌, ◌≢◌, ◌⊎◌, refl, subst, some, [], ◌∷◌, arith}
use pancake.Base.Text.{text_eq, to_string, codes}
use pancake.Base.Run.{ok, fault, thrown, Returns}
use pancake.Base.Dict.{lookup, insert}
use pancake.Proxy.{replica_name}
use pancake.Proxy.Swapping.{Swap, perform_swapping, prepare_for_swapping}
use pancake.Proxy.Swapping.Assigned.{chars, perform_swapping-chars}
use pancake.Proxy.Swapping.Moved.{swap, swap-label}
use pancake.Proxy.Swapping.Released.{Prepared, prepare_for_swapping-Prepared}
use pancake.Tests.World.{platform, proxy_with, key_a, labels_a, counting}

abbrev swap_a : Swap platform
swap_a = record { proxy = proxy_with counting; unassigned_labels = []; needs_labels = [] }

-- the label of "a1"
abbrev one : ℕ → ℕ
one j = 1

a_one : lookup (replica_name key_a 1) labels_a ≡ some 1
unfolding lookup replica_name to_string
a_one = refl

named_one : (j : ℕ) → 1 ≤ j → j < 2 → lookup (replica_name key_a j) labels_a ≡ some 1
named_one j le lt =
    let same : 1 ≡ j = omega arith in
    subst (λ k. lookup (replica_name key_a k) labels_a ≡ some 1) same a_one

prepare_for_swapping-Prepared_example :
    Returns
      (prepare_for_swapping platform key_a 1 2 swap_a)
      λ t. Prepared platform key_a 1 2 one swap_a t
prepare_for_swapping-Prepared_example =
    prepare_for_swapping-Prepared platform key_a 1 2 one swap_a named_one

-- the labels 52, 311 and 9, of which two are needed: "4" and "7"
perform_swapping-chars_example :
    perform_swapping (chars (52 ∷ 311 ∷ 9 ∷ [])) ((key_a, 2) ∷ (key_a, 3) ∷ []) labels_a
    ≡ ok (insert (replica_name key_a 3) 7 (insert (replica_name key_a 2) 4 labels_a))
perform_swapping-chars_example =
    perform_swapping-chars (52 ∷ 311 ∷ 9 ∷ []) ((key_a, 2) ∷ (key_a, 3) ∷ []) labels_a (omega arith)

swap-label_example :
    (swap platform key_a 1 (codes "b") 0 swap_a ≡ fault (thrown (codes "stoi")))
    ⊎ Returns (swap platform key_a 1 (codes "b") 0 swap_a) λ m'.
      (given : ℕ) × (lookup (replica_name (codes "b") 0) m' ≡ some given)
      × (given < 10)
      × (given ≢ 1)
swap-label_example = swap-label platform key_a 1 (codes "b") 0 1 swap_a refl refl a_one
