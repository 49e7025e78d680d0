-- ===== src/Proxy/Swapping/Assigned.antt =====
-- `perform_swapping` (pancake_proxy.cpp): which labels the new replicas get.
use pancake.Base.Tests.{
  ℕ, ◌-◌, ◌%◌, ◌≤◌, ◌≡◌, refl, Bool, true, ◌&&◌, List, [], ◌∷◌, arith, leb, if◌then◌else◌,
  Bool-cases, inl, inr,
}
use pancake.Base.Lists.{length}
use pancake.Base.Text.{Text, text_eq, codes}
use pancake.Base.Run.{ok, fault, thrown}
use pancake.Base.Dict.{Dict, insert}
use pancake.Proxy.{replica_name}
use pancake.Proxy.Swapping.{one_char, digits_from, skip_blanks, stoi, perform_swapping}

-- the texts of labels
abbrev pub chars : List ℕ → List Text
chars [] = []
chars (label ∷ labels) = one_char label ∷ chars labels

-- The low byte of each label that is needed is the code of a decimal digit.
abbrev pub all_digits : List ℕ → List (Text × ℕ) → Bool
all_digits labels [] = true
all_digits [] (need ∷ needs) = true
all_digits (label ∷ labels) (need ∷ needs) =
    (leb 48 (label % 256) && leb (label % 256) 57) && all_digits labels needs

-- The new replicas get these digits.
abbrev pub with_digits : List ℕ → List (Text × ℕ) → Dict Text ℕ → Dict Text ℕ
with_digits labels [] m = m
with_digits [] (need ∷ needs) m = m
with_digits (label ∷ labels) ((key, i) ∷ needs) m =
    with_digits labels needs (insert (replica_name key i) (label % 256 - 48) m)

stoi-one_char :
    (label : ℕ)
    → stoi (one_char label) ≡ (
        if leb 48 (label % 256) && leb (label % 256) 57
        then ok (label % 256 - 48)
        else fault (thrown (codes "stoi")))
unfolding stoi skip_blanks digits_from
stoi-one_char label = ground arith

-- On the texts that `prepare_for_swapping` makes of labels, of which there are enough,
-- `perform_swapping` throws if for one of those it needs the low byte is not the code of a
-- decimal digit. Otherwise the new replicas get these digits as their labels, in their order.
pub perform_swapping-chars :
    (labels : List ℕ) (needs : List (Text × ℕ)) (m : Dict Text ℕ)
    → length needs ≤ length labels
    → perform_swapping (chars labels) needs m ≡ (
        if all_digits labels needs
        then ok (with_digits labels needs m)
        else fault (thrown (codes "stoi")))
unfolding perform_swapping
perform_swapping-chars [] [] m h = refl
perform_swapping-chars (label ∷ labels) [] m h = refl
perform_swapping-chars [] (need ∷ needs) m h = absurd (omega arith)
perform_swapping-chars (label ∷ labels) ((key, i) ∷ needs) m h =
    let first = stoi-one_char label in
    let rest =
      perform_swapping-chars labels needs (insert (replica_name key i) (label % 256 - 48) m)
        (omega arith) in
    elim (Bool-cases (leb 48 (label % 256) && leb (label % 256) 57)) [
      | inl digit ↦ rw (first, digit) rest
      | inr other ↦ rw (first, other) refl
    ]
