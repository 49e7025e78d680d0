-- ===== src/Base/Dict.antt =====
-- `std::unordered_map` as an association list. The iteration order is the list's.
use pancake.Base.Tests.{
  ◌≡◌, refl, Option, none, some, List, [], ◌∷◌, arith, Eq, ◌==◌, if◌then◌else◌,
}

abbrev pub Dict : Type 0 → Type 0 → Type 0
Dict K V = List (K × V)

module _ {K V : Type 0} ⦃key : Eq K⦄ where
  -- `m.find(k)`
  unfoldable pub lookup : K → Dict K V → Option V
  lookup k [] = none
  lookup k ((j, v) ∷ m) = if j == k then some v else lookup k m

  -- `m[k] = v`
  unfoldable pub insert : K → V → Dict K V → Dict K V
  insert k v [] = (k, v) ∷ []
  insert k v ((j, w) ∷ m) = if j == k then (j, v) ∷ m else (j, w) ∷ insert k v m

  -- `m.erase(k)`; no key stands twice, and this removes every entry of `k`.
  unfoldable pub erase : K → Dict K V → Dict K V
  erase k [] = []
  erase k ((j, w) ∷ m) = if j == k then erase k m else (j, w) ∷ erase k m

  pub lookup-insert :
      (new sought : K) (a : V) (m : Dict K V)
      → lookup sought (insert new a m) ≡ (if new == sought then some a else lookup sought m)
  unfolding insert lookup
  lookup-insert new sought a [] = refl
  lookup-insert new sought a ((here, b) ∷ m) = ground (
    arith,
    lookup-insert new sought a m,
    key.same_iff here new,
    key.same_iff here sought,
    key.same_iff new sought,
  )

  pub lookup-erase :
      (k j : K) (m : Dict K V) → lookup j (erase k m) ≡ (if k == j then none else lookup j m)
  unfolding lookup erase
  lookup-erase k j [] = ground arith
  lookup-erase k j ((i, w) ∷ m) =
      ground (arith, key.same_iff k j, key.same_iff i k, key.same_iff i j, lookup-erase k j m)

-- `m[k]` as a value: a missing key reads as the value that C++ puts there.
abbrev pub or_default {ℓ} : {V : Type ℓ} → V → Option V → V
or_default d none = d
or_default d (some v) = v
