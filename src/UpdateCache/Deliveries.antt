-- ===== src/UpdateCache/Deliveries.antt =====
-- A write and the checks that follow it: update_cache.cpp, `populate_replica_updates` and then
-- `check_for_update` for one replica after another.
use pancake.Base.Tests.{
  ℕ, zero, suc, ◌<◌, ◌≡◌, refl, ◌<◌, not, ltb, Bool, true, false, ◌&&◌, ◌||◌, Option, none, some,
  List, [], ◌∷◌, map, arith, nat_eqb, if◌then◌else◌,
}
use pancake.Base.Lists.{length, All}
use pancake.Base.Text.{Text, text_eqb, text_eqb_iff, text_eq}
use pancake.Base.Run.{Run, ok, ◌>>=◌, Returns}
use pancake.Cuckoo.{CuckooMap}
use pancake.UpdateCache.{Entry, UpdateCache, check_for_update, populate_replica_updates}
use pancake.UpdateCache.Bits.{bit}
use pancake.UpdateCache.Pending.{pending, Covers, owed, owed-populate, check_for_update-Returns}

abbrev pub elem : ℕ → List ℕ → Bool
elem i [] = false
elem i (j ∷ js) = nat_eqb j i || elem i js

-- No number stands twice.
abbrev pub Distinct : List ℕ → Type 0
Distinct [] = Unit {0}
Distinct (i ∷ is) = (elem i is ≡ false) × Distinct is

bit-length : (bs : List Bool) (i : ℕ) → bit bs i ≡ true → i < length bs
bit-length [] i h = cc
bit-length (b ∷ bs) zero h = omega arith
bit-length (b ∷ bs) (suc i) h = omega (arith, bit-length bs i h)

pending-Covers : (o : Option Entry) (i : ℕ) (v : Text) → pending o i ≡ some v → Covers o i
pending-Covers none i v h = tt
pending-Covers (some e) i v h = bit-length e.bits i (ground arith)

module _ (M : CuckooMap Text Entry) where
  open M use {find}

  -- the texts that the checks of `ids` send, in their order
  unfoldable pub check_all : Text → List ℕ → UpdateCache M → Run (UpdateCache M × List Text)
  check_all key [] cache = ok (cache, [])
  check_all key (i ∷ is) cache = do
    (next, sent) ← check_for_update M key i cache
    (last, rest) ← check_all key is next
    ok (last, sent ∷ rest)

  abbrev Owes : Text → Text → List ℕ → UpdateCache M → Type 0
  Owes key val ids cache = (i : ℕ) → elem i ids ≡ true → owed M cache key i ≡ some val

  check_all-Returns :
      (key val : Text) (ids : List ℕ) (cache : UpdateCache M)
      → Distinct ids
      → Owes key val ids cache
      → Returns (check_all key ids cache) λ (last, sent).
        (sent ≡ map (λ _. val) ids)
        × ((k : Text) (j : ℕ)
            → owed M last k j ≡ (if text_eqb key k && elem j ids then none else owed M cache k j))
  unfolding check_all
  check_all-Returns key val [] cache d o = ((cache, []), refl, (refl, λ k j. ground arith))
  check_all-Returns key val (i ∷ is) cache (new, d) o =
      let here = o i (ground arith) in
      let ((next, sent), run, (s, p, _)) =
        check_for_update-Returns M key i cache (pending-Covers (find key cache) i val here) in
      let ((last, rest), run', (s', p')) =
        check_all-Returns key val is next d
          (λ j m. ground (arith, p key j, o j, text_eqb_iff key key)) in
      (
        (last, sent ∷ rest),
        rw run (rw run'),
        (ground (arith), λ k j. ground (arith, p k j, p' k j)),
      )

  below_of_elem : (n i : ℕ) (ids : List ℕ) → All (λ j. j < n) ids → elem i ids ≡ true → i < n
  below_of_elem n i [] a m = cc
  below_of_elem n i (j ∷ js) a m = ground (arith, below_of_elem n i js a.1)

  -- After a write to `n` replicas, a check for each of some distinct replicas below `n`, in any
  -- order, sends the written value every time. Then exactly the replicas that were not checked
  -- are still owed it, and what is owed of other keys is as before.
  pub check_all-populate :
      (key val : Text) (n : ℕ) (ids : List ℕ) (cache : UpdateCache M)
      → Distinct ids
      → All (λ i. i < n) ids
      → Returns (check_all key ids (populate_replica_updates M key val n cache).0) λ (last, sent).
        (sent ≡ map (λ _. val) ids)
        × ((k : Text) (j : ℕ)
            → owed M last k j ≡ (
                if text_eqb key k
                then (if ltb j n && not (elem j ids) then some val else none)
                else owed M cache k j))
  check_all-populate key val n ids cache d a =
      let start = owed-populate M key val n cache in
      let ((last, sent), run, (s, p)) =
        check_all-Returns key val ids (populate_replica_updates M key val n cache).0 d
          (λ i m. ground (arith, start key i, text_eqb_iff key key, below_of_elem n i ids a)) in
      ((last, sent), run, (s, λ k j. ground (arith, p k j, start k j)))
