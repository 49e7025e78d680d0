-- ===== src/UpdateCache/Bits.antt =====
-- The bit vectors of update_cache.cpp: reads after the loops that write them.
use pancake.Base.Tests.{
  ◌-◌, ◌⊎◌, inl, inr, ℕ, zero, suc, ◌+◌, ◌%◌, ◌≤◌, ◌<◌, ◌≡◌, refl, Bool, true, false, List, [], ◌∷◌,
  arith, ltb, leb, nat_eqb, if◌then◌else◌, ◌&&◌,
}
use pancake.Base.Lists.{length, get_or, set, replicate, length-set}
use pancake.Base.Run.{ok, fault, out_of_range, at, Returns}
use pancake.UpdateCache.{
  hamming_weight, num_leading_zeros, overlay, mark_from, modulo, pick_replica,
}

-- A bit past the end reads as unset.
abbrev pub bit : List Bool → ℕ → Bool
bit bs i = get_or bs i false

pub at-bit : (bs : List Bool) (i : ℕ) → i < length bs → at bs i ≡ ok (bit bs i)
at-bit [] i h = elim h [ ]
at-bit (b ∷ bs) zero h = refl
at-bit (b ∷ bs) (suc i) h = at-bit bs i (omega arith)

pub bit-set :
    (bs : List Bool) (i j : ℕ) (b : Bool)
    → i < length bs
    → bit (set bs i b) j ≡ (if nat_eqb i j then b else bit bs j)
bit-set [] i j b h = elim h [ ]
bit-set (c ∷ bs) zero zero b h = refl
bit-set (c ∷ bs) zero (suc j) b h = ground arith
bit-set (c ∷ bs) (suc i) zero b h = ground arith
bit-set (c ∷ bs) (suc i) (suc j) b h = ground (arith, bit-set bs i j b)

pub bit-replicate : (n i : ℕ) (b : Bool) → bit (replicate n b) i ≡ (if ltb i n then b else false)
bit-replicate zero i b = ground arith
bit-replicate (suc n) zero b = ground arith
bit-replicate (suc n) (suc i) b = ground (arith, bit-replicate n i b)

-- With no bit counted, none is set.
pub hamming_weight_zero : (bs : List Bool) (i : ℕ) → hamming_weight bs ≡ 0 → bit bs i ≡ false
unfolding hamming_weight
hamming_weight_zero [] i h = refl
hamming_weight_zero (b ∷ bs) zero h = ground arith
hamming_weight_zero (b ∷ bs) (suc i) h = ground (arith, hamming_weight_zero bs i)

pub num_leading_zeros-le : (bs : List Bool) → num_leading_zeros bs ≤ length bs
unfolding num_leading_zeros
num_leading_zeros-le [] = omega arith
num_leading_zeros-le (b ∷ bs) = ground (arith, num_leading_zeros-le bs)

pub bit-below_zeros : (bs : List Bool) (i : ℕ) → i < num_leading_zeros bs → bit bs i ≡ false
unfolding num_leading_zeros
bit-below_zeros [] i h = refl
bit-below_zeros (true ∷ bs) i h = absurd (omega arith)
bit-below_zeros (false ∷ bs) zero h = refl
bit-below_zeros (false ∷ bs) (suc i) h = bit-below_zeros bs i (omega arith)

pub num_leading_zeros-replicate : (n : ℕ) → num_leading_zeros (replicate n false) ≡ n
unfolding num_leading_zeros
num_leading_zeros-replicate zero = refl
num_leading_zeros-replicate (suc n) = omega (arith, num_leading_zeros-replicate n)

pub bit-overlay :
    (old new : List Bool) (i : ℕ)
    → bit (overlay old new) i
      ≡ (if ltb i (length old) && ltb i (length new) then bit old i else bit new i)
unfolding overlay
bit-overlay [] new i = ground arith
bit-overlay (b ∷ bs) [] i = ground arith
bit-overlay (b ∷ bs) (c ∷ cs) zero = ground arith
bit-overlay (b ∷ bs) (c ∷ cs) (suc i) = ground (arith, bit-overlay bs cs i)

pub length-overlay : (old new : List Bool) → length (overlay old new) ≡ length new
unfolding overlay
length-overlay [] new = refl
length-overlay (b ∷ bs) [] = refl
length-overlay (b ∷ bs) (c ∷ cs) = omega (arith, length-overlay bs cs)

-- Inside the vector the loop ends, and sets the bits from `i` on.
pub mark_from-Returns :
    (rounds i : ℕ) (bs : List Bool)
    → i + rounds ≤ length bs
    → Returns (mark_from i rounds bs) λ cs.
      (length cs ≡ length bs)
      × ((j : ℕ) → bit cs j ≡ (if leb i j && ltb j (i + rounds) then true else bit bs j))
unfolding mark_from
mark_from-Returns zero i bs h = (bs, refl, (refl, λ j. ground arith))
mark_from-Returns (suc rounds) i bs h =
    let h' : i < length bs = omega arith in
    let (cs, run, (len, bits)) =
      mark_from-Returns rounds (i + 1) (set bs i true) (omega (arith, length-set bs i true)) in
    (
      cs,
      ground arith,
      (omega (arith, length-set bs i true), λ j. ground (arith, bits j, bit-set bs i j true)),
    )

-- Past the end of the vector the loop writes out of bounds.
pub mark_from_beyond :
    (rounds i : ℕ) (bs : List Bool)
    → i ≤ length bs
    → length bs < i + rounds
    → mark_from i rounds bs ≡ fault out_of_range
unfolding mark_from
mark_from_beyond zero i bs h k = absurd (omega arith)
mark_from_beyond (suc rounds) i bs h k =
    ground (arith, mark_from_beyond rounds (i + 1) (set bs i true), length-set bs i true)

pub modulo-lt : (x n : ℕ) → 0 < n → Returns (modulo x n) λ r. r < n
unfolding modulo
modulo-lt x n h = (x % n, ground arith, omega arith)

pub pick_replica-lt :
    (initialised : Bool) (z n x : ℕ)
    → 0 < z
    → z ≤ n
    → (initialised ≡ true) ⊎ (z < n)
    → Returns (pick_replica initialised z n x) λ r. (r < n) × (initialised ≡ true → r < z)
unfolding pick_replica
pick_replica-lt true z n x pos le c = (x % z, ground arith, (omega arith, λ _. omega arith))
pick_replica-lt false z n x pos le (inl e) = cc
pick_replica-lt false z n x pos le (inr h) = (z + x % (n - z), ground arith, (omega arith, λ e. cc))
