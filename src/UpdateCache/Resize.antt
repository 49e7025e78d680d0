-- ===== src/UpdateCache/Resize.antt =====
-- How the cache of a key follows its number of replicas (update_cache.cpp, `edit_bit_vector_size`)
-- and how the map of missing replicas hands them over (`mirror_update_cache`, `check_if_missing`).
use pancake.Base.Tests.{
  ℕ, ◌-◌, ◌≤◌, ◌≡◌, refl, true, false, ◌&&◌, Option, none, some, [], arith, ltb, leb, if◌then◌else◌,
}
use pancake.Base.Lists.{length, replicate, length-replicate}
use pancake.Base.Text.{Text, text_eqb, text_eq}
use pancake.Base.Run.{Returns}
use pancake.Cuckoo.{CuckooMap}
use pancake.UpdateCache.{
  Entry, entry, num_leading_zeros, overlay, UpdateCache, edit_bit_vector_size, mirror_update_cache,
  check_if_missing,
}
use pancake.UpdateCache.Bits.{bit-replicate, bit-overlay, mark_from-Returns, num_leading_zeros-le}
use pancake.UpdateCache.Pending.{pending, owed}

-- What is owed to replica `j` once the vector has `size` bits: an old replica keeps its state, a
-- new one is owed the cached value, and with no entry nobody is owed anything.
abbrev pub resized : Option Entry → ℕ → ℕ → Option Text
resized none size j = none
resized (some e) size j =
    if ltb j size
    then (if ltb j (length e.bits) then pending (some e) j else some e.value)
    else none

-- What is owed after a hand-over of the missing replicas of `m`, whose data is `value`.
abbrev pub handed_over : Option Entry → Text → Entry → ℕ → Option Text
handed_over none value m j = pending (some (entry value m.bits)) j
handed_over (some e) value m j =
    if leb (num_leading_zeros m.bits) j && ltb j (length m.bits)
    then some e.value
    else pending (some e) j

-- The entry, if there is one, has a bit for each of `n` replicas.
abbrev pub HasRoom : Option Entry → ℕ → Type 0
HasRoom none n = Unit {0}
HasRoom (some e) n = n ≤ length e.bits

module _ (M : CuckooMap Text Entry) where
  open M use {
    find, contains-find, erase_fn, uprase_fn, find-update_fn, find-insert_or_assign, find-uprase_fn,
    find-erase_fn,
  }

  -- After a resize to `size` bits, an old replica below `size` is owed what it was, a new one
  -- is owed the cached value, and nobody is owed anything if the key had no entry; other keys
  -- are not concerned.
  pub owed-edit :
      (key : Text) (size : ℕ) (cache : UpdateCache M) (k : Text) (j : ℕ)
      → owed M (edit_bit_vector_size M key size cache) k j
        ≡ (if text_eqb key k then resized (find key cache) size j else owed M cache k j)
  unfolding edit_bit_vector_size
  owed-edit key size cache k j = go (find key cache) refl
    where
      go :
          (o : Option Entry)
          → find key cache ≡ o
          → owed M (edit_bit_vector_size M key size cache) k j
            ≡ (if text_eqb key k then resized (find key cache) size j else owed M cache k j)
      go none f = ground (
        arith,
        contains-find key cache,
        find-insert_or_assign key k (entry [] (replicate size false)) cache,
        bit-replicate size j false,
      )
      go (some e) f = ground (
        arith,
        contains-find key cache,
        find-update_fn key k
            (λ (w : Entry). record w { bits = overlay w.bits (replicate size true) }) cache,
        bit-replicate size j true,
        length-replicate size true,
        bit-overlay e.bits (replicate size true) j,
      )

  pub mirror-Returns :
      (key value : Text) (m : Entry) (cache : UpdateCache M)
      → HasRoom (find key cache) (length m.bits)
      → Returns (mirror_update_cache M key value m.bits cache) λ (cache', drop).
        (drop ≡ true)
        × ((k : Text) (j : ℕ)
            → owed M cache' k j ≡ (
                if text_eqb key k
                then handed_over (find key cache) value m j
                else owed M cache k j))
  unfolding mirror_update_cache
  mirror-Returns key value m cache = go (find key cache) refl
    where
      go :
          (o : Option Entry)
          → find key cache ≡ o
          → HasRoom o (length m.bits)
          → Returns (mirror_update_cache M key value m.bits cache) λ (cache', drop).
            (drop ≡ true)
            × ((k : Text) (j : ℕ)
                → owed M cache' k j ≡ (
                    if text_eqb key k
                    then handed_over (find key cache) value m j
                    else owed M cache k j))
      go none f r = (
        ((uprase_fn key (λ e. (e, false)) (entry value m.bits) cache).0, true),
        rw (f, mirror_update_cache),
        (
          refl,
          λ k j. ground (arith, find-uprase_fn key k (λ e. (e, false)) (entry value m.bits) cache),
        ),
      )
      go (some e) f r =
          let i = num_leading_zeros m.bits in
          let (bs, run, (len, bits)) =
            mark_from-Returns (length m.bits - i) i e.bits
              (omega (arith, num_leading_zeros-le m.bits)) in
          (
            (
              (uprase_fn key (λ _. (record e { bits = bs }, false)) (entry value m.bits) cache).0,
              true,
            ),
            rw (f, mirror_update_cache) (rw run),
            (
              refl,
              λ k j. ground (
                arith,
                find-uprase_fn key k (λ _. (record e { bits = bs }, false)) (entry value m.bits)
                    cache,
                bits j,
                num_leading_zeros-le m.bits,
              ),
            ),
          )

  -- If new replicas of the key are missing, and the bit vector of the key in the cache, if any,
  -- is at least as long as theirs, the hand-over ends normally. The key leaves the map of
  -- missing replicas. With no entry in the cache the recorded bits become owed with the given
  -- value; otherwise all replicas from the first recorded bit on are owed the value of the
  -- cache.
  pub check_if_missing-Returns :
      (key value : Text) (m : Entry) (missing cache : UpdateCache M)
      → find key missing ≡ some m
      → HasRoom (find key cache) (length m.bits)
      → Returns (check_if_missing M key value missing cache) λ (missing', cache').
        ((k : Text) → find k missing' ≡ (if text_eqb key k then none else find k missing))
        × ((k : Text) (j : ℕ)
            → owed M cache' k j ≡ (
                if text_eqb key k
                then handed_over (find key cache) value m j
                else owed M cache k j))
  unfolding check_if_missing
  check_if_missing-Returns key value m missing cache f r =
      let ((cache', drop), run, (d, p)) = mirror-Returns key value m cache r in
      (
        ((erase_fn key (λ w. (w, drop)) missing).0, cache'),
        rw (f, check_if_missing) (rw run),
        (λ k. ground (arith, find-erase_fn key k (λ (w : Entry). (w, drop)) missing), p),
      )
