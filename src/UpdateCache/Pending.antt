-- ===== src/UpdateCache/Pending.antt =====
-- What the cache still owes to a replica, and how `populate_replica_updates`, `check_for_update` and
-- `check_if_missing` change it.
use pancake.Base.Tests.{
  Bool-cases, inl, inr, sym, ◌∙◌, ℕ, ◌<◌, ◌≡◌, refl, Bool, true, false, ◌&&◌, Option, none, some,
  List, [], arith, ltb, nat_eqb, if◌then◌else◌,
}
use pancake.Base.Lists.{length, set, replicate, length-set}
use pancake.Base.Text.{Text, text_eqb, text_eqb_iff, text_eq}
use pancake.Base.Run.{Returns}
use pancake.Base.Dict.{or_default}
use pancake.Cuckoo.{CuckooMap}
use pancake.UpdateCache.{
  Entry, entry, deliver, hamming_weight, UpdateCache, check_for_update, populate_replica_updates,
}
use pancake.UpdateCache.Bits.{bit, at-bit, bit-set, bit-replicate, hamming_weight_zero}

-- The value that replica `i` has yet to receive.
abbrev pub pending : Option Entry → ℕ → Option Text
pending none i = none
pending (some e) i = if bit e.bits i then some e.value else none

-- The bit vector covers replica `i`.
abbrev pub Covers : Option Entry → ℕ → Type 0
Covers none i = Unit {0}
Covers (some e) i = i < length e.bits

-- The entry, if there is one, has exactly one bit for each of `n` replicas.
abbrev pub HasSize : Option Entry → ℕ → Type 0
HasSize none n = Unit {0}
HasSize (some e) n = length e.bits ≡ n

HasSize-kept :
    (drop : Bool) (e : Entry) (n : ℕ)
    → length e.bits ≡ n
    → HasSize (if drop then none else some e) n
HasSize-kept true e n h = tt
HasSize-kept false e n h = h

-- One delivery: the owed value is sent, its bit is cleared, the other bits stay, and an entry
-- without a set bit goes.
pub deliver-Returns :
    (id : ℕ) (e : Entry)
    → id < length e.bits
    → Returns (deliver id e) λ (e', sent, drop).
      (sent ≡ or_default [] (pending (some e) id))
      × (length e'.bits ≡ length e.bits)
      × ((j : ℕ)
          → pending (if drop then none else some e') j
            ≡ (if nat_eqb id j then none else pending (some e) j))
unfolding deliver
deliver-Returns id e h =
    let b = bit e.bits id in
    let left : List Bool = if b then set e.bits id false else e.bits in
    (
      (record e { bits = left }, if b then e.value else [], nat_eqb (hamming_weight left) 0),
      rw (at-bit e.bits id h),
      (
        ground arith,
        ground (arith, length-set e.bits id false),
        λ j. ground (arith, hamming_weight_zero left j, bit-set e.bits id j false),
      ),
    )

module _ (M : CuckooMap Text Entry) where
  open M use {find, erase_fn, find-erase_fn, find-insert_or_assign, find-uprase_fn}

  abbrev pub owed : UpdateCache M → Text → ℕ → Option Text
  owed cache k = pending (find k cache)

  -- a write is owed to every replica of its key, in place of any earlier write
  pub owed-populate :
      (key val : Text) (n : ℕ) (cache : UpdateCache M) (k : Text) (j : ℕ)
      → owed (populate_replica_updates M key val n cache).0 k j
        ≡ (if text_eqb key k then (if ltb j n then some val else none) else owed cache k j)
  unfolding populate_replica_updates
  owed-populate key val n cache k j = ground (
    arith,
    find-insert_or_assign key k (entry val (replicate n true)) cache,
    bit-replicate n j true,
  )

  -- If the bit vector of the key covers the replica, or there is none, a check ends normally.
  -- It sends what is owed to the replica, or the empty text; the replica is then owed nothing,
  -- all else that is owed stays, and so do the sizes of the bit vectors.
  pub check_for_update-Returns :
      (key : Text) (id : ℕ) (cache : UpdateCache M)
      → Covers (find key cache) id
      → Returns (check_for_update M key id cache) λ (cache', sent).
        (sent ≡ or_default [] (owed cache key id))
        × ((k : Text) (j : ℕ)
            → owed cache' k j ≡ (if text_eqb key k && nat_eqb id j then none else owed cache k j))
        × ((k : Text) (n : ℕ) → HasSize (find k cache) n → HasSize (find k cache') n)
  unfolding check_for_update
  check_for_update-Returns key id cache = go (find key cache) refl
    where
      go :
          (o : Option Entry)
          → find key cache ≡ o
          → Covers o id
          → Returns (check_for_update M key id cache) λ (cache', sent).
            (sent ≡ or_default [] (owed cache key id))
            × ((k : Text) (j : ℕ)
                → owed cache' k j
                  ≡ (if text_eqb key k && nat_eqb id j then none else owed cache k j))
            × ((k : Text) (n : ℕ) → HasSize (find k cache) n → HasSize (find k cache') n)
      go none f c = (
        ((erase_fn key (λ e. (e, false)) cache).0, []),
        rw (f, check_for_update),
        (
          rw f,
          λ k j. ground (arith, find-erase_fn key k (λ e. (e, false)) cache, text_eqb_iff key k),
          λ k n h. elim (Bool-cases (text_eqb key k)) [
            | inl q ↦ rw (find-erase_fn key k (λ e. (e, false)) cache, q, f) tt
            | inr q ↦ rw (find-erase_fn key k (λ e. (e, false)) cache, q) h
          ],
        ),
      )
      go (some e) f c =
          let ((e', sent, drop), run, (s, len, p)) = deliver-Returns id e c in
          (
            ((erase_fn key (λ _. (e', drop)) cache).0, sent),
            rw (f, check_for_update) (rw run),
            (
              rw f s,
              λ k j.
                  ground
                    (arith, find-erase_fn key k (λ _. (e', drop)) cache, text_eqb_iff key k, p j),
              λ k n h. elim (Bool-cases (text_eqb key k)) [
                | inl q ↦
                    let same : k ≡ key = sym ((text_eqb_iff key k).0 q) in
                    rw (find-erase_fn key k (λ _. (e', drop)) cache, q, f)
                      (HasSize-kept drop e' n (len ∙ (rw (same, f) at h)))
                | inr q ↦ rw (find-erase_fn key k (λ _. (e', drop)) cache, q) h
              ],
            ),
          )
