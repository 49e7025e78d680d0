-- ===== src/UpdateCache.antt =====
-- proxy/src/update_cache.h and update_cache.cpp. The cache keeps, for a key with an unpropagated
-- write, the value and one bit for each replica that still has to receive it.
pub mod Bits
pub mod Pending
pub mod Deliveries
pub mod Resize
pub mod Sample
use pancake.Base.Tests.{
  ℕ, zero, suc, ◌+◌, ◌-◌, ◌*◌, ◌/◌, ◌%◌, Bool, true, false, ◌||◌, none, some, List, [], ◌∷◌, ltb,
  leb, nat_eqb, if◌then◌else◌,
}
use pancake.Base.Lists.{length, replicate, set}
use pancake.Base.Text.{Text, text_eq}
use pancake.Base.Run.{
  Run, ok, fault, out_of_range, assertion, division_by_zero, ◌>>=◌, ◌>>◌, guard, at,
}
use pancake.Base.Dict.{Dict}
use pancake.Cuckoo.{CuckooMap}
use pancake.Double.{Double}
use pancake.Util.{Rng, rand, prob}

-- `std::pair<std::string, std::vector<bool>>`
pub record Entry : Type 0 where
  pub value : Text
  pub bits : List Bool

abbrev pub entry : Text → List Bool → Entry
entry v bs = record { value = v; bits = bs }

unfoldable pub hamming_weight : List Bool → ℕ
hamming_weight [] = 0
hamming_weight (b ∷ bs) = (if b then 1 else 0) + hamming_weight bs

unfoldable pub num_leading_zeros : List Bool → ℕ
num_leading_zeros [] = 0
num_leading_zeros (b ∷ bs) = if b then 0 else suc (num_leading_zeros bs)

-- The body of `check_for_update`'s functor: the new entry, what to send, whether to erase.
unfoldable pub deliver : ℕ → Entry → Run (Entry × Text × Bool)
deliver id e = do
  b ← at e.bits id
  let bits = if b then set e.bits id false else e.bits
  let to_send = if b then e.value else []
  ok (record e { bits = bits }, to_send, nat_eqb (hamming_weight bits) 0)

-- `for (i = 0; i < old.size() && i < new.size(); i++) new[i] = old[i]`
unfoldable pub overlay : List Bool → List Bool → List Bool
overlay [] new = new
overlay (b ∷ bs) [] = []
overlay (b ∷ bs) (c ∷ cs) = b ∷ overlay bs cs

-- `for (; i < i + rounds; i++) bits[i] = true`, with a fault past the end of `bits`.
unfoldable pub mark_from : ℕ → ℕ → List Bool → Run (List Bool)
mark_from i zero bits = ok bits
mark_from i (suc rounds) bits =
    guard (ltb i (length bits)) out_of_range >> mark_from (i + 1) rounds (set bits i true)

-- `x % n` on `int`s
unfoldable pub modulo : ℕ → ℕ → Run ℕ
modulo x n = if nat_eqb n 0 then fault division_by_zero else ok (x % n)

-- An initialised replica for a real access or one that shall exist, else an uninitialised one.
unfoldable pub pick_replica : Bool → ℕ → ℕ → ℕ → Run ℕ
unfolding modulo
pick_replica initialised r_initialized num_replicas x =
    if initialised
    then modulo x r_initialized
    else (modulo x (num_replicas - r_initialized) >>= λ n. ok (r_initialized + n))

module _ (d : Double) where
  open d use {F, of_int, sub, mul, div}

  -- The probability that the replica read by a fake access is an initialised one
  unfoldable pub p_initialized : ℕ → ℕ → ℕ → F → F
  p_initialized r_initialized num_replicas frequency p_max =
      div (sub (mul (of_int r_initialized) p_max) (of_int frequency))
        (sub (mul (of_int num_replicas) p_max) (of_int frequency))

module _ (M : CuckooMap Text Entry) where
  open M use {
    Table, empty, find, contains, insert_or_assign, erase_fn, update_fn, uprase_fn, entries,
  }

  abbrev pub UpdateCache : Type 0
  UpdateCache = Table

  load_pairs : List (Text × ℕ) → UpdateCache → UpdateCache
  load_pairs [] cache = cache
  load_pairs ((key, n) ∷ rest) cache =
      load_pairs rest (insert_or_assign key (entry [] (replicate n false)) cache).0

  -- the constructor
  unfoldable pub update_cache : List (Text × ℕ) → UpdateCache
  unfolding load_pairs
  update_cache keys_replicas_pairs = load_pairs keys_replicas_pairs empty

  unfoldable pub check_for_update : Text → ℕ → UpdateCache → Run (UpdateCache × Text)
  unfolding deliver
  check_for_update key replica_id cache = elim (find key cache) [
    | none ↦ ok ((erase_fn key (λ e. (e, false)) cache).0, [])
    | some e ↦ do
      (e', to_send, drop) ← deliver replica_id e
      ok ((erase_fn key (λ _. (e', drop)) cache).0, to_send)
  ]

  unfoldable pub edit_bit_vector_size : Text → ℕ → UpdateCache → UpdateCache
  unfolding overlay
  edit_bit_vector_size key size cache =
      if contains key cache
      then (update_fn key (λ e. record e { bits = overlay e.bits (replicate size true) }) cache).0
      else (insert_or_assign key (entry [] (replicate size false)) cache).0

  unfoldable pub populate_replica_updates : Text → Text → ℕ → UpdateCache → UpdateCache × Bool
  populate_replica_updates key val num_replicas cache =
      insert_or_assign key (entry val (replicate num_replicas true)) cache

  -- eight times the sum of the source, whose summands are eighths
  eighths : Dict Text Entry → ℕ
  eighths [] = 0
  eighths ((_, e) ∷ rest) = 8 * length e.value + length e.bits + eighths rest

  unfoldable pub size_in_bytes : UpdateCache → ℕ
  unfolding eighths
  size_in_bytes cache = eighths (entries cache) / 8

  unfoldable pub mirror_update_cache :
      Text → Text → List Bool → UpdateCache → Run (UpdateCache × Bool)
  unfolding mark_from num_leading_zeros
  mirror_update_cache key value bit_vec cache = elim (find key cache) [
    | none ↦ ok ((uprase_fn key (λ e. (e, false)) (entry value bit_vec) cache).0, true)
    | some e ↦ do
      let i = num_leading_zeros bit_vec
      bits ← mark_from i (length bit_vec - i) e.bits
      ok (
        (uprase_fn key (λ _. (record e { bits = bits }, false)) (entry value bit_vec) cache).0,
        true,
      )
  ]

  -- on the map of missing replicas, with the cache that takes them over
  unfoldable pub check_if_missing :
      Text → Text → UpdateCache → UpdateCache → Run (UpdateCache × UpdateCache)
  unfolding mirror_update_cache
  check_if_missing key value missing cache = elim (find key missing) [
    | none ↦ ok ((erase_fn key (λ e. (e, true)) missing).0, cache)
    | some e ↦ do
      (cache', drop) ← mirror_update_cache key value e.bits cache
      ok ((erase_fn key (λ w. (w, drop)) missing).0, cache')
  ]

  module _ (d : Double) where
    open d use {F}

    unfoldable pub sample_a_replica : Text → ℕ → Bool → ℕ → F → UpdateCache → Rng → Run (ℕ × Rng)
    unfolding p_initialized modulo pick_replica num_leading_zeros
    sample_a_replica key num_replicas access_is_real frequency p_max cache g =
        elim (find key cache) [
          | none ↦ do let (x, g') = rand g; r ← modulo x num_replicas; ok (r, g')
          | some e ↦ do
            let r_initialized = num_leading_zeros e.bits
            guard (leb r_initialized num_replicas) assertion
            let (rep_exists, g') =
                prob d (p_initialized d r_initialized num_replicas frequency p_max) g
            let (x, h) = rand g'
            r ← pick_replica (rep_exists || access_is_real) r_initialized num_replicas x
            ok (r, h)
        ]
