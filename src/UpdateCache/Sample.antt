-- ===== src/UpdateCache/Sample.antt =====
-- Which replica an access reads (update_cache.cpp, `sample_a_replica`).
use pancake.Base.Tests.{ℕ, ◌≤◌, ◌<◌, ◌≡◌, refl, Bool, true, ◌||◌, Option, none, some, arith, ◌⊎◌}
use pancake.Base.Text.{Text, text_eq}
use pancake.Base.Run.{Returns}
use pancake.Cuckoo.{CuckooMap}
use pancake.Double.{Double}
use pancake.Util.{Rng, rand, prob}
use pancake.UpdateCache.{Entry, num_leading_zeros, UpdateCache, p_initialized, sample_a_replica}
use pancake.UpdateCache.Bits.{modulo-lt, pick_replica-lt}

-- The number of replicas that a real access may read.
abbrev pub initialized : Option Entry → ℕ → ℕ
initialized none n = n
initialized (some e) n = num_leading_zeros e.bits

module _ (M : CuckooMap Text Entry) (d : Double) where
  open M use {find}
  open d use {F}

  -- If the key has an initialised replica, no more of them than replicas, and also one that is
  -- not initialised unless the access is real or no replica is missing, then a sample ends
  -- normally in a replica of the key, which is an initialised one if the access is real.
  pub sample_a_replica-lt :
      (key : Text) (n : ℕ) (real : Bool) (frequency : ℕ) (p_max : F) (cache : UpdateCache M)
      (g : Rng)
      → let z = initialized (find key cache) n in
        0 < z
        → z ≤ n
        → (real ≡ true) ⊎ ((find key cache ≡ none) ⊎ (z < n))
        → Returns
            (sample_a_replica M d key n real frequency p_max cache g)
            λ (r, _). (r < n) × (real ≡ true → r < z)
  unfolding sample_a_replica
  sample_a_replica-lt key n real frequency p_max cache g = go (find key cache) refl
    where
      go :
          (o : Option Entry)
          → find key cache ≡ o
          → 0 < initialized o n
          → initialized o n ≤ n
          → (real ≡ true) ⊎ ((o ≡ none) ⊎ (initialized o n < n))
          → Returns
              (sample_a_replica M d key n real frequency p_max cache g)
              λ (r, _). (r < n) × (real ≡ true → r < initialized (find key cache) n)
      go none f pos le c =
          let (x, g') = rand g in
          let (r, run, lt) = modulo-lt x n pos in
          ((r, g'), rw (f, sample_a_replica) (rw run), (lt, λ _. rw f lt))
      go (some e) f pos le c =
          let z = num_leading_zeros e.bits in
          let (exists, g') = prob d (p_initialized d z n frequency p_max) g in
          let (x, h) = rand g' in
          let (r, run, (lt, below)) =
            pick_replica-lt (exists || real) z n x pos le (ground arith) in
          (
            (r, h),
            rw (f, sample_a_replica) (ground (arith, run)),
            (lt, λ q. rw f (below (ground arith))),
          )
