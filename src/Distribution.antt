-- ===== src/Distribution.antt =====
-- proxy/src/distribution.h and distribution.cpp. `std::discrete_distribution` draws an index with the
-- given weights: a number below the sum of the weights is taken down, weight by weight.
use pancake.Base.Tests.{ℕ, suc, ◌<◌, ◌≤◌, some, ◌≡◌, List, [], ◌∷◌, arith, if◌then◌else◌}
use pancake.Base.Lists.{length, get_elem?, get_elem?_total}
use pancake.Base.Text.{Text}
use pancake.Base.Run.{Run, ok, ◌>>=◌, at, at-get_elem?, Returns}
use pancake.Double.{Double}
use pancake.Util.{Rng, rand_uint32, rand_max}

module _ (d : Double) where
  open d use {F, of_int, add, sub, mul, div, less}

  pub record Distribution : Type 0 where
    pub items : List Text
    pub probabilities : List F
    -- the weights of `distribution_`
    pub weights : List F

  -- the default constructor
  abbrev pub no_distribution : Distribution
  no_distribution = record { items = []; probabilities = []; weights = [] }

  unfoldable pub distribution : List Text → List F → Distribution
  distribution items probabilities = record {
    items = items;
    probabilities = probabilities;
    weights = probabilities;
  }

  abbrev pub get_items : Distribution → List Text
  get_items dist = dist.items

  abbrev pub get_probabilities : Distribution → List F
  get_probabilities dist = dist.probabilities

  -- the index whose share of the line the number `u` falls into; the last one takes the rest, and
  -- no weights are the one weight 1
  pick : F → List F → ℕ
  pick u [] = 0
  pick u (w ∷ []) = 0
  pick u (w ∷ v ∷ ws) = let later = pick (sub u w) (v ∷ ws) in if less u w then 0 else suc later

  total : List F → F
  total [] = of_int 0
  total (w ∷ ws) = add w (total ws)

  -- `distribution_(random_)`
  index : List F → Rng → ℕ × Rng
  unfolding pick total
  index ws g =
      let (n, g') = rand_uint32 0 rand_max g in
      (pick (mul (div (of_int n) (add (of_int rand_max) (of_int 1))) (total ws)) ws, g')

  unfoldable pub sample : Distribution → Rng → Run (Text × Rng)
  unfolding index
  sample dist g = do let (i, g') = index dist.weights g; item ← at dist.items i; ok (item, g')

  pick-lt : (u : F) (w : F) (ws : List F) → pick u (w ∷ ws) < length (w ∷ ws)
  unfolding pick
  pick-lt u w [] = omega arith
  pick-lt u w (v ∷ ws) = ground (arith, pick-lt (sub u w) v ws)

  index-lt : (ws : List F) (n : ℕ) (g : Rng) → 0 < n → length ws ≤ n → (index ws g).0 < n
  unfolding index pick
  index-lt [] n g pos le = pos
  index-lt (w ∷ ws) n g pos le =
      let (k, g') = rand_uint32 0 rand_max g in
      omega (
        arith,
        pick-lt (mul (div (of_int k) (add (of_int rand_max) (of_int 1))) (total (w ∷ ws))) w ws,
      )

  -- A distribution with an item, and at most as many weights as items, samples one of its
  -- items.
  pub sample-item :
      (items : List Text) (probabilities : List F) (g : Rng)
      → 0 < length items
      → length probabilities ≤ length items
      → Returns
          (sample (distribution items probabilities) g)
          λ (item, _). (i : ℕ) × (get_elem? items i ≡ some item)
  unfolding sample distribution
  sample-item items probabilities g pos le =
      let (i, g') = index probabilities g in
      let (item, e) = get_elem?_total items i (index-lt probabilities (length items) g pos le) in
      ((item, g'), rw (at-get_elem? items i item e), (i, e))
