-- ===== src/Util.antt =====
-- proxy/src/util.h and util.cpp: random numbers, random texts, and a biased coin.
use pancake.Base.Tests.{
  ℕ, zero, suc, ◌+◌, ◌-◌, ◌%◌, ◌^◌, ◌≤◌, ◌<◌, ◌≡◌, refl, ap, Bool, [], ◌∷◌, arith,
}
use pancake.Base.Lists.{length, All}
use pancake.Base.Text.{Text}
use pancake.Double.{Double}

-- The generators `mt19937` and `rand()` as one stream of numbers that the environment chooses.
pub record Rng : Type 0 where
  pub stream : ℕ → ℕ
  pub drawn : ℕ

unfoldable pub draw : Rng → ℕ × Rng
draw g = (g.stream g.drawn, record g { drawn = g.drawn + 1 })

abbrev pub rand_max : ℕ
rand_max = 2 ^ 31 - 1

-- `rand()`
unfoldable pub rand : Rng → ℕ × Rng
unfolding draw
rand g = let (n, g') = draw g in (n % (rand_max + 1), g')

-- `std::uniform_int_distribution` yields a number from `lo` to `hi`.
unfoldable pub rand_uint32 : ℕ → ℕ → Rng → ℕ × Rng
unfolding draw
rand_uint32 lo hi g = let (n, g') = draw g in (lo + n % (hi - lo + 1), g')

-- `alphanum[k]`, and the remainder is below 10
rand_digit : Rng → ℕ × Rng
unfolding rand_uint32
rand_digit g = let (n, g') = rand_uint32 0 500 g in (48 + n % 10, g')

unfoldable pub rand_str : ℕ → Rng → Text × Rng
unfolding rand_digit
rand_str zero g = ([], g)
rand_str (suc len) g =
    let (c, g') = rand_digit g in let (rest, h) = rand_str len g' in (c ∷ rest, h)

module _ (d : Double) where
  open d use {F, of_int, add, div, less}

  unfoldable pub prob : F → Rng → Bool × Rng
  unfolding rand_uint32
  prob p g =
      let (n, g') = rand_uint32 0 rand_max g in
      (less (div (of_int n) (add (of_int rand_max) (of_int 1))) p, g')

pub rand_uint32_bounds :
    (lo hi : ℕ) (g : Rng)
    → lo ≤ hi
    → (lo ≤ (rand_uint32 lo hi g).0) × ((rand_uint32 lo hi g).0 ≤ hi)
unfolding rand_uint32
rand_uint32_bounds lo hi g h = ground arith

-- A random text has the length asked for, and consists of decimal digits.
pub rand_str_digits :
    (len : ℕ) (g : Rng)
    → (length (rand_str len g).0 ≡ len) × All (λ c. (48 ≤ c) × (c < 58)) (rand_str len g).0
unfolding rand_str
rand_str_digits zero g = (refl, tt)
rand_str_digits (suc len) g =
    let (n, digits) = rand_str_digits len (rand_digit g).1 in
    (ap suc n, ((omega arith, omega arith), digits))
