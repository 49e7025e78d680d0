-- ===== src/Double.antt =====
-- `double`: the operations that the proxy computes probabilities with. Nothing is assumed of the
-- results; a theorem that needs more of them says so in a hypothesis.
use pancake.Base.Tests.{ℕ, Bool, ◌+◌, ◌-◌, ◌*◌, ◌/◌, ltb}

pub record Double : Type 1 where
  pub F : Type 0
  pub of_int : ℕ → F
  pub add : F → F → F
  pub sub : F → F → F
  pub mul : F → F → F
  pub div : F → F → F
  pub less : F → F → Bool
  -- `(int)ceil(x)` and `(int)x`, for the values of a probability
  pub ceil : F → ℕ
  pub trunc : F → ℕ

-- Decimals with three places, for the concrete runs.
abbrev pub thousandths : Double
thousandths = record {
  F = ℕ;
  of_int = λ n. n * 1000;
  add = λ a b. a + b;
  sub = λ a b. a - b;
  mul = λ a b. a * b / 1000;
  div = λ a b. a * 1000 / b;
  less = ltb;
  ceil = λ a. (a + 999) / 1000;
  trunc = λ a. a / 1000;
}
