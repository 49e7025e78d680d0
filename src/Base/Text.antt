-- ===== src/Base/Text.antt =====
-- `std::string` as the list of its bytes, with `std::to_string`.
use Prim.Native.Char.{code}
use Prim.Native.String.{String}
use mathlib.Core.List.{foldl, foldl-append}
use pancake.Base.Tests.{
  ℕ, zero, suc, ◌+◌, ◌-◌, ◌*◌, ◌/◌, ◌%◌, ◌<◌, ◌≡◌, refl, sym, ap, ◌∙◌, ◌↔◌, Bool, true, false, ◌&&◌,
  List, [], ◌∷◌, ◌++◌, arith, Eq, ltb, nat_eqb,
}
use pancake.Base.Lists.{length}

abbrev pub Text : Type 0
Text = List ℕ

abbrev pub codes : String → Text
codes String.[] = []
codes (String.◌∷◌ c s) = code c ∷ codes s

abbrev pub text_eqb : Text → Text → Bool
text_eqb [] [] = true
text_eqb [] (y ∷ ys) = false
text_eqb (x ∷ xs) [] = false
text_eqb (x ∷ xs) (y ∷ ys) = nat_eqb x y && text_eqb xs ys

pub text_eqb_iff : (a b : Text) → (text_eqb a b ≡ true) ↔ (a ≡ b)
text_eqb_iff [] [] = ground arith
text_eqb_iff [] (y ∷ ys) = ground arith
text_eqb_iff (x ∷ xs) [] = ground arith
text_eqb_iff (x ∷ xs) (y ∷ ys) = ground (arith, text_eqb_iff xs ys)

instance abbrev pub text_eq : Eq Text
text_eq = record { same = text_eqb; same_iff = text_eqb_iff }

-- The decimal digits of `n`; `fuel` above `n` is enough.
decimal : ℕ → ℕ → Text
decimal zero n = []
decimal (suc fuel) n = elim (ltb n 10) [
  | true ↦ (48 + n) ∷ []
  | false ↦ decimal fuel (n / 10) ++ ((48 + n % 10) ∷ [])
]

unfoldable pub to_string : ℕ → Text
unfolding decimal
to_string n = decimal (suc n) n

digit_step : ℕ → ℕ → ℕ
digit_step acc c = acc * 10 + (c - 48)

from_decimal : Text → ℕ
unfolding digit_step
from_decimal s = foldl digit_step 0 s

from_decimal-decimal : (fuel n : ℕ) → n < fuel → from_decimal (decimal fuel n) ≡ n
unfolding from_decimal decimal digit_step
from_decimal-decimal zero n h = elim h [ ]
from_decimal-decimal (suc fuel) n h = ground (
  arith,
  foldl-append digit_step 0 (decimal fuel (n / 10)) ((48 + n % 10) ∷ []),
  from_decimal-decimal fuel (n / 10),
)

-- Decimals are read back.
from_decimal-to_string : (n : ℕ) → from_decimal (to_string n) ≡ n
unfolding to_string
from_decimal-to_string n = from_decimal-decimal (suc n) n (omega arith)

pub to_string_inj : (m n : ℕ) → to_string m ≡ to_string n → m ≡ n
to_string_inj m n e = sym (from_decimal-to_string m) ∙ ap from_decimal e ∙ from_decimal-to_string n

-- Texts with a common length split in one way.
pub append_inj : (a b s t : Text) → length a ≡ length b → a ++ s ≡ b ++ t → (a ≡ b) × (s ≡ t)
append_inj [] [] s t h e = (refl, e)
append_inj [] (y ∷ b) s t h e = absurd (omega arith)
append_inj (x ∷ a) [] s t h e = absurd (omega arith)
append_inj (x ∷ a) (y ∷ b) s t h e = ground (arith, append_inj a b s t)
