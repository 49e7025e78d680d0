-- ===== src/Base/Run.antt =====
-- What a call can end in: a value, an exception, an abort, or behaviour that C++ leaves undefined.
use pancake.Base.Tests.{
  ℕ, zero, suc, ◌≡◌, refl, sym, subst, ◌⊎◌, inl, inr, some, Bool, true, false, List, [], ◌∷◌,
}
use pancake.Base.Lists.{get_elem?}
use pancake.Base.Text.{Text}

pub data Fault : Type 0 where
  -- an index outside a vector or an array
  out_of_range : Fault
  -- a failed `assert`
  assertion : Fault
  -- `% 0`
  division_by_zero : Fault
  -- `abort()` or `exit()`
  aborted : Fault
  -- a `pop` of an empty queue, which waits for another thread
  waiting : Fault
  -- the end of a function that returns a value, without a `return`
  no_return : Fault
  -- the fuel of a model's loop ran out: no code does this
  exhausted : Fault
  -- `throw std::logic_error(..)` and `throw std::runtime_error(..)`
  thrown : Text → Fault

pub data Run {ℓ} (A : Type ℓ) : Type ℓ where
  fault : Fault → Run A
  ok : A → Run A

infixl 5 ◌>>=◌ ◌>>◌
abbrev pub ◌>>=◌ {κ ℓ} : {B : Type κ} {A : Type ℓ} → Run A → (A → Run B) → Run B
fault e >>= rest = fault e
ok a >>= rest = rest a

abbrev pub ◌>>◌ {ℓ} : {B : Type ℓ} → Run (Unit {0}) → Run B → Run B
m >> k = m >>= λ _. k

abbrev pub guard : Bool → Fault → Run (Unit {0})
guard true e = ok tt
guard false e = fault e

-- `v[i]` on a vector.
abbrev pub at {ℓ} : {A : Type ℓ} → List A → ℕ → Run A
at (x ∷ xs) zero = ok x
at (x ∷ xs) (suc i) = at xs i
at [] i = fault out_of_range

-- The run ends normally, in a value that satisfies `P`.
abbrev pub Returns {κ ℓ} : {A : Type κ} → Run A → (A → Type ℓ) → Type (κ ⊔ ℓ)
Returns {A} m Post = (out : A) × (m ≡ ok out) × Post out

pub Run-cases {ℓ} :
    {A : Type ℓ} (m : Run A) → ((e : Fault) × (m ≡ fault e)) ⊎ ((a : A) × (m ≡ ok a))
Run-cases (fault e) = inl (e, refl)
Run-cases (ok a) = inr (a, refl)

pub ok_inj {ℓ} : {A : Type ℓ} (a b : A) → ok a ≡ ok b → a ≡ b
ok_inj a b e = cc

pub >>=-Returns {ℓ κ μ} :
    {A B : Type ℓ} (m : Run A) (f : A → Run B) (P : A → Type κ) (Q : B → Type μ)
    → Returns m P
    → ((a : A) → P a → Returns (f a) Q)
    → Returns (m >>= f) Q
>>=-Returns (ok a) f P Q (b, e, p) h = h a (subst P (sym (ok_inj a b e)) p)
>>=-Returns (fault x) f P Q (b, e, p) h = cc

-- A run that ended normally, taken apart.
pub >>=-eq-ok {ℓ κ} :
    {A : Type ℓ} {B : Type κ} (m : Run A) (f : A → Run B) (b : B)
    → (m >>= f) ≡ ok b
    → (a : A) × (m ≡ ok a) × (f a ≡ ok b)
>>=-eq-ok (ok a) f b e = (a, refl, e)
>>=-eq-ok (fault x) f b e = cc

pub at-get_elem? {ℓ} :
    {A : Type ℓ} (xs : List A) (i : ℕ) (a : A) → get_elem? xs i ≡ some a → at xs i ≡ ok a
at-get_elem? [] i a h = cc
at-get_elem? (x ∷ xs) zero a h = cc
at-get_elem? (x ∷ xs) (suc i) a h = at-get_elem? xs i a h
