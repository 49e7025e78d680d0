-- ===== src/Wire/Parsing.antt =====
-- Rules for round trips: when a read returns what bytes stand for, whatever follows them.
use pancake.Base.Tests.{
  ℕ, zero, suc, ◌≤◌, ◌≡◌, refl, sym, ap, inl, inr, Bool-cases, ◌∙◌, true, false, Option, some, ◌++◌,
  arith, nat_eqb,
}
use mathlib.Core.List.{append_assoc}
use pancake.Base.Text.{Text}
use pancake.Base.Run.{ok, fault, Fault, Run-cases}
use pancake.Wire.Protocol.{Protocol}
use pancake.Wire.Reading.{Read, ◌>>=◌, done, lib, read_round, read_loop}

-- `read` consumes `bytes`, no more, and returns `a`.
abbrev pub Parses : {A : Type 0} → Read A → Text → A → Type 0
Parses read bytes a = (rest : Text) → read (bytes ++ rest) ≡ ok (a, rest)

pub >>=-ok :
    {A B : Type 0} (m : Read A) (f : A → Read B) (s rest : Text) (a : A)
    → m s ≡ ok (a, rest)
    → (m >>= f) s ≡ f a rest
>>=-ok m f s rest a e = rw (e, ◌>>=◌) refl

pub lib-ok :
    {A : Type 0} (read : Text → Option (A × Text)) (s : Text) (r : A × Text)
    → read s ≡ some r
    → lib read s ≡ ok r
lib-ok read s r e = rw (e, lib) refl

pub >>=-Parses :
    {A B : Type 0} (m : Read A) (f : A → Read B) (b c : Text) (x : A) (y : B)
    → Parses m b x
    → Parses (f x) c y
    → Parses (m >>= f) (b ++ c) y
>>=-Parses m f b c x y h k rest =
    ap (m >>= f) (append_assoc b c rest)
    ∙ >>=-ok m f (b ++ (c ++ rest)) (c ++ rest) x (h (c ++ rest))
    ∙ k rest

-- A read followed by a computation.
pub >>=-done :
    {A B : Type 0} (m : Read A) (g : A → B) (b : Text) (x : A)
    → Parses m b x
    → Parses (m >>= λ a. done (g a)) b (g x)
>>=-done m g b x h rest = >>=-ok m (λ a. done (g a)) (b ++ rest) rest x (h rest)

module _ (p : Protocol) where
  >>=-mono :
      {A B : Type 0} (m : Read A) (f g : A → Read B)
      → ((a : A) (s : Text) (r : B × Text) → f a s ≡ ok r → g a s ≡ ok r)
      → (s : Text) (r : B × Text) → (m >>= f) s ≡ ok r
      → (m >>= g) s ≡ ok r
  >>=-mono m f g h s r e = elim (Run-cases (m s)) [
    | inl (x, q) ↦ cc
    | inr ((a, t), q) ↦ >>=-ok m g s t a q ∙ h a t r (sym (>>=-ok m f s t a q) ∙ e)
  ]

  pub read_round-stop :
      {A : Type 0} (field : ℕ → ℕ → A → Read A) (again : A → Read A) (x : A) (id : ℕ) (type : ℕ)
      (s rest : Text)
      → nat_eqb type 0 ≡ true
      → lib p.read_field_begin s ≡ ok ((type, id), rest)
      → read_round p field again x s ≡ ok (x, rest)
  unfolding read_round
  read_round-stop field again x id type s rest stop q = rw (q, read_round) (rw stop refl)

  pub read_round-fault :
      {A : Type 0} (field : ℕ → ℕ → A → Read A) (again : A → Read A) (x : A) (s : Text) (f : Fault)
      → lib p.read_field_begin s ≡ fault f
      → read_round p field again x s ≡ fault f
  unfolding read_round
  read_round-fault field again x s f q = rw (q, read_round) refl

  pub read_round-field :
      {A : Type 0} (field : ℕ → ℕ → A → Read A) (again : A → Read A) (x : A) (type id : ℕ)
      (s rest : Text)
      → nat_eqb type 0 ≡ false
      → lib p.read_field_begin s ≡ ok ((type, id), rest)
      → read_round p field again x s
        ≡ (field type id x >>= λ x'. lib p.read_field_end >>= λ _. again x') rest
  unfolding read_round
  read_round-field field again x type id s rest go q = rw (q, read_round) (rw go refl)

  read_round-more :
      {A : Type 0} (field : ℕ → ℕ → A → Read A) (again again' : A → Read A)
      → ((x : A) (s : Text) (r : A × Text) → again x s ≡ ok r → again' x s ≡ ok r)
      → (x : A) (s : Text) (r : A × Text) → read_round p field again x s ≡ ok r
      → read_round p field again' x s ≡ ok r
  read_round-more field again again' h x s r e = elim (Run-cases (lib p.read_field_begin s)) [
    | inl (f, q) ↦ cc (read_round-fault field again x s f q)
    | inr (((type, id), rest), q) ↦ elim (Bool-cases (nat_eqb type 0)) [
      | inl stop ↦
          read_round-stop field again' x id type s rest stop q
          ∙ (sym (read_round-stop field again x id type s rest stop q) ∙ e)
      | inr go ↦
          read_round-field field again' x type id s rest go q
          ∙ >>=-mono (field type id x) (λ x'. lib p.read_field_end >>= λ _. again x')
              (λ x'. lib p.read_field_end >>= λ _. again' x')
              (λ x'. >>=-mono (lib p.read_field_end) (λ _. again x') (λ _. again' x') (λ _. h x'))
              rest r (sym (read_round-field field again x type id s rest go q) ∙ e)
    ]
  ]

  -- More fuel changes no result of the loop.
  pub read_loop-more :
      {A : Type 0} (field : ℕ → ℕ → A → Read A) (fuel more : ℕ)
      → fuel ≤ more
      → (x : A) (s : Text) (r : A × Text) → read_loop p fuel field x s ≡ ok r
      → read_loop p more field x s ≡ ok r
  unfolding read_loop
  read_loop-more field zero more h x s r e = cc
  read_loop-more field (suc fuel) zero h x s r e = absurd (omega arith)
  read_loop-more field (suc fuel) (suc more) h x s r e =
      read_round-more field (λ x'. read_loop p fuel field x') (λ x'. read_loop p more field x')
        (read_loop-more field fuel more (omega arith)) x s r e
