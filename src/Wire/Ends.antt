-- ===== src/Wire/Ends.antt =====
-- The loops that read a struct end: every round takes at least a byte of a finite input.
pub mod Structs
use pancake.Base.Tests.{
  Bool, true, false, if◌then◌else◌, ℕ, zero, suc, ◌≤◌, ◌<◌, ◌≡◌, refl, sym, ◌≢◌, inl, inr, Option,
  some, List, [], ◌∷◌, arith, nat_eqb, Bool-cases, subst, Option-cases,
}
use pancake.Base.Lists.{length}
use pancake.Base.Text.{Text}
use pancake.Base.Run.{
  Run, ok, fault, Fault, out_of_range, assertion, division_by_zero, aborted, waiting, no_return,
  exhausted, thrown,
}
use pancake.Wire.Protocol.{Protocol}
use pancake.Wire.Parsing.{lib-ok, read_round-stop, read_round-field, read_round-fault}
use pancake.Wire.Reading.{
  Read, ◌>>=◌, ◌>>◌, done, lib, read_loop, read_struct, expect, ignore, read_strings, read_list,
  transport,
}

-- A read of the library returns no more bytes than it was given.
abbrev pub Consumes : {A : Type 0} → (Text → Option (A × Text)) → Type 0
Consumes {A} read = (s rest : Text) (a : A) → read s ≡ some (a, rest) → length rest ≤ length s

-- The reads take bytes from the input; the header of a field is at least one.
pub record IsConsuming (p : Protocol) : Type 0 where
  pub struct_begin : Consumes p.read_struct_begin
  pub struct_end : Consumes p.read_struct_end
  pub field_begin :
      (s rest : Text) (h : ℕ × ℕ) → p.read_field_begin s ≡ some (h, rest) → length rest < length s
  pub field_end : Consumes p.read_field_end
  pub list_begin : Consumes p.read_list_begin
  pub list_end : Consumes p.read_list_end
  pub i32 : Consumes p.read_i32
  pub i64 : Consumes p.read_i64
  pub string : Consumes p.read_string
  pub skip : (type : ℕ) → Consumes (p.skip type)

-- The outcome of a read of `n` bytes: it has not run out of fuel, and has left no more than `n`.
abbrev pub Ended : {A : Type 0} → ℕ → Run (A × Text) → Type 0
Ended n (ok (a, rest)) = length rest ≤ n
Ended n (fault exhausted) = ⊥
Ended n (fault out_of_range) = Unit
Ended n (fault assertion) = Unit
Ended n (fault division_by_zero) = Unit
Ended n (fault aborted) = Unit
Ended n (fault waiting) = Unit
Ended n (fault no_return) = Unit
Ended n (fault (thrown what)) = Unit

abbrev pub Ends : {A : Type 0} → Read A → Type 0
Ends read = (s : Text) → Ended (length s) (read s)

Ended-le : {A : Type 0} (m n : ℕ) (o : Run (A × Text)) → m ≤ n → Ended m o → Ended n o
Ended-le m n (ok (a, rest)) h e = omega arith
Ended-le m n (fault exhausted) h e = e
Ended-le m n (fault out_of_range) h e = tt
Ended-le m n (fault assertion) h e = tt
Ended-le m n (fault division_by_zero) h e = tt
Ended-le m n (fault aborted) h e = tt
Ended-le m n (fault waiting) h e = tt
Ended-le m n (fault no_return) h e = tt
Ended-le m n (fault (thrown what)) h e = tt

fault-Ended :
    (A B : Type 0) (m n : ℕ) (e : Fault) → Ended {A = A} m (fault e) → Ended {A = B} n (fault e)
fault-Ended A B m n exhausted h = h
fault-Ended A B m n out_of_range h = tt
fault-Ended A B m n assertion h = tt
fault-Ended A B m n division_by_zero h = tt
fault-Ended A B m n aborted h = tt
fault-Ended A B m n waiting h = tt
fault-Ended A B m n no_return h = tt
fault-Ended A B m n (thrown what) h = tt

-- A read that ended is not out of fuel.
pub Ended-ne : {A : Type 0} (n : ℕ) (o : Run (A × Text)) → Ended n o → o ≢ fault exhausted
Ended-ne {A} n o h e = subst (Ended {A = A} n) e h

-- A step that leaves at most `m` bytes, and what is read of those.
bind-Ended :
    {A B : Type 0} (n : ℕ) (o : Run (A × Text)) (f : A → Read B)
    → Ended n o
    → ((a : A) (rest : Text) → length rest ≤ n → Ended n (f a rest))
    → Ended n (elim o as (λ _. Run (B × Text)) [ fault e ↦ fault e | ok (a, rest) ↦ f a rest ])
bind-Ended n (ok (a, rest)) f h k = k a rest h
bind-Ended {A} {B} n (fault e) f h k = fault-Ended A B n n e h

pub >>=-Ends :
    {A B : Type 0} (m : Read A) (f : A → Read B) → Ends m → ((a : A) → Ends (f a)) → Ends (m >>= f)
>>=-Ends m f h k s =
    bind-Ended (length s) (m s) f (h s)
      (λ a rest small. Ended-le (length rest) (length s) (f a rest) small (k a rest))

pub lib-Ends : {A : Type 0} (read : Text → Option (A × Text)) → Consumes read → Ends (lib read)
lib-Ends {A} read h s = elim (Option-cases (read s)) [
  | inl e ↦ rw (e, lib) tt
  | inr ((a, rest), e) ↦
      subst (Ended {A = A} (length s)) (sym (lib-ok read s (a, rest) e)) (h s rest a e)
]

pub done-Ends : {A : Type 0} (a : A) → Ends (done a)
done-Ends a s = omega arith

module _ (p : Protocol) (takes : IsConsuming p) where
  pub ignore-Ends : {A : Type 0} (type : ℕ) (x : A) → Ends (ignore p type x)
  unfolding ignore
  ignore-Ends type x =
      >>=-Ends (lib (p.skip type)) (λ _. done x) (lib-Ends (p.skip type) (takes.skip type))
        (λ _. done-Ends x)

  pub expect-Ends :
      {A : Type 0} (type want : ℕ) (read : Read A) (x : A)
      → Ends read
      → Ends (expect p type want read x)
  unfolding expect
  expect-Ends type want read x h s = elim (Bool-cases (nat_eqb type want)) [
    | inl e ↦ rw e (h s)
    | inr e ↦ rw e (
        >>=-Ends (lib (p.skip type)) (λ _. done x) (lib-Ends (p.skip type) (takes.skip type))
          (λ _. done-Ends x) s)
  ]

  strings-Ends : (n : ℕ) → Ends (read_strings p n)
  unfolding read_strings
  strings-Ends zero = done-Ends {A = List Text} []
  strings-Ends (suc n) =
      >>=-Ends (lib p.read_string) (λ v. read_strings p n >>= λ vs. done (v ∷ vs))
        (lib-Ends p.read_string takes.string)
        (λ v.
          >>=-Ends (read_strings p n) (λ vs. done (v ∷ vs)) (strings-Ends n)
            (λ vs. done-Ends (v ∷ vs)))

  pub list-Ends : Ends (read_list p)
  unfolding read_list
  list-Ends =
      >>=-Ends (lib p.read_list_begin)
        (λ n. read_strings p n >>= λ vs. lib p.read_list_end >> done vs)
        (lib-Ends p.read_list_begin takes.list_begin)
        (λ n.
          >>=-Ends (read_strings p n) (λ vs. lib p.read_list_end >> done vs) (strings-Ends n)
            (λ vs.
              >>=-Ends (lib p.read_list_end) (λ _. done vs)
                (lib-Ends p.read_list_end takes.list_end) (λ _. done-Ends vs)))

  -- Fuel above the number of bytes is enough.
  loop-Ends :
      {A : Type 0} (field : ℕ → ℕ → A → Read A)
      → ((type id : ℕ) (x : A) → Ends (field type id x))
      → (fuel : ℕ) (x : A) (s : Text) → length s < fuel
      → Ended (length s) (read_loop p fuel field x s)
  unfolding read_loop
  loop-Ends field h zero x s small = elim small [ ]
  loop-Ends {A} field h (suc fuel) x s small = elim (Option-cases (p.read_field_begin s)) [
    | inl none_left ↦
        subst (Ended {A = A} (length s))
          (sym (read_round-fault p field _ x s transport (rw (none_left, lib) refl))) tt
    | inr (((type, id), rest), found) ↦
        let read = lib-ok p.read_field_begin s ((type, id), rest) found in
        let fewer = takes.field_begin s rest (type, id) found in
        elim (Bool-cases (nat_eqb type 0)) [
          | inl stop ↦
              subst (Ended {A = A} (length s))
                (sym (read_round-stop p field _ x id type s rest stop read)) (omega arith)
          | inr go ↦
              subst (Ended {A = A} (length s))
                (sym (read_round-field p field _ x type id s rest go read))
                (Ended-le (length rest) (length s) _ (omega arith) (
                  bind-Ended (length rest) (field type id x rest)
                    (λ x'. lib p.read_field_end >>= λ _. read_loop p fuel field x')
                    (h type id x rest)
                    (λ x' after less.
                      bind-Ended (length rest) (lib p.read_field_end after)
                        (λ _. read_loop p fuel field x')
                        (Ended-le (length after) (length rest) (lib p.read_field_end after) less
                          (lib-Ends p.read_field_end takes.field_end after))
                        (λ _ next less'.
                          Ended-le (length next) (length rest) (read_loop p fuel field x' next)
                            less' (loop-Ends field h fuel x' next (omega arith))))))
        ]
  ]

  pub struct-Ends :
      {A : Type 0} (field : ℕ → ℕ → A → Read A) (x : A)
      → ((type id : ℕ) (y : A) → Ends (field type id y))
      → Ends (read_struct p field x)
  unfolding read_struct
  struct-Ends field x h =
      >>=-Ends (lib p.read_struct_begin)
        (λ _.
          (λ s. read_loop p (suc (length s)) field x s) >>= λ y. lib p.read_struct_end >> done y)
        (lib-Ends p.read_struct_begin takes.struct_begin)
        (λ _.
          >>=-Ends (λ s. read_loop p (suc (length s)) field x s)
            (λ y. lib p.read_struct_end >> done y)
            (λ s. loop-Ends field h (suc (length s)) x s (omega arith))
            (λ y.
              >>=-Ends (lib p.read_struct_end) (λ _. done y)
                (lib-Ends p.read_struct_end takes.struct_end) (λ _. done-Ends y)))

pub if-Ends : {A : Type 0} (b : Bool) (m n : Read A) → Ends m → Ends n → Ends (if b then m else n)
if-Ends true m n h k = h
if-Ends false m n h k = k

-- A value and its place in the struct.
pub then_done-Ends : {A B : Type 0} (m : Read A) (g : A → B) → Ends m → Ends (m >>= λ a. done (g a))
then_done-Ends m g h = >>=-Ends m (λ a. done (g a)) h (λ a. done-Ends (g a))
