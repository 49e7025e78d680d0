-- ===== src/Wire/Reading.antt =====
-- Reads in sequence, and the loop `while (true)` that every generated `read` has. A throw of the
-- library is the fault `transport`. Rounds of the loop are fuel; a field takes at least a byte.
use pancake.Base.Tests.{
  ℕ, zero, suc, true, false, Option, none, some, List, [], ◌∷◌, ◌++◌, if◌then◌else◌, nat_eqb,
}
use pancake.Base.Lists.{length}
use pancake.Base.Text.{Text, codes}
use pancake.Base.Run.{Run, ok, fault, Fault, thrown, exhausted}
use pancake.Wire.Protocol.{Protocol, t_stop, t_string}

abbrev pub Read : Type 0 → Type 0
Read A = Text → Run (A × Text)

infixl 5 ◌>>=◌ ◌>>◌
abbrev pub ◌>>=◌ : {A B : Type 0} → Read A → (A → Read B) → Read B
◌>>=◌ m f s = elim (m s) [ fault e ↦ fault e | ok (a, rest) ↦ f a rest ]

abbrev pub ◌>>◌ : {A B : Type 0} → Read A → Read B → Read B
m >> k = m >>= λ _. k

abbrev pub done : {A : Type 0} → A → Read A
done a s = ok (a, s)

abbrev pub transport : Fault
transport = thrown (codes "TTransportException")

-- what the library returns, or its exception
abbrev pub lib : {A : Type 0} → (Text → Option (A × Text)) → Read A
lib read s = elim (read s) [ none ↦ fault transport | some r ↦ ok r ]

module _ (p : Protocol) where
  -- one round of the loop over fields, where `field` is the body of the `switch`
  unfoldable pub read_round : {A : Type 0} → (ℕ → ℕ → A → Read A) → (A → Read A) → A → Read A
  read_round field again x s = elim (lib p.read_field_begin s) [
    | fault e ↦ fault e
    | ok ((type, id), rest) ↦ elim (nat_eqb type t_stop) [
      | true ↦ done x rest
      | false ↦ (field type id x >>= λ x'. lib p.read_field_end >>= λ _. again x') rest
    ]
  ]

  unfoldable pub read_loop : {A : Type 0} → ℕ → (ℕ → ℕ → A → Read A) → A → Read A
  unfolding read_round
  read_loop zero field x s = fault exhausted
  read_loop (suc fuel) field x s = read_round field (λ x'. read_loop fuel field x') x s

  unfoldable pub read_struct : {A : Type 0} → (ℕ → ℕ → A → Read A) → A → Read A
  unfolding read_loop
  read_struct field x = do
    lib p.read_struct_begin
    x' ← λ s. read_loop (suc (length s)) field x s
    lib p.read_struct_end
    done x'

  -- the value of an expected field, or `skip` where the type is another
  unfoldable pub expect : {A : Type 0} → ℕ → ℕ → Read A → A → Read A
  expect type want read x = if nat_eqb type want then read else (lib (p.skip type) >> done x)

  -- `default`
  unfoldable pub ignore : {A : Type 0} → ℕ → A → Read A
  ignore type x = lib (p.skip type) >> done x

  unfoldable pub read_strings : ℕ → Read (List Text)
  read_strings zero = done []
  read_strings (suc n) = do v ← lib p.read_string; vs ← read_strings n; done (v ∷ vs)

  -- a `std::vector<std::string>`; its old elements are cleared
  unfoldable pub read_list : Read (List Text)
  unfolding read_strings
  read_list = do size ← lib p.read_list_begin; vs ← read_strings size; lib p.read_list_end; done vs

  unfoldable pub write_strings : List Text → Text
  write_strings [] = []
  write_strings (v ∷ vs) = p.write_string v ++ write_strings vs

  unfoldable pub write_list : List Text → Text
  unfolding write_strings
  write_list vs = p.write_list_begin t_string (length vs) ++ (write_strings vs ++ p.write_list_end)

  -- one field
  unfoldable pub write_field : Text → ℕ → ℕ → Text → Text
  write_field name type id body = p.write_field_begin name type id ++ (body ++ p.write_field_end)

  -- a struct, where `fields` ends in the mark for that
  unfoldable pub write_struct : Text → Text → Text
  write_struct name fields = p.write_struct_begin name ++ (fields ++ p.write_struct_end)
