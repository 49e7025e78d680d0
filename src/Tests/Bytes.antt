-- ===== src/Tests/Bytes.antt =====
-- A protocol to run the transport code on: a text is its length and its characters, a number is one
-- element. It meets what the theorems assume of Thrift's.
use pancake.Base.Tests.{
  ℕ, zero, suc, ◌<◌, ◌≤◌, ◌≡◌, refl, ap, ◌∙◌, Bool, true, false, Option, none, some, [], ◌∷◌, ◌++◌,
  arith, if◌then◌else◌, nat_eqb, Option-cases, inl, inr,
}
use mathlib.Core.List.{append_assoc}
use pancake.Base.Lists.{length}
use pancake.Base.Text.{Text}
use pancake.Wire.Protocol.{Protocol, IsFaithful}
use pancake.Wire.Ends.{IsConsuming, Consumes}

abbrev pub one_number : Text → Option (ℕ × Text)
one_number [] = none
one_number (n ∷ rest) = some (n, rest)

-- the first `n` characters
abbrev pub split_at : ℕ → Text → Option (Text × Text)
split_at zero s = some ([], s)
split_at (suc n) [] = none
split_at (suc n) (c ∷ s) = elim (split_at n s) [ none ↦ none | some (a, b) ↦ some (c ∷ a, b) ]

abbrev pub framed : Text → Option (Text × Text)
framed [] = none
framed (n ∷ rest) = split_at n rest

abbrev pub nothing : Text → Option (Unit {0} × Text)
nothing s = some (tt, s)

abbrev pub header : Text → Option ((ℕ × ℕ) × Text)
header [] = none
header (zero ∷ rest) = some ((0, 0), rest)
header (suc t ∷ []) = none
header (suc t ∷ (id ∷ rest)) = some ((suc t, id), rest)

abbrev pub elements : Text → Option (ℕ × Text)
elements [] = none
elements (t ∷ []) = none
elements (t ∷ (n ∷ rest)) = some (n, rest)

abbrev pub message : Text → Option ((Text × ℕ × ℕ) × Text)
message s = elim (framed s) [
  | none ↦ none
  | some (name, []) ↦ none
  | some (name, t ∷ []) ↦ none
  | some (name, t ∷ (n ∷ rest)) ↦ some ((name, t, n), rest)
]

abbrev pub failure : Text → Option ((ℕ × Text) × Text)
failure [] = none
failure (t ∷ s) = elim (framed s) [ none ↦ none | some (m, rest) ↦ some ((t, m), rest) ]

abbrev pub passed : {A : Type 0} → (Text → Option (A × Text)) → Text → Option (Unit {0} × Text)
passed read s = elim (read s) [ none ↦ none | some (v, rest) ↦ some (tt, rest) ]

abbrev pub no_fields : Text → Option (Unit {0} × Text)
no_fields [] = none
no_fields (zero ∷ rest) = some (tt, rest)
no_fields (suc t ∷ rest) = none

-- it skips numbers, texts, and a struct that has no field
abbrev pub skip_value : ℕ → Text → Option (Unit {0} × Text)
skip_value type s =
    if nat_eqb type 11
    then passed framed s
    else if nat_eqb type 12
    then no_fields s
    else passed one_number s

abbrev pub plain : Protocol
plain = record {
  write_message_begin = λ name type seqid. (length name ∷ name) ++ (type ∷ (seqid ∷ []));
  write_message_end = [];
  write_struct_begin = λ name. [];
  write_struct_end = [];
  write_field_begin = λ name type id. type ∷ (id ∷ []);
  write_field_end = [];
  write_field_stop = 0 ∷ [];
  write_list_begin = λ type size. type ∷ (size ∷ []);
  write_list_end = [];
  write_i32 = λ v. v ∷ [];
  write_i64 = λ v. v ∷ [];
  write_string = λ v. length v ∷ v;
  write_exception = λ type m. type ∷ (length m ∷ m);
  read_message_begin = message;
  read_message_end = nothing;
  read_struct_begin = nothing;
  read_struct_end = nothing;
  read_field_begin = header;
  read_field_end = nothing;
  read_list_begin = elements;
  read_list_end = nothing;
  read_i32 = one_number;
  read_i64 = one_number;
  read_string = framed;
  read_exception = failure;
  skip = skip_value;
}

split_at-append : (v rest : Text) → split_at (length v) (v ++ rest) ≡ some (v, rest)
split_at-append [] rest = refl
split_at-append (c ∷ v) rest = rw (split_at-append v rest, split_at) refl

message-header :
    (name : Text) (type seqid : ℕ) (rest : Text)
    → message (((length name ∷ name) ++ (type ∷ (seqid ∷ []))) ++ rest)
      ≡ some ((name, type, seqid), rest)
message-header name type seqid rest =
    let cut = split_at-append name (type ∷ (seqid ∷ rest)) in
    ap message (ap (λ (t : Text). length name ∷ t) (append_assoc name (type ∷ (seqid ∷ [])) rest))
    ∙ rw (cut, message, framed) refl

header-field :
    (type id : ℕ) (rest : Text) → 0 < type → header (type ∷ (id ∷ rest)) ≡ some ((type, id), rest)
header-field zero id rest h = absurd (omega arith)
header-field (suc t) id rest h = refl

failure-text :
    (type : ℕ) (m rest : Text) → failure ((type ∷ (length m ∷ m)) ++ rest) ≡ some ((type, m), rest)
failure-text type m rest = rw (split_at-append m rest, failure, framed) refl

pub plain-IsFaithful : IsFaithful plain
plain-IsFaithful = record {
  message_begin = λ name type seqid rest _ _ _. message-header name type seqid rest;
  message_end = λ rest. refl;
  struct_begin = λ name rest. refl;
  struct_end = λ rest. refl;
  field_begin = λ name type id rest h _ _. header-field type id rest h;
  field_end = λ rest. refl;
  field_stop = λ rest. refl;
  list_begin = λ type size rest _ _. refl;
  list_end = λ rest. refl;
  i32 = λ v rest _. refl;
  i64 = λ v rest _. refl;
  string = λ v rest _. split_at-append v rest;
  exception = λ type m rest _ _. failure-text type m rest;
  field_begin_length = λ name type id. omega arith;
  field_stop_length = omega arith;
}

one_number-Consumes : Consumes one_number
one_number-Consumes [] rest a e = cc
one_number-Consumes (n ∷ s) rest a e = ground arith

split_at-length : (n : ℕ) (s rest a : Text) → split_at n s ≡ some (a, rest) → length rest ≤ length s
split_at-length zero s rest a e = ground arith
split_at-length (suc n) [] rest a e = cc
split_at-length (suc n) (c ∷ s) rest a e = elim (Option-cases (split_at n s)) [
  | inl q ↦ cc
  | inr ((b, t), q) ↦ ground (arith, split_at-length n s t b q)
]

framed-Consumes : Consumes framed
framed-Consumes [] rest a e = cc
framed-Consumes (n ∷ s) rest a e = omega (arith, split_at-length n s rest a e)

nothing-Consumes : Consumes nothing
nothing-Consumes s rest a e = ground arith

header-less : (s rest : Text) (h : ℕ × ℕ) → header s ≡ some (h, rest) → length rest < length s
header-less [] rest h e = cc
header-less (zero ∷ s) rest h e = ground arith
header-less (suc t ∷ []) rest h e = cc
header-less (suc t ∷ (id ∷ s)) rest h e = ground arith

elements-Consumes : Consumes elements
elements-Consumes [] rest a e = cc
elements-Consumes (t ∷ []) rest a e = cc
elements-Consumes (t ∷ (n ∷ s)) rest a e = ground arith

passed-Consumes :
    {A : Type 0} (read : Text → Option (A × Text)) → Consumes read → Consumes (passed read)
passed-Consumes read h s rest a e = elim (Option-cases (read s)) [
  | inl q ↦ cc
  | inr ((v, t), q) ↦ ground (arith, h s t v q)
]

no_fields-Consumes : Consumes no_fields
no_fields-Consumes [] rest a e = cc
no_fields-Consumes (zero ∷ s) rest a e = ground arith
no_fields-Consumes (suc t ∷ s) rest a e = cc

if-Consumes :
    {A : Type 0} (b : Bool) (f g : Text → Option (A × Text))
    → Consumes f
    → Consumes g
    → Consumes (λ s. if b then f s else g s)
if-Consumes true f g h k = h
if-Consumes false f g h k = k

skip_value-Consumes : (type : ℕ) → Consumes (skip_value type)
skip_value-Consumes type =
    if-Consumes (nat_eqb type 11) (passed framed)
      (λ s. if nat_eqb type 12 then no_fields s else passed one_number s)
      (passed-Consumes framed framed-Consumes)
      (if-Consumes (nat_eqb type 12) no_fields (passed one_number) no_fields-Consumes
        (passed-Consumes one_number one_number-Consumes))

pub plain-IsConsuming : IsConsuming plain
plain-IsConsuming = record {
  struct_begin = nothing-Consumes;
  struct_end = nothing-Consumes;
  field_begin = header-less;
  field_end = nothing-Consumes;
  list_begin = elements-Consumes;
  list_end = nothing-Consumes;
  i32 = one_number-Consumes;
  i64 = one_number-Consumes;
  string = framed-Consumes;
  skip = skip_value-Consumes;
}
