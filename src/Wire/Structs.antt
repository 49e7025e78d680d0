-- ===== src/Wire/Structs.antt =====
-- Rules for the round trip of a struct: its fields are read in the order in which they are written.
use pancake.Base.Tests.{ℕ, suc, ◌^◌, ◌≤◌, ◌<◌, ◌≡◌, refl, ap, ◌∙◌, List, [], ◌∷◌, ◌++◌, arith}
use mathlib.Core.List.{append_assoc}
use pancake.Base.Lists.{length, length-append, All}
use pancake.Base.Text.{Text}
use pancake.Base.Run.{ok}
use pancake.Wire.Protocol.{Protocol, IsFaithful, t_i32, t_i64, t_string, t_list}
use pancake.Wire.Parsing.{
  Parses, >>=-Parses, >>=-done, >>=-ok, lib-ok, read_loop-more, read_round-stop, read_round-field,
}
use pancake.Wire.Reading.{
  Read, ◌>>=◌, ◌>>◌, done, lib, read_loop, read_struct, read_strings, read_list, write_strings,
  write_list, write_field, write_struct,
}

-- a text and a list of texts that the protocol can carry
abbrev pub FitsText : Text → Type 0
FitsText v = length v < 2 ^ 31

abbrev pub FitsTexts : List Text → Type 0
FitsTexts vs = (length vs < 2 ^ 31) × All FitsText vs

module _ (p : Protocol) (good : IsFaithful p) where
  pub string-Parses : (v : Text) → FitsText v → Parses (lib p.read_string) (p.write_string v) v
  string-Parses v h rest = lib-ok p.read_string _ _ (good.string v rest h)

  pub i64-Parses : (v : ℕ) → v < 2 ^ 64 → Parses (lib p.read_i64) (p.write_i64 v) v
  i64-Parses v h rest = lib-ok p.read_i64 _ _ (good.i64 v rest h)

  pub i32-Parses : (v : ℕ) → v < 2 ^ 32 → Parses (lib p.read_i32) (p.write_i32 v) v
  i32-Parses v h rest = lib-ok p.read_i32 _ _ (good.i32 v rest h)

  strings-Parses :
      (vs : List Text)
      → All FitsText vs
      → Parses (read_strings p (length vs)) (write_strings p vs) vs
  unfolding read_strings write_strings
  strings-Parses [] h = λ rest. refl
  strings-Parses (v ∷ vs) h =
      >>=-Parses (lib p.read_string) (λ w. read_strings p (length vs) >>= λ ws. done (w ∷ ws))
        (p.write_string v) (write_strings p vs) v (v ∷ vs) (string-Parses v h.0)
        (>>=-done (read_strings p (length vs)) (λ ws. v ∷ ws) (write_strings p vs) vs
          (strings-Parses vs h.1))

  -- A list of texts is read back.
  pub list-Parses : (vs : List Text) → FitsTexts vs → Parses (read_list p) (write_list p vs) vs
  unfolding read_list write_list
  list-Parses vs (short, fits) =
      >>=-Parses (lib p.read_list_begin)
        (λ n. read_strings p n >>= λ ws. lib p.read_list_end >> done ws)
        (p.write_list_begin t_string (length vs)) (write_strings p vs ++ p.write_list_end)
        (length vs) vs
        (λ rest.
          lib-ok p.read_list_begin _ _ (good.list_begin 11 (length vs) rest (omega arith) short))
        (>>=-Parses (read_strings p (length vs)) (λ ws. lib p.read_list_end >> done ws)
          (write_strings p vs) p.write_list_end vs vs (strings-Parses vs fits)
          (>>=-done (lib p.read_list_end) (λ _. vs) p.write_list_end tt
            (λ rest. lib-ok p.read_list_end _ _ (good.list_end rest))))

  regroup :
      (name : Text) (type id : ℕ) (body bytes rest : Text)
      → (write_field p name type id body ++ bytes) ++ rest
        ≡ p.write_field_begin name type id ++ (body ++ (p.write_field_end ++ (bytes ++ rest)))
  unfolding write_field
  regroup name type id body bytes rest = simp append_assoc

  regroup_struct :
      (name fields rest : Text)
      → write_struct p name fields ++ rest
        ≡ p.write_struct_begin name ++ (fields ++ (p.write_struct_end ++ rest))
  unfolding write_struct
  regroup_struct name fields rest = simp append_assoc

  module _ {A : Type 0} (field : ℕ → ℕ → A → Read A) where
    -- From `x`, the loop reads the fields in `bytes` up to their end, and leaves `y`.
    abbrev pub Loops : A → Text → A → Type 0
    Loops x bytes y =
        (n : ℕ) × (n ≤ length bytes)
        × ((rest : Text) → read_loop p n field x (bytes ++ rest) ≡ ok (y, rest))

    pub Loops-stop : (x : A) → Loops x p.write_field_stop x
    unfolding read_loop
    Loops-stop x = (
      1,
      omega (arith, good.field_stop_length),
      λ rest.
          read_round-stop p field (λ x'. read_loop p 0 field x') x 0 0 (p.write_field_stop ++ rest)
            rest refl (lib-ok p.read_field_begin _ _ (good.field_stop rest)),
    )

    pub Loops-field :
        (name : Text) (type id : ℕ) (x x' y : A) (body bytes : Text)
        → 0 < type
        → type < 128
        → id < 2 ^ 15
        → Parses (field type id x) body x'
        → Loops x' bytes y
        → Loops x (write_field p name type id body ++ bytes) y
    unfolding read_loop write_field
    Loops-field name type id x x' y body bytes h0 h1 h2 one (n, short, more) = (
      suc n,
      omega (
        arith,
        good.field_begin_length name type id,
        length-append (write_field p name type id body) bytes,
        length-append (p.write_field_begin name type id) (body ++ p.write_field_end),
      ),
      λ rest.
          let after = p.write_field_end ++ (bytes ++ rest) in
          ap (read_loop p (suc n) field x) (regroup name type id body bytes rest)
          ∙ read_round-field p field (λ z. read_loop p n field z) x type id
              (p.write_field_begin name type id ++ (body ++ after)) (body ++ after)
              (ground (arith, h0))
              (lib-ok p.read_field_begin _ _
                (good.field_begin name type id (body ++ after) h0 h1 h2))
          ∙ >>=-ok (field type id x) (λ z. lib p.read_field_end >>= λ _. read_loop p n field z)
              (body ++ after) after x' (one after)
          ∙ >>=-ok (lib p.read_field_end) (λ _. read_loop p n field x') after (bytes ++ rest) tt
              (lib-ok p.read_field_end _ _ (good.field_end (bytes ++ rest)))
          ∙ more rest,
    )

    -- a field that is read by `read` and stored by `put`
    pub Loops-value :
        {V : Type 0} (name : Text) (type id : ℕ) (x : A) (read : Read V) (put : V → A) (body : Text)
        (v : V) (bytes : Text) (y : A)
        → (0 < type) × (type < 128) × (id < 2 ^ 15)
        → field type id x ≡ (read >>= λ w. done (put w))
        → Parses read body v
        → Loops (put v) bytes y
        → Loops x (write_field p name type id body ++ bytes) y
    Loops-value name type id x read put body v bytes y (h0, h1, h2) e h more =
        Loops-field name type id x (put v) y body bytes h0 h1 h2
          (λ rest. ap (λ (m : Read A). m (body ++ rest)) e ∙ >>=-done read put body v h rest) more

    pub Loops-string :
        (name : Text) (id : ℕ) (x : A) (put : Text → A) (v bytes : Text) (y : A)
        → id < 2 ^ 15
        → field t_string id x ≡ (lib p.read_string >>= λ w. done (put w))
        → FitsText v
        → Loops (put v) bytes y
        → Loops x (write_field p name t_string id (p.write_string v) ++ bytes) y
    Loops-string name id x put v bytes y h e fits =
        Loops-value name t_string id x (lib p.read_string) put (p.write_string v) v bytes y
          (omega arith) e (string-Parses v fits)

    pub Loops-list :
        (name : Text) (id : ℕ) (x : A) (put : List Text → A) (v : List Text) (bytes : Text) (y : A)
        → id < 2 ^ 15
        → field t_list id x ≡ (read_list p >>= λ w. done (put w))
        → FitsTexts v
        → Loops (put v) bytes y
        → Loops x (write_field p name t_list id (write_list p v) ++ bytes) y
    Loops-list name id x put v bytes y h e fits =
        Loops-value name t_list id x (read_list p) put (write_list p v) v bytes y (omega arith) e
          (list-Parses v fits)

    pub Loops-i64 :
        (name : Text) (id : ℕ) (x : A) (put : ℕ → A) (v : ℕ) (bytes : Text) (y : A)
        → id < 2 ^ 15
        → field t_i64 id x ≡ (lib p.read_i64 >>= λ w. done (put w))
        → v < 2 ^ 64
        → Loops (put v) bytes y
        → Loops x (write_field p name t_i64 id (p.write_i64 v) ++ bytes) y
    Loops-i64 name id x put v bytes y h e fits =
        Loops-value name t_i64 id x (lib p.read_i64) put (p.write_i64 v) v bytes y (omega arith) e
          (i64-Parses v fits)

    pub Loops-i32 :
        (name : Text) (id : ℕ) (x : A) (put : ℕ → A) (v : ℕ) (bytes : Text) (y : A)
        → id < 2 ^ 15
        → field t_i32 id x ≡ (lib p.read_i32 >>= λ w. done (put w))
        → v < 2 ^ 32
        → Loops (put v) bytes y
        → Loops x (write_field p name t_i32 id (p.write_i32 v) ++ bytes) y
    Loops-i32 name id x put v bytes y h e fits =
        Loops-value name t_i32 id x (lib p.read_i32) put (p.write_i32 v) v bytes y (omega arith) e
          (i32-Parses v fits)

    -- A struct whose fields are read as written comes back.
    pub struct-Parses :
        (name : Text) (x y : A) (fields : Text)
        → Loops x fields y
        → Parses (read_struct p field x) (write_struct p name fields) y
    unfolding read_struct write_struct
    struct-Parses name x y fields (n, short, more) rest =
        let tail = p.write_struct_end ++ rest in
        let inner = fields ++ tail in
        let loop : Read A = λ s. read_loop p (suc (length s)) field x s in
        let end : A → Read A = λ z. lib p.read_struct_end >> done z in
        ap (read_struct p field x) (regroup_struct name fields rest)
        ∙ >>=-ok (lib p.read_struct_begin) (λ _. loop >>= end) (p.write_struct_begin name ++ inner)
            inner tt (lib-ok p.read_struct_begin _ _ (good.struct_begin name inner))
        ∙ >>=-ok loop end inner tail y (
            read_loop-more p field n (suc (length inner)) (omega (arith, length-append fields tail))
              x inner (y, tail) (more tail))
        ∙ >>=-ok (lib p.read_struct_end) (λ _. done y) tail rest tt
            (lib-ok p.read_struct_end _ _ (good.struct_end rest))
