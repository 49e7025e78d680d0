-- ===== src/Wire/Fields.antt =====
-- service/src/proxy_types.cpp, `sequence_id::read`: the fields of a struct in any number and order.
use pancake.Base.Tests.{
  ℕ, ◌^◌, ◌<◌, ◌≡◌, refl, ◌∙◌, Bool, true, false, ◌&&◌, ◌||◌, List, [], ◌∷◌, ◌++◌, arith,
  if◌then◌else◌,
}
use pancake.Base.Lists.{All}
use pancake.Base.Text.{Text, codes}
use pancake.Base.Run.{ok, fault, thrown}
use pancake.Proxy.Requests.{SequenceId}
use pancake.Wire.Protocol.{Protocol, IsFaithful, t_i64}
use pancake.Wire.Reading.{lib, write_field, write_struct}
use pancake.Wire.Parsing.{Parses}
use pancake.Wire.Structs.{Loops, Loops-i64, Loops-stop}
use pancake.Wire.Sequence.{SequenceRead, sequence_field, read_sequence_id}
use pancake.Wire.Required.{unread, read_sequence_id-Loops, Loops-unknown}

pub data Field : Type 0 where
  client_id : ℕ → Field
  client_seq_no : ℕ → Field
  server_seq_no : ℕ → Field
  -- a field that the struct does not have: its name, type, id and value
  other : Text → ℕ → ℕ → Text → Field

-- Which fields are among them.
abbrev pub has_client_id : List Field → Bool
has_client_id [] = false
has_client_id (client_id v ∷ fields) = true
has_client_id (_ ∷ fields) = has_client_id fields

abbrev pub has_client_seq_no : List Field → Bool
has_client_seq_no [] = false
has_client_seq_no (client_seq_no v ∷ fields) = true
has_client_seq_no (_ ∷ fields) = has_client_seq_no fields

abbrev pub has_server_seq_no : List Field → Bool
has_server_seq_no [] = false
has_server_seq_no (server_seq_no v ∷ fields) = true
has_server_seq_no (_ ∷ fields) = has_server_seq_no fields

-- The id with the values of the fields, the last of each.
abbrev pub valued : SequenceId → List Field → SequenceId
valued this [] = this
valued this (client_id v ∷ fields) = valued (record this { client_id = v }) fields
valued this (client_seq_no v ∷ fields) = valued (record this { client_seq_no = v }) fields
valued this (server_seq_no v ∷ fields) = valued (record this { server_seq_no = v }) fields
valued this (other name type id body ∷ fields) = valued this fields

-- the variables of `read` after the fields
read_so_far : SequenceRead → List Field → SequenceRead
read_so_far x [] = x
read_so_far x (client_id v ∷ fields) =
    read_so_far (record x { this = record x.this { client_id = v }; isset_client_id = true }) fields
read_so_far x (client_seq_no v ∷ fields) =
    read_so_far
      (record x { this = record x.this { client_seq_no = v }; isset_client_seq_no = true }) fields
read_so_far x (server_seq_no v ∷ fields) =
    read_so_far
      (record x { this = record x.this { server_seq_no = v }; isset_server_seq_no = true }) fields
read_so_far x (other name type id body ∷ fields) = read_so_far x fields

read_so_far_lem :
    (x : SequenceRead) (fields : List Field)
    → ((read_so_far x fields).this ≡ valued x.this fields)
      × ((read_so_far x fields).isset_client_id ≡ x.isset_client_id || has_client_id fields)
      × ((read_so_far x fields).isset_client_seq_no
          ≡ x.isset_client_seq_no || has_client_seq_no fields)
      × ((read_so_far x fields).isset_server_seq_no
          ≡ x.isset_server_seq_no || has_server_seq_no fields)
unfolding read_so_far
read_so_far_lem x [] = ground arith
read_so_far_lem x (client_id v ∷ fields) = ground (
  arith,
  read_so_far_lem (record x { this = record x.this { client_id = v }; isset_client_id = true })
      fields,
)
read_so_far_lem x (client_seq_no v ∷ fields) = ground (
  arith,
  read_so_far_lem
      (record x { this = record x.this { client_seq_no = v }; isset_client_seq_no = true }) fields,
)
read_so_far_lem x (server_seq_no v ∷ fields) = ground (
  arith,
  read_so_far_lem
      (record x { this = record x.this { server_seq_no = v }; isset_server_seq_no = true }) fields,
)
read_so_far_lem x (other name type id body ∷ fields) = read_so_far_lem x fields

module _ (p : Protocol) where
  -- the fields as they are written
  abbrev pub fields_text : List Field → Text
  fields_text [] = p.write_field_stop
  fields_text (client_id v ∷ fields) =
      write_field p (codes "client_id") t_i64 1 (p.write_i64 v) ++ fields_text fields
  fields_text (client_seq_no v ∷ fields) =
      write_field p (codes "client_seq_no") t_i64 2 (p.write_i64 v) ++ fields_text fields
  fields_text (server_seq_no v ∷ fields) =
      write_field p (codes "server_seq_no") t_i64 3 (p.write_i64 v) ++ fields_text fields
  fields_text (other name type id body ∷ fields) =
      write_field p name type id body ++ fields_text fields

  -- The value fits, or has an id that the struct does not have and is passed over by `skip`.
  abbrev pub Fits : Field → Type 0
  Fits (client_id v) = v < 2 ^ 64
  Fits (client_seq_no v) = v < 2 ^ 64
  Fits (server_seq_no v) = v < 2 ^ 64
  Fits (other name type id body) =
      (0 < type) × (type < 128) × (3 < id) × (id < 2 ^ 15) × Parses (lib (p.skip type)) body tt

module _ (p : Protocol) (good : IsFaithful p) where
  fields_text-Loops :
      (x : SequenceRead) (fields : List Field)
      → All (Fits p) fields
      → Loops p good (sequence_field p) x (fields_text p fields) (read_so_far x fields)
  unfolding sequence_field read_so_far
  fields_text-Loops x [] h = Loops-stop p good (sequence_field p) x
  fields_text-Loops x (client_id v ∷ fields) (fits, h) =
      Loops-i64 p good (sequence_field p) (codes "client_id") 1 x
        (λ w. record x { this = record x.this { client_id = w }; isset_client_id = true }) v _ _
        (omega arith) refl fits (fields_text-Loops _ fields h)
  fields_text-Loops x (client_seq_no v ∷ fields) (fits, h) =
      Loops-i64 p good (sequence_field p) (codes "client_seq_no") 2 x
        (λ w. record x { this = record x.this { client_seq_no = w }; isset_client_seq_no = true }) v
        _ _ (omega arith) refl fits (fields_text-Loops _ fields h)
  fields_text-Loops x (server_seq_no v ∷ fields) (fits, h) =
      Loops-i64 p good (sequence_field p) (codes "server_seq_no") 3 x
        (λ w. record x { this = record x.this { server_seq_no = w }; isset_server_seq_no = true }) v
        _ _ (omega arith) refl fits (fields_text-Loops _ fields h)
  fields_text-Loops x (other name type id body ∷ fields) ((h0, h1, h2, h3, skipped), h) =
      Loops-unknown p good name type id x _ body (fields_text p fields) h0 h1 h2 h3 skipped
        (fields_text-Loops x fields h)

  -- A struct of any fields in any order, each of which is one of the three of `sequence_id`,
  -- with a value that fits, or one that `skip` passes over, with an id above 3, is read to its
  -- end. If all three are among them, `sequence_id::read` returns the last value of each, and
  -- it throws `TProtocolException` otherwise. The protocol must read back what it wrote.
  pub read_sequence_id-fields :
      (this : SequenceId) (fields : List Field) (rest : Text)
      → All (Fits p) fields
      → read_sequence_id p this
          (write_struct p (codes "sequence_id") (fields_text p fields) ++ rest)
        ≡ (if has_client_id fields && (has_client_seq_no fields && has_server_seq_no fields)
            then ok (valued this fields, rest)
            else fault (thrown (codes "TProtocolException: Invalid data")))
  read_sequence_id-fields this fields rest h =
      let (same, one, two, three) = read_so_far_lem (unread this) fields in
      read_sequence_id-Loops p good this (fields_text p fields) rest
        (read_so_far (unread this) fields) (fields_text-Loops (unread this) fields h)
      ∙ rw (same, one, two, three) refl
