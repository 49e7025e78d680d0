-- ===== src/Wire/Protocol.antt =====
-- The interface of Thrift's `TProtocol`, as service/src/thrift.cpp calls it. What is written is a list
-- of bytes. A read returns its value with the rest of the bytes, or `none` where it throws. An
-- `int64_t` is its bit pattern, a number below 2^64. The names of structs and fields that a read
-- returns are left out, since no caller looks at them, and so are the numbers of bytes.
use pancake.Base.Tests.{ℕ, ◌^◌, ◌<◌, ◌≤◌, ◌≡◌, Option, some, ◌++◌}
use pancake.Base.Lists.{length}
use pancake.Base.Text.{Text}

-- `TType`, the values that the code names
abbrev pub t_stop : ℕ
t_stop = 0

abbrev pub t_i32 : ℕ
t_i32 = 8

abbrev pub t_i64 : ℕ
t_i64 = 10

abbrev pub t_string : ℕ
t_string = 11

abbrev pub t_struct : ℕ
t_struct = 12

abbrev pub t_list : ℕ
t_list = 15

-- `TMessageType`
abbrev pub t_call : ℕ
t_call = 1

abbrev pub t_reply : ℕ
t_reply = 2

abbrev pub t_exception : ℕ
t_exception = 3

abbrev pub t_oneway : ℕ
t_oneway = 4

pub record Protocol : Type 0 where
  pub write_message_begin : Text → ℕ → ℕ → Text
  pub write_message_end : Text
  pub write_struct_begin : Text → Text
  pub write_struct_end : Text
  -- the name, the type and the id of a field
  pub write_field_begin : Text → ℕ → ℕ → Text
  pub write_field_end : Text
  pub write_field_stop : Text
  -- the type and the number of the elements
  pub write_list_begin : ℕ → ℕ → Text
  pub write_list_end : Text
  pub write_i32 : ℕ → Text
  pub write_i64 : ℕ → Text
  pub write_string : Text → Text
  -- `TApplicationException::write`: its type and its message
  pub write_exception : ℕ → Text → Text
  -- name, type and sequence number
  pub read_message_begin : Text → Option ((Text × ℕ × ℕ) × Text)
  pub read_message_end : Text → Option (Unit {0} × Text)
  pub read_struct_begin : Text → Option (Unit {0} × Text)
  pub read_struct_end : Text → Option (Unit {0} × Text)
  -- type and id
  pub read_field_begin : Text → Option ((ℕ × ℕ) × Text)
  pub read_field_end : Text → Option (Unit {0} × Text)
  -- the number of elements
  pub read_list_begin : Text → Option (ℕ × Text)
  pub read_list_end : Text → Option (Unit {0} × Text)
  pub read_i32 : Text → Option (ℕ × Text)
  pub read_i64 : Text → Option (ℕ × Text)
  pub read_string : Text → Option (Text × Text)
  pub read_exception : Text → Option ((ℕ × Text) × Text)
  -- `skip` of a value of a type
  pub skip : ℕ → Text → Option (Unit {0} × Text)

-- What is written is read back, whatever follows it.
pub record IsFaithful (p : Protocol) : Type 0 where
  pub message_begin :
      (name : Text) (type seqid : ℕ) (rest : Text)
      → length name < 2 ^ 31
      → type < 256
      → seqid < 2 ^ 32
      → p.read_message_begin (p.write_message_begin name type seqid ++ rest)
        ≡ some ((name, type, seqid), rest)
  pub message_end :
      (rest : Text) → p.read_message_end (p.write_message_end ++ rest) ≡ some (tt, rest)
  pub struct_begin :
      (name rest : Text) → p.read_struct_begin (p.write_struct_begin name ++ rest) ≡ some (tt, rest)
  pub struct_end : (rest : Text) → p.read_struct_end (p.write_struct_end ++ rest) ≡ some (tt, rest)
  pub field_begin :
      (name : Text) (type id : ℕ) (rest : Text)
      → 0 < type
      → type < 128
      → id < 2 ^ 15
      → p.read_field_begin (p.write_field_begin name type id ++ rest) ≡ some ((type, id), rest)
  pub field_end : (rest : Text) → p.read_field_end (p.write_field_end ++ rest) ≡ some (tt, rest)
  pub field_stop :
      (rest : Text) → p.read_field_begin (p.write_field_stop ++ rest) ≡ some ((0, 0), rest)
  pub list_begin :
      (type size : ℕ) (rest : Text)
      → type < 128
      → size < 2 ^ 31
      → p.read_list_begin (p.write_list_begin type size ++ rest) ≡ some (size, rest)
  pub list_end : (rest : Text) → p.read_list_end (p.write_list_end ++ rest) ≡ some (tt, rest)
  pub i32 : (v : ℕ) (rest : Text) → v < 2 ^ 32 → p.read_i32 (p.write_i32 v ++ rest) ≡ some (v, rest)
  pub i64 : (v : ℕ) (rest : Text) → v < 2 ^ 64 → p.read_i64 (p.write_i64 v ++ rest) ≡ some (v, rest)
  pub string :
      (v rest : Text)
      → length v < 2 ^ 31
      → p.read_string (p.write_string v ++ rest) ≡ some (v, rest)
  pub exception :
      (type : ℕ) (message rest : Text)
      → type < 2 ^ 32
      → length message < 2 ^ 31
      → p.read_exception (p.write_exception type message ++ rest) ≡ some ((type, message), rest)
  -- the header of a field, and the mark after the last one, are at least a byte
  pub field_begin_length :
      (name : Text) (type id : ℕ) → 1 ≤ length (p.write_field_begin name type id)
  pub field_stop_length : 1 ≤ length p.write_field_stop
