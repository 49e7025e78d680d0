-- ===== src/Wire/Required.antt =====
-- service/src/proxy_types.cpp and thrift.cpp: fields and messages that the reader does not expect.
use pancake.Base.Tests.{
  ℕ, ◌^◌, ◌<◌, ◌≡◌, refl, ◌∙◌, Bool, true, false, ◌&&◌, some, List, [], ◌∷◌, ◌++◌, arith, nat_eqb,
  if◌then◌else◌,
}
use pancake.Base.Lists.{length, length-append, All}
use pancake.Base.Text.{Text, codes, text_eqb}
use pancake.Base.Run.{ok, fault, thrown}
use pancake.Proxy.Requests.{SequenceId}
use pancake.Wire.Protocol.{Protocol, IsFaithful, t_exception, t_struct}
use pancake.Wire.Reading.{Read, ◌>>◌, done, lib, read_struct, write_struct, write_field}
use pancake.Wire.Parsing.{Parses, >>=-ok, >>=-done, lib-ok}
use pancake.Wire.Structs.{Loops, Loops-field, struct-Parses}
use pancake.Wire.Sequence.{SequenceRead, sequence_field, require, read_sequence_id}
use pancake.Wire.Remote.{recv-failure}
use pancake.Wire.Client.{recv_message}
use pancake.Wire.Processor.{Iface, dispatch_call, process_unknown, write_message}

-- the variables of `sequence_id::read` at first
abbrev pub unread : SequenceId → SequenceRead
unread this = record {
  this = this;
  isset_client_id = false;
  isset_client_seq_no = false;
  isset_server_seq_no = false;
}

abbrev pub has_required : SequenceRead → Bool
has_required x = x.isset_client_id && (x.isset_client_seq_no && x.isset_server_seq_no)

-- the names in `processMap_`
abbrev pub methods : List Text
methods =
    codes "get_client_id"
    ∷ codes "register_client_id"
    ∷ codes "async_get"
    ∷ codes "async_put"
    ∷ codes "async_get_batch"
    ∷ codes "async_put_batch"
    ∷ codes "get"
    ∷ codes "put"
    ∷ codes "get_batch"
    ∷ codes "put_batch"
    ∷ []

module _ (p : Protocol) (good : IsFaithful p) where
  require_each :
      (a b c : Bool) (v : SequenceId) (rest : Text)
      → (require p a >> (require p b >> (require p c >> done v))) rest ≡ (
          if a && (b && c)
          then ok (v, rest)
          else fault (thrown (codes "TProtocolException: Invalid data")))
  unfolding require
  require_each false b c v rest = refl
  require_each true false c v rest = refl
  require_each true true false v rest = refl
  require_each true true true v rest = refl

  -- On a struct whose fields the loop reads to their end, `sequence_id::read` returns what was
  -- read if all three fields were among them, and throws `TProtocolException` otherwise. The
  -- protocol must read back what it wrote.
  pub read_sequence_id-Loops :
      (this : SequenceId) (fields rest : Text) (x : SequenceRead)
      → Loops p good (sequence_field p) (unread this) fields x
      → read_sequence_id p this (write_struct p (codes "sequence_id") fields ++ rest) ≡ (
          if has_required x
          then ok (x.this, rest)
          else fault (thrown (codes "TProtocolException: Invalid data")))
  unfolding read_sequence_id
  read_sequence_id-Loops this fields rest x h =
      >>=-ok (read_struct p (sequence_field p) (unread this))
        (λ z.
          require p z.isset_client_id
          >> (require p z.isset_client_seq_no >> (require p z.isset_server_seq_no >> done z.this)))
        (write_struct p (codes "sequence_id") fields ++ rest) rest x
        (struct-Parses p good (sequence_field p) (codes "sequence_id") (unread this) x fields h
          rest)
      ∙ require_each x.isset_client_id x.isset_client_seq_no x.isset_server_seq_no x.this rest

  unknown :
      (type id : ℕ) (x : SequenceRead) (body : Text)
      → 3 < id
      → Parses (lib (p.skip type)) body tt
      → Parses (sequence_field p type id x) body x
  unfolding sequence_field
  unknown type id x body h skipped =
      let one : nat_eqb id 1 ≡ false = ground arith in
      let two : nat_eqb id 2 ≡ false = ground arith in
      let three : nat_eqb id 3 ≡ false = ground arith in
      rw one (rw two (rw three (>>=-done (lib (p.skip type)) (λ _. x) body tt skipped)))

  -- A field with an unknown id changes nothing, if `skip` passes over its value.
  pub Loops-unknown :
      (name : Text) (type id : ℕ) (x y : SequenceRead) (body bytes : Text)
      → 0 < type
      → type < 128
      → 3 < id
      → id < 2 ^ 15
      → Parses (lib (p.skip type)) body tt
      → Loops p good (sequence_field p) x bytes y
      → Loops p good (sequence_field p) x (write_field p name type id body ++ bytes) y
  unfolding sequence_field
  Loops-unknown name type id x y body bytes h0 h1 h2 h3 skipped more =
      Loops-field p good (sequence_field p) name type id x x y body bytes h0 h1 h3
        (unknown type id x body h2 skipped) more

  process_unknown_lem :
      {S : Type 0} (iface : Iface S) (s : S) (fname input middle rest : Text)
      → p.skip t_struct input ≡ some (tt, middle)
      → p.read_message_end middle ≡ some (tt, rest)
      → process_unknown p iface fname 0 s input
        ≡ ok (
          s,
          write_message p fname t_exception 0
              (p.write_exception 1 (codes "Invalid method name: '" ++ (fname ++ codes "'"))),
          rest,
        )
  unfolding process_unknown
  process_unknown_lem iface s fname input middle rest e e' =
      let skipped : (lib (p.skip t_struct) >> lib p.read_message_end) input ≡ ok (tt, rest) =
        >>=-ok (lib (p.skip t_struct)) (λ _. lib p.read_message_end) input middle tt
          (lib-ok (p.skip t_struct) input (tt, middle) e)
        ∙ lib-ok p.read_message_end middle (tt, rest) e' in
      rw (skipped, process_unknown) refl

  -- A call of a method that `processMap_` does not have, when its arguments can be skipped and
  -- its message ends, leaves the object as it is and is answered. Whatever call reads the
  -- answer at the client throws that the method's name is invalid. The protocol must read back
  -- what it wrote, and the name be shorter than 2^30.
  pub dispatch_call-unknown :
      {S A : Type 0} (iface : Iface S) (s : S) (fname name : Text) (read_presult : Read A)
      (input middle rest rest' : Text)
      → All (λ m. text_eqb fname m ≡ false) methods
      → length fname < 2 ^ 30
      → p.skip t_struct input ≡ some (tt, middle)
      → p.read_message_end middle ≡ some (tt, rest)
      → (out : Text) × (dispatch_call p iface fname 0 s input ≡ ok (s, out, rest))
        × (recv_message p name read_presult (out ++ rest')
            ≡ fault (thrown (codes "Invalid method name: '" ++ (fname ++ codes "'"))))
  unfolding dispatch_call
  dispatch_call-unknown iface s fname name read_presult input middle rest rest'
        (h0, (h1, (h2, (h3, (h4, (h5, (h6, (h7, (h8, (h9, _)))))))))) short e e' =
      (
        _,
        rw (h0, h1, h2, h3, h4, h5, h6, h7, h8, h9)
            (process_unknown_lem iface s fname input middle rest e e'),
        recv-failure p good fname name 1 read_presult
            (codes "Invalid method name: '" ++ (fname ++ codes "'")) rest' (omega arith)
            (omega arith) (omega (arith, length-append fname (codes "'"))),
      )
