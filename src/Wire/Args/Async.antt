-- ===== src/Wire/Args/Async.antt =====
-- service/src/thrift.cpp: the arguments of `async_get` and `async_put`, with `read` and `write`, and with
-- the `write` of the struct of pointers.
use pancake.Base.Tests.{refl, ℕ, Bool, true, ◌++◌, if◌then◌else◌, nat_eqb, arith}
use pancake.Base.Text.{Text, codes}
use pancake.Proxy.Requests.{SequenceId}
use pancake.Wire.Protocol.{Protocol, IsFaithful, t_string, t_struct}
use pancake.Wire.Reading.{
  Read, ◌>>=◌, done, lib, read_struct, expect, ignore, write_field, write_struct,
}
use pancake.Wire.Sequence.{read_sequence_id, write_sequence_id, FitsId, Loops-sequence_id}
use pancake.Wire.Parsing.{Parses}
use pancake.Wire.Structs.{FitsText, Loops-string, Loops, Loops-stop, struct-Parses}

-- `pancake_thrift_async_get_args`, with its `__isset`
pub record AsyncGetArgs : Type 0 where
  pub seq_id : SequenceId
  pub key : Text
  pub isset_seq_id : Bool
  pub isset_key : Bool

-- `pancake_thrift_async_put_args`, with its `__isset`
pub record AsyncPutArgs : Type 0 where
  pub seq_id : SequenceId
  pub key : Text
  pub value : Text
  pub isset_seq_id : Bool
  pub isset_key : Bool
  pub isset_value : Bool

module _ (p : Protocol) where
  -- `pancake_thrift_async_get_args::read`
  unfoldable pub async_get_args_field : ℕ → ℕ → AsyncGetArgs → Read AsyncGetArgs
  unfolding expect ignore
  async_get_args_field type id x =
      if nat_eqb id 1
      then expect p type t_struct
          (read_sequence_id p x.seq_id >>= λ v. done (record x { seq_id = v; isset_seq_id = true }))
          x
      else if nat_eqb id 2
      then expect p type t_string
          (lib p.read_string >>= λ v. done (record x { key = v; isset_key = true })) x
      else ignore p type x

  unfoldable pub read_async_get_args : AsyncGetArgs → Read AsyncGetArgs
  unfolding async_get_args_field
  read_async_get_args = read_struct p async_get_args_field

  unfoldable pub write_async_get_args : AsyncGetArgs → Text
  write_async_get_args x = write_struct p (codes "pancake_thrift_async_get_args") (
      write_field p (codes "seq_id") t_struct 1 (write_sequence_id p x.seq_id)
      ++ (write_field p (codes "key") t_string 2 (p.write_string x.key) ++ p.write_field_stop))

  -- `pancake_thrift_async_get_pargs::write`, on what it points to
  unfoldable pub write_async_get_pargs : SequenceId → Text → Text
  write_async_get_pargs seq_id key = write_struct p (codes "pancake_thrift_async_get_pargs") (
      write_field p (codes "seq_id") t_struct 1 (write_sequence_id p seq_id)
      ++ (write_field p (codes "key") t_string 2 (p.write_string key) ++ p.write_field_stop))

  -- `pancake_thrift_async_put_args::read`
  unfoldable pub async_put_args_field : ℕ → ℕ → AsyncPutArgs → Read AsyncPutArgs
  unfolding expect ignore
  async_put_args_field type id x =
      if nat_eqb id 1
      then expect p type t_struct
          (read_sequence_id p x.seq_id >>= λ v. done (record x { seq_id = v; isset_seq_id = true }))
          x
      else if nat_eqb id 2
      then expect p type t_string
          (lib p.read_string >>= λ v. done (record x { key = v; isset_key = true })) x
      else if nat_eqb id 3
      then expect p type t_string
          (lib p.read_string >>= λ v. done (record x { value = v; isset_value = true })) x
      else ignore p type x

  unfoldable pub read_async_put_args : AsyncPutArgs → Read AsyncPutArgs
  unfolding async_put_args_field
  read_async_put_args = read_struct p async_put_args_field

  unfoldable pub write_async_put_args : AsyncPutArgs → Text
  write_async_put_args x = write_struct p (codes "pancake_thrift_async_put_args") (
      write_field p (codes "seq_id") t_struct 1 (write_sequence_id p x.seq_id)
      ++ (write_field p (codes "key") t_string 2 (p.write_string x.key)
          ++ (write_field p (codes "value") t_string 3 (p.write_string x.value)
              ++ p.write_field_stop)))

  -- `pancake_thrift_async_put_pargs::write`, on what it points to
  unfoldable pub write_async_put_pargs : SequenceId → Text → Text → Text
  write_async_put_pargs seq_id key value = write_struct p (codes "pancake_thrift_async_put_pargs") (
      write_field p (codes "seq_id") t_struct 1 (write_sequence_id p seq_id)
      ++ (write_field p (codes "key") t_string 2 (p.write_string key)
          ++ (write_field p (codes "value") t_string 3 (p.write_string value)
              ++ p.write_field_stop)))

module _ (p : Protocol) (good : IsFaithful p) where
  async_get_args-Loops :
      (x : AsyncGetArgs) (seq_id : SequenceId) (key : Text)
      → FitsId seq_id
      → FitsText key
      → Loops p good
          (async_get_args_field p)
          x
          (write_field p (codes "seq_id") t_struct 1 (write_sequence_id p seq_id)
            ++ (write_field p (codes "key") t_string 2 (p.write_string key) ++ p.write_field_stop))
          (record { seq_id = seq_id; key = key; isset_seq_id = true; isset_key = true })
  unfolding async_get_args_field
  async_get_args-Loops x seq_id key h0 h1 =
      let one : AsyncGetArgs = record x { seq_id = seq_id; isset_seq_id = true } in
      let two : AsyncGetArgs = record one { key = key; isset_key = true } in
      let end : AsyncGetArgs = record {
        seq_id = seq_id;
        key = key;
        isset_seq_id = true;
        isset_key = true;
      } in
      (Loops-sequence_id p good (async_get_args_field p) (codes "seq_id") 1 x x.seq_id
        (λ v. record x { seq_id = v; isset_seq_id = true }) seq_id _ end (omega arith) refl h0
        (Loops-string p good (async_get_args_field p) (codes "key") 2 one
          (λ v. record one { key = v; isset_key = true }) key _ end (omega arith) refl h1
          (Loops-stop p good (async_get_args_field p) two)))

  pub async_get_args-Parses :
      (x : AsyncGetArgs) (y : AsyncGetArgs)
      → FitsId y.seq_id
      → FitsText y.key
      → Parses
          (read_async_get_args p x)
          (write_async_get_args p y)
          (record { seq_id = y.seq_id; key = y.key; isset_seq_id = true; isset_key = true })
  unfolding read_async_get_args write_async_get_args
  async_get_args-Parses x y h0 h1 =
      struct-Parses p good (async_get_args_field p) (codes "pancake_thrift_async_get_args") x _ _
        (async_get_args-Loops x y.seq_id y.key h0 h1)

  pub async_get_pargs-Parses :
      (x : AsyncGetArgs) (seq_id : SequenceId) (key : Text)
      → FitsId seq_id
      → FitsText key
      → Parses
          (read_async_get_args p x)
          (write_async_get_pargs p seq_id key)
          (record { seq_id = seq_id; key = key; isset_seq_id = true; isset_key = true })
  unfolding read_async_get_args write_async_get_pargs
  async_get_pargs-Parses x seq_id key h0 h1 =
      struct-Parses p good (async_get_args_field p) (codes "pancake_thrift_async_get_pargs") x _ _
        (async_get_args-Loops x seq_id key h0 h1)

  async_put_args-Loops :
      (x : AsyncPutArgs) (seq_id : SequenceId) (key : Text) (value : Text)
      → FitsId seq_id
      → FitsText key
      → FitsText value
      → Loops p good
          (async_put_args_field p)
          x
          (write_field p (codes "seq_id") t_struct 1 (write_sequence_id p seq_id)
            ++ (write_field p (codes "key") t_string 2 (p.write_string key)
                ++ (write_field p (codes "value") t_string 3 (p.write_string value)
                    ++ p.write_field_stop)))
          (record {
            seq_id = seq_id;
            key = key;
            value = value;
            isset_seq_id = true;
            isset_key = true;
            isset_value = true;
          })
  unfolding async_put_args_field
  async_put_args-Loops x seq_id key value h0 h1 h2 =
      let one : AsyncPutArgs = record x { seq_id = seq_id; isset_seq_id = true } in
      let two : AsyncPutArgs = record one { key = key; isset_key = true } in
      let three : AsyncPutArgs = record two { value = value; isset_value = true } in
      let end : AsyncPutArgs = record {
        seq_id = seq_id;
        key = key;
        value = value;
        isset_seq_id = true;
        isset_key = true;
        isset_value = true;
      } in
      (Loops-sequence_id p good (async_put_args_field p) (codes "seq_id") 1 x x.seq_id
        (λ v. record x { seq_id = v; isset_seq_id = true }) seq_id _ end (omega arith) refl h0
        (Loops-string p good (async_put_args_field p) (codes "key") 2 one
          (λ v. record one { key = v; isset_key = true }) key _ end (omega arith) refl h1
          (Loops-string p good (async_put_args_field p) (codes "value") 3 two
            (λ v. record two { value = v; isset_value = true }) value _ end (omega arith) refl h2
            (Loops-stop p good (async_put_args_field p) three))))

  pub async_put_args-Parses :
      (x : AsyncPutArgs) (y : AsyncPutArgs)
      → FitsId y.seq_id
      → FitsText y.key
      → FitsText y.value
      → Parses (read_async_put_args p x) (write_async_put_args p y) (record {
        seq_id = y.seq_id;
        key = y.key;
        value = y.value;
        isset_seq_id = true;
        isset_key = true;
        isset_value = true;
      })
  unfolding read_async_put_args write_async_put_args
  async_put_args-Parses x y h0 h1 h2 =
      struct-Parses p good (async_put_args_field p) (codes "pancake_thrift_async_put_args") x _ _
        (async_put_args-Loops x y.seq_id y.key y.value h0 h1 h2)

  pub async_put_pargs-Parses :
      (x : AsyncPutArgs) (seq_id : SequenceId) (key : Text) (value : Text)
      → FitsId seq_id
      → FitsText key
      → FitsText value
      → Parses (read_async_put_args p x) (write_async_put_pargs p seq_id key value) (record {
        seq_id = seq_id;
        key = key;
        value = value;
        isset_seq_id = true;
        isset_key = true;
        isset_value = true;
      })
  unfolding read_async_put_args write_async_put_pargs
  async_put_pargs-Parses x seq_id key value h0 h1 h2 =
      struct-Parses p good (async_put_args_field p) (codes "pancake_thrift_async_put_pargs") x _ _
        (async_put_args-Loops x seq_id key value h0 h1 h2)
