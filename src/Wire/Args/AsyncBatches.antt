-- ===== src/Wire/Args/AsyncBatches.antt =====
-- service/src/thrift.cpp: the arguments of `async_get_batch` and `async_put_batch`, with `read` and `write`, and with
-- the `write` of the struct of pointers.
use pancake.Base.Tests.{refl, ℕ, Bool, true, List, ◌++◌, if◌then◌else◌, nat_eqb, arith}
use pancake.Base.Text.{Text, codes}
use pancake.Proxy.Requests.{SequenceId}
use pancake.Wire.Protocol.{Protocol, IsFaithful, t_struct, t_list}
use pancake.Wire.Reading.{
  Read, ◌>>=◌, done, read_struct, expect, ignore, read_list, write_list, write_field, write_struct,
}
use pancake.Wire.Sequence.{read_sequence_id, write_sequence_id, FitsId, Loops-sequence_id}
use pancake.Wire.Parsing.{Parses}
use pancake.Wire.Structs.{FitsTexts, Loops-list, Loops, Loops-stop, struct-Parses}

-- `pancake_thrift_async_get_batch_args`, with its `__isset`
pub record AsyncGetBatchArgs : Type 0 where
  pub seq_id : SequenceId
  pub keys : List Text
  pub isset_seq_id : Bool
  pub isset_keys : Bool

-- `pancake_thrift_async_put_batch_args`, with its `__isset`
pub record AsyncPutBatchArgs : Type 0 where
  pub seq_id : SequenceId
  pub keys : List Text
  pub values : List Text
  pub isset_seq_id : Bool
  pub isset_keys : Bool
  pub isset_values : Bool

module _ (p : Protocol) where
  -- `pancake_thrift_async_get_batch_args::read`
  unfoldable pub async_get_batch_args_field : ℕ → ℕ → AsyncGetBatchArgs → Read AsyncGetBatchArgs
  unfolding expect ignore
  async_get_batch_args_field type id x =
      if nat_eqb id 1
      then expect p type t_struct
          (read_sequence_id p x.seq_id >>= λ v. done (record x { seq_id = v; isset_seq_id = true }))
          x
      else if nat_eqb id 2
      then expect p type t_list
          (read_list p >>= λ v. done (record x { keys = v; isset_keys = true })) x
      else ignore p type x

  unfoldable pub read_async_get_batch_args : AsyncGetBatchArgs → Read AsyncGetBatchArgs
  unfolding async_get_batch_args_field
  read_async_get_batch_args = read_struct p async_get_batch_args_field

  unfoldable pub write_async_get_batch_args : AsyncGetBatchArgs → Text
  write_async_get_batch_args x = write_struct p (codes "pancake_thrift_async_get_batch_args") (
      write_field p (codes "seq_id") t_struct 1 (write_sequence_id p x.seq_id)
      ++ (write_field p (codes "keys") t_list 2 (write_list p x.keys) ++ p.write_field_stop))

  -- `pancake_thrift_async_get_batch_pargs::write`, on what it points to
  unfoldable pub write_async_get_batch_pargs : SequenceId → List Text → Text
  write_async_get_batch_pargs seq_id keys =
      write_struct p (codes "pancake_thrift_async_get_batch_pargs") (
        write_field p (codes "seq_id") t_struct 1 (write_sequence_id p seq_id)
        ++ (write_field p (codes "keys") t_list 2 (write_list p keys) ++ p.write_field_stop))

  -- `pancake_thrift_async_put_batch_args::read`
  unfoldable pub async_put_batch_args_field : ℕ → ℕ → AsyncPutBatchArgs → Read AsyncPutBatchArgs
  unfolding expect ignore
  async_put_batch_args_field type id x =
      if nat_eqb id 1
      then expect p type t_struct
          (read_sequence_id p x.seq_id >>= λ v. done (record x { seq_id = v; isset_seq_id = true }))
          x
      else if nat_eqb id 2
      then expect p type t_list
          (read_list p >>= λ v. done (record x { keys = v; isset_keys = true })) x
      else if nat_eqb id 3
      then expect p type t_list
          (read_list p >>= λ v. done (record x { values = v; isset_values = true })) x
      else ignore p type x

  unfoldable pub read_async_put_batch_args : AsyncPutBatchArgs → Read AsyncPutBatchArgs
  unfolding async_put_batch_args_field
  read_async_put_batch_args = read_struct p async_put_batch_args_field

  unfoldable pub write_async_put_batch_args : AsyncPutBatchArgs → Text
  write_async_put_batch_args x = write_struct p (codes "pancake_thrift_async_put_batch_args") (
      write_field p (codes "seq_id") t_struct 1 (write_sequence_id p x.seq_id)
      ++ (write_field p (codes "keys") t_list 2 (write_list p x.keys)
          ++ (write_field p (codes "values") t_list 3 (write_list p x.values)
              ++ p.write_field_stop)))

  -- `pancake_thrift_async_put_batch_pargs::write`, on what it points to
  unfoldable pub write_async_put_batch_pargs : SequenceId → List Text → List Text → Text
  write_async_put_batch_pargs seq_id keys values =
      write_struct p (codes "pancake_thrift_async_put_batch_pargs") (
        write_field p (codes "seq_id") t_struct 1 (write_sequence_id p seq_id)
        ++ (write_field p (codes "keys") t_list 2 (write_list p keys)
            ++ (write_field p (codes "values") t_list 3 (write_list p values)
                ++ p.write_field_stop)))

module _ (p : Protocol) (good : IsFaithful p) where
  async_get_batch_args-Loops :
      (x : AsyncGetBatchArgs) (seq_id : SequenceId) (keys : List Text)
      → FitsId seq_id
      → FitsTexts keys
      → Loops p good
          (async_get_batch_args_field p)
          x
          (write_field p (codes "seq_id") t_struct 1 (write_sequence_id p seq_id)
            ++ (write_field p (codes "keys") t_list 2 (write_list p keys) ++ p.write_field_stop))
          (record { seq_id = seq_id; keys = keys; isset_seq_id = true; isset_keys = true })
  unfolding async_get_batch_args_field
  async_get_batch_args-Loops x seq_id keys h0 h1 =
      let one : AsyncGetBatchArgs = record x { seq_id = seq_id; isset_seq_id = true } in
      let two : AsyncGetBatchArgs = record one { keys = keys; isset_keys = true } in
      let end : AsyncGetBatchArgs = record {
        seq_id = seq_id;
        keys = keys;
        isset_seq_id = true;
        isset_keys = true;
      } in
      (Loops-sequence_id p good (async_get_batch_args_field p) (codes "seq_id") 1 x x.seq_id
        (λ v. record x { seq_id = v; isset_seq_id = true }) seq_id _ end (omega arith) refl h0
        (Loops-list p good (async_get_batch_args_field p) (codes "keys") 2 one
          (λ v. record one { keys = v; isset_keys = true }) keys _ end (omega arith) refl h1
          (Loops-stop p good (async_get_batch_args_field p) two)))

  pub async_get_batch_args-Parses :
      (x : AsyncGetBatchArgs) (y : AsyncGetBatchArgs)
      → FitsId y.seq_id
      → FitsTexts y.keys
      → Parses
          (read_async_get_batch_args p x)
          (write_async_get_batch_args p y)
          (record { seq_id = y.seq_id; keys = y.keys; isset_seq_id = true; isset_keys = true })
  unfolding read_async_get_batch_args write_async_get_batch_args
  async_get_batch_args-Parses x y h0 h1 =
      struct-Parses p good (async_get_batch_args_field p)
        (codes "pancake_thrift_async_get_batch_args") x _ _
        (async_get_batch_args-Loops x y.seq_id y.keys h0 h1)

  pub async_get_batch_pargs-Parses :
      (x : AsyncGetBatchArgs) (seq_id : SequenceId) (keys : List Text)
      → FitsId seq_id
      → FitsTexts keys
      → Parses
          (read_async_get_batch_args p x)
          (write_async_get_batch_pargs p seq_id keys)
          (record { seq_id = seq_id; keys = keys; isset_seq_id = true; isset_keys = true })
  unfolding read_async_get_batch_args write_async_get_batch_pargs
  async_get_batch_pargs-Parses x seq_id keys h0 h1 =
      struct-Parses p good (async_get_batch_args_field p)
        (codes "pancake_thrift_async_get_batch_pargs") x _ _
        (async_get_batch_args-Loops x seq_id keys h0 h1)

  async_put_batch_args-Loops :
      (x : AsyncPutBatchArgs) (seq_id : SequenceId) (keys : List Text) (values : List Text)
      → FitsId seq_id
      → FitsTexts keys
      → FitsTexts values
      → Loops p good
          (async_put_batch_args_field p)
          x
          (write_field p (codes "seq_id") t_struct 1 (write_sequence_id p seq_id)
            ++ (write_field p (codes "keys") t_list 2 (write_list p keys)
                ++ (write_field p (codes "values") t_list 3 (write_list p values)
                    ++ p.write_field_stop)))
          (record {
            seq_id = seq_id;
            keys = keys;
            values = values;
            isset_seq_id = true;
            isset_keys = true;
            isset_values = true;
          })
  unfolding async_put_batch_args_field
  async_put_batch_args-Loops x seq_id keys values h0 h1 h2 =
      let one : AsyncPutBatchArgs = record x { seq_id = seq_id; isset_seq_id = true } in
      let two : AsyncPutBatchArgs = record one { keys = keys; isset_keys = true } in
      let three : AsyncPutBatchArgs = record two { values = values; isset_values = true } in
      let end : AsyncPutBatchArgs = record {
        seq_id = seq_id;
        keys = keys;
        values = values;
        isset_seq_id = true;
        isset_keys = true;
        isset_values = true;
      } in
      (Loops-sequence_id p good (async_put_batch_args_field p) (codes "seq_id") 1 x x.seq_id
        (λ v. record x { seq_id = v; isset_seq_id = true }) seq_id _ end (omega arith) refl h0
        (Loops-list p good (async_put_batch_args_field p) (codes "keys") 2 one
          (λ v. record one { keys = v; isset_keys = true }) keys _ end (omega arith) refl h1
          (Loops-list p good (async_put_batch_args_field p) (codes "values") 3 two
            (λ v. record two { values = v; isset_values = true }) values _ end (omega arith) refl h2
            (Loops-stop p good (async_put_batch_args_field p) three))))

  pub async_put_batch_args-Parses :
      (x : AsyncPutBatchArgs) (y : AsyncPutBatchArgs)
      → FitsId y.seq_id
      → FitsTexts y.keys
      → FitsTexts y.values
      → Parses (read_async_put_batch_args p x) (write_async_put_batch_args p y) (record {
        seq_id = y.seq_id;
        keys = y.keys;
        values = y.values;
        isset_seq_id = true;
        isset_keys = true;
        isset_values = true;
      })
  unfolding read_async_put_batch_args write_async_put_batch_args
  async_put_batch_args-Parses x y h0 h1 h2 =
      struct-Parses p good (async_put_batch_args_field p)
        (codes "pancake_thrift_async_put_batch_args") x _ _
        (async_put_batch_args-Loops x y.seq_id y.keys y.values h0 h1 h2)

  pub async_put_batch_pargs-Parses :
      (x : AsyncPutBatchArgs) (seq_id : SequenceId) (keys : List Text) (values : List Text)
      → FitsId seq_id
      → FitsTexts keys
      → FitsTexts values
      → Parses
          (read_async_put_batch_args p x)
          (write_async_put_batch_pargs p seq_id keys values)
          (record {
            seq_id = seq_id;
            keys = keys;
            values = values;
            isset_seq_id = true;
            isset_keys = true;
            isset_values = true;
          })
  unfolding read_async_put_batch_args write_async_put_batch_pargs
  async_put_batch_pargs-Parses x seq_id keys values h0 h1 h2 =
      struct-Parses p good (async_put_batch_args_field p)
        (codes "pancake_thrift_async_put_batch_pargs") x _ _
        (async_put_batch_args-Loops x seq_id keys values h0 h1 h2)
