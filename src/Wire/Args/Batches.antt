-- ===== src/Wire/Args/Batches.antt =====
-- service/src/thrift.cpp: the arguments of `get_batch` and `put_batch`, with `read` and `write`, and with
-- the `write` of the struct of pointers.
use pancake.Base.Tests.{refl, ℕ, Bool, true, List, ◌++◌, if◌then◌else◌, nat_eqb, arith}
use pancake.Base.Text.{Text, codes}
use pancake.Wire.Protocol.{Protocol, IsFaithful, t_list}
use pancake.Wire.Reading.{
  Read, ◌>>=◌, done, read_struct, expect, ignore, read_list, write_list, write_field, write_struct,
}
use pancake.Wire.Parsing.{Parses}
use pancake.Wire.Structs.{FitsTexts, Loops-list, Loops, Loops-stop, struct-Parses}

-- `pancake_thrift_get_batch_args`, with its `__isset`
pub record GetBatchArgs : Type 0 where
  pub keys : List Text
  pub isset_keys : Bool

-- `pancake_thrift_put_batch_args`, with its `__isset`
pub record PutBatchArgs : Type 0 where
  pub keys : List Text
  pub values : List Text
  pub isset_keys : Bool
  pub isset_values : Bool

module _ (p : Protocol) where
  -- `pancake_thrift_get_batch_args::read`
  unfoldable pub get_batch_args_field : ℕ → ℕ → GetBatchArgs → Read GetBatchArgs
  unfolding expect ignore
  get_batch_args_field type id x =
      if nat_eqb id 1
      then expect p type t_list
          (read_list p >>= λ v. done (record x { keys = v; isset_keys = true })) x
      else ignore p type x

  unfoldable pub read_get_batch_args : GetBatchArgs → Read GetBatchArgs
  unfolding get_batch_args_field
  read_get_batch_args = read_struct p get_batch_args_field

  unfoldable pub write_get_batch_args : GetBatchArgs → Text
  write_get_batch_args x =
      write_struct p (codes "pancake_thrift_get_batch_args")
        (write_field p (codes "keys") t_list 1 (write_list p x.keys) ++ p.write_field_stop)

  -- `pancake_thrift_get_batch_pargs::write`, on what it points to
  unfoldable pub write_get_batch_pargs : List Text → Text
  write_get_batch_pargs keys =
      write_struct p (codes "pancake_thrift_get_batch_pargs")
        (write_field p (codes "keys") t_list 1 (write_list p keys) ++ p.write_field_stop)

  -- `pancake_thrift_put_batch_args::read`
  unfoldable pub put_batch_args_field : ℕ → ℕ → PutBatchArgs → Read PutBatchArgs
  unfolding expect ignore
  put_batch_args_field type id x =
      if nat_eqb id 1
      then expect p type t_list
          (read_list p >>= λ v. done (record x { keys = v; isset_keys = true })) x
      else if nat_eqb id 2
      then expect p type t_list
          (read_list p >>= λ v. done (record x { values = v; isset_values = true })) x
      else ignore p type x

  unfoldable pub read_put_batch_args : PutBatchArgs → Read PutBatchArgs
  unfolding put_batch_args_field
  read_put_batch_args = read_struct p put_batch_args_field

  unfoldable pub write_put_batch_args : PutBatchArgs → Text
  write_put_batch_args x = write_struct p (codes "pancake_thrift_put_batch_args") (
      write_field p (codes "keys") t_list 1 (write_list p x.keys)
      ++ (write_field p (codes "values") t_list 2 (write_list p x.values) ++ p.write_field_stop))

  -- `pancake_thrift_put_batch_pargs::write`, on what it points to
  unfoldable pub write_put_batch_pargs : List Text → List Text → Text
  write_put_batch_pargs keys values = write_struct p (codes "pancake_thrift_put_batch_pargs") (
      write_field p (codes "keys") t_list 1 (write_list p keys)
      ++ (write_field p (codes "values") t_list 2 (write_list p values) ++ p.write_field_stop))

module _ (p : Protocol) (good : IsFaithful p) where
  get_batch_args-Loops :
      (x : GetBatchArgs) (keys : List Text)
      → FitsTexts keys
      → Loops p good
          (get_batch_args_field p)
          x
          (write_field p (codes "keys") t_list 1 (write_list p keys) ++ p.write_field_stop)
          (record { keys = keys; isset_keys = true })
  unfolding get_batch_args_field
  get_batch_args-Loops x keys h0 =
      let one : GetBatchArgs = record x { keys = keys; isset_keys = true } in
      let end : GetBatchArgs = record { keys = keys; isset_keys = true } in
      (Loops-list p good (get_batch_args_field p) (codes "keys") 1 x
        (λ v. record x { keys = v; isset_keys = true }) keys _ end (omega arith) refl h0
        (Loops-stop p good (get_batch_args_field p) one))

  pub get_batch_args-Parses :
      (x : GetBatchArgs) (y : GetBatchArgs)
      → FitsTexts y.keys
      → Parses
          (read_get_batch_args p x)
          (write_get_batch_args p y)
          (record { keys = y.keys; isset_keys = true })
  unfolding read_get_batch_args write_get_batch_args
  get_batch_args-Parses x y h0 =
      struct-Parses p good (get_batch_args_field p) (codes "pancake_thrift_get_batch_args") x _ _
        (get_batch_args-Loops x y.keys h0)

  pub get_batch_pargs-Parses :
      (x : GetBatchArgs) (keys : List Text)
      → FitsTexts keys
      → Parses
          (read_get_batch_args p x)
          (write_get_batch_pargs p keys)
          (record { keys = keys; isset_keys = true })
  unfolding read_get_batch_args write_get_batch_pargs
  get_batch_pargs-Parses x keys h0 =
      struct-Parses p good (get_batch_args_field p) (codes "pancake_thrift_get_batch_pargs") x _ _
        (get_batch_args-Loops x keys h0)

  put_batch_args-Loops :
      (x : PutBatchArgs) (keys : List Text) (values : List Text)
      → FitsTexts keys
      → FitsTexts values
      → Loops p good
          (put_batch_args_field p)
          x
          (write_field p (codes "keys") t_list 1 (write_list p keys)
            ++ (write_field p (codes "values") t_list 2 (write_list p values)
                ++ p.write_field_stop))
          (record { keys = keys; values = values; isset_keys = true; isset_values = true })
  unfolding put_batch_args_field
  put_batch_args-Loops x keys values h0 h1 =
      let one : PutBatchArgs = record x { keys = keys; isset_keys = true } in
      let two : PutBatchArgs = record one { values = values; isset_values = true } in
      let end : PutBatchArgs = record {
        keys = keys;
        values = values;
        isset_keys = true;
        isset_values = true;
      } in
      (Loops-list p good (put_batch_args_field p) (codes "keys") 1 x
        (λ v. record x { keys = v; isset_keys = true }) keys _ end (omega arith) refl h0
        (Loops-list p good (put_batch_args_field p) (codes "values") 2 one
          (λ v. record one { values = v; isset_values = true }) values _ end (omega arith) refl h1
          (Loops-stop p good (put_batch_args_field p) two)))

  pub put_batch_args-Parses :
      (x : PutBatchArgs) (y : PutBatchArgs)
      → FitsTexts y.keys
      → FitsTexts y.values
      → Parses
          (read_put_batch_args p x)
          (write_put_batch_args p y)
          (record { keys = y.keys; values = y.values; isset_keys = true; isset_values = true })
  unfolding read_put_batch_args write_put_batch_args
  put_batch_args-Parses x y h0 h1 =
      struct-Parses p good (put_batch_args_field p) (codes "pancake_thrift_put_batch_args") x _ _
        (put_batch_args-Loops x y.keys y.values h0 h1)

  pub put_batch_pargs-Parses :
      (x : PutBatchArgs) (keys : List Text) (values : List Text)
      → FitsTexts keys
      → FitsTexts values
      → Parses
          (read_put_batch_args p x)
          (write_put_batch_pargs p keys values)
          (record { keys = keys; values = values; isset_keys = true; isset_values = true })
  unfolding read_put_batch_args write_put_batch_pargs
  put_batch_pargs-Parses x keys values h0 h1 =
      struct-Parses p good (put_batch_args_field p) (codes "pancake_thrift_put_batch_pargs") x _ _
        (put_batch_args-Loops x keys values h0 h1)
