-- ===== src/Wire/Args/Acks.antt =====
-- service/src/thrift.cpp: the results of the calls that return nothing, with their `read` and `write`.
use pancake.Base.Tests.{ℕ}
use pancake.Base.Text.{Text, codes}
use pancake.Wire.Protocol.{Protocol, IsFaithful}
use pancake.Wire.Reading.{Read, read_struct, expect, ignore, write_struct}
use pancake.Wire.Parsing.{Parses}
use pancake.Wire.Structs.{Loops, Loops-stop, struct-Parses}

-- `pancake_thrift_register_client_id_result`, which has no field
abbrev pub RegisterClientIdResult : Type 0
RegisterClientIdResult = Unit {0}

-- `pancake_thrift_put_result`, which has no field
abbrev pub PutResult : Type 0
PutResult = Unit {0}

-- `pancake_thrift_put_batch_result`, which has no field
abbrev pub PutBatchResult : Type 0
PutBatchResult = Unit {0}

module _ (p : Protocol) where
  -- `pancake_thrift_register_client_id_result::read`
  unfoldable pub register_client_id_result_field :
      ℕ → ℕ → RegisterClientIdResult → Read RegisterClientIdResult
  unfolding expect ignore
  register_client_id_result_field type id x = ignore p type x

  unfoldable pub read_register_client_id_result :
      RegisterClientIdResult → Read RegisterClientIdResult
  unfolding register_client_id_result_field
  read_register_client_id_result = read_struct p register_client_id_result_field

  -- `pancake_thrift_register_client_id_presult::read`, whose `success` is the variable that it points to
  unfoldable pub read_register_client_id_presult :
      RegisterClientIdResult → Read RegisterClientIdResult
  unfolding register_client_id_result_field
  read_register_client_id_presult = read_struct p register_client_id_result_field

  unfoldable pub write_register_client_id_result : RegisterClientIdResult → Text
  write_register_client_id_result x =
      write_struct p (codes "pancake_thrift_register_client_id_result") p.write_field_stop

  -- `pancake_thrift_put_result::read`
  unfoldable pub put_result_field : ℕ → ℕ → PutResult → Read PutResult
  unfolding expect ignore
  put_result_field type id x = ignore p type x

  unfoldable pub read_put_result : PutResult → Read PutResult
  unfolding put_result_field
  read_put_result = read_struct p put_result_field

  -- `pancake_thrift_put_presult::read`, whose `success` is the variable that it points to
  unfoldable pub read_put_presult : PutResult → Read PutResult
  unfolding put_result_field
  read_put_presult = read_struct p put_result_field

  unfoldable pub write_put_result : PutResult → Text
  write_put_result x = write_struct p (codes "pancake_thrift_put_result") p.write_field_stop

  -- `pancake_thrift_put_batch_result::read`
  unfoldable pub put_batch_result_field : ℕ → ℕ → PutBatchResult → Read PutBatchResult
  unfolding expect ignore
  put_batch_result_field type id x = ignore p type x

  unfoldable pub read_put_batch_result : PutBatchResult → Read PutBatchResult
  unfolding put_batch_result_field
  read_put_batch_result = read_struct p put_batch_result_field

  -- `pancake_thrift_put_batch_presult::read`, whose `success` is the variable that it points to
  unfoldable pub read_put_batch_presult : PutBatchResult → Read PutBatchResult
  unfolding put_batch_result_field
  read_put_batch_presult = read_struct p put_batch_result_field

  unfoldable pub write_put_batch_result : PutBatchResult → Text
  write_put_batch_result x =
      write_struct p (codes "pancake_thrift_put_batch_result") p.write_field_stop

module _ (p : Protocol) (good : IsFaithful p) where
  register_client_id_result-Loops :
      (x : RegisterClientIdResult)
      → Loops p good (register_client_id_result_field p) x p.write_field_stop x
  register_client_id_result-Loops x = Loops-stop p good (register_client_id_result_field p) x

  pub register_client_id_result-Parses :
      (x : RegisterClientIdResult) (y : RegisterClientIdResult)
      → Parses (read_register_client_id_result p x) (write_register_client_id_result p y) (x)
  unfolding read_register_client_id_result write_register_client_id_result
  register_client_id_result-Parses x y =
      struct-Parses p good (register_client_id_result_field p)
        (codes "pancake_thrift_register_client_id_result") x _ _ (register_client_id_result-Loops x)

  pub register_client_id_presult-Parses :
      (x : RegisterClientIdResult) (y : RegisterClientIdResult)
      → Parses (read_register_client_id_presult p x) (write_register_client_id_result p y) (x)
  unfolding read_register_client_id_presult write_register_client_id_result
  register_client_id_presult-Parses x y =
      struct-Parses p good (register_client_id_result_field p)
        (codes "pancake_thrift_register_client_id_result") x _ _ (register_client_id_result-Loops x)

  put_result-Loops : (x : PutResult) → Loops p good (put_result_field p) x p.write_field_stop x
  put_result-Loops x = Loops-stop p good (put_result_field p) x

  pub put_result-Parses :
      (x : PutResult) (y : PutResult) → Parses (read_put_result p x) (write_put_result p y) (x)
  unfolding read_put_result write_put_result
  put_result-Parses x y =
      struct-Parses p good (put_result_field p) (codes "pancake_thrift_put_result") x _ _
        (put_result-Loops x)

  pub put_presult-Parses :
      (x : PutResult) (y : PutResult) → Parses (read_put_presult p x) (write_put_result p y) (x)
  unfolding read_put_presult write_put_result
  put_presult-Parses x y =
      struct-Parses p good (put_result_field p) (codes "pancake_thrift_put_result") x _ _
        (put_result-Loops x)

  put_batch_result-Loops :
      (x : PutBatchResult) → Loops p good (put_batch_result_field p) x p.write_field_stop x
  put_batch_result-Loops x = Loops-stop p good (put_batch_result_field p) x

  pub put_batch_result-Parses :
      (x : PutBatchResult) (y : PutBatchResult)
      → Parses (read_put_batch_result p x) (write_put_batch_result p y) (x)
  unfolding read_put_batch_result write_put_batch_result
  put_batch_result-Parses x y =
      struct-Parses p good (put_batch_result_field p) (codes "pancake_thrift_put_batch_result") x _
        _ (put_batch_result-Loops x)

  pub put_batch_presult-Parses :
      (x : PutBatchResult) (y : PutBatchResult)
      → Parses (read_put_batch_presult p x) (write_put_batch_result p y) (x)
  unfolding read_put_batch_presult write_put_batch_result
  put_batch_presult-Parses x y =
      struct-Parses p good (put_batch_result_field p) (codes "pancake_thrift_put_batch_result") x _
        _ (put_batch_result-Loops x)
