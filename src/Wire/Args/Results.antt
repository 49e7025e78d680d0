-- ===== src/Wire/Args/Results.antt =====
-- service/src/thrift.cpp: the results of the calls that return a value, with their `read` and `write`.
use pancake.Base.Tests.{refl, ℕ, ◌^◌, ◌<◌, Bool, true, List, ◌++◌, if◌then◌else◌, nat_eqb, arith}
use pancake.Base.Text.{Text, codes}
use pancake.Wire.Protocol.{Protocol, IsFaithful, t_i64, t_string, t_list}
use pancake.Wire.Reading.{
  Read, ◌>>=◌, done, lib, read_struct, expect, ignore, read_list, write_list, write_field,
  write_struct,
}
use pancake.Wire.Parsing.{Parses}
use pancake.Wire.Structs.{
  FitsText, FitsTexts, Loops-i64, Loops-string, Loops-list, Loops, Loops-stop, struct-Parses,
}

-- `pancake_thrift_get_client_id_result`, with its `__isset`
pub record GetClientIdResult : Type 0 where
  pub success : ℕ
  pub isset_success : Bool

-- `pancake_thrift_get_result`, with its `__isset`
pub record GetResult : Type 0 where
  pub success : Text
  pub isset_success : Bool

-- `pancake_thrift_get_batch_result`, with its `__isset`
pub record GetBatchResult : Type 0 where
  pub success : List Text
  pub isset_success : Bool

module _ (p : Protocol) where
  -- `pancake_thrift_get_client_id_result::read`
  unfoldable pub get_client_id_result_field : ℕ → ℕ → GetClientIdResult → Read GetClientIdResult
  unfolding expect ignore
  get_client_id_result_field type id x =
      if nat_eqb id 0
      then expect p type t_i64
          (lib p.read_i64 >>= λ v. done (record x { success = v; isset_success = true })) x
      else ignore p type x

  unfoldable pub read_get_client_id_result : GetClientIdResult → Read GetClientIdResult
  unfolding get_client_id_result_field
  read_get_client_id_result = read_struct p get_client_id_result_field

  -- `pancake_thrift_get_client_id_presult::read`, whose `success` is the variable that it points to
  unfoldable pub read_get_client_id_presult : GetClientIdResult → Read GetClientIdResult
  unfolding get_client_id_result_field
  read_get_client_id_presult = read_struct p get_client_id_result_field

  unfoldable pub write_get_client_id_result : GetClientIdResult → Text
  write_get_client_id_result x = write_struct p (codes "pancake_thrift_get_client_id_result") (
      if x.isset_success
      then (write_field p (codes "success") t_i64 0 (p.write_i64 x.success) ++ p.write_field_stop)
      else p.write_field_stop)

  -- `pancake_thrift_get_result::read`
  unfoldable pub get_result_field : ℕ → ℕ → GetResult → Read GetResult
  unfolding expect ignore
  get_result_field type id x =
      if nat_eqb id 0
      then expect p type t_string
          (lib p.read_string >>= λ v. done (record x { success = v; isset_success = true })) x
      else ignore p type x

  unfoldable pub read_get_result : GetResult → Read GetResult
  unfolding get_result_field
  read_get_result = read_struct p get_result_field

  -- `pancake_thrift_get_presult::read`, whose `success` is the variable that it points to
  unfoldable pub read_get_presult : GetResult → Read GetResult
  unfolding get_result_field
  read_get_presult = read_struct p get_result_field

  unfoldable pub write_get_result : GetResult → Text
  write_get_result x = write_struct p (codes "pancake_thrift_get_result") (
      if x.isset_success
      then (write_field p (codes "success") t_string 0 (p.write_string x.success)
          ++ p.write_field_stop)
      else p.write_field_stop)

  -- `pancake_thrift_get_batch_result::read`
  unfoldable pub get_batch_result_field : ℕ → ℕ → GetBatchResult → Read GetBatchResult
  unfolding expect ignore
  get_batch_result_field type id x =
      if nat_eqb id 0
      then expect p type t_list
          (read_list p >>= λ v. done (record x { success = v; isset_success = true })) x
      else ignore p type x

  unfoldable pub read_get_batch_result : GetBatchResult → Read GetBatchResult
  unfolding get_batch_result_field
  read_get_batch_result = read_struct p get_batch_result_field

  -- `pancake_thrift_get_batch_presult::read`, whose `success` is the variable that it points to
  unfoldable pub read_get_batch_presult : GetBatchResult → Read GetBatchResult
  unfolding get_batch_result_field
  read_get_batch_presult = read_struct p get_batch_result_field

  unfoldable pub write_get_batch_result : GetBatchResult → Text
  write_get_batch_result x = write_struct p (codes "pancake_thrift_get_batch_result") (
      if x.isset_success
      then (write_field p (codes "success") t_list 0 (write_list p x.success) ++ p.write_field_stop)
      else p.write_field_stop)

module _ (p : Protocol) (good : IsFaithful p) where
  get_client_id_result-Loops :
      (x : GetClientIdResult) (success : ℕ)
      → success < 2 ^ 64
      → Loops p good
          (get_client_id_result_field p)
          x
          (write_field p (codes "success") t_i64 0 (p.write_i64 success) ++ p.write_field_stop)
          (record { success = success; isset_success = true })
  unfolding get_client_id_result_field
  get_client_id_result-Loops x success h0 =
      let one : GetClientIdResult = record x { success = success; isset_success = true } in
      let end : GetClientIdResult = record { success = success; isset_success = true } in
      (Loops-i64 p good (get_client_id_result_field p) (codes "success") 0 x
        (λ v. record x { success = v; isset_success = true }) success _ end (omega arith) refl h0
        (Loops-stop p good (get_client_id_result_field p) one))

  pub get_client_id_result-Parses :
      (x : GetClientIdResult) (success : ℕ)
      → success < 2 ^ 64
      → Parses
          (read_get_client_id_result p x)
          (write_get_client_id_result p (record { success = success; isset_success = true }))
          (record { success = success; isset_success = true })
  unfolding read_get_client_id_result write_get_client_id_result
  get_client_id_result-Parses x success h0 =
      struct-Parses p good (get_client_id_result_field p)
        (codes "pancake_thrift_get_client_id_result") x _ _
        (get_client_id_result-Loops x success h0)

  pub get_client_id_presult-Parses :
      (x : GetClientIdResult) (success : ℕ)
      → success < 2 ^ 64
      → Parses
          (read_get_client_id_presult p x)
          (write_get_client_id_result p (record { success = success; isset_success = true }))
          (record { success = success; isset_success = true })
  unfolding read_get_client_id_presult write_get_client_id_result
  get_client_id_presult-Parses x success h0 =
      struct-Parses p good (get_client_id_result_field p)
        (codes "pancake_thrift_get_client_id_result") x _ _
        (get_client_id_result-Loops x success h0)

  get_result-Loops :
      (x : GetResult) (success : Text)
      → FitsText success
      → Loops p good
          (get_result_field p)
          x
          (write_field p (codes "success") t_string 0 (p.write_string success)
            ++ p.write_field_stop)
          (record { success = success; isset_success = true })
  unfolding get_result_field
  get_result-Loops x success h0 =
      let one : GetResult = record x { success = success; isset_success = true } in
      let end : GetResult = record { success = success; isset_success = true } in
      (Loops-string p good (get_result_field p) (codes "success") 0 x
        (λ v. record x { success = v; isset_success = true }) success _ end (omega arith) refl h0
        (Loops-stop p good (get_result_field p) one))

  pub get_result-Parses :
      (x : GetResult) (success : Text)
      → FitsText success
      → Parses
          (read_get_result p x)
          (write_get_result p (record { success = success; isset_success = true }))
          (record { success = success; isset_success = true })
  unfolding read_get_result write_get_result
  get_result-Parses x success h0 =
      struct-Parses p good (get_result_field p) (codes "pancake_thrift_get_result") x _ _
        (get_result-Loops x success h0)

  pub get_presult-Parses :
      (x : GetResult) (success : Text)
      → FitsText success
      → Parses
          (read_get_presult p x)
          (write_get_result p (record { success = success; isset_success = true }))
          (record { success = success; isset_success = true })
  unfolding read_get_presult write_get_result
  get_presult-Parses x success h0 =
      struct-Parses p good (get_result_field p) (codes "pancake_thrift_get_result") x _ _
        (get_result-Loops x success h0)

  get_batch_result-Loops :
      (x : GetBatchResult) (success : List Text)
      → FitsTexts success
      → Loops p good
          (get_batch_result_field p)
          x
          (write_field p (codes "success") t_list 0 (write_list p success) ++ p.write_field_stop)
          (record { success = success; isset_success = true })
  unfolding get_batch_result_field
  get_batch_result-Loops x success h0 =
      let one : GetBatchResult = record x { success = success; isset_success = true } in
      let end : GetBatchResult = record { success = success; isset_success = true } in
      (Loops-list p good (get_batch_result_field p) (codes "success") 0 x
        (λ v. record x { success = v; isset_success = true }) success _ end (omega arith) refl h0
        (Loops-stop p good (get_batch_result_field p) one))

  pub get_batch_result-Parses :
      (x : GetBatchResult) (success : List Text)
      → FitsTexts success
      → Parses
          (read_get_batch_result p x)
          (write_get_batch_result p (record { success = success; isset_success = true }))
          (record { success = success; isset_success = true })
  unfolding read_get_batch_result write_get_batch_result
  get_batch_result-Parses x success h0 =
      struct-Parses p good (get_batch_result_field p) (codes "pancake_thrift_get_batch_result") x _
        _ (get_batch_result-Loops x success h0)

  pub get_batch_presult-Parses :
      (x : GetBatchResult) (success : List Text)
      → FitsTexts success
      → Parses
          (read_get_batch_presult p x)
          (write_get_batch_result p (record { success = success; isset_success = true }))
          (record { success = success; isset_success = true })
  unfolding read_get_batch_presult write_get_batch_result
  get_batch_presult-Parses x success h0 =
      struct-Parses p good (get_batch_result_field p) (codes "pancake_thrift_get_batch_result") x _
        _ (get_batch_result-Loops x success h0)
