-- ===== src/Wire/Args/Ids.antt =====
-- service/src/thrift.cpp: the arguments of `get_client_id` and `register_client_id`, with `read` and `write`, and with
-- the `write` of the struct of pointers.
use pancake.Base.Tests.{refl, ℕ, ◌^◌, ◌<◌, Bool, true, ◌++◌, if◌then◌else◌, nat_eqb, arith}
use pancake.Base.Text.{Text, codes}
use pancake.Wire.Protocol.{Protocol, IsFaithful, t_i32, t_i64}
use pancake.Wire.Reading.{
  Read, ◌>>=◌, done, lib, read_struct, expect, ignore, write_field, write_struct,
}
use pancake.Wire.Parsing.{Parses}
use pancake.Wire.Structs.{Loops-i32, Loops-i64, Loops, Loops-stop, struct-Parses}

-- `pancake_thrift_get_client_id_args`, which has no field
abbrev pub GetClientIdArgs : Type 0
GetClientIdArgs = Unit {0}

-- `pancake_thrift_register_client_id_args`, with its `__isset`
pub record RegisterClientIdArgs : Type 0 where
  pub block_id : ℕ
  pub client_id : ℕ
  pub isset_block_id : Bool
  pub isset_client_id : Bool

module _ (p : Protocol) where
  -- `pancake_thrift_get_client_id_args::read`
  unfoldable pub get_client_id_args_field : ℕ → ℕ → GetClientIdArgs → Read GetClientIdArgs
  unfolding expect ignore
  get_client_id_args_field type id x = ignore p type x

  unfoldable pub read_get_client_id_args : GetClientIdArgs → Read GetClientIdArgs
  unfolding get_client_id_args_field
  read_get_client_id_args = read_struct p get_client_id_args_field

  unfoldable pub write_get_client_id_args : GetClientIdArgs → Text
  write_get_client_id_args x =
      write_struct p (codes "pancake_thrift_get_client_id_args") p.write_field_stop

  -- `pancake_thrift_get_client_id_pargs::write`
  unfoldable pub write_get_client_id_pargs : Text
  write_get_client_id_pargs =
      write_struct p (codes "pancake_thrift_get_client_id_pargs") p.write_field_stop

  -- `pancake_thrift_register_client_id_args::read`
  unfoldable pub register_client_id_args_field :
      ℕ → ℕ → RegisterClientIdArgs → Read RegisterClientIdArgs
  unfolding expect ignore
  register_client_id_args_field type id x =
      if nat_eqb id 1
      then expect p type t_i32
          (lib p.read_i32 >>= λ v. done (record x { block_id = v; isset_block_id = true })) x
      else if nat_eqb id 2
      then expect p type t_i64
          (lib p.read_i64 >>= λ v. done (record x { client_id = v; isset_client_id = true })) x
      else ignore p type x

  unfoldable pub read_register_client_id_args : RegisterClientIdArgs → Read RegisterClientIdArgs
  unfolding register_client_id_args_field
  read_register_client_id_args = read_struct p register_client_id_args_field

  unfoldable pub write_register_client_id_args : RegisterClientIdArgs → Text
  write_register_client_id_args x =
      write_struct p (codes "pancake_thrift_register_client_id_args") (
        write_field p (codes "block_id") t_i32 1 (p.write_i32 x.block_id)
        ++ (write_field p (codes "client_id") t_i64 2 (p.write_i64 x.client_id)
            ++ p.write_field_stop))

  -- `pancake_thrift_register_client_id_pargs::write`, on what it points to
  unfoldable pub write_register_client_id_pargs : ℕ → ℕ → Text
  write_register_client_id_pargs block_id client_id =
      write_struct p (codes "pancake_thrift_register_client_id_pargs") (
        write_field p (codes "block_id") t_i32 1 (p.write_i32 block_id)
        ++ (write_field p (codes "client_id") t_i64 2 (p.write_i64 client_id)
            ++ p.write_field_stop))

module _ (p : Protocol) (good : IsFaithful p) where
  get_client_id_args-Loops :
      (x : GetClientIdArgs) → Loops p good (get_client_id_args_field p) x p.write_field_stop x
  get_client_id_args-Loops x = Loops-stop p good (get_client_id_args_field p) x

  pub get_client_id_args-Parses :
      (x : GetClientIdArgs) (y : GetClientIdArgs)
      → Parses (read_get_client_id_args p x) (write_get_client_id_args p y) (x)
  unfolding read_get_client_id_args write_get_client_id_args
  get_client_id_args-Parses x y =
      struct-Parses p good (get_client_id_args_field p) (codes "pancake_thrift_get_client_id_args")
        x _ _ (get_client_id_args-Loops x)

  pub get_client_id_pargs-Parses :
      (x : GetClientIdArgs) → Parses (read_get_client_id_args p x) (write_get_client_id_pargs p) (x)
  unfolding read_get_client_id_args write_get_client_id_pargs
  get_client_id_pargs-Parses x =
      struct-Parses p good (get_client_id_args_field p) (codes "pancake_thrift_get_client_id_pargs")
        x _ _ (get_client_id_args-Loops x)

  register_client_id_args-Loops :
      (x : RegisterClientIdArgs) (block_id : ℕ) (client_id : ℕ)
      → block_id < 2 ^ 32
      → client_id < 2 ^ 64
      → Loops p good
          (register_client_id_args_field p)
          x
          (write_field p (codes "block_id") t_i32 1 (p.write_i32 block_id)
            ++ (write_field p (codes "client_id") t_i64 2 (p.write_i64 client_id)
                ++ p.write_field_stop))
          (record {
            block_id = block_id;
            client_id = client_id;
            isset_block_id = true;
            isset_client_id = true;
          })
  unfolding register_client_id_args_field
  register_client_id_args-Loops x block_id client_id h0 h1 =
      let one : RegisterClientIdArgs = record x { block_id = block_id; isset_block_id = true } in
      let two : RegisterClientIdArgs = record one {
        client_id = client_id;
        isset_client_id = true;
      } in
      let end : RegisterClientIdArgs = record {
        block_id = block_id;
        client_id = client_id;
        isset_block_id = true;
        isset_client_id = true;
      } in
      (Loops-i32 p good (register_client_id_args_field p) (codes "block_id") 1 x
        (λ v. record x { block_id = v; isset_block_id = true }) block_id _ end (omega arith) refl h0
        (Loops-i64 p good (register_client_id_args_field p) (codes "client_id") 2 one
          (λ v. record one { client_id = v; isset_client_id = true }) client_id _ end (omega arith)
          refl h1 (Loops-stop p good (register_client_id_args_field p) two)))

  pub register_client_id_args-Parses :
      (x : RegisterClientIdArgs) (y : RegisterClientIdArgs)
      → y.block_id < 2 ^ 32
      → y.client_id < 2 ^ 64
      → Parses (read_register_client_id_args p x) (write_register_client_id_args p y) (record {
        block_id = y.block_id;
        client_id = y.client_id;
        isset_block_id = true;
        isset_client_id = true;
      })
  unfolding read_register_client_id_args write_register_client_id_args
  register_client_id_args-Parses x y h0 h1 =
      struct-Parses p good (register_client_id_args_field p)
        (codes "pancake_thrift_register_client_id_args") x _ _
        (register_client_id_args-Loops x y.block_id y.client_id h0 h1)

  pub register_client_id_pargs-Parses :
      (x : RegisterClientIdArgs) (block_id : ℕ) (client_id : ℕ)
      → block_id < 2 ^ 32
      → client_id < 2 ^ 64
      → Parses
          (read_register_client_id_args p x)
          (write_register_client_id_pargs p block_id client_id)
          (record {
            block_id = block_id;
            client_id = client_id;
            isset_block_id = true;
            isset_client_id = true;
          })
  unfolding read_register_client_id_args write_register_client_id_pargs
  register_client_id_pargs-Parses x block_id client_id h0 h1 =
      struct-Parses p good (register_client_id_args_field p)
        (codes "pancake_thrift_register_client_id_pargs") x _ _
        (register_client_id_args-Loops x block_id client_id h0 h1)
