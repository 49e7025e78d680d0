-- ===== src/Wire/Args/Sync.antt =====
-- service/src/thrift.cpp: the arguments of `get` and `put`, with `read` and `write`, and with
-- the `write` of the struct of pointers.
use pancake.Base.Tests.{refl, ℕ, Bool, true, ◌++◌, if◌then◌else◌, nat_eqb, arith}
use pancake.Base.Text.{Text, codes}
use pancake.Wire.Protocol.{Protocol, IsFaithful, t_string}
use pancake.Wire.Reading.{
  Read, ◌>>=◌, done, lib, read_struct, expect, ignore, write_field, write_struct,
}
use pancake.Wire.Parsing.{Parses}
use pancake.Wire.Structs.{FitsText, Loops-string, Loops, Loops-stop, struct-Parses}

-- `pancake_thrift_get_args`, with its `__isset`
pub record GetArgs : Type 0 where
  pub key : Text
  pub isset_key : Bool

-- `pancake_thrift_put_args`, with its `__isset`
pub record PutArgs : Type 0 where
  pub key : Text
  pub value : Text
  pub isset_key : Bool
  pub isset_value : Bool

module _ (p : Protocol) where
  -- `pancake_thrift_get_args::read`
  unfoldable pub get_args_field : ℕ → ℕ → GetArgs → Read GetArgs
  unfolding expect ignore
  get_args_field type id x =
      if nat_eqb id 1
      then expect p type t_string
          (lib p.read_string >>= λ v. done (record x { key = v; isset_key = true })) x
      else ignore p type x

  unfoldable pub read_get_args : GetArgs → Read GetArgs
  unfolding get_args_field
  read_get_args = read_struct p get_args_field

  unfoldable pub write_get_args : GetArgs → Text
  write_get_args x =
      write_struct p (codes "pancake_thrift_get_args")
        (write_field p (codes "key") t_string 1 (p.write_string x.key) ++ p.write_field_stop)

  -- `pancake_thrift_get_pargs::write`, on what it points to
  unfoldable pub write_get_pargs : Text → Text
  write_get_pargs key =
      write_struct p (codes "pancake_thrift_get_pargs")
        (write_field p (codes "key") t_string 1 (p.write_string key) ++ p.write_field_stop)

  -- `pancake_thrift_put_args::read`
  unfoldable pub put_args_field : ℕ → ℕ → PutArgs → Read PutArgs
  unfolding expect ignore
  put_args_field type id x =
      if nat_eqb id 1
      then expect p type t_string
          (lib p.read_string >>= λ v. done (record x { key = v; isset_key = true })) x
      else if nat_eqb id 2
      then expect p type t_string
          (lib p.read_string >>= λ v. done (record x { value = v; isset_value = true })) x
      else ignore p type x

  unfoldable pub read_put_args : PutArgs → Read PutArgs
  unfolding put_args_field
  read_put_args = read_struct p put_args_field

  unfoldable pub write_put_args : PutArgs → Text
  write_put_args x = write_struct p (codes "pancake_thrift_put_args") (
      write_field p (codes "key") t_string 1 (p.write_string x.key)
      ++ (write_field p (codes "value") t_string 2 (p.write_string x.value) ++ p.write_field_stop))

  -- `pancake_thrift_put_pargs::write`, on what it points to
  unfoldable pub write_put_pargs : Text → Text → Text
  write_put_pargs key value = write_struct p (codes "pancake_thrift_put_pargs") (
      write_field p (codes "key") t_string 1 (p.write_string key)
      ++ (write_field p (codes "value") t_string 2 (p.write_string value) ++ p.write_field_stop))

module _ (p : Protocol) (good : IsFaithful p) where
  get_args-Loops :
      (x : GetArgs) (key : Text)
      → FitsText key
      → Loops p good
          (get_args_field p)
          x
          (write_field p (codes "key") t_string 1 (p.write_string key) ++ p.write_field_stop)
          (record { key = key; isset_key = true })
  unfolding get_args_field
  get_args-Loops x key h0 =
      let one : GetArgs = record x { key = key; isset_key = true } in
      let end : GetArgs = record { key = key; isset_key = true } in
      (Loops-string p good (get_args_field p) (codes "key") 1 x
        (λ v. record x { key = v; isset_key = true }) key _ end (omega arith) refl h0
        (Loops-stop p good (get_args_field p) one))

  pub get_args-Parses :
      (x : GetArgs) (y : GetArgs)
      → FitsText y.key
      → Parses (read_get_args p x) (write_get_args p y) (record { key = y.key; isset_key = true })
  unfolding read_get_args write_get_args
  get_args-Parses x y h0 =
      struct-Parses p good (get_args_field p) (codes "pancake_thrift_get_args") x _ _
        (get_args-Loops x y.key h0)

  pub get_pargs-Parses :
      (x : GetArgs) (key : Text)
      → FitsText key
      → Parses (read_get_args p x) (write_get_pargs p key) (record { key = key; isset_key = true })
  unfolding read_get_args write_get_pargs
  get_pargs-Parses x key h0 =
      struct-Parses p good (get_args_field p) (codes "pancake_thrift_get_pargs") x _ _
        (get_args-Loops x key h0)

  put_args-Loops :
      (x : PutArgs) (key : Text) (value : Text)
      → FitsText key
      → FitsText value
      → Loops p good
          (put_args_field p)
          x
          (write_field p (codes "key") t_string 1 (p.write_string key)
            ++ (write_field p (codes "value") t_string 2 (p.write_string value)
                ++ p.write_field_stop))
          (record { key = key; value = value; isset_key = true; isset_value = true })
  unfolding put_args_field
  put_args-Loops x key value h0 h1 =
      let one : PutArgs = record x { key = key; isset_key = true } in
      let two : PutArgs = record one { value = value; isset_value = true } in
      let end : PutArgs = record {
        key = key;
        value = value;
        isset_key = true;
        isset_value = true;
      } in
      (Loops-string p good (put_args_field p) (codes "key") 1 x
        (λ v. record x { key = v; isset_key = true }) key _ end (omega arith) refl h0
        (Loops-string p good (put_args_field p) (codes "value") 2 one
          (λ v. record one { value = v; isset_value = true }) value _ end (omega arith) refl h1
          (Loops-stop p good (put_args_field p) two)))

  pub put_args-Parses :
      (x : PutArgs) (y : PutArgs)
      → FitsText y.key
      → FitsText y.value
      → Parses
          (read_put_args p x)
          (write_put_args p y)
          (record { key = y.key; value = y.value; isset_key = true; isset_value = true })
  unfolding read_put_args write_put_args
  put_args-Parses x y h0 h1 =
      struct-Parses p good (put_args_field p) (codes "pancake_thrift_put_args") x _ _
        (put_args-Loops x y.key y.value h0 h1)

  pub put_pargs-Parses :
      (x : PutArgs) (key : Text) (value : Text)
      → FitsText key
      → FitsText value
      → Parses
          (read_put_args p x)
          (write_put_pargs p key value)
          (record { key = key; value = value; isset_key = true; isset_value = true })
  unfolding read_put_args write_put_pargs
  put_pargs-Parses x key value h0 h1 =
      struct-Parses p good (put_args_field p) (codes "pancake_thrift_put_pargs") x _ _
        (put_args-Loops x key value h0 h1)
