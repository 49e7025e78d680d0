-- ===== src/Storage/Rocksdb.antt =====
-- libstorage/src/rocksdb.h and rocksdb.cpp. `ssdb::Client` is a library from outside.
pub mod Contract
use pancake.Base.Tests.{
  ℕ, ◌%◌, ◌≡◌, Bool, Option, none, some, List, [], ◌∷◌, ◌++◌, if◌then◌else◌, nat_eqb,
}
use pancake.Base.Lists.{length, set}
use pancake.Base.Text.{Text, text_eqb}
use pancake.Base.Run.{Run, ok, fault, aborted, thrown, out_of_range, division_by_zero, ◌>>=◌, at}

-- `ssdb::Status`, with the code of a failure
pub data Status : Type 0 where
  done : Status
  failed : Text → Status

pub record Ssdb : Type 1 where
  pub Client : Type 0
  -- a null pointer is `none`
  pub connect : Text → ℕ → Option Client
  pub get : Text → Client → Status × Text
  pub set : Text → Text → Client → Status × Client
  -- what the server behind a client holds
  pub stored : Client → Text → Option Text

-- The documented behaviour of a server that can be reached.
pub record Serves (s : Ssdb) : Type 0 where
  pub get-stored :
      (c : s.Client) (k v : Text) → s.stored c k ≡ some v → s.get k c ≡ (Status.done, v)
  pub set-done : (c : s.Client) (k v : Text) → (s.set k v c).0 ≡ Status.done
  pub stored-set :
      (c : s.Client) (k v j : Text)
      → s.stored (s.set k v c).1 j ≡ (if text_eqb k j then some v else s.stored c j)

module _ (s : Ssdb) (hash : Text → ℕ) where
  open s use {Client}

  -- the member `clients`
  abbrev pub Rocksdb : Type 0
  Rocksdb = List Client

  unfoldable pub add_server : Text → ℕ → Rocksdb → Run Rocksdb
  add_server host_name port clients = elim (s.connect host_name port) [
    | none ↦ fault aborted
    | some c ↦ ok (clients ++ c ∷ [])
  ]

  -- the constructor
  unfoldable pub rocksdb : Text → ℕ → Run Rocksdb
  unfolding add_server
  rocksdb host_name port = add_server host_name port []

  -- `hash(key) % clients.size()`
  unfoldable pub server_index : Text → Rocksdb → Run ℕ
  server_index key clients =
      if nat_eqb (length clients) 0 then fault division_by_zero else ok (hash key % length clients)

  status_or_throw : {A : Type 0} → Status → A → Run A
  status_or_throw done a = ok a
  status_or_throw (failed code) a = fault (thrown code)

  unfoldable pub get : Text → Rocksdb → Run Text
  unfolding server_index status_or_throw
  get key clients = do
    idx ← server_index key clients
    c ← at clients idx
    let (status, val) = s.get key c
    status_or_throw status val

  unfoldable pub put : Text → Text → Rocksdb → Run Rocksdb
  unfolding server_index status_or_throw
  put key value clients = do
    idx ← server_index key clients
    c ← at clients idx
    let (status, c') = s.set key value c
    status_or_throw status (set clients idx c')

  unfoldable pub get_batch : List Text → Rocksdb → Run (List Text)
  unfolding get
  get_batch [] clients = ok []
  get_batch (key ∷ keys) clients = do
    val ← get key clients
    rest ← get_batch keys clients
    ok (val ∷ rest)

  -- `values[i]`, walked along with the keys
  unfoldable pub put_batch : List Text → List Text → Rocksdb → Run Rocksdb
  unfolding put
  put_batch [] values clients = ok clients
  put_batch (key ∷ keys) [] clients = fault out_of_range
  put_batch (key ∷ keys) (value ∷ values) clients = put key value clients >>= put_batch keys values
