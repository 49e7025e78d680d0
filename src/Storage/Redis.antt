-- ===== src/Storage/Redis.antt =====
-- libstorage/src/redis.h and redis.cpp. `cpp_redis::client` is a library from outside: a command is
-- queued, `commit` sends the queue, and a future yields the reply. All commands of a call are
-- committed before the first reply is read, so a command here gives its reply at once.
pub mod Replies
pub mod Contract
use pancake.Base.Tests.{
  ℕ, zero, suc, ◌+◌, ◌%◌, ◌≡◌, Bool, Option, none, some, List, [], ◌∷◌, ◌++◌, if◌then◌else◌,
  nat_eqb, nat_eq, ltb,
}
use pancake.Base.Lists.{length, set}
use pancake.Base.Text.{Text, text_eqb}
use pancake.Base.Run.{
  Run, ok, fault, aborted, thrown, out_of_range, division_by_zero, ◌>>=◌, ◌>>◌, at,
}
use pancake.Base.Dict.{Dict, lookup, insert, or_default}

-- One value of a reply; `as_string` throws on a null.
pub data Item : Type 0 where
  bulk : Text → Item
  null : Item
  item_error : Text → Item

pub data Reply : Type 0 where
  single : Item → Reply
  array : List Item → Reply
  error : Text → Reply

pub record CppRedis : Type 1 where
  pub Client : Type 0
  -- `none` where the callback of `connect` exits
  pub connect : Text → ℕ → Option Client
  pub get : Text → Client → Reply
  pub set : Text → Text → Client → Reply × Client
  pub mget : List Text → Client → Reply
  pub mset : List (Text × Text) → Client → Reply × Client
  -- what the server behind a client holds
  pub stored : Client → Text → Option Text

abbrev pub not_a_string : Text
not_a_string = []

-- `as_string()`, after the test of `is_error()`
unfoldable pub string_of : Item → Run Text
string_of (bulk v) = ok v
string_of null = fault (thrown not_a_string)
string_of (item_error e) = fault (thrown e)

unfoldable pub strings_of : List Item → Run (List Text)
unfolding string_of
strings_of [] = ok []
strings_of (nested_reply ∷ rest) = do v ← string_of nested_reply; vs ← strings_of rest; ok (v ∷ vs)

unfoldable pub as_string : Reply → Run Text
unfolding string_of
as_string (single i) = string_of i
as_string (array is) = fault (thrown not_a_string)
as_string (error e) = fault (thrown e)

unfoldable pub as_strings : Reply → Run (List Text)
unfolding strings_of
as_strings (single i) = fault (thrown not_a_string)
as_strings (array is) = strings_of is
as_strings (error e) = fault (thrown e)

-- A reply that only has to be no error.
unfoldable pub check_reply : Reply → Run (Unit {0})
check_reply (single i) = ok tt
check_reply (array is) = ok tt
check_reply (error e) = fault (thrown e)

-- `for (int i = 0; i < futures.size(); i++)` with a `pop` in each round
unfoldable pub read_replies : ℕ → List Reply → Run (List Text)
unfolding as_strings
read_replies i [] = ok []
read_replies i (reply ∷ futures) =
    let more = (do vs ← as_strings reply; rest ← read_replies (i + 1) futures; ok (vs ++ rest)) in
    if ltb i (suc (length futures)) then more else ok []

unfoldable pub check_replies : ℕ → List Reply → Run (Unit {0})
unfolding check_reply
check_replies i [] = ok tt
check_replies i (reply ∷ futures) =
    let more = (check_reply reply >> check_replies (i + 1) futures) in
    if ltb i (suc (length futures)) then more else ok tt

-- `key_vectors[id].emplace_back(key)` for each key, and likewise for pairs
unfoldable pub add_to_group : {A : Type 0} → ℕ → A → Dict ℕ (List A) → Dict ℕ (List A)
add_to_group id a groups = insert id (or_default [] (lookup id groups) ++ a ∷ []) groups

module _ (s : CppRedis) (hash : Text → ℕ) where
  open s use {Client}

  -- the member `clients`
  abbrev pub Redis : Type 0
  Redis = List Client

  unfoldable pub add_server : Text → ℕ → Redis → Run Redis
  add_server host_name port clients = elim (s.connect host_name port) [
    | none ↦ fault aborted
    | some c ↦ ok (clients ++ c ∷ [])
  ]

  -- the constructor
  unfoldable pub redis : Text → ℕ → Run Redis
  unfolding add_server
  redis host_name port = add_server host_name port []

  -- `hash(key) % clients.size()`
  unfoldable pub server_index : Text → Redis → Run ℕ
  server_index key clients =
      if nat_eqb (length clients) 0 then fault division_by_zero else ok (hash key % length clients)

  unfoldable pub get : Text → Redis → Run Text
  unfolding server_index as_string
  get key clients = do idx ← server_index key clients; c ← at clients idx; as_string (s.get key c)

  unfoldable pub put : Text → Text → Redis → Run Redis
  unfolding server_index check_reply
  put key value clients = do
    idx ← server_index key clients
    c ← at clients idx
    let (reply, c') = s.set key value c
    check_reply reply
    ok (set clients idx c')

  unfoldable pub group_keys : List Text → Redis → Dict ℕ (List Text) → Run (Dict ℕ (List Text))
  unfolding server_index add_to_group
  group_keys [] clients groups = ok groups
  group_keys (key ∷ keys) clients groups = do
    id ← server_index key clients
    group_keys keys clients (add_to_group id key groups)

  -- `values[i]`, walked along with the keys
  unfoldable pub group_pairs :
      List Text
      → List Text
      → Redis
      → Dict ℕ (List (Text × Text))
      → Run (Dict ℕ (List (Text × Text)))
  unfolding server_index add_to_group
  group_pairs [] values clients groups = ok groups
  group_pairs (key ∷ keys) [] clients groups = fault out_of_range
  group_pairs (key ∷ keys) (value ∷ values) clients groups = do
    id ← server_index key clients
    group_pairs keys values clients (add_to_group id (key, value) groups)

  unfoldable pub mget_groups : Dict ℕ (List Text) → Redis → Run (List Reply)
  mget_groups [] clients = ok []
  mget_groups ((id, keys) ∷ groups) clients = do
    c ← at clients id
    replies ← mget_groups groups clients
    ok (s.mget keys c ∷ replies)

  unfoldable pub mset_groups : Dict ℕ (List (Text × Text)) → Redis → Run (List Reply × Redis)
  mset_groups [] clients = ok ([], clients)
  mset_groups ((id, pairs) ∷ groups) clients = do
    c ← at clients id
    let (reply, c') = s.mset pairs c
    (replies, last) ← mset_groups groups (set clients id c')
    ok (reply ∷ replies, last)

  unfoldable pub get_batch : List Text → Redis → Run (List Text)
  unfolding group_keys mget_groups read_replies
  get_batch keys clients = do
    key_vectors ← group_keys keys clients []
    futures ← mget_groups key_vectors clients
    read_replies 0 futures

  unfoldable pub put_batch : List Text → List Text → Redis → Run Redis
  unfolding group_pairs mset_groups check_replies
  put_batch keys values clients = do
    key_value_vector_pairs ← group_pairs keys values clients []
    (futures, last) ← mset_groups key_value_vector_pairs clients
    check_replies 0 futures
    ok last
