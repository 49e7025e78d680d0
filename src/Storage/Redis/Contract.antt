-- ===== src/Storage/Redis/Contract.antt =====
-- redis.cpp meets the contract of the storage interface over one server, which is the default.
use mathlib.Core.List.{append-nil, append_assoc}
use pancake.Base.Tests.{
  ℕ, ◌%◌, ◌≡◌, refl, ◌∙◌, ◌≢◌, none, some, List, [], ◌∷◌, ◌++◌, map, arith, if◌then◌else◌,
}
use pancake.Base.Lists.{length}
use pancake.Base.Text.{Text, text_eqb}
use pancake.Base.Run.{ok, ◌>>=◌, Returns}
use pancake.Base.Dict.{lookup, insert}
use pancake.Storage.{View, update, write_all, Reads, Storage}
use pancake.Storage.Redis.{
  CppRedis, Reply, single, array, error, bulk, Redis, check_reply, server_index, get, put,
  group_keys, group_pairs, get_batch, put_batch,
}
use pancake.Storage.Redis.Replies.{strings_of-bulk}

-- The documented behaviour of a server that can be reached.
pub record Serves (s : CppRedis) : Type 0 where
  pub get-stored : (c : s.Client) (k v : Text) → s.stored c k ≡ some v → s.get k c ≡ single (bulk v)
  pub set_done : (c : s.Client) (k v : Text) → (e : Text) → (s.set k v c).0 ≢ error e
  pub stored-set :
      (c : s.Client) (k v j : Text)
      → s.stored (s.set k v c).1 j ≡ (if text_eqb k j then some v else s.stored c j)
  pub mget-stored :
      (c : s.Client) (ks vs : List Text)
      → Reads (s.stored c) ks vs
      → s.mget ks c ≡ array (map bulk vs)
  pub mset_done : (c : s.Client) (ps : List (Text × Text)) → (e : Text) → (s.mset ps c).0 ≢ error e
  pub stored-mset :
      (c : s.Client) (ps : List (Text × Text)) (j : Text)
      → s.stored (s.mset ps c).1 j
        ≡ write_all (s.stored c) (map (λ p. p.0) ps) (map (λ p. p.1) ps) j

check_reply-done : (r : Reply) → ((e : Text) → r ≢ error e) → check_reply r ≡ ok tt
unfolding check_reply
check_reply-done (single i) h = refl
check_reply-done (array is) h = refl
check_reply-done (error e) h = absurd (h e refl)

pairs : List Text → List Text → List (Text × Text)
pairs [] vs = []
pairs (k ∷ ks) [] = []
pairs (k ∷ ks) (v ∷ vs) = (k, v) ∷ pairs ks vs

module _ (s : CppRedis) (serves : Serves s) (hash : Text → ℕ) where
  open s use {Client, stored}

  abbrev pub view : Redis s hash → View
  view [] k = none
  view (c ∷ cs) k = stored c k

  abbrev pub IsOpen : Redis s hash → Type 0
  IsOpen clients = length clients ≡ 1

  mod_one : (k : Text) → hash k % 1 ≡ 0
  mod_one k = omega arith

  group_one :
      (c : Client) (keys acc : List Text)
      → group_keys s hash keys (c ∷ []) ((0, acc) ∷ []) ≡ ok ((0, acc ++ keys) ∷ [])
  unfolding group_keys lookup insert
  group_one c [] acc = rw append-nil
  group_one c (k ∷ keys) acc =
      rw (mod_one k) (group_one c keys (acc ++ k ∷ []) ∙ (rw (append_assoc acc (k ∷ []) keys)))

  group_pairs_one :
      (c : Client) (keys values : List Text) (acc : List (Text × Text))
      → length keys ≡ length values
      → group_pairs s hash keys values (c ∷ []) ((0, acc) ∷ [])
        ≡ ok ((0, acc ++ pairs keys values) ∷ [])
  unfolding group_pairs pairs lookup insert
  group_pairs_one c [] values acc h = rw append-nil
  group_pairs_one c (k ∷ keys) [] acc h = absurd (omega arith)
  group_pairs_one c (k ∷ keys) (v ∷ values) acc h = rw (mod_one k) (
      group_pairs_one c keys values (acc ++ (k, v) ∷ []) (omega arith)
      ∙ (rw (append_assoc acc ((k, v) ∷ []) (pairs keys values))))

  pub get-view :
      (k v : Text) (clients : Redis s hash)
      → IsOpen clients
      → view clients k ≡ some v
      → get s hash k clients ≡ ok v
  unfolding get server_index
  get-view k v [] h e = cc
  get-view k v (c ∷ []) h e = rw (mod_one k) (rw (serves.get-stored c k v e))
  get-view k v (c ∷ c' ∷ cs) h e = absurd (omega arith)

  pub put-view :
      (k v : Text) (clients : Redis s hash)
      → IsOpen clients
      → Returns
          (put s hash k v clients)
          λ t. IsOpen t × ((j : Text) → view t j ≡ update (view clients) k v j)
  unfolding put server_index
  put-view k v [] h = absurd (omega arith)
  put-view k v (c ∷ []) h = (
    (s.set k v c).1 ∷ [],
    rw (mod_one k) (rw (check_reply-done (s.set k v c).0 (serves.set_done c k v))),
    (refl, λ j. serves.stored-set c k v j),
  )
  put-view k v (c ∷ c' ∷ cs) h = absurd (omega arith)

  -- Over one server that holds the values `vs` under the keys `ks`, `get_batch` returns these
  -- values in the order of the keys.
  pub get_batch-view_one :
      (ks vs : List Text) (clients : Redis s hash)
      → IsOpen clients
      → Reads (view clients) ks vs
      → get_batch s hash ks clients ≡ ok vs
  unfolding get_batch lookup insert
  get_batch-view_one ks vs [] h r = absurd (omega arith)
  get_batch-view_one [] [] (c ∷ []) h r = refl
  get_batch-view_one [] (v ∷ vs) (c ∷ []) h r = absurd r
  get_batch-view_one (k ∷ ks) vs (c ∷ []) h r =
      let all = serves.mget-stored c (k ∷ ks) vs r in
      rw (mod_one k, group_one c ks (k ∷ []), ◌>>=◌) (rw (all, strings_of-bulk vs) (rw append-nil))
  get_batch-view_one ks vs (c ∷ c' ∷ cs) h r = absurd (omega arith)

  put_batch_groups :
      (c : Client) (k v : Text) (ks vs : List Text)
      → length ks ≡ length vs
      → put_batch s hash (k ∷ ks) (v ∷ vs) (c ∷ []) ≡ ok ((s.mset ((k, v) ∷ pairs ks vs) c).1 ∷ [])
  unfolding put_batch lookup insert
  put_batch_groups c k v ks vs e =
      let ps : List (Text × Text) = (k, v) ∷ pairs ks vs in
      rw (mod_one k, group_pairs_one c ks vs ((k, v) ∷ []) e, ◌>>=◌)
        (rw (check_reply-done (s.mset ps c).0 (serves.mset_done c ps)))

  pairs-keys : (ks vs : List Text) → length ks ≡ length vs → map (λ p. p.0) (pairs ks vs) ≡ ks
  unfolding pairs
  pairs-keys [] vs e = refl
  pairs-keys (k ∷ ks) [] e = absurd (omega arith)
  pairs-keys (k ∷ ks) (v ∷ vs) e = rw (pairs-keys ks vs (omega arith))

  pairs-values : (ks vs : List Text) → length ks ≡ length vs → map (λ p. p.1) (pairs ks vs) ≡ vs
  unfolding pairs
  pairs-values [] [] e = refl
  pairs-values [] (v ∷ vs) e = absurd (omega arith)
  pairs-values (k ∷ ks) [] e = absurd (omega arith)
  pairs-values (k ∷ ks) (v ∷ vs) e = rw (pairs-values ks vs (omega arith))

  -- Over one server, with as many values as keys, `put_batch` ends normally, and the server
  -- then holds what the writes of the batch, one after the other, make of what it held.
  pub put_batch-view_one :
      (ks vs : List Text) (clients : Redis s hash)
      → IsOpen clients
      → length ks ≡ length vs
      → Returns
          (put_batch s hash ks vs clients)
          λ t. IsOpen t × ((j : Text) → view t j ≡ write_all (view clients) ks vs j)
  unfolding put_batch
  put_batch-view_one ks vs [] h e = absurd (omega arith)
  put_batch-view_one [] vs (c ∷ []) h e = (c ∷ [], refl, (refl, λ j. refl))
  put_batch-view_one (k ∷ ks) [] (c ∷ []) h e = absurd (omega arith)
  put_batch-view_one (k ∷ ks) (v ∷ vs) (c ∷ []) h e =
      let e' : length ks ≡ length vs = omega arith in
      (
        (s.mset ((k, v) ∷ pairs ks vs) c).1 ∷ [],
        put_batch_groups c k v ks vs e',
        (
          refl,
          λ j.
              serves.stored-mset c ((k, v) ∷ pairs ks vs) j
              ∙ (rw (pairs-keys ks vs e', pairs-values ks vs e')),
        ),
      )
  put_batch-view_one ks vs (c ∷ c' ∷ cs) h e = absurd (omega arith)

  -- redis.cpp over one server as an implementation of the interface
  abbrev pub redis_storage : Storage
  redis_storage = record {
    Store = Redis s hash;
    get = get s hash;
    put = put s hash;
    get_batch = get_batch s hash;
    put_batch = put_batch s hash;
    IsOpen = IsOpen;
    view = view;
    get-view = get-view;
    put-view = put-view;
    get_batch-view = get_batch-view_one;
    put_batch-view = put_batch-view_one;
  }
