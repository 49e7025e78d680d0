-- ===== src/Tests/Servers.antt =====
-- The storage servers at small inputs: two RocksDB servers, and one or two Redis servers.
use mathlib.Core.Path.{fun_ext}
use pancake.Base.Tests.{ℕ, ◌≡◌, ◌≢◌, refl, ap, ◌∙◌, Option, none, some, List, [], ◌∷◌, map, arith}
use pancake.Base.Text.{Text, text_eq}
use pancake.Base.Run.{ok, Returns}
use pancake.Base.Dict.{Dict, lookup, insert, lookup-insert}
use pancake.Storage.{Reads, write_all}
use pancake.Storage.Rocksdb
use pancake.Storage.Rocksdb.Contract.{view, IsOpen, get_batch-view, put_batch-view}
use pancake.Storage.Redis.{
  CppRedis, Redis, Item, Reply, single, array, error, bulk, null, group_keys, mget_groups,
  server_index, add_to_group, read_replies, check_replies,
}
use pancake.Storage.Redis
use pancake.Storage.Redis.Contract
use pancake.Storage.Redis.Replies.{bulks, get_batch-half}
use pancake.Tests.World.{ssdb, ssdb-Serves, hash, key_a}

abbrev key_bb : Text
key_bb = 98 ∷ 98 ∷ []

-- "bb" is on server 0 and "a" on server 1
abbrev two_servers : List (Dict Text Text)
two_servers = ((key_bb, 6 ∷ []) ∷ []) ∷ ((key_a, 5 ∷ []) ∷ []) ∷ []

Reads-two :
    Reads (view ssdb ssdb-Serves hash two_servers) (key_a ∷ key_bb ∷ []) ((5 ∷ []) ∷ (6 ∷ []) ∷ [])
unfolding lookup
Reads-two = (refl, (refl, tt))

get_batch-view_example :
    Rocksdb.get_batch ssdb hash (key_a ∷ key_bb ∷ []) two_servers ≡ ok ((5 ∷ []) ∷ (6 ∷ []) ∷ [])
get_batch-view_example =
    get_batch-view ssdb ssdb-Serves hash (key_a ∷ key_bb ∷ []) ((5 ∷ []) ∷ (6 ∷ []) ∷ [])
      two_servers (omega arith) Reads-two

put_batch-view_example :
    Returns
      (Rocksdb.put_batch ssdb hash (key_a ∷ key_bb ∷ []) ((7 ∷ []) ∷ (8 ∷ []) ∷ []) two_servers)
      λ t.
        IsOpen ssdb ssdb-Serves hash t
        × ((j : Text)
            → view ssdb ssdb-Serves hash t j
              ≡ write_all
                  (view ssdb ssdb-Serves hash two_servers)
                  (key_a ∷ key_bb ∷ [])
                  ((7 ∷ []) ∷ (8 ∷ []) ∷ [])
                  j)
put_batch-view_example =
    put_batch-view ssdb ssdb-Serves hash (key_a ∷ key_bb ∷ []) ((7 ∷ []) ∷ (8 ∷ []) ∷ [])
      two_servers (omega arith) refl

-- a missing key is a null
abbrev item_of : Option Text → Item
item_of none = null
item_of (some v) = bulk v

abbrev insert_pairs : List (Text × Text) → Dict Text Text → Dict Text Text
insert_pairs [] c = c
insert_pairs ((k, v) ∷ ps) c = insert_pairs ps (insert k v c)

abbrev dictionary : CppRedis
dictionary = record {
  Client = Dict Text Text;
  connect = λ host port. some [];
  get = λ k c. single (item_of (lookup k c));
  set = λ k v c. (single null, insert k v c);
  mget = λ ks c. array (map (λ k. item_of (lookup k c)) ks);
  mset = λ ps c. (single null, insert_pairs ps c);
  stored = λ c k. lookup k c;
}

mget-lem :
    (c : Dict Text Text) (ks vs : List Text)
    → Reads (λ k. lookup k c) ks vs
    → map (λ k. item_of (lookup k c)) ks ≡ map bulk vs
mget-lem c [] [] r = refl
mget-lem c [] (v ∷ vs) r = absurd r
mget-lem c (k ∷ ks) [] r = absurd r
mget-lem c (k ∷ ks) (v ∷ vs) (e, r) = rw (e, mget-lem c ks vs r)

write_all_congr :
    (f g : Text → Option Text) (ks vs : List Text) (j : Text)
    → ((k : Text) → f k ≡ g k)
    → write_all f ks vs j ≡ write_all g ks vs j
write_all_congr f g ks vs j e = ap (λ h. write_all h ks vs j) (fun_ext e)

mset-lem :
    (c : Dict Text Text) (ps : List (Text × Text)) (j : Text)
    → lookup j (insert_pairs ps c)
      ≡ write_all (λ k. lookup k c) (map (λ p. p.0) ps) (map (λ p. p.1) ps) j
mset-lem c [] j = refl
mset-lem c ((k, v) ∷ ps) j =
    mset-lem (insert k v c) ps j
    ∙ write_all_congr _ _ (map (λ p. p.0) ps) (map (λ p. p.1) ps) j (λ i. lookup-insert k i v c)

no_error : (e : Text) → single null ≢ error e
no_error e h = cc

dictionary-Serves : Redis.Contract.Serves dictionary
dictionary-Serves = record {
  get-stored = λ c k v e. rw (dictionary, e);
  set_done = λ c k v. no_error;
  stored-set = λ c k v j. lookup-insert k j v c;
  mget-stored = λ c ks vs r. ap array (mget-lem c ks vs r);
  mset_done = λ c ps. no_error;
  stored-mset = mset-lem;
}

Reads-one :
    Reads
      (Redis.Contract.view dictionary dictionary-Serves hash (((key_a, 5 ∷ []) ∷ []) ∷ []))
      (key_a ∷ [])
      ((5 ∷ []) ∷ [])
unfolding lookup
Reads-one = (refl, tt)

get_batch-view_one_example :
    Redis.get_batch dictionary hash (key_a ∷ []) (((key_a, 5 ∷ []) ∷ []) ∷ []) ≡ ok ((5 ∷ []) ∷ [])
get_batch-view_one_example =
    Redis.Contract.get_batch-view_one dictionary dictionary-Serves hash (key_a ∷ []) ((5 ∷ []) ∷ [])
      (((key_a, 5 ∷ []) ∷ []) ∷ []) refl Reads-one

abbrev by_server : Dict ℕ (List Text)
by_server = (1, key_a ∷ []) ∷ (0, key_bb ∷ []) ∷ []

grouped : group_keys dictionary hash (key_a ∷ key_bb ∷ []) two_servers [] ≡ ok by_server
unfolding group_keys server_index add_to_group lookup insert
grouped = refl

answered :
    mget_groups dictionary hash by_server two_servers
    ≡ ok (bulks (((5 ∷ []) ∷ []) ∷ ((6 ∷ []) ∷ []) ∷ []))
unfolding mget_groups lookup
answered = refl

-- the value of "bb" is left out
get_batch-half_example :
    Redis.get_batch dictionary hash (key_a ∷ key_bb ∷ []) two_servers ≡ ok ((5 ∷ []) ∷ [])
get_batch-half_example =
    get_batch-half dictionary hash (key_a ∷ key_bb ∷ []) two_servers by_server
      (((5 ∷ []) ∷ []) ∷ ((6 ∷ []) ∷ []) ∷ []) grouped answered

abbrev three_replies : List Reply
three_replies = single null ∷ error key_a ∷ error key_bb ∷ []
