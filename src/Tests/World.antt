-- ===== src/Tests/World.antt =====
-- The platform and the proxy that the examples run on: an association list as the cuckoo map, a
-- server that never fails, and an engine that puts a mark in front of a text.
use pancake.Base.Tests.{ℕ, ◌≢◌, refl, none, some, [], ◌∷◌}
use pancake.Base.Lists.{length}
use pancake.Base.Text.{Text, text_eq}
use pancake.Base.Run.{Run, ok, fault, thrown}
use pancake.Base.Dict.{Dict, lookup, insert, lookup-insert}
use pancake.Cuckoo.Assoc.{assoc}
use pancake.Distribution.{Distribution}
use pancake.Double.{thousandths}
use pancake.Engine.{Engine}
use pancake.Proxy.{Platform, Proxy}
use pancake.Storage.Rocksdb.{Ssdb, Status, Serves}
use pancake.Storage.Rocksdb.Contract.{rocksdb_storage}
use pancake.Util.{Rng}

abbrev pub ssdb : Ssdb
ssdb = record {
  Client = Dict Text Text;
  connect = λ host port. some [];
  get = λ k c. elim (lookup k c) [ none ↦ (Status.failed [], []) | some v ↦ (Status.done, v) ];
  set = λ k v c. (Status.done, insert k v c);
  stored = λ c k. lookup k c;
}

pub ssdb-Serves : Serves ssdb
ssdb-Serves = record {
  get-stored = λ c k v e. rw (ssdb, e);
  set-done = λ c k v. refl;
  stored-set = λ c k v j. lookup-insert k j v c;
}

abbrev pub hash : Text → ℕ
hash t = length t

abbrev pub marked : Text → Run Text
marked [] = fault (thrown [])
marked (c ∷ t) = ok t

abbrev pub marking : Engine
marking = record {
  encrypt = λ t. ok (1 ∷ t);
  decrypt = marked;
  IsPlain = λ t. t ≢ [];
  nonempty = λ h. h refl;
  decrypt-encrypt = λ t h. (1 ∷ t, refl, refl);
}

abbrev pub platform : Platform
platform = record {
  double = thousandths;
  cuckoo = assoc;
  storage = rocksdb_storage ssdb ssdb-Serves hash;
  engine = marking;
}

abbrev pub key_a : Text
key_a = 97 ∷ []

-- `"a0"` and `"a1"`
abbrev pub labels_a : Dict Text ℕ
labels_a = (97 ∷ 48 ∷ [], 0) ∷ (97 ∷ 49 ∷ [], 1) ∷ []

-- the numbers 0, 1, 2, ...
abbrev pub counting : Rng
counting = record { stream = λ n. n; drawn = 0 }

-- the number `n` for ever
abbrev pub constant : ℕ → Rng
constant n = record { stream = λ _. n; drawn = 0 }

abbrev pub only_a : Distribution thousandths
only_a = record { items = key_a ∷ []; probabilities = 1000 ∷ []; weights = 1000 ∷ [] }

abbrev pub proxy_with : Rng → Proxy platform
proxy_with g = record {
  security_batch_size = 3;
  object_size = 1;
  update_cache = [];
  missing_new_replicas = [];
  key_to_frequency = (key_a, 1) ∷ [];
  new_key_to_frequency = [];
  label_count = 2;
  dummy_keys = 0;
  p_max = 500;
  alpha = 500;
  delta = 500;
  dummy_key = [];
  key_to_number_of_replicas = (key_a, 2) ∷ [];
  replica_to_label = labels_a;
  fake_distribution = only_a;
  real_distribution = only_a;
  store = (((48 ∷ []), 1 ∷ 5 ∷ []) ∷ ((49 ∷ []), 1 ∷ 5 ∷ []) ∷ []) ∷ [];
  rng = g;
}
