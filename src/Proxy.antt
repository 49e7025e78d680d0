-- ===== src/Proxy.antt =====
-- proxy/src/pancake_proxy.h: the state of the proxy. The components that it calls are a `Platform`.
pub mod Replicas
pub mod Batch
pub mod Execute
pub mod Requests
pub mod Shutdown
pub mod Consumer
pub mod Swapping
use pancake.Base.Tests.{ℕ, ◌≡◌, Option, none, some, List, ◌++◌, if◌then◌else◌}
use pancake.Base.Text.{Text, to_string, text_eq}
use pancake.Base.Dict.{Dict, lookup, insert, or_default}
use pancake.Cuckoo.{CuckooMap, is_some}
use pancake.Distribution.{Distribution}
use pancake.Double.{Double}
use pancake.Engine.{Engine}
use pancake.Storage.{Storage}
use pancake.UpdateCache.{Entry}
use pancake.Util.{Rng}

pub record Platform : Type 1 where
  pub double : Double
  pub cuckoo : CuckooMap Text Entry
  pub storage : Storage
  pub engine : Engine

module _ (P : Platform) where
  open P use {double.{F}, cuckoo.{Table}, storage.{Store}}

  -- The members that the requests and the set-up use. `store` is what `storage_interface_` and the
  -- connections of the consumer threads reach, `rng` the random generators.
  pub record Proxy : Type 0 where
    pub security_batch_size : ℕ
    pub object_size : ℕ
    pub update_cache : Table
    pub missing_new_replicas : Table
    pub key_to_frequency : Dict Text ℕ
    pub new_key_to_frequency : Dict Text ℕ
    pub label_count : ℕ
    pub dummy_keys : ℕ
    pub p_max : F
    pub alpha : F
    pub delta : F
    pub dummy_key : Text
    pub key_to_number_of_replicas : Dict Text ℕ
    pub replica_to_label : Dict Text ℕ
    pub fake_distribution : Distribution P.double
    pub real_distribution : Distribution P.double
    pub store : Store
    pub rng : Rng

-- `key + std::to_string(i)`
unfoldable pub replica_name : Text → ℕ → Text
replica_name key i = key ++ to_string i

-- `m[k]` on an `unordered_map`: a missing key is inserted with the default value.
unfoldable pub fetch : Text → Dict Text ℕ → ℕ × Dict Text ℕ
fetch k m = (or_default 0 (lookup k m), if is_some (lookup k m) then m else insert k 0 m)

-- `m[k]`, where what a missing key leaves behind is not looked at again
abbrev pub number_of : Text → Dict Text ℕ → ℕ
number_of k m = or_default 0 (lookup k m)
