-- ===== src/Cuckoo.antt =====
-- `libcuckoo::cuckoohash_map`, which the repository takes from outside: the operations that it
-- calls, with their documented effect on a lookup. A functor that the map calls under its lock is
-- a function on the stored value; where it returns `bool`, `true` asks for the erasure.
pub mod Assoc
use pancake.Base.Tests.{◌≡◌, Bool, true, false, Option, none, some, List, Eq, ◌==◌, if◌then◌else◌}
use pancake.Base.Dict.{Dict, lookup}

-- What is left under a key whose value `f` was called on.
abbrev pub kept : {V : Type 0} → (V → V × Bool) → Option V → Option V
kept f none = none
kept f (some v) = let (w, drop) = f v in if drop then none else some w

abbrev pub is_some : {V : Type 0} → Option V → Bool
is_some none = false
is_some (some v) = true

pub record CuckooMap (K V : Type 0) ⦃key : Eq K⦄ : Type 1 where
  pub Table : Type 0
  pub empty : Table
  pub find : K → Table → Option V
  pub contains : K → Table → Bool
  -- `true` if the key is new
  pub insert : K → V → Table → Table × Bool
  pub insert_or_assign : K → V → Table → Table × Bool
  -- `true` if the key was there
  pub erase : K → Table → Table × Bool
  pub erase_fn : K → (V → V × Bool) → Table → Table × Bool
  pub update_fn : K → (V → V) → Table → Table × Bool
  -- `true` if the value was inserted
  pub uprase_fn : K → (V → V × Bool) → V → Table → Table × Bool
  -- the entries that a locked table iterates over
  pub entries : Table → Dict K V
  pub find-empty : (j : K) → find j empty ≡ none
  pub contains-find : (j : K) (t : Table) → contains j t ≡ is_some (find j t)
  pub find-insert :
      (k j : K) (v : V) (t : Table)
      → find j (insert k v t).0
        ≡ (if k == j then (if is_some (find k t) then find k t else some v) else find j t)
  pub find-insert_or_assign :
      (k j : K) (v : V) (t : Table)
      → find j (insert_or_assign k v t).0 ≡ (if k == j then some v else find j t)
  pub insert_or_assign_new :
      (k : K) (v : V) (t : Table)
      → (insert_or_assign k v t).1 ≡ (if is_some (find k t) then false else true)
  pub find-erase :
      (k j : K) (t : Table) → find j (erase k t).0 ≡ (if k == j then none else find j t)
  pub find-erase_fn :
      (k j : K) (f : V → V × Bool) (t : Table)
      → find j (erase_fn k f t).0 ≡ (if k == j then kept f (find k t) else find j t)
  pub find-update_fn :
      (k j : K) (f : V → V) (t : Table)
      → find j (update_fn k f t).0
        ≡ (if k == j then kept (λ v. (f v, false)) (find k t) else find j t)
  pub find-uprase_fn :
      (k j : K) (f : V → V × Bool) (v : V) (t : Table)
      → find j (uprase_fn k f v t).0
        ≡ (if k == j then (if is_some (find k t) then kept f (find k t) else some v) else find j t)
  pub lookup-entries : (k : K) (t : Table) → lookup k (entries t) ≡ find k t
