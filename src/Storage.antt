-- ===== src/Storage.antt =====
-- libstorage/src/storage_interface.h: the interface to the storage servers, with the contract that
-- the proxy relies on. The implementations are the modules below.
pub mod Rocksdb
pub mod Redis
use pancake.Base.Tests.{ℕ, ◌≡◌, Option, none, some, List, [], ◌∷◌, if◌then◌else◌}
use pancake.Base.Lists.{length}
use pancake.Base.Text.{Text, text_eqb}
use pancake.Base.Run.{Run, ok, Returns}

-- What the servers hold, as a partial map.
abbrev pub View : Type 0
View = Text → Option Text

abbrev pub update : View → Text → Text → View
update f k v j = if text_eqb k j then some v else f j

-- The writes of a batch, one after the other.
abbrev pub write_all : View → List Text → List Text → View
write_all f [] vs = f
write_all f (k ∷ ks) [] = f
write_all f (k ∷ ks) (v ∷ vs) = write_all (update f k v) ks vs

-- `vs` are the values of `ks`, in their order.
abbrev pub Reads : View → List Text → List Text → Type 0
Reads f [] [] = Unit {0}
Reads f [] (v ∷ vs) = ⊥
Reads f (k ∷ ks) [] = ⊥
Reads f (k ∷ ks) (v ∷ vs) = (f k ≡ some v) × Reads f ks vs

pub record Storage : Type 1 where
  pub Store : Type 0
  pub get : Text → Store → Run Text
  pub put : Text → Text → Store → Run Store
  pub get_batch : List Text → Store → Run (List Text)
  pub put_batch : List Text → List Text → Store → Run Store
  -- the connections that the constructor and `add_server` leave
  pub IsOpen : Store → Type 0
  pub view : Store → View
  pub get-view : (k v : Text) (s : Store) → IsOpen s → view s k ≡ some v → get k s ≡ ok v
  pub put-view :
      (k v : Text) (s : Store)
      → IsOpen s
      → Returns (put k v s) λ t. IsOpen t × ((j : Text) → view t j ≡ update (view s) k v j)
  pub get_batch-view :
      (ks vs : List Text) (s : Store) → IsOpen s → Reads (view s) ks vs → get_batch ks s ≡ ok vs
  pub put_batch-view :
      (ks vs : List Text) (s : Store)
      → IsOpen s
      → length ks ≡ length vs
      → Returns
          (put_batch ks vs s)
          λ t. IsOpen t × ((j : Text) → view t j ≡ write_all (view s) ks vs j)
