-- ===== src/Storage/Rocksdb/Contract.antt =====
-- rocksdb.cpp meets the contract of the storage interface, for any number of servers.
use mathlib.Core.Path.{fun_ext}
use native.Mathlib.Decide.{ℕ_discrete}
use pancake.Base.Tests.{
  ℕ, ◌%◌, ◌<◌, ◌≡◌, refl, Option, none, some, List, [], ◌∷◌, arith, Bool-cases, inl, inr, ap, ◌∙◌,
}
use pancake.Base.Lists.{
  length, set, get_elem?, get_elem?_total, get_elem?_below, get_elem?-set_self, get_elem?-set_ne,
  length-set,
}
use pancake.Base.Text.{Text, text_eqb, text_eqb_iff}
use pancake.Base.Run.{ok, ◌>>=◌, at-get_elem?, Returns}
use pancake.Storage.{View, update, write_all, Reads, Storage}
use pancake.Storage.Rocksdb.{
  Ssdb, Serves, Rocksdb, server_index, status_or_throw, get, put, get_batch, put_batch,
}

module _ (s : Ssdb) (serves : Serves s) (hash : Text → ℕ) where
  open s use {Client, stored}

  abbrev pub stored_at : Option Client → View
  stored_at none k = none
  stored_at (some c) k = stored c k

  -- a key is looked for on the server that its hash names
  abbrev pub view : Rocksdb s hash → View
  view clients k = stored_at (get_elem? clients (hash k % length clients)) k

  abbrev pub IsOpen : Rocksdb s hash → Type 0
  IsOpen clients = 0 < length clients

  server_index-lem :
      (k : Text) (clients : Rocksdb s hash)
      → IsOpen clients
      → server_index s hash k clients ≡ ok (hash k % length clients)
  unfolding server_index
  server_index-lem k clients h = ground arith

  pub get-view :
      (k v : Text) (clients : Rocksdb s hash)
      → IsOpen clients
      → view clients k ≡ some v
      → get s hash k clients ≡ ok v
  unfolding get status_or_throw
  get-view k v clients h e =
      let (c, here) = get_elem?_total clients (hash k % length clients) (omega arith) in
      rw (server_index-lem k clients h, ◌>>=◌)
        (rw (at-get_elem? clients _ c here, ◌>>=◌) (rw (serves.get-stored c k v (rw here at e))))

  -- a write to the server of `k` changes the value of `k` alone
  view-set :
      (k v : Text) (c : Client) (clients : Rocksdb s hash) (j : Text)
      → get_elem? clients (hash k % length clients) ≡ some c
      → view (set clients (hash k % length clients) (s.set k v c).1) j ≡ update (view clients) k v j
  view-set k v c clients j here =
      let i = hash k % length clients in
      let i' = hash j % length clients in
      let c' = (s.set k v c).1 in
      rw (length-set clients i c') (elim (ℕ_discrete i i') [
        | yes same ↦ rw (← same) (
            ground (
              arith,
              get_elem?-set_self clients i c' (get_elem?_below clients i c here),
              serves.stored-set c k v j,
            ))
        | no other ↦ rw (get_elem?-set_ne clients i i' c' other) (elim (Bool-cases (text_eqb k j)) [
          | inl e ↦ absurd (other (ap (λ t. hash t % length clients) ((text_eqb_iff k j).0 e)))
          | inr e ↦ rw e
        ])
      ])

  pub put-view :
      (k v : Text) (clients : Rocksdb s hash)
      → IsOpen clients
      → Returns
          (put s hash k v clients)
          λ t. IsOpen t × ((j : Text) → view t j ≡ update (view clients) k v j)
  unfolding put status_or_throw
  put-view k v clients h =
      let i = hash k % length clients in
      let (c, here) = get_elem?_total clients i (omega arith) in
      let c' = (s.set k v c).1 in
      (
        set clients i c',
        rw (server_index-lem k clients h, ◌>>=◌)
            (rw (at-get_elem? clients _ c here, ◌>>=◌) (rw (serves.set-done c k v))),
        (omega (arith, length-set clients i c'), λ j. view-set k v c clients j here),
      )

  -- If at least one server is connected and the servers hold the values `vs` under the keys
  -- `ks`, then `get_batch` returns these values in the order of the keys, for any number of
  -- servers.
  pub get_batch-view :
      (ks vs : List Text) (clients : Rocksdb s hash)
      → IsOpen clients
      → Reads (view clients) ks vs
      → get_batch s hash ks clients ≡ ok vs
  unfolding get_batch
  get_batch-view [] [] clients h r = refl
  get_batch-view [] (v ∷ vs) clients h r = absurd r
  get_batch-view (k ∷ ks) [] clients h r = absurd r
  get_batch-view (k ∷ ks) (v ∷ vs) clients h r =
      rw (get-view k v clients h r.0, ◌>>=◌) (rw (get_batch-view ks vs clients h r.1))

  -- If at least one server is connected and there are as many values as keys, `put_batch` ends
  -- normally, and the servers together then hold what the writes of the batch, one after the
  -- other, make of what they held.
  pub put_batch-view :
      (ks vs : List Text) (clients : Rocksdb s hash)
      → IsOpen clients
      → length ks ≡ length vs
      → Returns
          (put_batch s hash ks vs clients)
          λ t. IsOpen t × ((j : Text) → view t j ≡ write_all (view clients) ks vs j)
  unfolding put_batch
  put_batch-view [] vs clients h e = (clients, refl, (h, λ j. refl))
  put_batch-view (k ∷ ks) [] clients h e = absurd (omega arith)
  put_batch-view (k ∷ ks) (v ∷ vs) clients h e =
      let (mid, run, (opened, here)) = put-view k v clients h in
      let (last, run', (opened', rest)) = put_batch-view ks vs mid opened (omega arith) in
      (
        last,
        rw (run, ◌>>=◌) run',
        (opened', λ j. rest j ∙ ap (λ f. write_all f ks vs j) (fun_ext here)),
      )

  -- rocksdb.cpp as an implementation of the interface
  abbrev pub rocksdb_storage : Storage
  rocksdb_storage = record {
    Store = Rocksdb s hash;
    get = get s hash;
    put = put s hash;
    get_batch = get_batch s hash;
    put_batch = put_batch s hash;
    IsOpen = IsOpen;
    view = view;
    get-view = get-view;
    put-view = put-view;
    get_batch-view = get_batch-view;
    put_batch-view = put_batch-view;
  }
