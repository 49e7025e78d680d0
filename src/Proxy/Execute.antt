-- ===== src/Proxy/Execute.antt =====
-- proxy/src/pancake_proxy.cpp: `execute_batch`, which reads and rewrites one replica for each
-- operation of a batch. A promise is known by a number, and what it is set to is returned.
pub mod Serve
pub mod Model
pub mod Batches
pub mod Choose
pub mod Refines
pub mod Stale
use pancake.Base.Tests.{ℕ, zero, suc, Bool, Option, none, some, List, [], ◌∷◌, ◌++◌, if◌then◌else◌}
use pancake.Base.Lists.{length}
use pancake.Base.Text.{Text, to_string, text_eqb}
use pancake.Base.Run.{Run, ok, fault, out_of_range, ◌>>=◌, at}
use pancake.Base.Dict.{Dict}
use pancake.Operation.{Operation}
use pancake.Proxy.{Platform, Proxy, replica_name, fetch, number_of}
use pancake.UpdateCache

module _ (P : Platform) where
  open P use {double.{F}, cuckoo.{Table}, storage.{get_batch, put_batch}, engine.{encrypt, decrypt}}

  -- The first loop at one operation: the replica that is accessed, and its label.
  unfoldable pub choose_replica : Text → Bool → Proxy P → Run (ℕ × Text × Proxy P)
  choose_replica key is_true p = do
    let (num_replicas, numbers) = fetch key p.key_to_number_of_replicas
    let (frequency, frequencies) = fetch key p.key_to_frequency
    (replica_id, g) ←
        UpdateCache.sample_a_replica P.cuckoo P.double key num_replicas is_true frequency p.p_max
          p.missing_new_replicas p.rng
    let (label, labels) = fetch (replica_name key replica_id) p.replica_to_label
    ok (
      replica_id,
      to_string label,
      record p {
        key_to_number_of_replicas = numbers;
        key_to_frequency = frequencies;
        replica_to_label = labels;
        rng = g;
      },
    )

  -- the whole first loop, with `is_trues[i]` walked along
  unfoldable pub choose_replicas :
      List Operation → List Bool → Proxy P → Run (List ℕ × List Text × Proxy P)
  unfolding choose_replica
  choose_replicas [] is_trues p = ok ([], [], p)
  choose_replicas (o ∷ operations) [] p = fault out_of_range
  choose_replicas (o ∷ operations) (is_true ∷ is_trues) p = do
    (replica_id, label, q) ← choose_replica o.key is_true p
    (replica_ids, labels, r) ← choose_replicas operations is_trues q
    ok (replica_id ∷ replica_ids, label ∷ labels, r)

  -- The two update caches, which are all of the proxy that the second loop changes.
  pub record Caches : Type 0 where
    pub update_cache : Table
    pub missing_new_replicas : Table

  -- a put is entered into the update cache
  unfoldable pub enter_put : Operation → ℕ → Table → Table
  enter_put o num_replicas cache =
      if text_eqb o.value []
      then cache
      else (UpdateCache.populate_replica_updates P.cuckoo o.key o.value num_replicas cache).0

  -- The second loop at one operation: the caches, the plain text, and its new cipher text.
  unfoldable pub serve : Operation → ℕ → ℕ → Text → Caches → Run (Caches × Text × Text)
  unfolding enter_put
  serve o num_replicas replica_id cipher c = do
    stored ← decrypt cipher
    (cache, plaintext_update) ←
        UpdateCache.check_for_update P.cuckoo o.key replica_id
          (enter_put o num_replicas c.update_cache)
    let plaintext = if text_eqb plaintext_update [] then stored else plaintext_update
    (missing, cache') ←
        UpdateCache.check_if_missing P.cuckoo o.key plaintext c.missing_new_replicas cache
    new_cipher ← encrypt plaintext
    ok (record { update_cache = cache'; missing_new_replicas = missing }, plaintext, new_cipher)

  -- `if (is_trues[i]) { promises[j]->set_value(plaintext); j++; }`: the promises that are left, and
  -- what has been set
  unfoldable pub fulfil : Bool → Text → List ℕ → Run (List ℕ × List (ℕ × Text))
  fulfil Bool.false plaintext promises = ok (promises, [])
  fulfil Bool.true plaintext [] = fault out_of_range
  fulfil Bool.true plaintext (promise ∷ promises) = ok (promises, (promise, plaintext) ∷ [])

  -- The whole second loop, with the vectors walked along: the caches, what the promises are set to,
  -- and the values to store. A response that is not there is a read out of bounds.
  unfoldable pub serve_all :
      Dict Text ℕ
      → List Operation
      → List Bool
      → List ℕ
      → List Text
      → List ℕ
      → Caches
      → Run (Caches × List (ℕ × Text) × List Text)
  unfolding serve fulfil
  serve_all numbers [] is_trues ids responses promises c = ok (c, [], [])
  serve_all numbers (o ∷ os) (is_true ∷ is_trues) (id ∷ ids) (cipher ∷ responses) promises c = do
    (c', plaintext, value) ← serve o (number_of o.key numbers) id cipher c
    (promises', here) ← fulfil is_true plaintext promises
    (c'', later, values) ← serve_all numbers os is_trues ids responses promises' c'
    ok (c'', here ++ later, value ∷ values)
  serve_all numbers (o ∷ os) is_trues ids responses promises c = fault out_of_range

  unfoldable pub execute_batch :
      List Operation → List Bool → List ℕ → Proxy P → Run (Proxy P × List (ℕ × Text))
  unfolding choose_replicas serve_all
  execute_batch operations is_trues promises p = do
    (replica_ids, storage_keys, q) ← choose_replicas operations is_trues p
    responses ← get_batch storage_keys q.store
    (c, set_values, storage_values) ←
        serve_all q.key_to_number_of_replicas operations is_trues replica_ids responses promises
          (record { update_cache = q.update_cache; missing_new_replicas = q.missing_new_replicas })
    store ← put_batch storage_keys storage_values q.store
    ok (
      record q {
        update_cache = c.update_cache;
        missing_new_replicas = c.missing_new_replicas;
        store = store;
      },
      set_values,
    )
