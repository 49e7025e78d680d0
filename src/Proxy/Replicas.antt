-- ===== src/Proxy/Replicas.antt =====
-- proxy/src/pancake_proxy.cpp: `insert_replicas` and `create_replicas`, which set the servers up.
pub mod Labels
pub mod Insert
pub mod Create
use pancake.Base.Tests.{
  ℕ, zero, suc, ◌+◌, ◌-◌, ◌*◌, ◌≤◌, ◌<◌, ◌≡◌, Bool, true, false, Option, none, some, List, [], ◌∷◌,
  ◌++◌, if◌then◌else◌, leb, nat_eqb,
}
use pancake.Base.Lists.{length, replicate}
use pancake.Base.Text.{Text, to_string, text_eq, codes}
use pancake.Base.Run.{Run, ok, fault, thrown, out_of_range, ◌>>=◌, ◌>>◌, guard, at}
use pancake.Base.Dict.{Dict, lookup, insert}
use pancake.Distribution.{Distribution, distribution, get_items, get_probabilities}
use pancake.Proxy.{Platform, Proxy, replica_name}
use pancake.UpdateCache
use pancake.Util.{rand_str}

module _ (P : Platform) where
  open P use {
    double.{F, of_int, sub, mul, div, ceil, trunc},
    storage.{Store, put_batch},
    engine.{encrypt},
  }

  -- `put_batch(labels, std::vector<std::string>(labels.size(), value_cipher))`
  unfoldable pub write_labels : Text → List Text → Proxy P → Run (Proxy P)
  write_labels value_cipher labels p = do
    store ← put_batch labels (replicate (length labels) value_cipher) p.store
    ok (record p { store = store })

  -- the labels that are still to be written, after a full batch of 50 has been
  unfoldable pub write_full : Text → List Text → Proxy P → Run (List Text × Proxy P)
  unfolding write_labels
  write_full value_cipher labels p =
      if leb 50 (length labels)
      then (write_labels value_cipher labels p >>= λ q. ok ([], q))
      else ok (labels, p)

  -- the loop, with the rounds that are left
  unfoldable pub insert_loop : ℕ → ℕ → Text → Text → List Text → Proxy P → Run (List Text × Proxy P)
  unfolding write_full
  insert_loop zero i key value_cipher labels p = ok (labels, p)
  insert_loop (suc rounds) i key value_cipher labels p = do
    let named = record p {
      replica_to_label = insert (replica_name key i) p.label_count p.replica_to_label;
    }
    (rest, q) ← write_full value_cipher (labels ++ to_string p.label_count ∷ []) named
    insert_loop rounds (i + 1) key value_cipher rest (record q { label_count = q.label_count + 1 })

  unfoldable pub insert_replicas : Text → ℕ → Proxy P → Run (Proxy P)
  unfolding insert_loop
  insert_replicas key num_replicas p = do
    let (value, g) = rand_str p.object_size p.rng
    value_cipher ← encrypt value
    (labels, q) ← insert_loop num_replicas 0 key value_cipher [] (record p { rng = g })
    if nat_eqb (length labels) 0 then ok q else write_labels value_cipher labels q

  -- the fake probability of a key with probability `pi` and `r_i` replicas
  fake_probability : F → F → F → ℕ → F
  fake_probability alpha delta pi r_i =
      div (mul (of_int r_i) (sub alpha (div pi (of_int r_i))))
        (sub (div (of_int 1) delta) (of_int 1))

  -- the loop over the keys: what it pushes, and the replicas created
  unfoldable pub create_loop :
      List Text → List F → Proxy P → Run (List F × List (Text × ℕ) × ℕ × Proxy P)
  unfolding insert_replicas fake_probability
  create_loop [] probabilities p = ok ([], [], 0, p)
  create_loop (key ∷ keys) [] p = fault out_of_range
  create_loop (key ∷ keys) (pi ∷ probabilities) p = do
    let r_i = ceil (div pi p.alpha)
    let counted = record p {
      key_to_frequency = insert key (trunc pi) p.key_to_frequency;
      key_to_number_of_replicas = insert key r_i p.key_to_number_of_replicas;
    }
    q ← insert_replicas key r_i counted
    (fakes, pairs, created, r) ← create_loop keys probabilities q
    ok (fake_probability p.alpha p.delta pi r_i ∷ fakes, (key, r_i) ∷ pairs, r_i + created, r)

  -- The dummy replicas fill the labels up to `2 * keys.size()`. With more replicas than that,
  -- `dummy_r_i` is negative, and the constructor of its bit vector throws.
  unfoldable pub add_dummies :
      ℕ → List F → List (Text × ℕ) → Proxy P → Run (List F × List (Text × ℕ) × Proxy P)
  unfolding insert_replicas
  add_dummies zero fakes pairs p = ok (fakes, pairs, p)
  add_dummies (suc n) fakes pairs p = do
    let dummy_r_i = suc n
    let counted = record p {
      key_to_number_of_replicas = insert p.dummy_key dummy_r_i p.key_to_number_of_replicas;
    }
    q ← insert_replicas p.dummy_key dummy_r_i counted
    let share = mul (div p.alpha (sub (div (of_int 1) p.delta) (of_int 1))) (of_int dummy_r_i)
    ok (fakes ++ share ∷ [], pairs ++ (p.dummy_key, dummy_r_i) ∷ [], q)

  unfoldable pub create_replicas : Proxy P → Run (Proxy P)
  unfolding create_loop add_dummies
  create_replicas p = do
    let keys = get_items P.double p.real_distribution
    (fakes, pairs, keys_created, q) ←
        create_loop keys (get_probabilities P.double p.real_distribution) p
    guard (leb keys_created (2 * length keys)) (thrown (codes "vector"))
    let dummy_r_i = 2 * length keys - keys_created
    (fakes', pairs', r) ← add_dummies dummy_r_i fakes pairs (record q { dummy_keys = dummy_r_i })
    ok (record r {
      update_cache = UpdateCache.update_cache P.cuckoo pairs';
      fake_distribution = distribution P.double (keys ++ p.dummy_key ∷ []) fakes';
    })
