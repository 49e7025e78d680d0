-- ===== src/Proxy/Batch.antt =====
-- proxy/src/pancake_proxy.cpp: `is_true_distribution` and `create_security_batch`, which mixes the
-- requests of clients with fake ones.
pub mod Aligned
pub mod Fill
use pancake.Base.Tests.{
  ℕ, zero, suc, Bool, true, false, none, some, List, [], ◌∷◌, ◌++◌, if◌then◌else◌, nat_eqb,
}
use pancake.Base.Lists.{length}
use pancake.Base.Run.{Run, ok, fault, waiting, ◌>>=◌}
use pancake.Distribution.{Distribution, sample}
use pancake.Operation.{Operation, blank}
use pancake.Proxy.{Platform, Proxy}
use pancake.Queue.{Queue, pop, size}
use pancake.Util.{prob}

-- `storage_batch`, `is_trues` and `promises`; a promise is known by a number
pub record Batch : Type 0 where
  pub operations : List Operation
  pub is_trues : List Bool
  pub promises : List ℕ

module _ (P : Platform) where
  open P use {double.{of_int, mul, div}}

  unfoldable pub is_true_distribution : Proxy P → Bool × Proxy P
  is_true_distribution p =
      let n = length p.key_to_frequency in
      let (is_true, g) =
        prob P.double (div (of_int 1) (mul (mul (of_int 2) p.p_max) (of_int n))) p.rng in
      (is_true, record p { rng = g })

  -- a get of a key that a distribution yields, marked as not true
  unfoldable pub add_sampled : Distribution P.double → Batch → Proxy P → Run (Batch × Proxy P)
  add_sampled dist batch p = do
    (key, g) ← sample P.double dist p.rng
    ok (
      record {
        operations = batch.operations ++ record blank { key = key } ∷ [];
        is_trues = batch.is_trues ++ false ∷ [];
        promises = batch.promises;
      },
      record p { rng = g },
    )

  -- the first operation of the queue, marked as true
  unfoldable pub add_popped : Queue (Operation × ℕ) → Batch → Run (Queue (Operation × ℕ) × Batch)
  add_popped op_queue batch = elim (pop op_queue) [
    | none ↦ fault waiting
    | some ((operation, promise), rest) ↦ ok (
      rest,
      record {
        operations = batch.operations ++ operation ∷ [];
        is_trues = batch.is_trues ++ true ∷ [];
        promises = batch.promises ++ promise ∷ [];
      },
    )
  ]

  -- one round of the loop
  unfoldable pub add_operation :
      Queue (Operation × ℕ) → Batch → Proxy P → Run (Queue (Operation × ℕ) × Batch × Proxy P)
  unfolding is_true_distribution add_sampled add_popped
  add_operation op_queue batch p =
      let (is_true, q) = is_true_distribution p in
      if is_true
      then (if nat_eqb (size op_queue) 0
          then (add_sampled p.real_distribution batch q >>= λ (b, r). ok (op_queue, b, r))
          else (add_popped op_queue batch >>= λ (rest, b). ok (rest, b, q)))
      else (add_sampled p.fake_distribution batch q >>= λ (b, r). ok (op_queue, b, r))

  -- the loop with the rounds that are left
  unfoldable pub add_operations :
      ℕ → Queue (Operation × ℕ) → Batch → Proxy P → Run (Queue (Operation × ℕ) × Batch × Proxy P)
  unfolding add_operation
  add_operations zero op_queue batch p = ok (op_queue, batch, p)
  add_operations (suc rounds) op_queue batch p = do
    (rest, b, q) ← add_operation op_queue batch p
    add_operations rounds rest b q

  unfoldable pub create_security_batch :
      Queue (Operation × ℕ) → Batch → Proxy P → Run (Queue (Operation × ℕ) × Batch × Proxy P)
  unfolding add_operations
  create_security_batch op_queue batch p = add_operations p.security_batch_size op_queue batch p
