-- ===== src/Proxy/Consumer.antt =====
-- proxy/src/pancake_proxy.cpp: `consumer_thread`, which fills a batch from its queue and executes it.
pub mod Rounds
pub mod Ordered
pub mod Steps
pub mod Turns
pub mod Told
use pancake.Base.Tests.{
  Bool, ℕ, zero, suc, ◌+◌, ◌-◌, ◌&&◌, not, List, [], ◌∷◌, if◌then◌else◌, ltb, nat_eqb, nat_eq,
}
use pancake.Base.Lists.{length, set}
use pancake.Base.Text.{Text}
use pancake.Base.Run.{Run, ok, ◌>>=◌, at}
use pancake.Base.Dict.{Dict, insert}
use pancake.Operation.{Operation}
use pancake.Proxy.{Platform, Proxy}
use pancake.Proxy.Batch.{Batch, create_security_batch}
use pancake.Proxy.Execute.{execute_batch}
use pancake.Proxy.Requests.{Service}
use pancake.Queue.{Queue, size}

abbrev pub no_batch : Batch
no_batch = record { operations = []; is_trues = []; promises = [] }

-- The variables of a consumer thread.
pub record Consumer : Type 0 where
  pub batch : Batch
  pub operations_serviced : ℕ
  pub previous_total_operations : ℕ

-- before the loop
abbrev pub new_consumer : Consumer
new_consumer = record { batch = no_batch; operations_serviced = 0; previous_total_operations = 0 }

module _ (P : Platform) where
  -- the calls of `create_security_batch`, with the rounds that are left
  unfoldable pub create_security_batches :
      ℕ → Queue (Operation × ℕ) → Batch → Proxy P → Run (Queue (Operation × ℕ) × Batch × Proxy P)
  create_security_batches zero op_queue batch p = ok (op_queue, batch, p)
  create_security_batches (suc rounds) op_queue batch p = do
    (rest, b, q) ← create_security_batch P op_queue batch p
    create_security_batches rounds rest b q

  -- The body of the inner loop. The loop over `i` does not run for a negative bound.
  unfoldable pub fill_round :
      Queue (Operation × ℕ) → Consumer → Proxy P → Run (Queue (Operation × ℕ) × Consumer × Proxy P)
  unfolding create_security_batches
  fill_round op_queue c p = do
    let total_operations = size op_queue + c.operations_serviced
    let i = total_operations - c.previous_total_operations
    (rest, b, q) ← create_security_batches i op_queue c.batch p
    let counted =
        (if nat_eqb i 0 then record c { batch = b } else record {
          batch = b;
          operations_serviced = c.operations_serviced + i;
          previous_total_operations = total_operations;
        })
    ok (rest, counted, q)

  -- `set_value` for each promise
  unfoldable pub set_values : List (ℕ × Text) → Dict ℕ Text → Dict ℕ Text
  set_values [] outcomes = outcomes
  set_values ((promise, value) ∷ rest) outcomes = set_values rest (insert promise value outcomes)

  -- the inner loop goes on
  unfoldable pub unfilled : Consumer → Service P → Bool
  unfilled c s = ltb (length c.batch.operations) s.storage_batch_size && not s.finished

  -- One step of the thread `id`: a round of the inner loop, or the batch is executed and the vectors
  -- are new.
  unfoldable pub consumer_step : ℕ → Consumer → Service P → Run (Consumer × Service P)
  unfolding fill_round set_values unfilled
  consumer_step id c s =
      if unfilled c s
      then (do
        op_queue ← at s.operation_queues id
        (rest, counted, q) ← fill_round op_queue c s.proxy
        ok (counted, record s { operation_queues = set s.operation_queues id rest; proxy = q }))
      else (do
        (q, sets) ← execute_batch P c.batch.operations c.batch.is_trues c.batch.promises s.proxy
        ok (
          record c { batch = no_batch },
          record s { proxy = q; outcomes = set_values sets s.outcomes },
        ))
