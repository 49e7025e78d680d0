-- ===== src/Proxy/Requests.antt =====
-- proxy/src/pancake_proxy.cpp: the calls of clients, from `get` to `put_future`, and the
-- responder thread. A promise is known by a number. What other threads do while a call
-- waits is the argument `others`. The state after a fault is not followed.
pub mod Appended
pub mod Answers
use pancake.Base.Tests.{
  ℕ, ◌+◌, ◌%◌, Bool, true, false, none, some, List, [], ◌∷◌, if◌then◌else◌, ltb, nat_eqb, nat_eq,
}
use pancake.Base.Lists.{length, set}
use pancake.Base.Text.{Text, text_eq, codes}
use pancake.Base.Run.{
  Run, ok, fault, thrown, waiting, out_of_range, division_by_zero, ◌>>=◌, ◌>>◌, guard, at,
}
use pancake.Base.Dict.{Dict, lookup, insert}
use pancake.Operation.{Operation, blank}
use pancake.Proxy.{Platform, Proxy}
use pancake.Queue.{Queue, push, pop, size}
use pancake.Util.{rand_uint32, rand_max}

-- `sequence_id` (service/src/proxy_types.h)
pub record SequenceId : Type 0 where
  pub client_id : ℕ
  pub client_seq_no : ℕ
  pub server_seq_no : ℕ

-- a `std::future`, which `get` leaves without a state
pub record Future : Type 0 where
  pub promise : ℕ
  pub valid : Bool

-- an element of `respond_queue_`; its reference to a sequence id is overwritten before it is used
pub record Respondent : Type 0 where
  pub op_code : ℕ
  pub waiters : List Future

abbrev pub op_get : ℕ
op_get = 0

abbrev pub op_get_batch : ℕ
op_get_batch = 2

abbrev pub op_put_batch : ℕ
op_put_batch = 3

module _ (P : Platform) where
  -- The proxy with its queues. `outcomes` are the promises that have been set.
  pub record Service : Type 0 where
    pub proxy : Proxy P
    pub storage_batch_size : ℕ
    pub operation_queues : List (Queue (Operation × ℕ))
    pub promises_made : ℕ
    pub outcomes : Dict ℕ Text
    pub respond_queue : Queue Respondent
    pub sequence_queue : Queue SequenceId
    pub finished : Bool

  -- a new promise, and the operation at the end of a queue
  unfoldable pub push_operation : ℕ → Operation → Service → Run (Future × Service)
  push_operation queue_id o s = do
    guard (ltb 0 (length s.operation_queues)) division_by_zero
    let i = queue_id % length s.operation_queues
    op_queue ← at s.operation_queues i
    ok (
      record { promise = s.promises_made; valid = true },
      record s {
        operation_queues = set s.operation_queues i (push (o, s.promises_made) op_queue);
        promises_made = s.promises_made + 1;
      },
    )

  unfoldable pub get_future : ℕ → Text → Service → Run (Future × Service)
  unfolding push_operation
  get_future queue_id key s = elim (lookup key s.proxy.key_to_frequency) [
    | none ↦ fault (thrown (codes "Key does not exist"))
    | some _ ↦ push_operation queue_id (record blank { key = key }) s
  ]

  unfoldable pub put_future : ℕ → Text → Text → Service → Run (Future × Service)
  unfolding push_operation
  put_future queue_id key value s = push_operation queue_id (record { key = key; value = value }) s

  unfoldable pub get_futures : ℕ → List Text → Service → Run (List Future × Service)
  unfolding get_future
  get_futures queue_id [] s = ok ([], s)
  get_futures queue_id (key ∷ keys) s = do
    (waiter, t) ← get_future queue_id key s
    (waiters, u) ← get_futures queue_id keys t
    ok (waiter ∷ waiters, u)

  -- `values[i]`, walked along with the keys
  unfoldable pub put_futures : ℕ → List Text → List Text → Service → Run (List Future × Service)
  unfolding put_future
  put_futures queue_id [] values s = ok ([], s)
  put_futures queue_id (key ∷ keys) [] s = fault out_of_range
  put_futures queue_id (key ∷ keys) (value ∷ values) s = do
    (waiter, t) ← put_future queue_id key value s
    (waiters, u) ← put_futures queue_id keys values t
    ok (waiter ∷ waiters, u)

  -- `std::future::get`
  unfoldable pub future_get : Future → Service → Run (Text × Future)
  future_get waiter s = do
    guard waiter.valid (thrown (codes "No associated state"))
    elim (lookup waiter.promise s.outcomes) [
      | none ↦ fault waiting
      | some value ↦ ok (value, record waiter { valid = false })
    ]

  unfoldable pub future_gets : List Future → Service → Run (List Text × List Future)
  unfolding future_get
  future_gets [] s = ok ([], [])
  future_gets (waiter ∷ waiters) s = do
    (value, spent) ← future_get waiter s
    (values, all_spent) ← future_gets waiters s
    ok (value ∷ values, spent ∷ all_spent)

  unfoldable pub respond_later : ℕ → List Future → Service → Service
  respond_later op_code waiters s = record s {
    respond_queue = push (record { op_code = op_code; waiters = waiters }) s.respond_queue;
  }

  unfoldable pub async_get : SequenceId → ℕ → Text → Service → Run Service
  unfolding get_future respond_later
  async_get seq_id queue_id key s = do
    (waiter, t) ← get_future queue_id key s
    ok (respond_later op_get (waiter ∷ []) t)

  -- with the op code of a get
  unfoldable pub async_put : SequenceId → ℕ → Text → Text → Service → Run Service
  unfolding put_future respond_later
  async_put seq_id queue_id key value s = do
    (waiter, t) ← put_future queue_id key value s
    ok (respond_later op_get (waiter ∷ []) t)

  unfoldable pub async_get_batch : SequenceId → ℕ → List Text → Service → Run Service
  unfolding get_futures respond_later
  async_get_batch seq_id queue_id keys s = do
    (waiters, t) ← get_futures queue_id keys s
    let u = respond_later op_get_batch waiters t
    ok (record u { sequence_queue = push seq_id u.sequence_queue })

  -- One round of the responder thread: what it sends to the client.
  unfoldable pub responder_round : Service → Run ((SequenceId × ℕ × List Text) × Service)
  unfolding future_gets
  responder_round s = elim (pop s.respond_queue) [
    | none ↦ fault waiting
    | some (tuple, responds) ↦ elim (pop s.sequence_queue) [
      | none ↦ fault waiting
      | some (seq, sequences) ↦ do
        (results, spent) ← future_gets tuple.waiters s
        ok (
          (seq, tuple.op_code, results),
          record s { respond_queue = responds; sequence_queue = sequences },
        )
    ]
  ]

  -- `rand_uint32(0, RAND_MAX)`, the queue of a call that names none
  unfoldable pub any_queue : Service → ℕ × Service
  any_queue s =
      let (queue_id, g) = rand_uint32 0 rand_max s.proxy.rng in
      (queue_id, record s { proxy = record s.proxy { rng = g } })

  module _ (others : Service → Service) where
    unfoldable pub get : ℕ → Text → Service → Run (Text × Service)
    unfolding get_future future_get
    get queue_id key s = do
      (waiter, t) ← get_future queue_id key s
      (value, spent) ← future_get waiter (others t)
      ok (value, others t)

    unfoldable pub put : ℕ → Text → Text → Service → Run Service
    unfolding put_future future_get
    put queue_id key value s = do
      (waiter, t) ← put_future queue_id key value s
      (old, spent) ← future_get waiter (others t)
      ok (others t)

    unfoldable pub get_batch : ℕ → List Text → Service → Run (List Text × Service)
    unfolding get_futures future_gets
    get_batch queue_id keys s = do
      (waiters, t) ← get_futures queue_id keys s
      (values, spent) ← future_gets waiters (others t)
      ok (values, others t)

    unfoldable pub put_batch : ℕ → List Text → List Text → Service → Run Service
    unfolding put_futures future_gets
    put_batch queue_id keys values s = do
      (waiters, t) ← put_futures queue_id keys values s
      (old, spent) ← future_gets waiters (others t)
      ok (others t)

    -- waits for the futures and passes them on to the responder all the same
    unfoldable pub async_put_batch : SequenceId → ℕ → List Text → List Text → Service → Run Service
    unfolding put_futures future_gets respond_later
    async_put_batch seq_id queue_id keys values s = do
      (waiters, t) ← put_futures queue_id keys values s
      (old, spent) ← future_gets waiters (others t)
      ok (respond_later op_put_batch spent (others t))
