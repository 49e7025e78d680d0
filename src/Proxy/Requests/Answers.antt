-- ===== src/Proxy/Requests/Answers.antt =====
-- What a client gets back (pancake_proxy.cpp): directly, or by way of the responder thread.
use pancake.Base.Tests.{
  ℕ, suc, ◌+◌, ◌-◌, ◌%◌, ◌<◌, ◌≡◌, refl, ap, ◌∙◌, false, none, some, List, [], ◌∷◌, arith, nat_eq,
  Option-cases, inl, inr,
}
use pancake.Base.Lists.{length, All}
use pancake.Base.Text.{Text, text_eq, codes}
use pancake.Base.Run.{Run, ok, fault, thrown, waiting, ◌>>=◌, Returns}
use pancake.Base.Dict.{Dict, lookup}
use pancake.Operation.{Operation}
use pancake.Proxy.{Platform}
use pancake.Proxy.Requests.{
  Future, Service, SequenceId, Respondent, op_get, op_get_batch, op_put_batch, future_get,
  future_gets, respond_later, async_get, async_get_batch, async_put_batch, responder_round,
  get_batch,
}
use pancake.Proxy.Requests.Appended.{
  waiters_from, Appended, Known, gets, puts, get_future-Appended, get_futures-Appended,
  put_futures-Appended,
}
use pancake.Queue.{Queue, push, pop}
use pancake.Queue.Fifo.{pop-cons, pop-nil}

-- The promises from `n` on are set to the values `vs`.
abbrev pub Answered : ℕ → List Text → Dict ℕ Text → Type 0
Answered n [] outcomes = Unit {0}
Answered n (v ∷ vs) outcomes = (lookup n outcomes ≡ some v) × Answered (n + 1) vs outcomes

abbrev pub spent_from : ℕ → List Operation → List Future
spent_from n [] = []
spent_from n (o ∷ os) = record { promise = n; valid = false } ∷ spent_from (n + 1) os

pushed_first : {A : Type 0} (a : A) (q : Queue A) → q.items ≡ [] → (push a q).items ≡ a ∷ []
unfolding push
pushed_first a q e = rw e refl

module _ (P : Platform) where
  future_gets-Answered :
      (n : ℕ) (os : List Operation) (vs : List Text) (s : Service P)
      → length os ≡ length vs
      → Answered n vs s.outcomes
      → future_gets P (waiters_from n os) s ≡ ok (vs, spent_from n os)
  unfolding future_gets future_get
  future_gets-Answered n [] [] s len a = refl
  future_gets-Answered n [] (v ∷ vs) s len a = absurd (omega arith)
  future_gets-Answered n (o ∷ os) [] s len a = absurd (omega arith)
  future_gets-Answered n (o ∷ os) (v ∷ vs) s len (e, a) =
      rw e (rw (future_gets-Answered (n + 1) os vs s (omega arith) a))

  -- a round of the responder, when there is work and a sequence id
  responder_round-popped :
      (s : Service P) (tuple : Respondent) (responds : Queue Respondent) (seq : SequenceId)
      (sequences : Queue SequenceId)
      → pop s.respond_queue ≡ some (tuple, responds)
      → pop s.sequence_queue ≡ some (seq, sequences)
      → responder_round P s ≡ (
          future_gets P tuple.waiters s >>= λ (results, spent). ok (
            (seq, tuple.op_code, results),
            record s { respond_queue = responds; sequence_queue = sequences },
          ))
  unfolding responder_round
  responder_round-popped s tuple responds seq sequences e e' = rw (responder_round, e) (rw e')

  responder_round-unnamed :
      (s : Service P) → pop s.sequence_queue ≡ none → responder_round P s ≡ fault waiting
  unfolding responder_round
  responder_round-unnamed s e = elim (Option-cases (pop s.respond_queue)) [
    | inl none_there ↦ rw (responder_round, none_there)
    | inr (first, there) ↦ rw (responder_round, there) (rw e)
  ]

  length-gets : (keys : List Text) → length (gets P keys) ≡ length keys
  length-gets [] = refl
  length-gets (key ∷ keys) = ap suc (length-gets keys)

  length-puts :
      (keys values : List Text)
      → length keys ≡ length values
      → length (puts P keys values) ≡ length keys
  length-puts [] values e = refl
  length-puts (key ∷ keys) [] e = absurd (omega arith)
  length-puts (key ∷ keys) (value ∷ values) e = ap suc (length-puts keys values (omega arith))

  -- If the keys are known, there is a queue, and the other threads set the new promises to `vs`
  -- once the gets are pushed, then `get_batch` returns `vs` in the order of the keys, after it
  -- has put one get for each key, in that order, at the end of the queue that its number names.
  pub get_batch-Answered :
      (others : Service P → Service P) (queue_id : ℕ) (keys vs : List Text) (s : Service P)
      → 0 < length s.operation_queues
      → All (Known P s) keys
      → length keys ≡ length vs
      → ((t : Service P)
          → Appended P (queue_id % length s.operation_queues) (gets P keys) s t
          → Answered s.promises_made vs (others t).outcomes)
      → (t : Service P) × Appended P (queue_id % length s.operation_queues) (gets P keys) s t
        × (get_batch P others queue_id keys s ≡ ok (vs, others t))
  unfolding get_batch
  get_batch-Answered others queue_id keys vs s h known len answered =
      let ((waiters, t), run, (e, a)) = get_futures-Appended P queue_id keys s h known in
      (
        t,
        a,
        rw (run, ◌>>=◌)
            (rw (
              e,
              future_gets-Answered s.promises_made (gets P keys) vs (others t)
                  (length-gets keys ∙ len) (answered t a),
            )),
      )

  -- What the other threads do while a call waits, here no more than to set promises.
  abbrev pub set_to : (Service P → Dict ℕ Text) → Service P → Service P
  set_to outcomes t = record t { outcomes = outcomes t }

  -- a sequence id that another call leaves for the responder
  abbrev pub named : SequenceId → Service P → Service P
  named other t = record t { sequence_queue = push other t.sequence_queue }

  -- After `async_get_batch` on a proxy whose responder has nothing to do, and once the new
  -- promises are set to `vs`, the responder sends `vs` under the sequence id of the call, in
  -- the order of the keys, and has nothing to do again. The keys must be known, and there must
  -- be a queue.
  pub async_get_batch-Answered :
      (seq : SequenceId) (queue_id : ℕ) (keys vs : List Text) (s : Service P)
      (outcomes : Service P → Dict ℕ Text)
      → 0 < length s.operation_queues
      → All (Known P s) keys
      → length keys ≡ length vs
      → s.respond_queue.items ≡ []
      → s.sequence_queue.items ≡ []
      → ((t : Service P) → Answered s.promises_made vs (outcomes t))
      → Returns
          (async_get_batch P seq queue_id keys s >>= λ t. responder_round P (set_to outcomes t))
          λ (sent, u).
            (sent ≡ (seq, op_get_batch, vs))
            × (u.respond_queue.items ≡ [])
            × (u.sequence_queue.items ≡ [])
  unfolding async_get_batch respond_later
  async_get_batch-Answered seq queue_id keys vs s outcomes h known len idle unnamed answered =
      let ((waiters, t), run, (e, a)) = get_futures-Appended P queue_id keys s h known in
      let tuple : Respondent = record { op_code = op_get_batch; waiters = waiters } in
      let first =
        pop-cons (push tuple t.respond_queue) tuple []
          (pushed_first tuple t.respond_queue (rw a.kept idle)) in
      let named =
        pop-cons (push seq t.sequence_queue) seq []
          (pushed_first seq t.sequence_queue (rw a.kept unnamed)) in
      let w = record t {
        respond_queue = push tuple t.respond_queue;
        sequence_queue = push seq t.sequence_queue;
      } in
      let last = record (set_to outcomes w) {
        respond_queue = record { items = []; count = (push tuple t.respond_queue).count - 1 };
        sequence_queue = record { items = []; count = (push seq t.sequence_queue).count - 1 };
      } in
      (
        ((seq, op_get_batch, vs), last),
        rw (run, ◌>>=◌)
            (responder_round-popped (set_to outcomes w) tuple _ seq _ first named
              ∙ ap
                  (λ (m : Run (List Text × List Future)).
                    m >>= λ (results, spent). ok ((seq, op_get_batch, results), last))
                  (ap (λ ws. future_gets P ws (set_to outcomes w)) e
                    ∙ future_gets-Answered s.promises_made (gets P keys) vs (set_to outcomes w)
                        (length-gets keys ∙ len) (answered w))),
        (refl, refl, refl),
      )

  -- After `async_get` alone of a known key, with a queue, on a proxy whose responder has no
  -- work and no sequence id, and once the new promise is set to `v`, a round of the responder
  -- waits. With any sequence id that another call leaves it would send `v` as the answer to a
  -- get, under that id, and have nothing to do again.
  pub async_get-waiting :
      (seq : SequenceId) (queue_id : ℕ) (key v : Text) (s : Service P)
      (outcomes : Service P → Dict ℕ Text)
      → 0 < length s.operation_queues
      → Known P s key
      → s.respond_queue.items ≡ []
      → s.sequence_queue.items ≡ []
      → ((t : Service P) → Answered s.promises_made (v ∷ []) (outcomes t))
      → Returns (async_get P seq queue_id key s) λ t.
        (responder_round P (set_to outcomes t) ≡ fault waiting)
        × ((other : SequenceId)
            → Returns (responder_round P (named other (set_to outcomes t))) λ (sent, u).
              (sent ≡ (other, op_get, v ∷ []))
              × (u.respond_queue.items ≡ [])
              × (u.sequence_queue.items ≡ []))
  unfolding async_get respond_later
  async_get-waiting seq queue_id key v s outcomes h known idle unnamed answered =
      let ((f, t), run, (e, a)) = get_future-Appended P queue_id key s h known in
      let tuple : Respondent = record { op_code = op_get; waiters = f ∷ [] } in
      let u = respond_later P op_get (f ∷ []) t in
      let w = set_to outcomes u in
      let first =
        pop-cons (push tuple t.respond_queue) tuple []
          (pushed_first tuple t.respond_queue (rw a.kept idle)) in
      let nothing = pop-nil t.sequence_queue (rw a.kept unnamed) in
      (
        u,
        rw (run, ◌>>=◌) refl,
        (
          responder_round-unnamed w nothing,
          λ other.
              let name =
                pop-cons (push other t.sequence_queue) other []
                  (pushed_first other t.sequence_queue (rw a.kept unnamed)) in
              let last = record (named other w) {
                respond_queue = record {
                  items = [];
                  count = (push tuple t.respond_queue).count - 1;
                };
                sequence_queue = record {
                  items = [];
                  count = (push other t.sequence_queue).count - 1;
                };
              } in
              (
                ((other, op_get, v ∷ []), last),
                responder_round-popped (named other w) tuple _ other _ first name
                    ∙ ap
                        (λ (m : Run (List Text × List Future)).
                          m >>= λ (results, spent). ok ((other, op_get, results), last))
                        (ap (λ g. future_gets P (g ∷ []) (named other w)) e
                          ∙ future_gets-Answered s.promises_made (gets P (key ∷ [])) (v ∷ [])
                              (named other w) refl (answered u)),
                (refl, refl, refl),
              ),
        ),
      )

  -- `async_put_batch` waits for its futures and then hands them to the responder, which throws
  -- on the first of them. There must be a queue, a key, a value for each key, promises that get
  -- set, a sequence id that another call has left, and nothing else for the responder to do.
  pub async_put_batch-thrown :
      (seq other : SequenceId) (rest : List SequenceId) (queue_id : ℕ) (key : Text)
      (keys values olds : List Text) (s : Service P) (outcomes : Service P → Dict ℕ Text)
      → 0 < length s.operation_queues
      → length (key ∷ keys) ≡ length values
      → length (key ∷ keys) ≡ length olds
      → s.respond_queue.items ≡ []
      → s.sequence_queue.items ≡ other ∷ rest
      → ((t : Service P) → Answered s.promises_made olds (outcomes t))
      → (async_put_batch P (set_to outcomes) seq queue_id (key ∷ keys) values s
          >>= responder_round P)
        ≡ fault (thrown (codes "No associated state"))
  unfolding async_put_batch respond_later future_gets future_get
  async_put_batch-thrown seq other rest queue_id key keys [] olds s outcomes h len len' idle named
        answered =
      absurd (omega arith)
  async_put_batch-thrown seq other rest queue_id key keys (value ∷ values) olds s outcomes h len
        len' idle named answered =
      let os = puts P (key ∷ keys) (value ∷ values) in
      let ((waiters, t), run, (e, a)) =
        put_futures-Appended P queue_id (key ∷ keys) (value ∷ values) s h len in
      let spent = spent_from s.promises_made os in
      let got =
        future_gets-Answered s.promises_made os olds (set_to outcomes t)
          (length-puts (key ∷ keys) (value ∷ values) len ∙ len') (answered t) in
      let tuple : Respondent = record { op_code = op_put_batch; waiters = spent } in
      let first =
        pop-cons (push tuple t.respond_queue) tuple []
          (pushed_first tuple t.respond_queue (rw a.kept idle)) in
      let next = pop-cons t.sequence_queue other rest (rw a.kept named) in
      rw (run, ◌>>=◌)
        (rw (e, got)
          (responder_round-popped (respond_later P op_put_batch spent (set_to outcomes t)) tuple _
            other _ first next))
