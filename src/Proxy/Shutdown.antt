-- ===== src/Proxy/Shutdown.antt =====
-- proxy/src/pancake_proxy.cpp: `flush` and `close`.
use pancake.Base.Tests.{ℕ, none, some, List, [], ◌∷◌, if◌then◌else◌, nat_eqb, nat_eq, true}
use pancake.Base.Run.{Run, ok, fault, waiting, ◌>>=◌}
use pancake.Base.Dict.{insert}
use pancake.Operation.{Operation}
use pancake.Proxy.{Platform}
use pancake.Proxy.Requests.{Service}
use pancake.Queue.{Queue, pop, size}

module _ (P : Platform) where
  open P use {storage.{get as read, put as write}}

  -- the loop of `flush` over the queues
  unfoldable pub flush_queues :
      List (Queue (Operation × ℕ)) → Service P → Run (List (Queue (Operation × ℕ)) × Service P)
  flush_queues [] s = ok ([], s)
  flush_queues (op_queue ∷ rest) s = do
    (left, t) ←
        (if nat_eqb (size op_queue) 0 then ok (op_queue, s) else elim (pop op_queue) [
          | none ↦ fault waiting
          | some ((o, promise), others) ↦ do
            read_result ← read o.key s.proxy.store
            store ← write o.key read_result s.proxy.store
            ok (
              others,
              record s {
                proxy = record s.proxy { store = store };
                outcomes = insert promise read_result s.outcomes;
              },
            )
        ])
    (lefts, u) ← flush_queues rest t
    ok (left ∷ lefts, u)

  unfoldable pub flush : Service P → Run (Service P)
  unfolding flush_queues
  flush s = do
    (lefts, t) ← flush_queues s.operation_queues s
    ok (record t { operation_queues = lefts })

  -- without the threads that it joins
  unfoldable pub close : Service P → Service P
  close s = record s { finished = true }
