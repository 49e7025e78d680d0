-- ===== src/Service/Served.antt =====
-- proxy/src/pancake_proxy.cpp behind service/src/thrift_handler.cpp and thrift.cpp: the proxy as the
-- object that the handler calls, and `get_batch` of a client at the other end of a connection.
use pancake.Base.Tests.{ℕ, ◌+◌, ◌%◌, ◌<◌, ◌≡◌, sym, ap, subst, Bool, List, nat_eq}
use pancake.Base.Lists.{length, All}
use pancake.Base.Text.{Text, codes}
use pancake.Base.Run.{Run, ok, fault}
use pancake.Cuckoo.{CuckooMap}
use pancake.Proxy.{Platform}
use pancake.Proxy.Requests
use pancake.Proxy.Requests.{Service}
use pancake.Proxy.Requests.Appended.{Appended, Known, gets}
use pancake.Proxy.Requests.Answers as Answers
use pancake.Wire.Protocol.{Protocol, IsFaithful}
use pancake.Wire.Structs.{FitsTexts}
use pancake.Wire.Client.{send_get_batch, recv_get_batch}
use pancake.Wire.Remote.{Carried, Answered}
use pancake.Wire.Remote.Calls.{send_get_batch-Answered}
use pancake.Service.Handler.{ProxyIface, ThriftHandler, with_count, handler}

-- a call of the proxy, where `s` is what an exception leaves of its state
unfoldable pub with_value : {S R : Type 0} → S → Run (R × S) → S × Run R
with_value s (ok (v, t)) = (t, ok v)
with_value s (fault e) = (s, fault e)

unfoldable pub without_value : {S : Type 0} → S → Run S → S × Run (Unit {0})
without_value s (ok t) = (t, ok tt)
without_value s (fault e) = (s, fault e)

module _ (P : Platform) (others interrupted : Service P → Service P) where
  -- The proxy's methods. `others` is what its threads do while a call waits, `interrupted` the state that
  -- a call leaves when it throws, with the operations that it has pushed by then.
  abbrev pub pancake_proxy : ProxyIface (Service P)
  pancake_proxy = record {
    async_get =
        λ seq_id i key s. without_value (interrupted s) (Requests.async_get P seq_id i key s);
    async_put = λ seq_id i key value s.
        without_value (interrupted s) (Requests.async_put P seq_id i key value s);
    async_get_batch = λ seq_id i keys s.
        without_value (interrupted s) (Requests.async_get_batch P seq_id i keys s);
    async_put_batch = λ seq_id i keys values s.
        without_value (interrupted s) (Requests.async_put_batch P others seq_id i keys values s);
    get = λ i key s. with_value (interrupted s) (Requests.get P others i key s);
    put = λ i key value s. without_value (interrupted s) (Requests.put P others i key value s);
    get_batch = λ i keys s. with_value (interrupted s) (Requests.get_batch P others i keys s);
    put_batch = λ i keys values s.
        without_value (interrupted s) (Requests.put_batch P others i keys values s);
  }

module _ (p : Protocol) (cuckoo : CuckooMap ℕ ℕ) (is_open : ℕ → Bool) (P : Platform)
    (others interrupted : Service P → Service P) where
  -- the handlers of this proxy
  abbrev pub Served : Type 0
  Served = ThriftHandler p cuckoo is_open (pancake_proxy P others interrupted)

  -- A client's `get_batch` on a handler of the proxy: `send_get_batch` writes its message, the
  -- processor serves it, with the proxy behind the handler, and `recv_get_batch`, whatever
  -- follows the answer, returns `vs` in the order of the keys. The proxy has then put one get
  -- for each key, in that order, at the end of the queue that the handler's operation count
  -- names, and the count is one more. The protocol must read back what it wrote, keys and
  -- values fit into it, the keys be known, a queue exist, and the other threads set the new
  -- promises to `vs` once the gets are pushed.
  pub remote_get_batch-Answered :
      (h : Served) (keys vs : List Text) (rest rest' : Text)
      → IsFaithful p
      → 0 < length h.proxy_state.operation_queues
      → All (Known P h.proxy_state) keys
      → length keys ≡ length vs
      → ((t : Service P)
          → Appended P
              (h.operation_count % length h.proxy_state.operation_queues)
              (gets P keys)
              h.proxy_state
              t
          → Answers.Answered h.proxy_state.promises_made vs (others t).outcomes)
      → FitsTexts keys
      → FitsTexts vs
      → (t : Service P) × Appended P
          (h.operation_count % length h.proxy_state.operation_queues)
          (gets P keys)
          h.proxy_state
          t
        × Answered p
            (handler p cuckoo is_open (pancake_proxy P others interrupted))
            (codes "get_batch")
            (send_get_batch p keys)
            (recv_get_batch p)
            h
            (record h { operation_count = h.operation_count + 1; proxy_state = others t }, ok vs)
            rest
            rest'
  unfolding with_count with_value
  remote_get_batch-Answered h keys vs rest rest' good some_queue known len set fits fits' =
      let iface = handler p cuckoo is_open (pancake_proxy P others interrupted) in
      let (t, appended, run) =
        Answers.get_batch-Answered P others h.operation_count keys vs h.proxy_state some_queue known
          len set in
      let result : iface.get_batch keys h
          ≡ (record h { operation_count = h.operation_count + 1; proxy_state = others t }, ok vs) =
        ap
          (λ (m : Run (List Text × Service P)). (
            record h {
              operation_count = h.operation_count + 1;
              proxy_state = (with_value (interrupted h.proxy_state) m).0;
            },
            (with_value (interrupted h.proxy_state) m).1,
          ))
          run in
      (
        t,
        appended,
        subst
            (λ r.
              Answered p iface (codes "get_batch") (send_get_batch p keys) (recv_get_batch p) h r
                rest rest')
            result
            (send_get_batch-Answered p good iface h keys rest rest' fits
              (subst (λ r. Carried FitsTexts r.1) (sym result) fits')),
      )
