-- ===== src/Proxy/Consumer/Turns.antt =====
-- A consumer thread (pancake_proxy.cpp, `consumer_thread`) with clients that push to its queue at any
-- time (`get_future`, `put_future`).
use mathlib.Core.List.{append-nil, append_assoc}
use pancake.Base.Tests.{ℕ, ◌≡◌, sym, ap, ◌∙◌, subst, false, List, [], ◌++◌, nat_eq}
use pancake.Base.Lists.{get_elem?, All}
use pancake.Base.Text.{Text}
use pancake.Base.Run.{ok}
use pancake.Base.Dict.{Dict}
use pancake.Operation.{Operation}
use pancake.Proxy.{Platform, Proxy}
use pancake.Proxy.Consumer.{Consumer, unfilled, consumer_step}
use pancake.Proxy.Requests.{Service}
use pancake.Proxy.Requests.Appended.{Appended, numbered}
use pancake.Proxy.Consumer.Steps.{Served, Serving, Apart, arrived, consumer_step-Serving}

module _ (P : Platform) (numbers : Dict Text ℕ) where
  -- What the thread of the queue `id` and the others do in turn, with the requests that the queue
  -- gets. Turns of others leave its queue, the proxy and the outcomes as they are: the responder,
  -- calls for other queues, `close`.
  pub data Turns (id : ℕ)
      : List (Operation × ℕ) → Consumer → Service P → Consumer → Service P → Type 0 where
    rest : {c : Consumer} {s : Service P} → Turns id [] c s c s
    runs :
        {requests : List (Operation × ℕ)} {c c' c'' : Consumer} {s s' s'' : Service P}
        → consumer_step P id c s ≡ ok (c', s')
        → (unfilled P c s ≡ false → Apart P numbers c s)
        → Turns id requests c' s' c'' s''
        → Turns id requests c s c'' s''
    arrives :
        {requests : List (Operation × ℕ)} {c c' : Consumer} {s t s' : Service P}
        (os : List Operation)
        → Appended P id os s t
        → All (Served P numbers) os
        → Turns id requests c t c' s'
        → Turns id (numbered s.promises_made os ++ requests) c s c' s'
    others :
        {requests : List (Operation × ℕ)} {c c' : Consumer} {s t s' : Service P}
        → get_elem? t.operation_queues id ≡ get_elem? s.operation_queues id
        → t.proxy ≡ s.proxy
        → t.outcomes ≡ s.outcomes
        → Turns id requests c t c' s'
        → Turns id requests c s c' s'

  unmoved :
      (id : ℕ) (f : Text → Text) (before : Dict ℕ Text) (all : List (Operation × ℕ)) (c : Consumer)
      (s t : Service P)
      → Serving P numbers id f before all c s
      → get_elem? t.operation_queues id ≡ get_elem? s.operation_queues id
      → t.proxy ≡ s.proxy
      → t.outcomes ≡ s.outcomes
      → Serving P numbers id f before all c t
  unmoved id f before all c s t now queue proxy outcomes = record {
    answered = now.answered;
    left = now.left;
    in_order = now.in_order;
    op_queue = now.op_queue;
    own = queue ∙ now.own;
    mixed = now.mixed;
    level = now.level;
    settings = ap (λ (q : Proxy P). q.key_to_number_of_replicas) proxy ∙ now.settings;
    mixable = rw proxy now.mixable;
    refines = rw proxy now.refines;
    settled = outcomes ∙ now.settled;
  }

  -- In any turns of a consumer thread, of clients that push to its queue and of others, in
  -- which no batch chooses a replica twice and each request is on a key with replicas with a
  -- value that is empty or can be carried: if `Serving` holds at first, it holds at the end,
  -- with the requests that came. So the queue's requests are answered in the order in which
  -- they came, each promise is set to the value that its key has in the map after its request,
  -- and the proxy stands for the map after those answered.
  pub Turns-Serving :
      (id : ℕ) (f : Text → Text) (before : Dict ℕ Text) (all requests : List (Operation × ℕ))
      (c c' : Consumer) (s s' : Service P)
      → Serving P numbers id f before all c s
      → Turns id requests c s c' s'
      → Serving P numbers id f before (all ++ requests) c' s'
  Turns-Serving id f before all requests c c' s s' now rest =
      subst (λ l. Serving P numbers id f before l c s) (sym (append-nil all)) now
  Turns-Serving id f before all requests c c'' s s'' now
        (runs {c' = c'} {s' = s'} run apart turns) =
      let (r, run', after) = consumer_step-Serving P numbers id f before all c s now apart in
      let same : r ≡ (c', s') = cc (run, run') in
      Turns-Serving id f before all requests c' c'' s' s''
        (subst (λ (q : Consumer × Service P). Serving P numbers id f before all q.0 q.1) same after)
        turns
  Turns-Serving id f before all requests c c' s s' now
        (arrives {requests = more} {t = t} os a served turns) =
      subst (λ l. Serving P numbers id f before l c' s')
        (append_assoc all (numbered s.promises_made os) more)
        (Turns-Serving id f before (all ++ numbered s.promises_made os) more c c' t s'
          (arrived P numbers id f before all c s now os t a served) turns)
  Turns-Serving id f before all requests c c' s s' now (others {t = t} queue proxy outcomes turns) =
      Turns-Serving id f before all requests c c' t s'
        (unmoved id f before all c s t now queue proxy outcomes) turns
