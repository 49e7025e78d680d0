-- ===== src/Proxy/Consumer/Told.antt =====
-- What a waiting client finds once a consumer thread (pancake_proxy.cpp, `consumer_thread`) has answered
-- its requests.
use mathlib.Core.List.{append-nil}
use pancake.Base.Tests.{
  ℕ, ◌+◌, ◌%◌, ◌<◌, ◌≡◌, refl, subst, sym, ap, ◌∙◌, false, some, List, [], ◌∷◌, ◌++◌, arith,
  nat_eqb, nat_eq, ==_refl,
}
use pancake.Base.Lists.{length, All, get_elem?}
use pancake.Base.Text.{Text}
use pancake.Base.Run.{Returns}
use pancake.Base.Dict.{Dict, lookup, lookup-insert}
use pancake.Operation.{Operation, blank}
use pancake.Proxy.{Platform}
use pancake.Proxy.Batch.Aligned.{taken}
use pancake.Proxy.Consumer.{Consumer, no_batch, set_values}
use pancake.Proxy.Consumer.Ordered.{applied, answers, applied-append, after_get}
use pancake.Proxy.Consumer.Steps.{Served, Serving}
use pancake.Proxy.Consumer.Turns.{Turns, arrives, Turns-Serving}
use pancake.Proxy.Execute.Refines.{Refines}
use pancake.Proxy.Requests.{Service, get_batch}
use pancake.Queue.{Queue}
use pancake.Proxy.Requests.Answers.{Answered, get_batch-Answered}
use pancake.Proxy.Requests.Appended.{Appended, Known, numbered, gets}

-- the promise is none of these requests'
abbrev pub Unused : ℕ → List (Operation × ℕ) → Type 0
Unused n = All (λ (o, m). nat_eqb m n ≡ false)

-- no two requests have the same promise
abbrev pub Once : List (Operation × ℕ) → Type 0
Once [] = Unit {0}
Once ((o, n) ∷ requests) = Unused n requests × Once requests

abbrev pub values_at : (Text → Text) → List Text → List Text
values_at f [] = []
values_at f (key ∷ keys) = f key ∷ values_at f keys

length-values_at : (f : Text → Text) (keys : List Text) → length keys ≡ length (values_at f keys)
length-values_at f [] = refl
length-values_at f (key ∷ keys) = omega (arith, length-values_at f keys)

abbrev Told : List (ℕ × Text) → Dict ℕ Text → Type 0
Told xs m = All (λ (n, v). lookup n m ≡ some v) xs

Told-later : (xs ys : List (ℕ × Text)) (m : Dict ℕ Text) → Told (xs ++ ys) m → Told ys m
Told-later [] ys m h = h
Told-later (x ∷ xs) ys m h = Told-later xs ys m h.1

module _ (P : Platform) where
  Told-gets :
      (f : Text → Text) (n : ℕ) (keys : List Text) (rest : List (ℕ × Text)) (m : Dict ℕ Text)
      → Told (answers f (numbered n (gets P keys)) ++ rest) m
      → Answered n (values_at f keys) m
  Told-gets f n [] rest m h = tt
  Told-gets f n (key ∷ keys) rest m h =
      let o = record blank { key = key } in
      let (here, later) =
        subst (λ g. Told ((n, g key) ∷ answers g (numbered (n + 1) (gets P keys)) ++ rest) m)
          (after_get f o refl) h in
      (here, Told-gets f (n + 1) keys rest m later)

  lookup-set_values :
      (n : ℕ) (requests : List (Operation × ℕ)) (f : Text → Text) (m : Dict ℕ Text)
      → Unused n requests
      → lookup n (set_values P (answers f requests) m) ≡ lookup n m
  unfolding set_values
  lookup-set_values n [] f m h = refl
  lookup-set_values n ((o, k) ∷ rs) f m (other, h) =
      lookup-set_values n rs _ _ h ∙ lookup-insert k n _ m ∙ (rw other refl)

  answers-Told :
      (requests : List (Operation × ℕ)) (f : Text → Text) (m : Dict ℕ Text)
      → Once requests
      → Told (answers f requests) (set_values P (answers f requests) m)
  unfolding set_values
  answers-Told [] f m h = tt
  answers-Told ((o, n) ∷ rs) f m (other, h) = (
    lookup-set_values n rs _ _ other ∙ lookup-insert n n _ m ∙ (rw (==_refl n) refl),
    answers-Told rs _ _ h,
  )

  -- the thread of the queue `id` and its queue have nothing left to do
  abbrev pub Emptied : ℕ → Consumer → Service P → Type 0
  Emptied id c s =
      (c.batch ≡ no_batch)
      × (q : Queue (Operation × ℕ)) × (get_elem? s.operation_queues id ≡ some q)
      × (q.items ≡ [])

  module _ (numbers : Dict Text ℕ) (id : ℕ) (f : Text → Text) (before : Dict ℕ Text) where
    emptied :
        (all : List (Operation × ℕ)) (c : Consumer) (s : Service P)
        (now : Serving P numbers id f before all c s)
        → Emptied id c s
        → now.answered ≡ all
    emptied all c s now (done, q, here, none_left) =
        let same : now.op_queue.items ≡ [] = cc (now.own, here, none_left) in
        let left : [] ≡ now.left =
          subst (λ l. l ≡ now.left) same
            (subst (λ b. taken b.operations b.is_trues b.promises ++ now.op_queue.items ≡ now.left)
              done now.mixed.in_order) in
        sym (append-nil now.answered) ∙ subst (λ l. now.answered ++ l ≡ all) (sym left) now.in_order

    Answered-gets :
        (n : ℕ) (keys : List Text) (all requests : List (Operation × ℕ)) (c : Consumer)
        (s : Service P)
        → Serving P numbers id f before (all ++ (numbered n (gets P keys) ++ requests)) c s
        → Emptied id c s
        → Once (all ++ (numbered n (gets P keys) ++ requests))
        → Answered n (values_at (applied f all) keys) s.outcomes
          × Refines P s.proxy (applied f (all ++ (numbered n (gets P keys) ++ requests)))
    Answered-gets n keys all requests c s now done once =
        let new = numbered n (gets P keys) in
        let everything = emptied (all ++ (new ++ requests)) c s now done in
        let outcomes : s.outcomes ≡ set_values P (answers f (all ++ (new ++ requests))) before =
          now.settled ∙ ap (λ l. set_values P (answers f l) before) everything in
        let found : Told (answers f (all ++ (new ++ requests))) s.outcomes =
          subst (Told (answers f (all ++ (new ++ requests)))) (sym outcomes)
            (answers-Told (all ++ (new ++ requests)) f before once) in
        let split : answers f (all ++ (new ++ requests))
            ≡ answers f all
              ++ (answers (applied f all) new ++ answers (applied (applied f all) new) requests) =
          (applied-append f all (new ++ requests)).1
          ∙ ap (λ l. answers f all ++ l) (applied-append (applied f all) new requests).1 in
        (
          Told-gets (applied f all) n keys (answers (applied (applied f all) new) requests)
              s.outcomes
              (Told-later (answers f all) _ s.outcomes
                (subst (λ l. Told l s.outcomes) split found)),
          subst (λ l. Refines P s.proxy (applied f l)) everything now.refines,
        )

    -- If earlier requests to a queue are answered, in the batch of its thread or waiting, as
    -- `Serving` says, and after `get_batch` has pushed its gets the consumer thread of the
    -- queue, further clients and others take turns until batch and queue are empty, then
    -- `get_batch` returns, for each key in order, the value that it has in the map `f` after
    -- all requests that came before. The proxy then stands for the map after all requests.
    -- The keys must be known and have replicas, a queue exist, no two requests have the same
    -- promise, and no batch choose a replica twice.
    pub get_batch-Consumed :
        (others : Service P → Service P) (queue_id : ℕ) (keys : List Text)
        (all requests : List (Operation × ℕ)) (c : Consumer) (s : Service P)
        → 0 < length s.operation_queues
        → id ≡ queue_id % length s.operation_queues
        → All (Known P s) keys
        → All (Served P numbers) (gets P keys)
        → Serving P numbers id f before all c s
        → Once (all ++ (numbered s.promises_made (gets P keys) ++ requests))
        → ((t : Service P)
            → Appended P id (gets P keys) s t
            → (c' : Consumer) × Turns P numbers id requests c t c' (others t)
              × Emptied id c' (others t))
        → Returns (get_batch P others queue_id keys s) λ (vs, u).
          (vs ≡ values_at (applied f all) keys)
          × Refines P u.proxy
              (applied f (all ++ (numbered s.promises_made (gets P keys) ++ requests)))
    get_batch-Consumed others queue_id keys all requests c s some_queue own known served now once
          turns =
        let new = numbered s.promises_made (gets P keys) in
        let vs = values_at (applied f all) keys in
        let (t, a, run) =
          get_batch-Answered P others queue_id keys vs s some_queue known
            (length-values_at (applied f all) keys)
            (λ t a. (finished t (subst (λ i. Appended P i (gets P keys) s t) (sym own) a)).0) in
        (
          (vs, others t),
          run,
          (refl, (finished t (subst (λ i. Appended P i (gets P keys) s t) (sym own) a)).1),
        )
      where
        finished :
            (t : Service P)
            → Appended P id (gets P keys) s t
            → Answered s.promises_made (values_at (applied f all) keys) (others t).outcomes
              × Refines P
                  (others t).proxy
                  (applied f (all ++ (numbered s.promises_made (gets P keys) ++ requests)))
        finished t a =
            let (c', taken_turns, done) = turns t a in
            Answered-gets s.promises_made keys all requests c' (others t)
              (Turns-Serving P numbers id f before all
                (numbered s.promises_made (gets P keys) ++ requests) c c' s (others t) now
                (arrives (gets P keys) a served taken_turns))
              done once
