-- ===== src/Proxy/Consumer/Steps.antt =====
-- One step of a consumer thread (pancake_proxy.cpp, `consumer_thread`), and what holds between two steps.
use mathlib.Core.List.{append_assoc}
use pancake.Base.Tests.{
  ℕ, ◌+◌, ◌<◌, ◌≡◌, refl, sym, ap, ◌∙◌, subst, true, false, some, List, [], ◌∷◌, ◌++◌, arith, inl,
  inr, Bool-cases, nat_eq,
}
use pancake.Base.Lists.{get_elem?, set, All, get_elem?-set_self, get_elem?_below, length-append}
use pancake.Base.Text.{Text}
use pancake.Base.Run.{ok, ◌>>=◌, Returns, at-get_elem?}
use pancake.Base.Dict.{Dict}
use pancake.Operation.{Operation}
use pancake.Proxy.{Platform, Proxy, number_of}
use pancake.Proxy.Batch.Aligned.{taken, Aligned-Promised}
use pancake.Proxy.Batch.Fill.{Mixable, Mixed}
use pancake.Proxy.Consumer.{Consumer, no_batch, set_values, unfilled, consumer_step}
use pancake.Proxy.Consumer.Ordered.{applied, answers, outcomes-taken, applied-append}
use pancake.Proxy.Consumer.Rounds.{fill_round-Mixed}
use pancake.Proxy.Execute.{choose_replicas}
use pancake.Proxy.Execute.Batches.{Distinct}
use pancake.Proxy.Execute.Model.{Models-congr}
use pancake.Proxy.Execute.Refines.{Refines, execute_batch-Refines}
use pancake.Proxy.Execute.Serve.{Carried}
use pancake.Proxy.Requests.{Service}
use pancake.Proxy.Requests.Appended.{Appended, numbered, append}
use pancake.Queue.{Queue, size}

pub set_values-append :
    (P : Platform) (xs ys : List (ℕ × Text)) (m : Dict ℕ Text)
    → set_values P (xs ++ ys) m ≡ set_values P ys (set_values P xs m)
unfolding set_values
set_values-append P [] ys m = refl
set_values-append P ((n, v) ∷ xs) ys m = set_values-append P xs ys _

module _ (P : Platform) (numbers : Dict Text ℕ) where
  -- an operation on a key with replicas, whose value is empty or can be carried by the engine
  abbrev pub Served : Operation → Type 0
  Served o = (0 < number_of o.key numbers) × Carried P o

  -- Of all requests `all` to the queue `id`, the first are answered, as the map `f` answers them in their
  -- order. The next are in the thread's batch, and the others wait. `before` are the outcomes
  -- that were there before.
  pub record Serving (id : ℕ) (f : Text → Text) (before : Dict ℕ Text) (all : List (Operation × ℕ))
      (c : Consumer) (s : Service P) : Type 0 where
    pub answered : List (Operation × ℕ)
    pub left : List (Operation × ℕ)
    pub in_order : answered ++ left ≡ all
    pub op_queue : Queue (Operation × ℕ)
    pub own : get_elem? s.operation_queues id ≡ some op_queue
    pub mixed : Mixed P Served left op_queue c.batch
    pub level : c.operations_serviced ≡ c.previous_total_operations
    pub settings : s.proxy.key_to_number_of_replicas ≡ numbers
    pub mixable : Mixable P Served s.proxy
    pub refines : Refines P s.proxy (applied f answered)
    pub settled : s.outcomes ≡ set_values P (answers f answered) before

  -- the batch chooses no replica twice
  abbrev pub Apart : Consumer → Service P → Type 0
  Apart c s =
      (chosen : List ℕ × List Text × Proxy P) × (choose_replicas P c.batch.operations
          c.batch.is_trues s.proxy
        ≡ ok chosen)
      × Distinct chosen.1

  Refines-rng :
      (p q : Proxy P) (f : Text → Text)
      → q ≡ record p { rng = q.rng }
      → Refines P p f
      → Refines P q f
  Refines-rng p q f kept r =
      subst (λ t. Refines P t f) (sym kept)
        (record {
          placed = record { named = r.placed.named; apart = r.placed.apart };
          unmissed = r.unmissed;
          opened = r.opened;
          models =
              Models-congr P _ _ p.update_cache _ _ f (λ k. refl) (λ k i. refl) (λ l. refl)
                r.models;
        })

  All-first : (os : List Operation) → All Served os → All (λ o. 0 < number_of o.key numbers) os
  All-first [] h = tt
  All-first (o ∷ os) h = (h.0.0, All-first os h.1)

  All-second : (os : List Operation) → All Served os → All (Carried P) os
  All-second [] h = tt
  All-second (o ∷ os) h = (h.0.1, All-second os h.1)

  All-append :
      (rs : List (Operation × ℕ)) (n : ℕ) (os : List Operation)
      → All (λ (o, m). Served o) rs
      → All Served os
      → All (λ (o, m). Served o) (rs ++ numbered n os)
  All-append [] n [] h k = tt
  All-append [] n (o ∷ os) h k = (k.0, All-append [] (n + 1) os tt k.1)
  All-append (r ∷ rs) n os h k = (h.0, All-append rs n os h.1 k)

  module _ (id : ℕ) (f : Text → Text) (before : Dict ℕ Text) (all : List (Operation × ℕ))
      (c : Consumer) (s : Service P) (now : Serving id f before all c s) where
    fills :
        unfilled P c s ≡ true
        → Returns (consumer_step P id c s) λ (c', s'). Serving id f before all c' s'
    unfolding consumer_step
    fills more =
        let ((rest, c', p'), run, (mixed, _, level, kept)) =
          fill_round-Mixed P Served now.left now.op_queue c s.proxy now.mixable now.mixed
            now.level in
        (
          (c', record s { operation_queues = set s.operation_queues id rest; proxy = p' }),
          rw (more, at-get_elem? s.operation_queues id now.op_queue now.own, ◌>>=◌)
              (rw (run, ◌>>=◌)),
          record {
            answered = now.answered;
            left = now.left;
            in_order = now.in_order;
            op_queue = rest;
            own =
                get_elem?-set_self s.operation_queues id rest
                  (get_elem?_below s.operation_queues id now.op_queue now.own);
            mixed = mixed;
            level = level;
            settings = ap (λ (q : Proxy P). q.key_to_number_of_replicas) kept ∙ now.settings;
            mixable = subst (Mixable P Served) (sym kept) now.mixable;
            refines = Refines-rng s.proxy p' _ kept now.refines;
            settled = now.settled;
          },
        )

    executes :
        unfilled P c s ≡ false
        → Apart c s
        → Returns (consumer_step P id c s) λ (c', s'). Serving id f before all c' s'
    unfolding consumer_step
    executes full ((ids, labels, q), chose, distinct) =
        let m = now.mixed in
        let b = c.batch in
        let g = applied f now.answered in
        let done = taken b.operations b.is_trues b.promises in
        let (promised, len) = Aligned-Promised b.operations b.is_trues b.promises m.aligned in
        let (right, same) = outcomes-taken g b.operations b.is_trues b.promises m.aligned in
        let (values, both) = applied-append f now.answered done in
        let ((p', sets), run, (set_right, refines, steady)) =
          execute_batch-Refines P b.operations b.is_trues b.promises s.proxy g ids labels q
            now.refines len (rw now.settings (All-first b.operations m.allowed))
            (All-second b.operations m.allowed) promised chose distinct in
        (
          (
            record c { batch = no_batch },
            record s { proxy = p'; outcomes = set_values P sets s.outcomes },
          ),
          rw full (rw run),
          record {
            answered = now.answered ++ done;
            left = now.op_queue.items;
            in_order =
                append_assoc now.answered done now.op_queue.items
                ∙ ap (λ l. now.answered ++ l) m.in_order
                ∙ now.in_order;
            op_queue = now.op_queue;
            own = now.own;
            mixed = record {
              aligned = tt;
              allowed = tt;
              waiting_allowed = m.waiting_allowed;
              counted = m.counted;
              in_order = refl;
            };
            level = now.level;
            settings = steady.numbers ∙ now.settings;
            mixable = rw (steady.real, steady.fake) now.mixable;
            refines = subst (Refines P p') (same ∙ sym values) refines;
            settled =
                ap (λ l. set_values P l s.outcomes) (set_right ∙ right)
                ∙ ap (set_values P (answers g done)) now.settled
                ∙ sym (
                    ap (λ l. set_values P l before) both
                    ∙ set_values-append P (answers f now.answered) (answers g done) before);
          },
        )

    pub arrived :
        (os : List Operation) (t : Service P)
        → Appended P id os s t
        → All Served os
        → Serving id f before (all ++ numbered s.promises_made os) c t
    unfolding size
    arrived os t a served =
        let new = numbered s.promises_made os in
        let m = now.mixed in
        let proxy : t.proxy ≡ s.proxy = ap (λ (u : Service P). u.proxy) a.kept in
        record {
          answered = now.answered;
          left = now.left ++ new;
          in_order = sym (append_assoc now.answered now.left new) ∙ ap (λ l. l ++ new) now.in_order;
          op_queue = append new now.op_queue;
          own = a.here now.op_queue now.own;
          mixed = record {
            aligned = m.aligned;
            allowed = m.allowed;
            waiting_allowed =
                All-append now.op_queue.items s.promises_made os m.waiting_allowed served;
            counted = omega (arith, m.counted, length-append now.op_queue.items new);
            in_order =
                sym (
                  append_assoc (taken c.batch.operations c.batch.is_trues c.batch.promises)
                    now.op_queue.items new)
                ∙ ap (λ l. l ++ new) m.in_order;
          };
          level = now.level;
          settings = ap (λ (q : Proxy P). q.key_to_number_of_replicas) proxy ∙ now.settings;
          mixable = rw proxy now.mixable;
          refines = rw proxy now.refines;
          settled = ap (λ (u : Service P). u.outcomes) a.kept ∙ now.settled;
        }

    -- If the requests to a queue are answered, in the batch of its thread or waiting, as
    -- `Serving` says, and no replica is chosen twice if the batch is full, then a step of the
    -- thread ends normally, and `Serving` holds again: of the same requests the first are
    -- answered as a map answers them in their order, and the proxy stands for that map.
    pub consumer_step-Serving :
        (unfilled P c s ≡ false → Apart c s)
        → Returns (consumer_step P id c s) λ (c', s'). Serving id f before all c' s'
    consumer_step-Serving apart = elim (Bool-cases (unfilled P c s)) [
      | inl more ↦ fills more
      | inr full ↦ executes full (apart full)
    ]
