-- ===== src/Proxy/Batch/Fill.antt =====
-- What `create_security_batch` (pancake_proxy.cpp) adds to a batch, and what it takes off the queue.
use mathlib.Core.List.{append_assoc}
use pancake.Base.Tests.{
  ℕ, zero, suc, ◌+◌, ◌-◌, ◌<◌, ◌≤◌, ◌≡◌, refl, ap, subst, ◌∙◌, true, false, some, List, [], ◌∷◌,
  ◌++◌, nat_eqb, arith, inl, inr, Bool-cases,
}
use pancake.Base.Lists.{length, get_elem?, All, length-append}
use pancake.Base.Text.{Text}
use pancake.Base.Run.{◌>>=◌, Returns}
use pancake.Distribution.{Distribution, sample, distribution, sample-item}
use pancake.Operation.{Operation, blank}
use pancake.Proxy.{Platform, Proxy}
use pancake.Proxy.Batch.{
  Batch, is_true_distribution, add_sampled, add_popped, add_operation, add_operations,
  create_security_batch,
}
use pancake.Queue.{Queue, size}
use pancake.Queue.Fifo.{IsCounted, pop-cons}
use pancake.Proxy.Batch.Aligned.{Aligned, taken, add_false, add_true, All-snoc}

module _ (P : Platform) (Q : Operation → Type 0) where
  -- A distribution can be sampled, and a get of each of its items satisfies `Q`.
  abbrev pub Yields : Distribution P.double → Type 0
  Yields dist =
      (0 < length dist.items)
      × (length dist.weights ≤ length dist.items)
      × ((i : ℕ) (key : Text) → get_elem? dist.items i ≡ some key → Q (record blank { key = key }))

  -- The batch is well formed, its operations satisfy `Q`, and its true operations followed by the
  -- queue are `all`.
  pub record Mixed (all : List (Operation × ℕ)) (op_queue : Queue (Operation × ℕ)) (b : Batch)
      : Type 0 where
    pub aligned : Aligned b.operations b.is_trues b.promises
    pub allowed : All Q b.operations
    pub waiting_allowed : All (λ (o, n). Q o) op_queue.items
    pub counted : IsCounted op_queue
    pub in_order : taken b.operations b.is_trues b.promises ++ op_queue.items ≡ all

  add_sampled-Returns :
      (all : List (Operation × ℕ)) (op_queue : Queue (Operation × ℕ)) (b : Batch)
      (dist : Distribution P.double) (p : Proxy P)
      → Yields dist
      → Mixed all op_queue b
      → Returns (add_sampled P dist b p) λ (b', p').
        Mixed all op_queue b'
        × (length b'.operations ≡ length b.operations + 1)
        × (p' ≡ record p { rng = p'.rng })
  unfolding add_sampled sample distribution
  add_sampled-Returns all op_queue b dist p (pos, le, offered) m =
      let ((key, g), run, (i, e)) = sampled in
      let o = record blank { key = key } in
      let (aligned, same) = add_false b.operations b.is_trues b.promises o refl m.aligned in
      (
        (
          record {
            operations = b.operations ++ o ∷ [];
            is_trues = b.is_trues ++ false ∷ [];
            promises = b.promises;
          },
          record p { rng = g },
        ),
        rw run,
        (
          record {
            aligned = aligned;
            allowed = All-snoc Q b.operations o m.allowed (offered i key e);
            waiting_allowed = m.waiting_allowed;
            counted = m.counted;
            in_order = rw same m.in_order;
          },
          length-append b.operations (o ∷ []),
          refl,
        ),
      )
    where
      sampled :
          Returns
            (sample P.double dist p.rng)
            λ (item, _). (i : ℕ) × (get_elem? dist.items i ≡ some item)
      sampled = sample-item P.double dist.items dist.weights p.rng pos le

  add_popped-Returns :
      (all : List (Operation × ℕ)) (op_queue : Queue (Operation × ℕ)) (b : Batch)
      → nat_eqb (size op_queue) 0 ≡ false
      → Mixed all op_queue b
      → Returns
          (add_popped P op_queue b)
          λ (rest, b'). Mixed all rest b' × (length b'.operations ≡ length b.operations + 1)
  unfolding add_popped size
  add_popped-Returns all op_queue b some_left m = go op_queue.items refl
    where
      go :
          (items : List (Operation × ℕ))
          → op_queue.items ≡ items
          → Returns
              (add_popped P op_queue b)
              λ (rest, b'). Mixed all rest b' × (length b'.operations ≡ length b.operations + 1)
      go [] e = absurd ground (arith, m.counted)
      go ((o, n) ∷ items) e =
          let (aligned, more) = add_true b.operations b.is_trues b.promises o n m.aligned in
          let (first, others) = subst (All (λ (q : Operation × ℕ). Q q.0)) e m.waiting_allowed in
          (
            (
              record { items = items; count = op_queue.count - 1 },
              record {
                operations = b.operations ++ o ∷ [];
                is_trues = b.is_trues ++ true ∷ [];
                promises = b.promises ++ n ∷ [];
              },
            ),
            rw (add_popped, pop-cons op_queue (o, n) items e),
            (
              record {
                aligned = aligned;
                allowed = All-snoc Q b.operations o m.allowed first;
                waiting_allowed = others;
                counted = ground (arith, m.counted);
                in_order = cc (
                  append_assoc (taken b.operations b.is_trues b.promises) ((o, n) ∷ []) items,
                  more,
                  m.in_order,
                  e,
                );
              },
              length-append b.operations (o ∷ []),
            ),
          )

  -- what a round needs of the proxy
  abbrev pub Mixable : Proxy P → Type 0
  Mixable p = Yields p.real_distribution × Yields p.fake_distribution

  add_operation-Returns :
      (all : List (Operation × ℕ)) (op_queue : Queue (Operation × ℕ)) (b : Batch) (p : Proxy P)
      → Mixable p
      → Mixed all op_queue b
      → Returns (add_operation P op_queue b p) λ (rest, b', p').
        Mixed all rest b'
        × (length b'.operations ≡ length b.operations + 1)
        × (p' ≡ record p { rng = p'.rng })
  unfolding add_operation is_true_distribution
  add_operation-Returns all op_queue b p (real, fake) m =
      let (is_true, q) = is_true_distribution P p in
      elim (Bool-cases is_true) [
        | inl e ↦ elim (Bool-cases (nat_eqb (size op_queue) 0)) [
          | inl none_left ↦
              let ((b', r), run, facts) =
                add_sampled-Returns all op_queue b p.real_distribution q real m in
              ((op_queue, b', r), rw (e, none_left) (rw run), facts)
          | inr some_left ↦
              let ((rest, b'), run, (mixed, longer)) =
                add_popped-Returns all op_queue b some_left m in
              ((rest, b', q), rw (e, some_left) (rw run), (mixed, longer, refl))
        ]
        | inr e ↦
            let ((b', r), run, facts) =
              add_sampled-Returns all op_queue b p.fake_distribution q fake m in
            ((op_queue, b', r), rw e (rw run), facts)
      ]

  add_operations-Returns :
      (rounds : ℕ) (all : List (Operation × ℕ)) (op_queue : Queue (Operation × ℕ)) (b : Batch)
      (p : Proxy P)
      → Mixable p
      → Mixed all op_queue b
      → Returns (add_operations P rounds op_queue b p) λ (rest, b', p').
        Mixed all rest b'
        × (length b'.operations ≡ length b.operations + rounds)
        × (p' ≡ record p { rng = p'.rng })
  unfolding add_operations
  add_operations-Returns zero all op_queue b p ready m =
      ((op_queue, b, p), refl, (m, omega arith, refl))
  add_operations-Returns (suc rounds) all op_queue b p ready m =
      let ((rest, b', q), run, (mixed, longer, kept)) =
        add_operation-Returns all op_queue b p ready m in
      let ((rest', b'', r), run', (mixed', longer', kept')) =
        add_operations-Returns rounds all rest b' q (rw kept ready) mixed in
      (
        (rest', b'', r),
        rw (run, ◌>>=◌) run',
        (mixed', omega arith, kept' ∙ ap (λ (t : Proxy P). record t { rng = r.rng }) kept),
      )

  -- If both distributions have an item and no more weights than items, and the queue knows its
  -- size, `create_security_batch` ends normally and appends `security_batch_size_` operations.
  -- The true ones are the first of the queue, in its order, each with its promise, and the
  -- others are gets of items of the two distributions, so that `Q` holds of the whole batch if
  -- it holds of these. Of the proxy only the random numbers change.
  pub create_security_batch-Mixed :
      (all : List (Operation × ℕ)) (op_queue : Queue (Operation × ℕ)) (b : Batch) (p : Proxy P)
      → Mixable p
      → Mixed all op_queue b
      → Returns (create_security_batch P op_queue b p) λ (rest, b', p').
        Mixed all rest b'
        × (length b'.operations ≡ length b.operations + p.security_batch_size)
        × (p' ≡ record p { rng = p'.rng })
  unfolding create_security_batch
  create_security_batch-Mixed all op_queue b p =
      add_operations-Returns p.security_batch_size all op_queue b p
