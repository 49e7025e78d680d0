-- ===== src/Proxy/Consumer/Rounds.antt =====
-- What the rounds of a consumer thread (pancake_proxy.cpp, `consumer_thread`) add to its batch.
use pancake.Base.Tests.{
  ℕ, zero, suc, ◌+◌, ◌-◌, ◌*◌, ◌≡◌, refl, ◌∙◌, ap, List, arith, nat_eqb, Bool-cases, inl, inr,
}
use pancake.Base.Lists.{length}
use pancake.Base.Run.{◌>>=◌, Returns}
use pancake.Operation.{Operation}
use pancake.Proxy.{Platform, Proxy}
use pancake.Proxy.Batch.{Batch}
use pancake.Proxy.Batch.Fill.{Mixable, Mixed, create_security_batch-Mixed}
use pancake.Proxy.Consumer.{Consumer, create_security_batches, fill_round}
use pancake.Queue.{Queue, size}

module _ (P : Platform) (Q : Operation → Type 0) where
  create_security_batches-Mixed :
      (rounds : ℕ) (all : List (Operation × ℕ)) (op_queue : Queue (Operation × ℕ)) (b : Batch)
      (p : Proxy P)
      → Mixable P Q p
      → Mixed P Q all op_queue b
      → Returns (create_security_batches P rounds op_queue b p) λ (rest, b', p').
        Mixed P Q all rest b'
        × (length b'.operations ≡ length b.operations + rounds * p.security_batch_size)
        × (p' ≡ record p { rng = p'.rng })
  unfolding create_security_batches
  create_security_batches-Mixed zero all op_queue b p ready m =
      ((op_queue, b, p), refl, (m, omega arith, refl))
  create_security_batches-Mixed (suc rounds) all op_queue b p ready m =
      let ((rest, b', q), run, (mixed, longer, kept)) =
        create_security_batch-Mixed P Q all op_queue b p ready m in
      let ((rest', b'', r), run', (mixed', longer', kept')) =
        create_security_batches-Mixed rounds all rest b' q (rw kept ready) mixed in
      let same : q.security_batch_size ≡ p.security_batch_size =
        ap (λ (t : Proxy P). t.security_batch_size) kept in
      (
        (rest', b'', r),
        rw (run, ◌>>=◌) run',
        (
          mixed',
          ground (arith, longer, longer', same),
          kept' ∙ ap (λ (t : Proxy P). record t { rng = r.rng }) kept,
        ),
      )

  -- A round of the inner loop, when the distributions can be sampled, the queue knows its size
  -- and both counts of the thread are equal, ends normally. It makes one security batch for
  -- each operation that waits in the queue, so that the batch grows by `security_batch_size_`
  -- times that number; its true operations stay the first of the queue in order, `Q` holds of
  -- all its operations if it holds of those waiting and of the gets of items of the
  -- distributions, both counts are equal again, and of the proxy only the random numbers
  -- change.
  pub fill_round-Mixed :
      (all : List (Operation × ℕ)) (op_queue : Queue (Operation × ℕ)) (c : Consumer) (p : Proxy P)
      → Mixable P Q p
      → Mixed P Q all op_queue c.batch
      → c.operations_serviced ≡ c.previous_total_operations
      → Returns (fill_round P op_queue c p) λ (rest, c', p').
        Mixed P Q all rest c'.batch
        × (length c'.batch.operations
            ≡ length c.batch.operations + length op_queue.items * p.security_batch_size)
        × (c'.operations_serviced ≡ c'.previous_total_operations)
        × (p' ≡ record p { rng = p'.rng })
  unfolding fill_round size
  fill_round-Mixed all op_queue c p ready m level =
      let i = size op_queue + c.operations_serviced - c.previous_total_operations in
      let count : i ≡ length op_queue.items = omega (arith, m.counted) in
      let ((rest, b, q), run, (mixed, longer, kept)) =
        create_security_batches-Mixed i all op_queue c.batch p ready m in
      elim (Bool-cases (nat_eqb i 0)) [
        | inl e ↦ (
          (rest, record c { batch = b }, q),
          rw (run, ◌>>=◌) (rw e),
          (
            mixed,
            longer ∙ ap (λ k. length c.batch.operations + k * p.security_batch_size) count,
            level,
            kept,
          ),
        )
        | inr e ↦ (
          (
            rest,
            record {
              batch = b;
              operations_serviced = c.operations_serviced + i;
              previous_total_operations = size op_queue + c.operations_serviced;
            },
            q,
          ),
          rw (run, ◌>>=◌) (rw e),
          (
            mixed,
            longer ∙ ap (λ k. length c.batch.operations + k * p.security_batch_size) count,
            omega arith,
            kept,
          ),
        )
      ]
