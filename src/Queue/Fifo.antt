-- ===== src/Queue/Fifo.antt =====
-- Calls of a queue by any number of threads, in the order in which they take the mutex.
use mathlib.Core.List.{append-nil, append_assoc}
use pancake.Base.Tests.{ℕ, ◌+◌, ◌-◌, ◌≡◌, refl, sym, none, some, List, [], ◌∷◌, ◌++◌, arith}
use pancake.Base.Lists.{length, length-append}
use pancake.Operation.{Operation, assign}
use pancake.Queue.{Queue, push, pop, pop_into, pop_front, size}

-- The count that `size()` reads without the mutex is the number of items.
abbrev pub IsCounted {ℓ} : {T : Type ℓ} → Queue T → Type 0
IsCounted q = size q ≡ length q.items

pub data Call {ℓ} (T : Type ℓ) : Type ℓ where
  pushes : T → Call T
  pops : Call T

module _ {ℓ} {T : Type ℓ} where
  -- the queue after a call, and the item that the call returned; a waiting `pop` returns none yet
  unfoldable pub step : Call T → Queue T → Queue T × List T
  step (pushes item) q = (push item q, [])
  step pops q = elim (pop q) [ none ↦ (q, []) | some (item, rest) ↦ (rest, item ∷ []) ]

  unfoldable pub run : List (Call T) → Queue T → Queue T × List T
  run [] q = (q, [])
  run (c ∷ cs) q = let (q', out) = step c q in let (q'', outs) = run cs q' in (q'', out ++ outs)

  unfoldable pub pushed : List (Call T) → List T
  pushed [] = []
  pushed (pushes item ∷ cs) = item ∷ pushed cs
  pushed (pops ∷ cs) = pushed cs

  pub pop-cons :
      (q : Queue T) (x : T) (rest : List T)
      → q.items ≡ x ∷ rest
      → pop q ≡ some (x, record { items = rest; count = q.count - 1 })
  unfolding pop pop_front
  pop-cons q x rest e = rw e

  pub pop-nil : (q : Queue T) → q.items ≡ [] → pop q ≡ none
  unfolding pop pop_front
  pop-nil q e = rw e

  step-fifo :
      (c : Call T) (q : Queue T)
      → ((step c q).1 ++ (step c q).0.items ≡ q.items ++ pushed (c ∷ []))
        × (IsCounted q → IsCounted (step c q).0)
  unfolding step push pop pop_front pushed size
  step-fifo (pushes item) q = (refl, λ h. omega (arith, length-append q.items (item ∷ [])))
  step-fifo pops q = go q.items refl
    where
      go :
          (xs : List T)
          → q.items ≡ xs
          → ((step pops q).1 ++ (step pops q).0.items ≡ q.items ++ [])
            × (IsCounted q → IsCounted (step pops q).0)
      go [] e = (ground (arith, append-nil q.items), λ h. ground arith)
      go (x ∷ xs) e = (ground (arith, append-nil q.items), λ h. ground arith)

  pushed-cons : (c : Call T) (cs : List (Call T)) → pushed (c ∷ cs) ≡ pushed (c ∷ []) ++ pushed cs
  unfolding pushed
  pushed-cons (pushes item) cs = refl
  pushed-cons pops cs = refl

  -- However pushes and pops interleave, the items popped, followed by those that are left, are
  -- the old items followed by those pushed, each in order, and the count that `size()` reads
  -- stays the number of items if it was that before.
  pub run-fifo :
      (cs : List (Call T)) (q : Queue T)
      → IsCounted q
      → ((run cs q).1 ++ (run cs q).0.items ≡ q.items ++ pushed cs) × IsCounted (run cs q).0
  unfolding run pushed
  run-fifo [] q h = (sym (append-nil q.items), h)
  run-fifo (c ∷ cs) q h =
      let (order, counted) = step-fifo c q in
      let (q', out) = step c q in
      let (order', counted') = run-fifo cs q' (counted h) in
      (
        cc (
          append_assoc out (run cs q').1 (run cs q').0.items,
          append_assoc out q'.items (pushed cs),
          append_assoc q.items (pushed (c ∷ [])) (pushed cs),
          order,
          order',
          pushed-cons c cs,
        ),
        counted',
      )

-- `pop(T &item)` at `T = operation`, on a queue that is not empty, takes the first operation off
-- the queue, and the variable that should receive it keeps its old content, since
-- `operation::operator=` copies nothing.
pub pop_into-assign :
    (item front : Operation) (rest : List Operation) (n : ℕ)
    → pop_into assign item (record { items = front ∷ rest; count = n + 1 })
      ≡ some (item, record { items = rest; count = n })
unfolding pop_into pop pop_front assign
pop_into-assign item front rest n = ground arith
