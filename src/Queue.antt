-- ===== src/Queue.antt =====
-- proxy/src/queue.h and queue.cpp: a queue under one mutex, with an atomic count of its items. Each
-- method holds the mutex from its first to its last access, so a method is one step; a `pop` that
-- finds the queue empty waits, which is `none` here.
pub mod Fifo
use pancake.Base.Tests.{ℕ, ◌+◌, ◌-◌, Option, none, some, List, [], ◌∷◌, ◌++◌}

pub record Queue {ℓ} (T : Type ℓ) : Type ℓ where
  pub items : List T
  pub count : ℕ

module _ {ℓ} {T : Type ℓ} where
  abbrev pub empty : Queue T
  empty = record { items = []; count = 0 }

  unfoldable pub push : T → Queue T → Queue T
  push item q = record { items = q.items ++ item ∷ []; count = q.count + 1 }

  pop_front : ℕ → List T → Option (T × Queue T)
  pop_front n [] = none
  pop_front n (item ∷ rest) = some (item, record { items = rest; count = n - 1 })

  -- `T pop()`
  unfoldable pub pop : Queue T → Option (T × Queue T)
  unfolding pop_front
  pop q = pop_front q.count q.items

  -- `void pop(T &item)`, where `assign` is the `operator=` of `T`
  unfoldable pub pop_into : (T → T → T) → T → Queue T → Option (T × Queue T)
  unfolding pop
  pop_into assign item q = elim (pop q) [
    | none ↦ none
    | some (front, rest) ↦ some (assign item front, rest)
  ]

  unfoldable pub size : Queue T → ℕ
  size q = q.count
