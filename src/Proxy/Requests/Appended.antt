-- ===== src/Proxy/Requests/Appended.antt =====
-- What a request leaves behind (pancake_proxy.cpp, `get_future` and `put_future`): its operations, with
-- new promises, at the end of one queue.
use mathlib.Core.List.{append-nil, append_assoc}
use pancake.Base.Tests.{
  ℕ, ◌+◌, ◌%◌, ◌<◌, ◌≡◌, ◌≢◌, refl, ap, ◌∙◌, true, false, some, List, [], ◌∷◌, ◌++◌, arith, nat_eqb,
  ltb,
}
use pancake.Base.Lists.{
  length, set, get_elem?, All, length-set, get_elem?_total, get_elem?_below, get_elem?-set_self,
  get_elem?-set_ne,
}
use pancake.Base.Text.{Text, text_eq}
use pancake.Base.Run.{◌>>=◌, at-get_elem?, Returns}
use pancake.Base.Dict.{lookup}
use pancake.Operation.{Operation, blank}
use pancake.Proxy.{Platform}
use pancake.Proxy.Requests.{
  Future, Service, push_operation, get_future, put_future, get_futures, put_futures,
}
use pancake.Queue.{Queue, push}

abbrev pub waiter : ℕ → Future
waiter n = record { promise = n; valid = true }

-- the futures of the promises from `n` on
abbrev pub waiters_from : ℕ → List Operation → List Future
waiters_from n [] = []
waiters_from n (o ∷ os) = waiter n ∷ waiters_from (n + 1) os

-- operations with the promises from `n` on
abbrev pub numbered : ℕ → List Operation → List (Operation × ℕ)
numbered n [] = []
numbered n (o ∷ os) = (o, n) ∷ numbered (n + 1) os

abbrev pub append : List (Operation × ℕ) → Queue (Operation × ℕ) → Queue (Operation × ℕ)
append rs q = record { items = q.items ++ rs; count = q.count + length rs }

append_none : (q : Queue (Operation × ℕ)) → q ≡ append [] q
append_none q = ground (arith, append-nil q.items)

append_twice :
    (r : Operation × ℕ) (rs : List (Operation × ℕ)) (q : Queue (Operation × ℕ))
    → append rs (append (r ∷ []) q) ≡ append (r ∷ rs) q
append_twice r rs q = ground (arith, append_assoc q.items (r ∷ []) rs)

positive : (n : ℕ) → 0 < n → ltb 0 n ≡ true
positive n h = ground arith

apart : (i j : ℕ) → nat_eqb i j ≡ false → i ≢ j
apart i j e = ground arith

module _ (P : Platform) where
  -- Queue `i` has got `os`, in their order and with new promises, and all else is as before.
  pub record Appended (i : ℕ) (os : List Operation) (s t : Service P) : Type 0 where
    pub here :
        (q : Queue (Operation × ℕ))
        → get_elem? s.operation_queues i ≡ some q
        → get_elem? t.operation_queues i ≡ some (append (numbered s.promises_made os) q)
    pub elsewhere :
        (j : ℕ)
        → nat_eqb i j ≡ false
        → get_elem? t.operation_queues j ≡ get_elem? s.operation_queues j
    pub as_many : length t.operation_queues ≡ length s.operation_queues
    pub made : t.promises_made ≡ s.promises_made + length os
    pub kept :
        t ≡ record s { operation_queues = t.operation_queues; promises_made = t.promises_made }

  Appended-nil : (i : ℕ) (s : Service P) → Appended i [] s s
  Appended-nil i s = record {
    here = λ q e. e ∙ ap some (append_none q);
    elsewhere = λ j e. refl;
    as_many = refl;
    made = omega arith;
    kept = refl;
  }

  Appended-cons :
      (i : ℕ) (o : Operation) (os : List Operation) (s t u : Service P)
      → Appended i (o ∷ []) s t
      → Appended i os t u
      → Appended i (o ∷ os) s u
  Appended-cons i o os s t u a b = record {
    here = λ q e.
        b.here (append ((o, s.promises_made) ∷ []) q) (a.here q e)
        ∙ (rw a.made
            (ap some (append_twice (o, s.promises_made) (numbered (s.promises_made + 1) os) q)));
    elsewhere = λ j e. b.elsewhere j e ∙ a.elsewhere j e;
    as_many = b.as_many ∙ a.as_many;
    made = omega (arith, a.made, b.made);
    kept =
        b.kept
        ∙ ap
            (λ (v : Service P). record v {
              operation_queues = u.operation_queues;
              promises_made = u.promises_made;
            })
            a.kept;
  }

  push_operation-Appended :
      (queue_id : ℕ) (o : Operation) (s : Service P)
      → 0 < length s.operation_queues
      → Returns (push_operation P queue_id o s) λ (f, t).
        (f ≡ waiter s.promises_made) × Appended (queue_id % length s.operation_queues) (o ∷ []) s t
  unfolding push_operation push
  push_operation-Appended queue_id o s h =
      let i = queue_id % length s.operation_queues in
      let (q, here) = get_elem?_total s.operation_queues i (omega arith) in
      let t = record s {
        operation_queues = set s.operation_queues i (push (o, s.promises_made) q);
        promises_made = s.promises_made + 1;
      } in
      (
        (waiter s.promises_made, t),
        rw (positive (length s.operation_queues) h) (rw (at-get_elem? s.operation_queues i q here)),
        (
          refl,
          record {
            here = λ r e. ground (
              arith,
              get_elem?-set_self s.operation_queues i (push (o, s.promises_made) q)
                  (get_elem?_below s.operation_queues i q here),
              here,
              e,
            );
            elsewhere = λ j e.
                get_elem?-set_ne s.operation_queues i j (push (o, s.promises_made) q) (apart i j e);
            as_many = length-set s.operation_queues i (push (o, s.promises_made) q);
            made = refl;
            kept = refl;
          },
        ),
      )

  -- a key that gets can ask for
  abbrev pub Known : Service P → Text → Type 0
  Known s key = (n : ℕ) × (lookup key s.proxy.key_to_frequency ≡ some n)

  abbrev pub gets : List Text → List Operation
  gets [] = []
  gets (key ∷ keys) = record blank { key = key } ∷ gets keys

  Known-kept :
      (i : ℕ) (os : List Operation) (s t : Service P) (keys : List Text)
      → Appended i os s t
      → All (Known s) keys
      → All (Known t) keys
  Known-kept i os s t keys a h = rw a.kept h

  pub get_future-Appended :
      (queue_id : ℕ) (key : Text) (s : Service P)
      → 0 < length s.operation_queues
      → Known s key
      → Returns (get_future P queue_id key s) λ (f, t).
        (f ≡ waiter s.promises_made)
        × Appended (queue_id % length s.operation_queues) (gets (key ∷ [])) s t
  unfolding get_future
  get_future-Appended queue_id key s h (n, e) =
      let ((f, t), run, facts) =
        push_operation-Appended queue_id (record blank { key = key }) s h in
      ((f, t), rw (get_future, e) run, facts)

  -- Gets of known keys, when there is a queue, end normally. They leave one future for each key, in
  -- their order, and their operations with new promises at the end of the queue that the number names.
  pub get_futures-Appended :
      (queue_id : ℕ) (keys : List Text) (s : Service P)
      → 0 < length s.operation_queues
      → All (Known s) keys
      → Returns (get_futures P queue_id keys s) λ (waiters, t).
        (waiters ≡ waiters_from s.promises_made (gets keys))
        × Appended (queue_id % length s.operation_queues) (gets keys) s t
  unfolding get_futures get_future
  get_futures-Appended queue_id [] s h known = (([], s), refl, (refl, Appended-nil _ s))
  get_futures-Appended queue_id (key ∷ keys) s h ((n, e), known) =
      let i = queue_id % length s.operation_queues in
      let o = record blank { key = key } in
      let ((f, t), run, (first, a)) = push_operation-Appended queue_id o s h in
      let ((fs, u), run', (others, b)) =
        get_futures-Appended queue_id keys t (omega (arith, a.as_many))
          (Known-kept i (o ∷ []) s t keys a known) in
      (
        (f ∷ fs, u),
        rw (e, run, ◌>>=◌) (rw run'),
        (cc (first, others, a.made), Appended-cons i o (gets keys) s t u a (rw a.as_many at b)),
      )

  abbrev pub puts : List Text → List Text → List Operation
  puts (key ∷ keys) (value ∷ values) = record { key = key; value = value } ∷ puts keys values
  puts _ _ = []

  -- Puts, when there is a queue and a value for each key, end normally. They leave one future
  -- for each key, in their order, and their operations with new promises at the end of the
  -- queue that the number names, whether or not the keys exist; all else stays as it is.
  pub put_futures-Appended :
      (queue_id : ℕ) (keys values : List Text) (s : Service P)
      → 0 < length s.operation_queues
      → length keys ≡ length values
      → Returns (put_futures P queue_id keys values s) λ (waiters, t).
        (waiters ≡ waiters_from s.promises_made (puts keys values))
        × Appended (queue_id % length s.operation_queues) (puts keys values) s t
  unfolding put_futures put_future
  put_futures-Appended queue_id [] values s h len = (([], s), refl, (refl, Appended-nil _ s))
  put_futures-Appended queue_id (key ∷ keys) [] s h len = absurd (omega arith)
  put_futures-Appended queue_id (key ∷ keys) (value ∷ values) s h len =
      let i = queue_id % length s.operation_queues in
      let o : Operation = record { key = key; value = value } in
      let ((f, t), run, (first, a)) = push_operation-Appended queue_id o s h in
      let ((fs, u), run', (others, b)) =
        put_futures-Appended queue_id keys values t (omega (arith, a.as_many)) (omega arith) in
      (
        (f ∷ fs, u),
        rw (run, ◌>>=◌) (rw run'),
        (
          cc (first, others, a.made),
          Appended-cons i o (puts keys values) s t u a (rw a.as_many at b),
        ),
      )
