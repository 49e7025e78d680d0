-- ===== src/Proxy/Replicas/Insert.antt =====
-- proxy/src/pancake_proxy.cpp: `insert_replicas` numbers the replicas of a key and fills their labels.

use pancake.Base.Tests.{
  ℕ, zero, suc, ◌+◌, ◌≡◌, refl, sym, ap, ◌∙◌, true, some, List, [], ◌∷◌, ◌++◌, if◌then◌else◌, arith,
  leb, nat_eqb, inl, inr, Bool-cases,
}
use pancake.Base.Lists.{length, replicate, length-replicate}
use pancake.Base.Text.{Text, text_eq, to_string}
use pancake.Base.Run.{ok, ◌>>=◌, Returns}
use pancake.Base.Dict.{insert}
use pancake.Proxy.{Platform, Proxy, replica_name}
use pancake.Proxy.Replicas.{write_labels, write_full, insert_loop, insert_replicas}
use pancake.Storage.{View, update, write_all}
use pancake.Util.{rand_str}
use pancake.Proxy.Replicas.Labels.{elem, elem-append, labels_from, number_from}

-- The view after one value has been written under each of some labels.
abbrev pub filled : Text → List Text → View → View
filled c ls f l = if elem l ls then some c else f l

write_all-filled :
    (c : Text) (ls : List Text) (f : View) (l : Text)
    → write_all f ls (replicate (length ls) c) l ≡ filled c ls f l
write_all-filled c [] f l = refl
write_all-filled c (m ∷ ms) f l = ground (arith, write_all-filled c ms (update f m c) l)

filled-empty :
    (c : Text) (ls : List Text) (f : View) (l : Text)
    → nat_eqb (length ls) 0 ≡ true
    → filled c ls f l ≡ f l
filled-empty c [] f l e = refl
filled-empty c (m ∷ ms) f l e = ground arith

module _ (P : Platform) where
  -- Nothing but the labels, the servers and the random numbers has changed.
  abbrev pub Kept : Proxy P → Proxy P → Type 0
  Kept p q = q ≡ record p {
    replica_to_label = q.replica_to_label;
    label_count = q.label_count;
    store = q.store;
    rng = q.rng;
  }

  pub Kept-trans : (p q r : Proxy P) → Kept p q → Kept q r → Kept p r
  Kept-trans p q r e e' =
      e'
      ∙ ap
          (λ (t : Proxy P). record t {
            replica_to_label = r.replica_to_label;
            label_count = r.label_count;
            store = r.store;
            rng = r.rng;
          })
          e

  open P use {storage.{view, IsOpen, put_batch-view}, engine.{IsPlain, decrypt, decrypt-encrypt}}

  write_labels-Returns :
      (c : Text) (ls : List Text) (p : Proxy P)
      → IsOpen p.store
      → Returns (write_labels P c ls p) λ q.
        Kept p q
        × (q.replica_to_label ≡ p.replica_to_label)
        × (q.label_count ≡ p.label_count)
        × IsOpen q.store
        × ((l : Text) → view q.store l ≡ filled c ls (view p.store) l)
  unfolding write_labels
  write_labels-Returns c ls p h =
      let (store, run, (opened, written)) =
        put_batch-view ls (replicate (length ls) c) p.store h
          (sym (length-replicate (length ls) c)) in
      (
        record p { store = store },
        rw run,
        (refl, refl, refl, opened, λ l. written l ∙ write_all-filled c ls (view p.store) l),
      )

  -- Before and after a full batch, what is written and what is left make the same view.
  write_full-Returns :
      (c : Text) (ls : List Text) (p : Proxy P)
      → IsOpen p.store
      → Returns (write_full P c ls p) λ (rest, q).
        Kept p q
        × (q.replica_to_label ≡ p.replica_to_label)
        × (q.label_count ≡ p.label_count)
        × IsOpen q.store
        × ((l : Text) → filled c rest (view q.store) l ≡ filled c ls (view p.store) l)
  unfolding write_full
  write_full-Returns c ls p h = elim (Bool-cases (leb 50 (length ls))) [
    | inl e ↦ let (q, run, facts) = write_labels-Returns c ls p h in (([], q), rw e (rw run), facts)
    | inr e ↦ ((ls, p), rw e, (refl, refl, refl, h, λ l. refl))
  ]

  -- The loop numbers the replicas, and what it has written and left is one label for each.
  insert_loop-Returns :
      (n i : ℕ) (key c : Text) (ls : List Text) (p : Proxy P)
      → IsOpen p.store
      → Returns (insert_loop P n i key c ls p) λ (rest, q).
        Kept p q
        × (q.replica_to_label ≡ number_from n i key p.label_count p.replica_to_label)
        × (q.label_count ≡ p.label_count + n)
        × IsOpen q.store
        × ((l : Text)
            → filled c rest (view q.store) l
              ≡ filled c (labels_from p.label_count n) (filled c ls (view p.store)) l)
  unfolding insert_loop
  insert_loop-Returns zero i key c ls p h = ((ls, p), refl, (refl, refl, omega arith, h, λ l. refl))
  insert_loop-Returns (suc n) i key c ls p h =
      let named = record p {
        replica_to_label = insert (replica_name key i) p.label_count p.replica_to_label;
      } in
      let ms : List Text = ls ++ to_string p.label_count ∷ [] in
      let ((rest, q), run, (kept, labels, count, opened, written)) =
        write_full-Returns c ms named h in
      let next = record q { label_count = q.label_count + 1 } in
      let ((left, r), run', (kept', labels', count', opened', written')) =
        insert_loop-Returns n (i + 1) key c rest next opened in
      (
        (left, r),
        rw (run, ◌>>=◌) run',
        (
          Kept-trans p next r (Kept-trans p q next (Kept-trans p named q refl kept) refl) kept',
          labels'
              ∙ ap (λ l. number_from n (i + 1) key (l + 1) q.replica_to_label) count
              ∙ ap (number_from n (i + 1) key (p.label_count + 1)) labels,
          omega arith,
          opened',
          λ l. ground (
            arith,
            written' l,
            written l,
            elem-append l ls (to_string p.label_count ∷ []),
            count,
          ),
        ),
      )

  -- If the servers can be reached and the random text is one that the engine can carry, setting
  -- up a key with `n` replicas ends normally. It numbers them `label_count_`, `label_count_ +
  -- 1`, and so on, stores one cipher text of the random text under each of these labels and
  -- nowhere else, and changes nothing but the labels, their count, the servers and the random
  -- numbers.
  pub insert_replicas-Returns :
      (key : Text) (n : ℕ) (p : Proxy P)
      → IsOpen p.store
      → IsPlain (rand_str p.object_size p.rng).0
      → Returns (insert_replicas P key n p) λ q.
        Kept p q
        × (q.replica_to_label ≡ number_from n 0 key p.label_count p.replica_to_label)
        × (q.label_count ≡ p.label_count + n)
        × IsOpen q.store
        × ((c : Text) × (decrypt c ≡ ok (rand_str p.object_size p.rng).0)
            × ((l : Text)
                → view q.store l ≡ filled c (labels_from p.label_count n) (view p.store) l))
  unfolding insert_replicas
  insert_replicas-Returns key n p h plain =
      let drawn = record p { rng = (rand_str p.object_size p.rng).1 } in
      let (c, encrypted, decrypted) = decrypt-encrypt (rand_str p.object_size p.rng).0 plain in
      let ((rest, q), run, (kept, labels, count, opened, written)) =
        insert_loop-Returns n 0 key c [] drawn h in
      elim (Bool-cases (nat_eqb (length rest) 0)) [
        | inl e ↦ (
          q,
          rw (encrypted, run, e),
          (
            Kept-trans p drawn q refl kept,
            labels,
            count,
            opened,
            (c, decrypted, λ l. sym (filled-empty c rest (view q.store) l e) ∙ written l),
          ),
        )
        | inr e ↦
            let (r, run', (kept', labels', count', opened', written')) =
              write_labels-Returns c rest q opened in
            (
              r,
              rw (encrypted, run, e) run',
              (
                Kept-trans p q r (Kept-trans p drawn q refl kept) kept',
                labels' ∙ labels,
                count' ∙ count,
                opened',
                (c, decrypted, λ l. written' l ∙ written l),
              ),
            )
      ]
