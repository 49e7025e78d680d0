-- ===== src/Proxy/Execute/Serve.antt =====
-- One round of the second loop of `execute_batch` (pancake_proxy.cpp) serves an operation.
use pancake.Base.Tests.{
  ℕ, ◌<◌, ◌≡◌, ◌⊎◌, inl, inr, refl, sym, ap, subst, ◌∙◌, true, false, Option, none, some, [],
  if◌then◌else◌, arith, ◌&&◌, nat_eqb, Bool-cases,
}
use pancake.Base.Text.{Text, text_eqb, text_eqb_iff, text_eq}
use pancake.Base.Run.{ok, ◌>>=◌, Returns}
use pancake.Base.Dict.{or_default}
use pancake.Operation.{Operation}
use pancake.Proxy.{Platform}
use pancake.Proxy.Execute.{Caches, enter_put, serve}
use pancake.Proxy.Execute.Model.{Layout, after, Stands, Models, enter_put-sized, enter_put-Stands}
use pancake.Storage.{View, update}
use pancake.UpdateCache.{Entry, check_if_missing}
use pancake.UpdateCache.Pending.{owed, HasSize, Covers, check_for_update-Returns}

-- A value that the engine can carry, or none.
abbrev pub Carried : (P : Platform) → Operation → Type 0
Carried P o = (o.value ≡ []) ⊎ P.engine.IsPlain o.value

pub HasSize-Covers : (e : Option Entry) (n i : ℕ) → HasSize e n → i < n → Covers e i
HasSize-Covers none n i h lt = tt
HasSize-Covers (some e) n i h lt = omega arith

module _ (P : Platform) where
  open P use {cuckoo.{Table, find, erase_fn, find-erase_fn}, engine.{encrypt, decrypt, IsPlain}}

  -- a key that no new replica is missing for
  check_if_missing-none :
      (key value : Text) (missing cache : Table)
      → find key missing ≡ none
      → Returns
          (check_if_missing P.cuckoo key value missing cache)
          λ (missing', cache'). (cache' ≡ cache) × ((k : Text) → find k missing' ≡ find k missing)
  unfolding check_if_missing
  check_if_missing-none key value missing cache f = (
    ((erase_fn key (λ e. (e, true)) missing).0, cache),
    rw (f, check_if_missing),
    (
      refl,
      λ k.
          ground
            (arith, find-erase_fn key k (λ (e : Entry). (e, true)) missing, text_eqb_iff key k),
    ),
  )

  after-plain :
      (o : Operation) (f : Text → Text) (k : Text)
      → Carried P o
      → IsPlain (f k)
      → IsPlain (after f o k)
  after-plain o f k (inl e) h = rw e h
  after-plain o f k (inr p) h = elim (Bool-cases (text_eqb o.value [])) [
    | inl e ↦ rw e h
    | inr e ↦ rw e (elim (Bool-cases (text_eqb o.key k)) [ inl q ↦ rw q p | inr q ↦ rw q h ])
  ]

  pub plain-nonempty : (v : Text) → IsPlain v → text_eqb v [] ≡ false
  plain-nonempty v p = elim (Bool-cases (text_eqb v [])) [
    | inl e ↦ absurd (P.engine.nonempty (subst IsPlain ((text_eqb_iff v []).0 e) p))
    | inr e ↦ e
  ]

  -- what is sent to the client and stored again is the value that the replica stands for
  sent-current :
      (debt : Option Text) (stored v : Text)
      → IsPlain v
      → (debt ≡ some v) ⊎ ((debt ≡ none) × (stored ≡ v))
      → (if text_eqb (or_default [] debt) [] then stored else or_default [] debt) ≡ v
  sent-current debt stored v p (inl e) = rw e (rw (plain-nonempty v p))
  sent-current debt stored v p (inr (e, h)) = rw e h

  module _ (L : Layout) where
    -- What holds of every replica once replica `id` of `key` has been rewritten with the value that
    -- its key stands for.
    rewritten :
        (cache cache' : Table) (V : View) (f : Text → Text) (key : Text) (id : ℕ)
        (plaintext new : Text) (k : Text) (i : ℕ)
        → id < L.reps key
        → i < L.reps k
        → Stands P L cache V k i (f k)
        → ((j : Text) (n : ℕ)
            → owed P.cuckoo cache' j n
              ≡ (if text_eqb key j && nat_eqb id n then none else owed P.cuckoo cache j n))
        → plaintext ≡ f key
        → decrypt new ≡ ok plaintext
        → Stands P L cache' (update V (L.label key id) new) k i (f k)
    rewritten cache cache' V f key id plaintext new k i lt lt' s p same opened =
        elim (Bool-cases (text_eqb (L.label key id) (L.label k i))) [
          | inl e ↦
              let (sk, si) = L.apart key k id i lt lt' ((text_eqb_iff _ _).0 e) in
              record {
                cipher = new;
                stored = plaintext;
                at_label = rw e;
                opens = opened;
                current = inr (ground (arith, p k i, text_eqb_iff key k), same ∙ ap f sk);
              }
          | inr e ↦ record {
            cipher = s.cipher;
            stored = s.stored;
            at_label = rw e s.at_label;
            opens = s.opens;
            current = rw (p k i, other e) s.current;
          }
        ]
      where
        other :
            text_eqb (L.label key id) (L.label k i) ≡ false
            → (text_eqb key k && nat_eqb id i) ≡ false
        other e = elim (Bool-cases (text_eqb key k && nat_eqb id i)) [
          | inr q ↦ q
          | inl q ↦
              let same_key : key ≡ k = (text_eqb_iff key k).0 (ground arith) in
              let same_id : id ≡ i = ground arith in
              let same_label : L.label key id ≡ L.label k i = cc in
              cc ((text_eqb_iff (L.label key id) (L.label k i)).1 same_label)
        ]

    -- One operation on an existing replica, read from its label, of a key that no new replica
    -- is missing for, with a value that is empty or can be carried, ends normally. Its plain
    -- text is the value that the key has after the operation, the map of missing replicas
    -- finds what it did, the cache owes the replica nothing any more, and with the new cipher
    -- text stored the proxy stands for the values after the operation.
    pub serve-Returns :
        (o : Operation) (id : ℕ) (cipher : Text) (c : Caches P) (V : View) (f : Text → Text)
        → Models P L c.update_cache V f
        → id < L.reps o.key
        → V (L.label o.key id) ≡ some cipher
        → find o.key c.missing_new_replicas ≡ none
        → Carried P o
        → Returns (serve P o (L.reps o.key) id cipher c) λ (c', plaintext, new).
          (plaintext ≡ after f o o.key)
          × ((k : Text) → find k c'.missing_new_replicas ≡ find k c.missing_new_replicas)
          × (owed P.cuckoo c'.update_cache o.key id ≡ none)
          × Models P L c'.update_cache (update V (L.label o.key id) new) (after f o)
    unfolding serve
    serve-Returns o id cipher c V f m lt at_label unmissed carried =
        let entered = enter_put P o (L.reps o.key) c.update_cache in
        let goal = after f o in
        let stands_after = λ (k : Text) (i : ℕ) (h : i < L.reps k).
          enter_put-Stands P L o c.update_cache V f k i h (m.stands k i h) in
        let sized_after = λ (k : Text). enter_put-sized P L o c.update_cache k (m.sized k) in
        let plain_after =
          λ (k : Text) (h : 0 < L.reps k). after-plain o f k carried (m.plain k h) in
        let s = stands_after o.key id lt in
        let same_cipher : s.cipher ≡ cipher = cc (s.at_label) in
        let p = plain_after o.key (omega arith) in
        let ((checked, sent), run, (sent_owed, owes, sizes)) =
          check_for_update-Returns P.cuckoo o.key id entered
            (HasSize-Covers _ _ id (sized_after o.key) lt) in
        let plaintext : Text = if text_eqb sent [] then s.stored else sent in
        let right : plaintext ≡ goal o.key =
          rw sent_owed
            (sent-current (owed P.cuckoo entered o.key id) s.stored (goal o.key) p s.current) in
        let ((missing, cache'), run', (same, unchanged)) =
          check_if_missing-none o.key plaintext c.missing_new_replicas checked unmissed in
        let (new, run'', opened) =
          P.engine.decrypt-encrypt plaintext (subst IsPlain (sym right) p) in
        (
          (record { update_cache = cache'; missing_new_replicas = missing }, plaintext, new),
          rw (← same_cipher, s.opens, run, ◌>>=◌) (rw (run', ◌>>=◌) (rw run'')),
          (
            right,
            unchanged,
            rw same (ground (arith, owes o.key id, text_eqb_iff o.key o.key)),
            rw same (record {
              sized = λ k. sizes k (L.reps k) (sized_after k);
              plain = plain_after;
              stands = λ k i h.
                  rewritten entered checked V goal o.key id plaintext new k i lt h
                    (stands_after k i h) owes right opened;
            }),
          ),
        )

  -- A get at a replica that is owed nothing returns what it reads there, and stores that again.
  pub serve_stored :
      (key : Text) (n id : ℕ) (cipher w : Text) (c : Caches P)
      → owed P.cuckoo c.update_cache key id ≡ none
      → Covers (find key c.update_cache) id
      → decrypt cipher ≡ ok w
      → IsPlain w
      → find key c.missing_new_replicas ≡ none
      → Returns (serve P (record { key = key; value = [] }) n id cipher c) λ (c', plaintext, new).
        (plaintext ≡ w) × (decrypt new ≡ ok w) × (owed P.cuckoo c'.update_cache key id ≡ none)
  unfolding serve enter_put
  serve_stored key n id cipher w c paid covers opens plain unmissed =
      let ((checked, sent), run, (sent_owed, owes, _)) =
        check_for_update-Returns P.cuckoo key id c.update_cache covers in
      let nothing : sent ≡ [] = rw paid at sent_owed in
      let ((missing, cache'), run', (same, _)) =
        check_if_missing-none key w c.missing_new_replicas checked unmissed in
      let (new, run'', opened) = P.engine.decrypt-encrypt w plain in
      (
        (record { update_cache = cache'; missing_new_replicas = missing }, w, new),
        rw (opens, run, ◌>>=◌) (rw (nothing, run', ◌>>=◌) (rw run'')),
        (refl, opened, rw same (ground (arith, owes key id, text_eqb_iff key key))),
      )
