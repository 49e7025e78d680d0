-- ===== src/Proxy/Execute/Model.antt =====
-- What the proxy, its update cache and its servers hold together: one value for each key, however
-- many replicas it has (pancake_proxy.cpp, `execute_batch`).
use pancake.Base.Tests.{
  ℕ, ◌<◌, ◌≡◌, ◌⊎◌, inl, inr, true, none, some, [], if◌then◌else◌, arith, Bool-cases,
}
use pancake.Base.Lists.{replicate, length-replicate}
use pancake.Base.Text.{Text, text_eqb, text_eqb_iff, text_eq}
use pancake.Base.Run.{ok}
use pancake.Operation.{Operation}
use pancake.Proxy.{Platform}
use pancake.Proxy.Execute.{enter_put}
use pancake.Storage.{View}
use pancake.UpdateCache.{entry, populate_replica_updates}
use pancake.UpdateCache.Pending.{owed, owed-populate, HasSize}

-- Where the replicas of the keys are stored.
pub record Layout : Type 0 where
  pub reps : Text → ℕ
  pub label : Text → ℕ → Text
  pub apart :
      (k j : Text) (i n : ℕ) → i < reps k → n < reps j → label k i ≡ label j n → (k ≡ j) × (i ≡ n)

-- The value of every key after an operation.
abbrev pub after : (Text → Text) → Operation → Text → Text
after f o k = if text_eqb o.value [] then f k else (if text_eqb o.key k then o.value else f k)

module _ (P : Platform) (L : Layout) where
  open P use {cuckoo.{Table, find, find-insert_or_assign}, engine.{encrypt, decrypt, IsPlain}}

  -- Replica `i` of `k` can be decrypted, and stands for `v`: the cache owes it `v`, or owes it
  -- nothing and it holds `v`.
  pub record Stands (cache : Table) (V : View) (k : Text) (i : ℕ) (v : Text) : Type 0 where
    pub cipher : Text
    pub stored : Text
    pub at_label : V (L.label k i) ≡ some cipher
    pub opens : decrypt cipher ≡ ok stored
    pub current :
        (owed P.cuckoo cache k i ≡ some v) ⊎ ((owed P.cuckoo cache k i ≡ none) × (stored ≡ v))

  -- The proxy stands for the map `f` on the keys that have replicas.
  pub record Models (cache : Table) (V : View) (f : Text → Text) : Type 0 where
    pub sized : (k : Text) → HasSize (find k cache) (L.reps k)
    pub plain : (k : Text) → 0 < L.reps k → IsPlain (f k)
    pub stands : (k : Text) (i : ℕ) → i < L.reps k → Stands cache V k i (f k)

  pub enter_put-sized :
      (o : Operation) (cache : Table) (k : Text)
      → HasSize (find k cache) (L.reps k)
      → HasSize (find k (enter_put P o (L.reps o.key) cache)) (L.reps k)
  unfolding enter_put populate_replica_updates
  enter_put-sized o cache k h = elim (Bool-cases (text_eqb o.value [])) [
    | inl e ↦ rw e h
    | inr e ↦
        let new =
          find-insert_or_assign o.key k (entry o.value (replicate (L.reps o.key) true)) cache in
        rw e (elim (Bool-cases (text_eqb o.key k)) [
          | inl q ↦ rw (new, q, (text_eqb_iff o.key k).0 q) (length-replicate (L.reps k) true)
          | inr q ↦ rw (new, q) h
        ])
  ]

  -- A put changes what the key stands for at every replica at once, with nothing stored yet.
  pub enter_put-Stands :
      (o : Operation) (cache : Table) (V : View) (f : Text → Text) (k : Text) (i : ℕ)
      → i < L.reps k
      → Stands cache V k i (f k)
      → Stands (enter_put P o (L.reps o.key) cache) V k i (after f o k)
  unfolding enter_put
  enter_put-Stands o cache V f k i h s = record {
    cipher = s.cipher;
    stored = s.stored;
    at_label = s.at_label;
    opens = s.opens;
    current = ground (
      arith,
      owed-populate P.cuckoo o.key o.value (L.reps o.key) cache k i,
      text_eqb_iff o.key k,
      s.current,
    );
  }

-- Only the numbers of replicas and their labels matter.
pub Models-congr :
    (P : Platform) (L K : Layout) (cache : P.cuckoo.Table) (V W : View) (f : Text → Text)
    → ((k : Text) → K.reps k ≡ L.reps k)
    → ((k : Text) (i : ℕ) → K.label k i ≡ L.label k i)
    → ((l : Text) → W l ≡ V l)
    → Models P L cache V f
    → Models P K cache W f
Models-congr P L K cache V W f reps label same m = record {
  sized = λ k. rw (reps k) (m.sized k);
  plain = λ k h. m.plain k (rw (reps k) at h);
  stands = λ k i h.
      let s = m.stands k i (rw (reps k) at h) in
      record {
        cipher = s.cipher;
        stored = s.stored;
        at_label = rw (label k i, same (L.label k i)) s.at_label;
        opens = s.opens;
        current = s.current;
      };
}
