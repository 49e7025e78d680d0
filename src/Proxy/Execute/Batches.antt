-- ===== src/Proxy/Execute/Batches.antt =====
-- A whole batch (pancake_proxy.cpp, the second loop of `execute_batch`), when no two of its
-- operations access one replica.
use pancake.Base.Tests.{ℕ, ◌<◌, ◌≡◌, refl, ◌∙◌, Bool, true, false, none, some, List, [], ◌∷◌, arith}
use pancake.Base.Lists.{length, All}
use pancake.Base.Text.{Text, text_eqb}
use pancake.Base.Run.{◌>>=◌, Returns}
use pancake.Base.Dict.{Dict}
use pancake.Operation.{Operation}
use pancake.Proxy.{Platform, number_of}
use pancake.Proxy.Execute.{Caches, serve, serve_all}
use pancake.Proxy.Execute.Model.{Layout, after, Models}
use pancake.Proxy.Execute.Serve.{Carried, serve-Returns}
use pancake.Storage.{View, update, write_all, Reads}

-- The values after a batch.
abbrev pub after_all : (Text → Text) → List Operation → Text → Text
after_all f [] = f
after_all f (o ∷ os) = after_all (after f o) os

-- What the promises of the true operations are set to: the value of the key at that point.
abbrev pub outcomes : (Text → Text) → List Operation → List Bool → List ℕ → List (ℕ × Text)
outcomes f [] is_trues promises = []
outcomes f (o ∷ os) [] promises = []
outcomes f (o ∷ os) (false ∷ is_trues) promises = outcomes (after f o) os is_trues promises
outcomes f (o ∷ os) (true ∷ is_trues) [] = []
outcomes f (o ∷ os) (true ∷ is_trues) (promise ∷ promises) =
    (promise, after f o o.key) ∷ outcomes (after f o) os is_trues promises

-- Each operation has its mark, and each true one a promise.
abbrev pub Promised : List Operation → List Bool → List ℕ → Type 0
Promised [] is_trues promises = Unit {0}
Promised (o ∷ os) [] promises = ⊥
Promised (o ∷ os) (false ∷ is_trues) promises = Promised os is_trues promises
Promised (o ∷ os) (true ∷ is_trues) [] = ⊥
Promised (o ∷ os) (true ∷ is_trues) (promise ∷ promises) = Promised os is_trues promises

abbrev pub Fresh : Text → List Text → Type 0
Fresh l = All (λ m. text_eqb l m ≡ false)

abbrev pub Distinct : List Text → Type 0
Distinct [] = Unit {0}
Distinct (l ∷ ls) = Fresh l ls × Distinct ls

-- The replicas and labels that belong to the operations.
abbrev pub Picked : Layout → List Operation → List ℕ → List Text → Type 0
Picked L [] [] [] = Unit {0}
Picked L (o ∷ os) (id ∷ ids) (l ∷ ls) =
    (id < L.reps o.key) × (l ≡ L.label o.key id) × Picked L os ids ls
Picked L _ _ _ = ⊥

module _ (P : Platform) (L : Layout) where
  open P use {cuckoo.{find}}

  abbrev Unmissed : Caches P → Type 0
  Unmissed c = (k : Text) → find k c.missing_new_replicas ≡ none

  Reads-update :
      (V : View) (l new : Text) (ls ciphers : List Text)
      → Fresh l ls
      → Reads V ls ciphers
      → Reads (update V l new) ls ciphers
  Reads-update V l new [] [] fresh r = tt
  Reads-update V l new [] (c ∷ cs) fresh r = r
  Reads-update V l new (m ∷ ls) [] fresh r = r
  Reads-update V l new (m ∷ ls) (c ∷ cs) fresh r =
      (rw (fresh.0) r.0, Reads-update V l new ls cs fresh.1 r.1)

  -- `serve-Returns` with the label of the replica under a name of its own
  served :
      (o : Operation) (id : ℕ) (l cipher : Text) (c : Caches P) (V : View) (f : Text → Text)
      → Models P L c.update_cache V f
      → Unmissed c
      → id < L.reps o.key
      → l ≡ L.label o.key id
      → V l ≡ some cipher
      → Carried P o
      → Returns (serve P o (L.reps o.key) id cipher c) λ (c', plaintext, new).
        (plaintext ≡ after f o o.key)
        × ((k : Text) → find k c'.missing_new_replicas ≡ find k c.missing_new_replicas)
        × Models P L c'.update_cache (update V l new) (after f o)
  served o id l cipher c V f m u lt same here carried =
      let (r, run, (right, missing, _, m')) =
        serve-Returns P L o id cipher c V f m lt (rw same at here) (u o.key) carried in
      (r, run, (right, missing, rw same m'))

  -- The second loop, on replicas with pairwise distinct labels whose cipher texts are the
  -- responses, when no replica is missing, the values can be carried and every true operation
  -- has a promise, ends normally. Each promise is set to the value that its key has after the
  -- operations up to its own, there is one value to store for each label, still no replica is
  -- missing, and with these values stored the proxy stands for the values after the whole
  -- batch.
  pub serve_all-Returns :
      (numbers : Dict Text ℕ) (os : List Operation) (is_trues : List Bool) (ids : List ℕ)
      (labels ciphers : List Text) (promises : List ℕ) (c : Caches P) (V : View) (f : Text → Text)
      → ((k : Text) → number_of k numbers ≡ L.reps k)
      → Models P L c.update_cache V f
      → Unmissed c
      → All (Carried P) os
      → Promised os is_trues promises
      → Picked L os ids labels
      → Distinct labels
      → Reads V labels ciphers
      → Returns (serve_all P numbers os is_trues ids ciphers promises c) λ (c', sets, values).
        (sets ≡ outcomes f os is_trues promises)
        × (length labels ≡ length values)
        × Unmissed c'
        × Models P L c'.update_cache (write_all V labels values) (after_all f os)
  unfolding serve_all
  serve_all-Returns numbers [] ts [] [] cs ps c V f counts m u carried promised picked distinct r =
      ((c, [], []), refl, (refl, refl, u, m))
  serve_all-Returns numbers [] ts [] (l ∷ ls) cs ps c V f counts m u carried promised picked d r =
      absurd picked
  serve_all-Returns numbers [] ts (id ∷ ids) ls cs ps c V f counts m u carried promised picked d r =
      absurd picked
  serve_all-Returns numbers (o ∷ os) [] ids ls cs ps c V f counts m u carried promised picked d r =
      absurd promised
  serve_all-Returns numbers (o ∷ os) (t ∷ ts) [] ls cs ps c V f counts m u carried promised picked d
        r =
      absurd picked
  serve_all-Returns numbers (o ∷ os) (t ∷ ts) (id ∷ ids) [] cs ps c V f counts m u carried promised
        picked d r =
      absurd picked
  serve_all-Returns numbers (o ∷ os) (t ∷ ts) (id ∷ ids) (l ∷ ls) [] ps c V f counts m u carried
        promised picked d r =
      absurd r
  serve_all-Returns numbers (o ∷ os) (true ∷ ts) (id ∷ ids) (l ∷ ls) (cipher ∷ cs) [] c V f counts m
        u carried promised picked d r =
      absurd promised
  serve_all-Returns numbers (o ∷ os) (true ∷ ts) (id ∷ ids) (l ∷ ls) (cipher ∷ cs) (p ∷ ps) c V f
        counts m u carried promised (lt, same, picked) d r =
      let ((c', plaintext, new), run, (right, missing, m')) =
        served o id l cipher c V f m u lt same r.0 carried.0 in
      let ((c'', sets, values), run', (s, len, u', m'')) =
        serve_all-Returns numbers os ts ids ls cs ps c' (update V l new) (after f o) counts m'
          (λ k. missing k ∙ u k) carried.1 promised picked d.1
          (Reads-update V l new ls cs d.0 r.1) in
      (
        (c'', (p, plaintext) ∷ sets, new ∷ values),
        rw (counts o.key, run, ◌>>=◌) (rw run'),
        (cc (right, s), omega arith, u', m''),
      )
  serve_all-Returns numbers (o ∷ os) (false ∷ ts) (id ∷ ids) (l ∷ ls) (cipher ∷ cs) ps c V f counts
        m u carried promised (lt, same, picked) d r =
      let ((c', plaintext, new), run, (right, missing, m')) =
        served o id l cipher c V f m u lt same r.0 carried.0 in
      let ((c'', sets, values), run', (s, len, u', m'')) =
        serve_all-Returns numbers os ts ids ls cs ps c' (update V l new) (after f o) counts m'
          (λ k. missing k ∙ u k) carried.1 promised picked d.1
          (Reads-update V l new ls cs d.0 r.1) in
      (
        (c'', sets, new ∷ values),
        rw (counts o.key, run, ◌>>=◌) (rw run'),
        (s, omega arith, u', m''),
      )
