-- ===== src/Proxy/Execute/Refines.antt =====
-- `execute_batch` (pancake_proxy.cpp) refines a map with one value for each key.

use pancake.Base.Tests.{ℕ, ◌<◌, ◌≡◌, subst, ap, ◌∙◌, Bool, none, List, [], ◌∷◌}
use pancake.Base.Lists.{length, All}
use pancake.Base.Text.{Text}
use pancake.Base.Run.{Run, ok, ◌>>=◌, Returns}
use pancake.Operation.{Operation}
use pancake.Proxy.{Platform, Proxy, number_of}
use pancake.Proxy.Execute.{choose_replicas, execute_batch}
use pancake.Proxy.Execute.Batches.{
  after_all, outcomes, Promised, Distinct, Picked, serve_all-Returns,
}
use pancake.Proxy.Execute.Choose.{Placed, Steady, layout, Placed-congr, choose_replicas-Returns}
use pancake.Proxy.Execute.Model.{Layout, Models, Models-congr}
use pancake.Proxy.Execute.Serve.{Carried}
use pancake.Storage.{View, Reads, write_all}

module _ (P : Platform) where
  open P use {cuckoo.{Table, find}, storage.{view, IsOpen, put_batch-view, get_batch-view}}

  -- the cipher texts at the chosen labels
  readable :
      (L : Layout) (cache : Table) (V : View) (f : Text → Text) (os : List Operation) (ids : List ℕ)
      (ls : List Text)
      → Models P L cache V f
      → Picked L os ids ls
      → (ciphers : List Text) × Reads V ls ciphers
  readable L cache V f [] [] [] m c = ([], tt)
  readable L cache V f [] [] (l ∷ ls) m c = absurd c
  readable L cache V f [] (i ∷ is) ls m c = absurd c
  readable L cache V f (o ∷ os) [] ls m c = absurd c
  readable L cache V f (o ∷ os) (i ∷ is) [] m c = absurd c
  readable L cache V f (o ∷ os) (i ∷ is) (l ∷ ls) m (lt, e, c) =
      let s = m.stands o.key i lt in
      let (ciphers, reads) = readable L cache V f os is ls m c in
      (s.cipher ∷ ciphers, (rw e s.at_label, reads))

  same_labels :
      (ids ids' : List ℕ) (ls ls' : List Text) (q q' : Proxy P)
      {m : Run (List ℕ × List Text × Proxy P)}
      → m ≡ ok (ids, ls, q)
      → m ≡ ok (ids', ls', q')
      → ls ≡ ls'
  same_labels ids ids' ls ls' q q' e e' = cc

  -- What a client may rely on between two batches: the replicas have labels, no new replica is
  -- missing, the servers can be reached, and every key stands for its value in `f`.
  pub record Refines (p : Proxy P) (f : Text → Text) : Type 0 where
    pub placed : Placed P p
    pub unmissed : (k : Text) → find k p.missing_new_replicas ≡ none
    pub opened : IsOpen p.store
    pub models : Models P (layout P p placed) p.update_cache (view p.store) f

  -- A batch of puts and gets, true or fake, on keys that have replicas, in which no replica is
  -- chosen twice and every value is empty or a text that the engine can carry, ends normally
  -- when the proxy stands for `f`. Each promise of a true operation is set to the value that
  -- its key has after the operations up to its own, and the proxy then stands for the values
  -- after the whole batch, with the same distributions and numbers of replicas.
  pub execute_batch-Refines :
      (os : List Operation) (is_trues : List Bool) (promises : List ℕ) (p : Proxy P)
      (f : Text → Text) (ids : List ℕ) (labels : List Text) (chosen : Proxy P)
      → Refines p f
      → length os ≡ length is_trues
      → All (λ o. 0 < number_of o.key p.key_to_number_of_replicas) os
      → All (Carried P) os
      → Promised os is_trues promises
      → choose_replicas P os is_trues p ≡ ok (ids, labels, chosen)
      → Distinct labels
      → Returns (execute_batch P os is_trues promises p) λ (p', sets).
        (sets ≡ outcomes f os is_trues promises) × Refines p' (after_all f os) × Steady P p p'
  unfolding execute_batch
  execute_batch-Refines os ts promises p f ids labels q r len pos carried promised chose distinct =
      let ((ids', ls, q'), run, (picked, same)) =
        choose_replicas-Returns P os ts p r.placed len pos r.unmissed in
      let L = layout P p r.placed in
      let V = view p.store in
      let apart = subst Distinct (same_labels ids ids' labels ls q q' chose run) distinct in
      let (ciphers, reads) = readable L p.update_cache V f os ids' ls r.models picked in
      let fetched =
        get_batch-view ls ciphers q'.store (rw same.store r.opened) (rw same.store reads) in
      let ((c, sets, values), run', (right, lengths, unmissed, models)) =
        serve_all-Returns P L q'.key_to_number_of_replicas os ts ids' ls ciphers promises
          (record {
            update_cache = q'.update_cache;
            missing_new_replicas = q'.missing_new_replicas;
          })
          V f (λ k. rw same.steady.numbers) (rw same.cache r.models)
          (λ k. rw same.missing (r.unmissed k)) carried promised picked apart reads in
      let (store, run'', (opened, written)) =
        put_batch-view ls values q'.store (rw same.store r.opened) lengths in
      let p' = record q' {
        update_cache = c.update_cache;
        missing_new_replicas = c.missing_new_replicas;
        store = store;
      } in
      let placed' = Placed-congr P p p' same.steady.numbers same.labels r.placed in
      (
        (p', sets),
        rw (run, ◌>>=◌) (rw (fetched, ◌>>=◌) (rw (run', ◌>>=◌) (rw run''))),
        (
          right,
          record {
            placed = placed';
            unmissed = unmissed;
            opened = opened;
            models =
                Models-congr P L (layout P p' placed') c.update_cache (write_all V ls values)
                  (view store) (after_all f os) (λ k. rw same.steady.numbers)
                  (λ k i. rw same.labels)
                  (λ l. written l ∙ ap (λ s. write_all (view s) ls values l) same.store) models;
          },
          record {
            numbers = same.steady.numbers;
            real = same.steady.real;
            fake = same.steady.fake;
          },
        ),
      )
