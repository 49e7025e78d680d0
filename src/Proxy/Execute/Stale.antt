-- ===== src/Proxy/Execute/Stale.antt =====
-- A put and a later get of one key in one batch (pancake_proxy.cpp, `execute_batch`) that access one
-- replica: all replies are fetched before the first operation is served.
use pancake.Base.Tests.{
  ℕ, ◌<◌, ◌≡◌, refl, sym, ap, ◌∙◌, true, Option, none, some, List, [], ◌∷◌, arith, inl, inr, ◌⊎◌,
}
use pancake.Base.Text.{Text, text_eqb_iff}
use pancake.Base.Run.{ok, ◌>>=◌, Returns}
use pancake.Operation.{Operation}
use pancake.Proxy.{Platform, Proxy, number_of}
use pancake.Proxy.Execute.{Caches, choose_replicas, serve_all, fulfil, execute_batch}
use pancake.Proxy.Execute.Choose.{layout, chosen_Picked}
use pancake.Proxy.Execute.Model.{Layout, Stands, Models}
use pancake.Proxy.Execute.Refines.{Refines}
use pancake.Proxy.Execute.Serve.{serve-Returns, serve_stored, plain-nonempty, HasSize-Covers}
use pancake.Storage.{View, write_all}
use pancake.UpdateCache.Pending.{owed}

abbrev pub put_of : Text → Text → Operation
put_of key value = record { key = key; value = value }

abbrev pub get_of : Text → Operation
get_of key = record { key = key; value = [] }

write_last :
    (W : View) (l first last : Text) → write_all W (l ∷ l ∷ []) (first ∷ last ∷ []) l ≡ some last
write_last W l first last = ground (arith, text_eqb_iff l l)

module _ (P : Platform) where
  open P use {cuckoo.{find}, storage.{view}, engine.{decrypt, IsPlain}}

  stored_value :
      (debt : Option Text) (stored v : Text)
      → debt ≡ none
      → (debt ≡ some v) ⊎ ((debt ≡ none) × (stored ≡ v))
      → stored ≡ v
  stored_value debt stored v e (inl e') = cc
  stored_value debt stored v e (inr (_, h)) = h

  serve_put_get :
      (L : Layout) (numbers : List (Text × ℕ)) (key v : Text) (id a b : ℕ) (c : Caches P) (V : View)
      (f : Text → Text) (s : Stands P L c.update_cache V key id (f key))
      → ((k : Text) → number_of k numbers ≡ L.reps k)
      → Models P L c.update_cache V f
      → id < L.reps key
      → ((k : Text) → find k c.missing_new_replicas ≡ none)
      → IsPlain v
      → owed P.cuckoo c.update_cache key id ≡ none
      → Returns
          (serve_all P numbers
            (put_of key v ∷ get_of key ∷ [])
            (true ∷ true ∷ [])
            (id ∷ id ∷ [])
            (s.cipher ∷ s.cipher ∷ [])
            (a ∷ b ∷ [])
            c)
          λ (c', sets, values).
            (sets ≡ (a, v) ∷ (b, f key) ∷ [])
            × (owed P.cuckoo c'.update_cache key id ≡ none)
            × ((first last : Text) × (values ≡ first ∷ last ∷ []) × (decrypt last ≡ ok (f key)))
  unfolding serve_all fulfil
  serve_put_get L numbers key v id a b c V f s counts m lt u plain paid =
      let ((c', sent, new), run, (right, missing, paid', m')) =
        serve-Returns P L (put_of key v) id s.cipher c V f m lt s.at_label (u key) (inr plain) in
      let put_value : sent ≡ v =
        ground (arith, right, plain-nonempty P v plain, text_eqb_iff key key) in
      let old : s.stored ≡ f key =
        stored_value (owed P.cuckoo c.update_cache key id) s.stored (f key) paid s.current in
      let ((c'', got, again), run', (stale, opened, paid'')) =
        serve_stored P key (L.reps key) id s.cipher (f key) c' paid'
          (HasSize-Covers (find key c'.update_cache) (L.reps key) id (m'.sized key) lt)
          (s.opens ∙ ap ok old) (m.plain key (omega arith)) (missing key ∙ u key) in
      (
        (c'', (a, sent) ∷ (b, got) ∷ [], new ∷ again ∷ []),
        rw (counts key, run, ◌>>=◌) (rw (run', ◌>>=◌)),
        (rw (put_value, stale), paid'', (new, again, refl, opened)),
      )

  -- a replica that is owed nothing stands for what it holds
  held :
      (L : Layout) (cache : P.cuckoo.Table) (W : View) (key : Text) (id : ℕ) (v last old : Text)
      → Stands P L cache W key id v
      → W (L.label key id) ≡ some last
      → decrypt last ≡ ok old
      → owed P.cuckoo cache key id ≡ none
      → v ≡ old
  held L cache W key id v last old s here opened paid =
      let same_cipher : s.cipher ≡ last = cc (s.at_label) in
      let same_stored : s.stored ≡ old = cc (s.opens) in
      sym (stored_value (owed P.cuckoo cache key id) s.stored v paid s.current) ∙ same_stored

  -- The lost update: in a batch that puts `v` and then gets the key at the same replica, to
  -- which the cache owes nothing, the get is answered with the old value. If the proxy stands
  -- for any values afterwards, that of the key is the old one.
  pub execute_batch_stale :
      (key v : Text) (id a b : ℕ) (l : Text) (p chosen : Proxy P) (f : Text → Text)
      → Refines P p f
      → 0 < number_of key p.key_to_number_of_replicas
      → IsPlain v
      → choose_replicas P (put_of key v ∷ get_of key ∷ []) (true ∷ true ∷ []) p
        ≡ ok (id ∷ id ∷ [], l ∷ l ∷ [], chosen)
      → owed P.cuckoo p.update_cache key id ≡ none
      → Returns
          (execute_batch P (put_of key v ∷ get_of key ∷ []) (true ∷ true ∷ []) (a ∷ b ∷ []) p)
          λ (p', sets).
            (sets ≡ (a, v) ∷ (b, f key) ∷ []) × ((g : Text → Text) → Refines P p' g → g key ≡ f key)
  unfolding execute_batch
  execute_batch_stale key v id a b l p chosen f r pos plain chose paid =
      let os : List Operation = put_of key v ∷ get_of key ∷ [] in
      let L = layout P p r.placed in
      let V = view p.store in
      let (picked, same) =
        chosen_Picked P os (true ∷ true ∷ []) p r.placed (id ∷ id ∷ []) (l ∷ l ∷ []) chosen refl
          (pos, (pos, tt)) r.unmissed chose in
      let lt = picked.0 in
      let at_l = picked.1 in
      let s = r.models.stands key id lt in
      let here : V l ≡ some s.cipher = rw at_l s.at_label in
      let fetched =
        P.storage.get_batch-view (l ∷ l ∷ []) (s.cipher ∷ s.cipher ∷ []) chosen.store
          (rw same.store r.opened) (rw same.store (here, (here, tt))) in
      let ((c, sets, values), run, (right, paid', (first, last, e, opened))) =
        serve_put_get L chosen.key_to_number_of_replicas key v id a b
          (record { update_cache = p.update_cache; missing_new_replicas = p.missing_new_replicas })
          V f s (λ k. rw same.steady.numbers) r.models lt r.unmissed plain paid in
      let (store, run', (opened', written)) =
        P.storage.put_batch-view (l ∷ l ∷ []) values chosen.store (rw same.store r.opened) (rw e) in
      (
        (
          record chosen {
            update_cache = c.update_cache;
            missing_new_replicas = c.missing_new_replicas;
            store = store;
          },
          sets,
        ),
        rw (chose, ◌>>=◌)
            (rw (fetched, ◌>>=◌) (rw (same.cache, same.missing, run, ◌>>=◌) (rw run'))),
        (
          right,
          λ g rg.
              held (layout P _ rg.placed) c.update_cache (view store) key id (g key) last (f key)
                (rg.models.stands key id (rw same.steady.numbers lt))
                (rw (same.labels, ← at_l)
                  (written l ∙ (rw e (write_last (view chosen.store) l first last))))
                opened paid',
        ),
      )
