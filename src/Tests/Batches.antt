-- ===== src/Tests/Batches.antt =====
-- Batches on the proxy of World.antt: a put of 7 and a get, whose random numbers choose two replicas
-- or the same one.
use pancake.Base.Tests.{◌<◌, ◌≡◌, ◌≢◌, inl, inr, refl, true, none, some, Bool, List, [], ◌∷◌, arith}
use pancake.Base.Lists.{length}
use pancake.Base.Text.{Text, to_string, text_eq}
use pancake.Base.Run.{ok, Returns}
use pancake.Base.Dict.{lookup}
use pancake.Operation.{Operation}
use pancake.Proxy.{Proxy, number_of, replica_name, fetch}
use pancake.Proxy.Execute.{Caches, choose_replicas, execute_batch, serve_all}
use pancake.Proxy.Execute.Batches.{after_all, outcomes, serve_all-Returns}
use pancake.Proxy.Execute.Choose.{Steady, layout}
use pancake.Proxy.Execute.Model.{Models}
use pancake.Proxy.Execute.Refines.{Refines, execute_batch-Refines}
use pancake.Proxy.Execute.Stale.{execute_batch_stale}
use pancake.Storage.{Reads, write_all}
use pancake.Tests.Refined.{fives, placed, models, refines}
use pancake.Tests.World.{platform, proxy_with, key_a, labels_a, counting, constant}
use pancake.UpdateCache.{sample_a_replica, modulo}
use pancake.UpdateCache.Pending.{owed}
use pancake.Util.{rand, draw}

abbrev pub seven : Text
seven = 7 ∷ []

abbrev pub put_seven : Operation
put_seven = record { key = key_a; value = seven }

abbrev pub get_a : Operation
get_a = record { key = key_a; value = [] }

abbrev pub put_get : List Operation
put_get = put_seven ∷ get_a ∷ []

abbrev pub both_true : List Bool
both_true = true ∷ true ∷ []

abbrev pub drawn_twice : Proxy platform
drawn_twice = proxy_with (record { stream = λ n. n; drawn = 2 })

abbrev drawn_twice_constant : Proxy platform
drawn_twice_constant = proxy_with (record { stream = λ _. 0; drawn = 2 })

pub two_replicas :
    choose_replicas platform put_get both_true (proxy_with counting)
    ≡ ok (0 ∷ 1 ∷ [], (48 ∷ []) ∷ (49 ∷ []) ∷ [], drawn_twice)
unfolding choose_replicas fetch lookup sample_a_replica rand draw modulo to_string replica_name
two_replicas = refl

one_replica :
    choose_replicas platform put_get both_true (proxy_with (constant 0))
    ≡ ok (0 ∷ 0 ∷ [], (48 ∷ []) ∷ (48 ∷ []) ∷ [], drawn_twice_constant)
unfolding choose_replicas fetch lookup sample_a_replica rand draw modulo to_string replica_name
one_replica = refl

pub some_a : 0 < number_of key_a ((key_a, 2) ∷ [])
unfolding lookup
some_a = omega arith

pub carried_seven : seven ≢ []
carried_seven e = cc

nothing_owed : owed platform.cuckoo [] key_a 0 ≡ none
unfolding lookup
nothing_owed = refl

none_missing : (k : Text) → platform.cuckoo.find k [] ≡ none
unfolding lookup
none_missing k = refl

one_below : 1 < number_of key_a ((key_a, 2) ∷ [])
unfolding lookup
one_below = omega arith

zero_below : 0 < number_of key_a ((key_a, 2) ∷ [])
unfolding lookup
zero_below = omega arith

same_numbers : (k : Text) → number_of k ((key_a, 2) ∷ []) ≡ number_of k ((key_a, 2) ∷ [])
same_numbers k = refl

label_zero : 48 ∷ [] ≡ to_string (number_of (replica_name key_a 0) labels_a)
unfolding lookup replica_name to_string
label_zero = refl

label_one : 49 ∷ [] ≡ to_string (number_of (replica_name key_a 1) labels_a)
unfolding lookup replica_name to_string
label_one = refl

label_one_holds :
    platform.storage.view
      (proxy_with counting).store
      (to_string (number_of (replica_name key_a 1) labels_a))
    ≡ some (1 ∷ 5 ∷ [])
unfolding lookup replica_name to_string
label_one_holds = refl

Reads-fives :
    Reads
      (platform.storage.view (proxy_with counting).store)
      ((48 ∷ []) ∷ (49 ∷ []) ∷ [])
      ((1 ∷ 5 ∷ []) ∷ (1 ∷ 5 ∷ []) ∷ [])
unfolding lookup
Reads-fives = (refl, (refl, tt))

execute_batch-Refines_example :
    Returns
      (execute_batch platform put_get both_true (8 ∷ 9 ∷ []) (proxy_with counting))
      λ (p', sets).
        (sets ≡ outcomes fives put_get both_true (8 ∷ 9 ∷ []))
        × Refines platform p' (after_all fives put_get)
        × Steady platform (proxy_with counting) p'
execute_batch-Refines_example =
    execute_batch-Refines platform put_get both_true (8 ∷ 9 ∷ []) (proxy_with counting) fives
      (0 ∷ 1 ∷ []) ((48 ∷ []) ∷ (49 ∷ []) ∷ []) drawn_twice (refines counting) refl
      (some_a, (some_a, tt)) (inr carried_seven, (inl refl, tt)) tt two_replicas
      ((refl, tt), (tt, tt))

execute_batch_stale_example :
    Returns
      (execute_batch platform put_get both_true (8 ∷ 9 ∷ []) (proxy_with (constant 0)))
      λ (p', sets).
        (sets ≡ (8, seven) ∷ (9, 5 ∷ []) ∷ [])
        × ((g : Text → Text) → Refines platform p' g → g key_a ≡ 5 ∷ [])
execute_batch_stale_example =
    execute_batch_stale platform key_a seven 0 8 9 (48 ∷ []) (proxy_with (constant 0))
      drawn_twice_constant fives (refines (constant 0)) some_a carried_seven one_replica
      nothing_owed

abbrev start : Caches platform
start = record { update_cache = []; missing_new_replicas = [] }

serve_all-Returns_example :
    let L = layout platform (proxy_with counting) (placed counting) in
    Returns
      (serve_all platform
        ((key_a, 2) ∷ [])
        put_get
        both_true
        (0 ∷ 1 ∷ [])
        ((1 ∷ 5 ∷ []) ∷ (1 ∷ 5 ∷ []) ∷ [])
        (8 ∷ 9 ∷ [])
        start)
      λ (c', sets, values).
        (sets ≡ outcomes fives put_get both_true (8 ∷ 9 ∷ []))
        × (2 ≡ length values)
        × ((k : Text) → platform.cuckoo.find k c'.missing_new_replicas ≡ none)
        × Models platform L c'.update_cache
            (write_all
              (platform.storage.view (proxy_with counting).store)
              ((48 ∷ []) ∷ (49 ∷ []) ∷ [])
              values)
            (after_all fives put_get)
serve_all-Returns_example =
    serve_all-Returns platform (layout platform (proxy_with counting) (placed counting))
      ((key_a, 2) ∷ []) put_get both_true (0 ∷ 1 ∷ []) ((48 ∷ []) ∷ (49 ∷ []) ∷ [])
      ((1 ∷ 5 ∷ []) ∷ (1 ∷ 5 ∷ []) ∷ []) (8 ∷ 9 ∷ []) start
      (platform.storage.view (proxy_with counting).store) fives same_numbers (models counting)
      none_missing (inr carried_seven, (inl refl, tt)) tt
      (zero_below, label_zero, (one_below, label_one, tt)) ((refl, tt), (tt, tt)) Reads-fives
