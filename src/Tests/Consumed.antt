-- ===== src/Tests/Consumed.antt =====
-- A get of the one client of a proxy with batches of one operation, and the consumer thread that
-- answers it, on the proxy of World.antt.
use pancake.Base.Tests.{
  ℕ, ◌%◌, ◌≡◌, ◌∙◌, some, sym, refl, subst, true, false, List, [], ◌∷◌, arith, inl,
}
use pancake.Base.Lists.{length, get_elem?}
use pancake.Base.Text.{to_string, text_eq}
use pancake.Base.Run.{ok, Returns}
use pancake.Base.Dict.{lookup, insert}
use pancake.Proxy.{Proxy, fetch, replica_name}
use pancake.Proxy.Consumer.{Consumer, new_consumer, consumer_step, unfilled, set_values}
use pancake.Proxy.Batch.{create_security_batch, is_true_distribution}
use pancake.Proxy.Batch.Fill.{Mixed}
use pancake.Proxy.Consumer.Ordered.{applied}
use pancake.Proxy.Consumer.Steps.{Served, Serving, Apart}
use pancake.Proxy.Consumer.Told.{Emptied, get_batch-Consumed}
use pancake.Proxy.Consumer.Turns.{Turns, rest, runs}
use pancake.Proxy.Execute.{choose_replicas, execute_batch}
use pancake.Proxy.Execute.Refines.{Refines}
use pancake.Proxy.Requests.{Service, get_batch}
use pancake.Proxy.Requests.Appended.{Appended, Known, append}
use pancake.Queue.{empty, size, pop}
use pancake.UpdateCache.{sample_a_replica, modulo, check_for_update, check_if_missing}
use pancake.Storage.Rocksdb as Rocksdb
use pancake.Tests.Batches.{get_a, some_a}
use pancake.Tests.Refined.{fives, refines}
use pancake.Tests.Turns.{numbers, mixable}
use pancake.Tests.World.{platform, proxy_with, key_a, counting}
use pancake.Util.{rand, draw, prob, rand_uint32}

-- security batches of one operation, after `n` draws
abbrev by_one : ℕ → Proxy platform
by_one n = record (proxy_with (record { stream = λ k. k; drawn = n })) { security_batch_size = 1 }

abbrev idle : Service platform
idle = record {
  proxy = by_one 0;
  storage_batch_size = 1;
  operation_queues = empty ∷ [];
  promises_made = 7;
  outcomes = [];
  respond_queue = empty;
  sequence_queue = empty;
  finished = false;
}

abbrev asked : Service platform
asked = record idle { operation_queues = append ((get_a, 7) ∷ []) empty ∷ []; promises_made = 8 }

abbrev one_op : Consumer
one_op = record {
  batch = record { operations = get_a ∷ []; is_trues = true ∷ []; promises = 7 ∷ [] };
  operations_serviced = 1;
  previous_total_operations = 1;
}

abbrev taken_one : Service platform
taken_one = record idle { promises_made = 8; proxy = by_one 1 }

abbrev answered_one : Service platform
answered_one = record idle { promises_made = 8; proxy = by_one 2; outcomes = (7, 5 ∷ []) ∷ [] }

fill : consumer_step platform 0 new_consumer asked ≡ ok (one_op, taken_one)
unfolding consumer_step unfilled size create_security_batch is_true_distribution prob rand_uint32
    draw pop
fill = refl

execute :
    consumer_step platform 0 one_op taken_one
    ≡ ok (record one_op { batch = new_consumer.batch }, answered_one)
unfolding consumer_step unfilled set_values execute_batch fetch lookup insert sample_a_replica
    modulo rand draw to_string replica_name check_for_update check_if_missing Rocksdb.get_batch
    Rocksdb.put_batch
execute = refl

known : Known platform idle key_a
unfolding lookup
known = (1, refl)

zero_mod : 0 ≡ 0 % length idle.operation_queues
zero_mod = omega arith

some_left : unfilled platform new_consumer asked ≡ true
unfolding unfilled
some_left = refl

one-Apart : Apart platform numbers one_op taken_one
unfolding choose_replicas fetch lookup sample_a_replica rand draw modulo to_string replica_name
one-Apart = ((1 ∷ [], (49 ∷ []) ∷ [], by_one 2), refl, (tt, tt))

by_one-Refines : Refines platform (by_one 0) fives
by_one-Refines =
    let r = refines counting in
    record {
      placed = record { named = r.placed.named; apart = r.placed.apart };
      unmissed = r.unmissed;
      opened = r.opened;
      models = r.models;
    }

nothing_set : [] ≡ set_values platform [] []
unfolding set_values
nothing_set = refl

nothing-Mixed : Mixed platform (Served platform numbers) [] empty new_consumer.batch
unfolding size
nothing-Mixed = record {
  aligned = tt;
  allowed = tt;
  waiting_allowed = tt;
  counted = refl;
  in_order = refl;
}

idle-Serving : Serving platform numbers 0 fives [] [] new_consumer idle
idle-Serving = record {
  answered = [];
  left = [];
  in_order = refl;
  op_queue = empty;
  own = refl;
  mixed = nothing-Mixed;
  level = refl;
  settings = refl;
  mixable = mixable;
  refines = by_one-Refines;
  settled = nothing_set;
}

only_one :
    {A : Type 0} (xs : List A) (x : A) → length xs ≡ 1 → get_elem? xs 0 ≡ some x → xs ≡ x ∷ []
only_one [] x len e = cc
only_one (y ∷ []) x len e = cc
only_one (y ∷ z ∷ ys) x len e = absurd (omega arith)

only_asked : (t : Service platform) → Appended platform 0 (get_a ∷ []) idle t → t ≡ asked
only_asked t a =
    a.kept ∙ (rw (only_one t.operation_queues _ a.as_many (a.here empty refl), a.made) refl)

answered_then :
    (t : Service platform)
    → Appended platform 0 (get_a ∷ []) idle t
    → (c : Consumer) × Turns platform numbers 0 [] new_consumer t c answered_one
      × Emptied platform 0 c answered_one
answered_then t a = (
  record one_op { batch = new_consumer.batch },
  subst
      (λ u.
        Turns platform numbers 0 [] new_consumer u (record one_op { batch = new_consumer.batch })
          answered_one)
      (sym (only_asked t a))
      (runs fill (λ h. absurd cc (some_left, h)) (runs execute (λ h. one-Apart) rest)),
  (refl, empty, refl, refl),
)

get_batch-Consumed_example :
    Returns
      (get_batch platform (λ t. answered_one) 0 (key_a ∷ []) idle)
      λ (vs, u). (vs ≡ (5 ∷ []) ∷ []) × Refines platform u.proxy (applied fives ((get_a, 7) ∷ []))
get_batch-Consumed_example =
    get_batch-Consumed platform numbers 0 fives [] (λ t. answered_one) 0 (key_a ∷ []) [] []
      new_consumer idle (omega arith) zero_mod (known, tt) ((some_a, inl refl), tt) idle-Serving
      (tt, tt) answered_then
