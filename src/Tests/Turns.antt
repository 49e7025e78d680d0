-- ===== src/Tests/Turns.antt =====
-- A consumer thread with a full batch, while another request arrives, on the proxy of World.antt.
use pancake.Base.Tests.{
  ℕ, zero, suc, nat_eqb, ◌≡◌, sym, refl, subst, false, List, [], ◌∷◌, ◌++◌, arith, inl, inr,
}
use pancake.Base.Lists.{get_elem?}
use pancake.Base.Text.{Text}
use pancake.Base.Run.{Returns}
use pancake.Operation.{Operation, blank}
use pancake.Proxy.Batch.Fill.{Mixable, Mixed}
use pancake.Proxy.Consumer.{Consumer, set_values, unfilled, consumer_step}
use pancake.Proxy.Consumer.Steps.{Served, Serving, Apart, consumer_step-Serving}
use pancake.Proxy.Consumer.Turns.{rest, runs, arrives, Turns-Serving}
use pancake.Proxy.Requests.{Service}
use pancake.Proxy.Requests.Appended.{Appended, append}
use pancake.Queue.{empty, size}
use pancake.Base.Dict.{Dict}
use pancake.Tests.Batches.{
  put_seven, get_a, put_get, both_true, drawn_twice, two_replicas, some_a, carried_seven,
}
use pancake.Tests.Refined.{fives, refines}
use pancake.Tests.Setup.{only_a_key}
use pancake.Tests.World.{platform, proxy_with, key_a, counting}

abbrev pub numbers : Dict Text ℕ
numbers = (key_a, 2) ∷ []

abbrev full : Consumer
full = record {
  batch = record { operations = put_get; is_trues = both_true; promises = 8 ∷ 9 ∷ [] };
  operations_serviced = 2;
  previous_total_operations = 2;
}

abbrev service : Service platform
service = record {
  proxy = proxy_with counting;
  storage_batch_size = 2;
  operation_queues = empty ∷ [];
  promises_made = 10;
  outcomes = [];
  respond_queue = empty;
  sequence_queue = empty;
  finished = false;
}

-- a get more, with the promise 10
abbrev one_more : Service platform
one_more = record service {
  operation_queues = append ((get_a, 10) ∷ []) empty ∷ [];
  promises_made = 11;
}

abbrev two : List (Operation × ℕ)
two = (put_seven, 8) ∷ (get_a, 9) ∷ []

get_of : (key : Text) → key ≡ key_a → Served platform numbers (record blank { key = key })
get_of key e =
    subst (λ k. Served platform numbers (record blank { key = k })) (sym e) (some_a, inl refl)

pub mixable : Mixable platform (Served platform numbers) service.proxy
mixable = (
  (omega arith, omega arith, λ i key e. get_of key (only_a_key i key e)),
  (omega arith, omega arith, λ i key e. get_of key (only_a_key i key e)),
)

batch-Mixed : Mixed platform (Served platform numbers) two empty full.batch
unfolding size
batch-Mixed = record {
  aligned = tt;
  allowed = ((some_a, inr carried_seven), ((some_a, inl refl), tt));
  waiting_allowed = tt;
  counted = refl;
  in_order = refl;
}

nothing_set : [] ≡ set_values platform [] []
unfolding set_values
nothing_set = refl

start : Serving platform numbers 0 fives [] two full service
start = record {
  answered = [];
  left = two;
  in_order = refl;
  op_queue = empty;
  own = refl;
  mixed = batch-Mixed;
  level = refl;
  settings = refl;
  mixable = mixable;
  refines = refines counting;
  settled = nothing_set;
}

two-Apart :
    (s : Service platform)
    → s.proxy ≡ service.proxy
    → unfilled platform full s ≡ false
    → Apart platform numbers full s
two-Apart s e h = (
  (0 ∷ 1 ∷ [], (48 ∷ []) ∷ (49 ∷ []) ∷ [], drawn_twice),
  rw e two_replicas,
  ((refl, tt), (tt, tt)),
)

consumer_step-Serving_example :
    Returns
      (consumer_step platform 0 full service)
      λ (c, s). Serving platform numbers 0 fives [] two c s
consumer_step-Serving_example =
    consumer_step-Serving platform numbers 0 fives [] two full service start
      (two-Apart service refl)

other :
    (j : ℕ)
    → nat_eqb 0 j ≡ false
    → get_elem? one_more.operation_queues j ≡ get_elem? service.operation_queues j
other zero e = cc
other (suc j) e = refl

pushed : Appended platform 0 (get_a ∷ []) service one_more
pushed = record {
  here = λ q e. cc (e);
  elsewhere = λ j e. other j e;
  as_many = refl;
  made = refl;
  kept = refl;
}

abbrev stepped :
    Returns
      (consumer_step platform 0 full one_more)
      λ (c, s). Serving platform numbers 0 fives [] (two ++ (get_a, 10) ∷ []) c s
stepped =
    consumer_step-Serving platform numbers 0 fives [] (two ++ (get_a, 10) ∷ []) full one_more
      (Turns-Serving platform numbers 0 fives [] two ((get_a, 10) ∷ []) full full service one_more
        start (arrives (get_a ∷ []) pushed ((some_a, inl refl), tt) rest))
      (two-Apart one_more refl)

Turns-Serving_example :
    Serving platform numbers 0 fives [] (two ++ (get_a, 10) ∷ []) (stepped.0.0) (stepped.0.1)
Turns-Serving_example =
    Turns-Serving platform numbers 0 fives [] two ((get_a, 10) ∷ []) full (stepped.0.0) service
      (stepped.0.1) start
      (arrives (get_a ∷ []) pushed ((some_a, inl refl), tt)
        (runs (stepped.1) (two-Apart one_more refl) rest))
