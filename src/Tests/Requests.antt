-- ===== src/Tests/Requests.antt =====
-- Requests on the proxy of World.antt with two queues, their answers, and a round of a consumer.
use pancake.Base.Tests.{ℕ, ◌+◌, ◌*◌, ◌≡◌, refl, false, [], ◌∷◌, arith, nat_eq}
use pancake.Base.Lists.{length}
use pancake.Base.Text.{Text, text_eq, codes}
use pancake.Base.Run.{fault, waiting, thrown, ◌>>=◌, Returns}
use pancake.Base.Dict.{Dict, lookup}
use pancake.Proxy.Batch.Fill.{Mixed}
use pancake.Proxy.Consumer.{new_consumer, fill_round}
use pancake.Proxy.Consumer.Rounds.{fill_round-Mixed}
use pancake.Proxy.Requests.{
  Service, SequenceId, op_get, async_get, async_put_batch, responder_round,
}
use pancake.Proxy.Requests.Answers.{
  Answered, set_to, named, async_get-waiting, async_put_batch-thrown,
}
use pancake.Proxy.Requests.Appended.{Known}
use pancake.Queue.{empty}
use pancake.Tests.Setup.{waiting_two, OfA, only_a_key, nothing-Mixed}
use pancake.Tests.World.{platform, proxy_with, key_a, counting}

abbrev pub service : Service platform
service = record {
  proxy = proxy_with counting;
  storage_batch_size = 4;
  operation_queues = empty ∷ empty ∷ [];
  promises_made = 7;
  outcomes = [];
  respond_queue = empty;
  sequence_queue = empty;
  finished = false;
}

abbrev pub seq_one : SequenceId
seq_one = record { client_id = 1; client_seq_no = 2; server_seq_no = 0 }

abbrev seq_two : SequenceId
seq_two = record { client_id = 1; client_seq_no = 3; server_seq_no = 0 }

abbrev named_service : Service platform
named_service = record service { sequence_queue = record { items = seq_two ∷ []; count = 1 } }

-- the promises 7 and 8
abbrev pub both_set : Service platform → Dict ℕ Text
both_set t = (7, 5 ∷ []) ∷ (8, 6 ∷ []) ∷ []

pub both-Answered : (t : Service platform) → Answered 7 ((5 ∷ []) ∷ (6 ∷ []) ∷ []) (both_set t)
unfolding lookup
both-Answered t = (refl, (refl, tt))

one-Answered : (t : Service platform) → Answered 7 ((5 ∷ []) ∷ []) (both_set t)
unfolding lookup
one-Answered t = (refl, tt)

pub Known-a : Known platform service key_a
unfolding lookup
Known-a = (1, refl)

async_get-waiting_example : Returns (async_get platform seq_one 3 key_a service) λ t.
    (responder_round platform (set_to platform both_set t) ≡ fault waiting)
    × ((other : SequenceId)
        → Returns
            (responder_round platform (named platform other (set_to platform both_set t)))
            λ (sent, u).
              (sent ≡ (other, op_get, (5 ∷ []) ∷ []))
              × (u.respond_queue.items ≡ [])
              × (u.sequence_queue.items ≡ []))
async_get-waiting_example =
    async_get-waiting platform seq_one 3 key_a (5 ∷ []) service both_set (omega arith) Known-a refl
      refl one-Answered

async_put_batch-thrown_example :
    (async_put_batch platform
        (set_to platform both_set)
        seq_one
        3
        (key_a ∷ key_a ∷ [])
        ((1 ∷ []) ∷ (2 ∷ []) ∷ [])
        named_service
      >>= responder_round platform)
    ≡ fault (thrown (codes "No associated state"))
async_put_batch-thrown_example =
    async_put_batch-thrown platform seq_one seq_two [] 3 key_a (key_a ∷ [])
      ((1 ∷ []) ∷ (2 ∷ []) ∷ []) ((5 ∷ []) ∷ (6 ∷ []) ∷ []) named_service both_set (omega arith)
      refl refl refl refl both-Answered

fill_round-Mixed_example :
    Returns (fill_round platform waiting_two new_consumer (proxy_with counting)) λ (rest, c', p').
      Mixed platform OfA waiting_two.items rest c'.batch
      × (length c'.batch.operations ≡ 0 + 2 * 3)
      × (c'.operations_serviced ≡ c'.previous_total_operations)
      × (p' ≡ record (proxy_with counting) { rng = p'.rng })
fill_round-Mixed_example =
    fill_round-Mixed platform OfA waiting_two.items waiting_two new_consumer (proxy_with counting)
      ((omega arith, omega arith, only_a_key), (omega arith, omega arith, only_a_key)) nothing-Mixed
      refl
