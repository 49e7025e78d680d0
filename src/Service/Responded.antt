-- ===== src/Service/Responded.antt =====
-- proxy/src/pancake_proxy.cpp, the responder, with service/src/thrift_response_client_map.cpp: the way of
-- an answer from the promises to the client.
use pancake.Base.Tests.{
  ℕ, ◌<◌, ◌≡◌, ◌≢◌, sym, subst, Bool, true, false, some, List, [], arith, nat_eq, nat_eqb,
}
use pancake.Base.Lists.{length, All}
use pancake.Base.Text.{Text}
use pancake.Base.Run.{◌>>=◌, Returns}
use pancake.Base.Dict.{Dict}
use pancake.Cuckoo.{CuckooMap}
use pancake.Proxy.{Platform}
use pancake.Proxy.Requests.{SequenceId, Service, async_get_batch, responder_round, op_get_batch}
use pancake.Proxy.Requests.Appended.{Known}
use pancake.Proxy.Requests.Answers.{Answered, set_to, async_get_batch-Answered}
use pancake.Wire.Protocol.{Protocol, IsFaithful}
use pancake.Wire.Structs.{FitsTexts}
use pancake.Wire.Sequence.{FitsId}
use pancake.Service.Clients.{ClientMap, async_respond_client, minus}
use pancake.Service.Delivered.{Reaches, answer-Reaches}

module _ (p : Protocol) (cuckoo : CuckooMap ℕ ℕ) (is_open : ℕ → Bool) (P : Platform) where
  -- After `async_get_batch` on a proxy whose responder has nothing to do, and once the new
  -- promises are set to `vs`, the responder's answer is written to the connection that the
  -- client id of the call is registered with, if it is open, and to no other, and
  -- `recv_response` there, whatever follows, returns `vs`, in the order of the keys, with the
  -- client's sequence number. The keys must be known, a queue exist, the client id not be -1,
  -- the protocol read back what it wrote, and sequence id and values fit into it.
  pub async_get_batch-Reaches :
      (seq : SequenceId) (queue_id : ℕ) (keys vs : List Text) (s : Service P)
      (outcomes : Service P → Dict ℕ Text) (m : ClientMap p cuckoo is_open) (first : ℕ)
      (rest : Text)
      → IsFaithful p
      → 0 < length s.operation_queues
      → All (Known P s) keys
      → length keys ≡ length vs
      → s.respond_queue.items ≡ []
      → s.sequence_queue.items ≡ []
      → ((t : Service P) → Answered s.promises_made vs (outcomes t))
      → FitsId seq
      → FitsTexts vs
      → seq.client_id ≢ minus 1
      → is_open first ≡ true
      → cuckoo.find seq.client_id m.clients ≡ some first
      → Returns
          (async_get_batch P seq queue_id keys s >>= λ t. responder_round P (set_to P outcomes t))
          λ ((id, op_code, results), u).
            Reaches p cuckoo is_open m
              (async_respond_client p cuckoo is_open id op_code results m)
              first
              (vs, seq.client_seq_no)
              rest
  async_get_batch-Reaches seq queue_id keys vs s outcomes m first rest good some_queue known len
        idle unnamed set fits fits' other open_one found =
      let ((sent, u), run, (same, emptied, unnamed')) =
        async_get_batch-Answered P seq queue_id keys vs s outcomes some_queue known len idle unnamed
          set in
      let not_minus : nat_eqb seq.client_id (minus 1) ≡ false = ground arith in
      (
        (sent, u),
        run,
        subst
            (λ (r : SequenceId × ℕ × List Text).
              Reaches p cuckoo is_open m (async_respond_client p cuckoo is_open r.0 r.1 r.2 m) first
                (vs, seq.client_seq_no) rest)
            (sym same)
            (answer-Reaches p cuckoo is_open seq op_get_batch vs m first rest good fits
              (omega arith) fits' not_minus open_one found),
      )
