-- ===== src/Service/Delivered.antt =====
-- service/src/thrift_handler.cpp and thrift_response_client_map.cpp with
-- libclient/src/command_response_reader.cpp: which client an answer reaches.
use pancake.Base.Tests.{
  ℕ, ◌^◌, ◌<◌, ◌≡◌, refl, sym, ap, ◌∙◌, subst, ◌≢◌, Bool, true, false, Option, none, some, List,
  ◌++◌, arith, if◌then◌else◌, nat_eqb, nat_eq, nat_eqb_iff, ◌==◌, ==_refl, inl, inr, Bool-cases,
}
use pancake.Base.Text.{Text}
use pancake.Base.Run.{ok}
use pancake.Cuckoo.{CuckooMap, is_some}
use pancake.Proxy.Requests.{SequenceId}
use pancake.Wire.Protocol.{Protocol, IsFaithful}
use pancake.Wire.Structs.{FitsTexts}
use pancake.Wire.Sequence.{FitsId}
use pancake.Wire.Response.{send_async_response, recv_response, recv_response-send}
use pancake.Service.Clients.{ClientMap, add_client, async_response, async_respond_client, minus}
use pancake.Service.Handler.{ProxyIface, ThriftHandler, register_client_id}

-- the connection that a client id belongs to once it is registered: the first one
abbrev pub owner : Option ℕ → ℕ → ℕ
owner none client = client
owner (some first) client = first

kept_or_new :
    (o : Option ℕ) (client : ℕ) (b : Bool)
    → b ≡ true
    → (if b then (if is_some o then o else some client) else o) ≡ some (owner o client)
kept_or_new none client true e = refl
kept_or_new (some first) client true e = refl
kept_or_new o client false e = cc

module _ (p : Protocol) (cuckoo : CuckooMap ℕ ℕ) (is_open : ℕ → Bool) where
  registered :
      (client_id : ℕ) (client : ℕ) (m : ClientMap p cuckoo is_open)
      → cuckoo.find client_id (add_client p cuckoo is_open client_id client m).clients
        ≡ some (owner (cuckoo.find client_id m.clients) client)
  unfolding add_client
  registered client_id client m =
      cuckoo.find-insert client_id client_id client m.clients
      ∙ kept_or_new (cuckoo.find client_id m.clients) client (client_id == client_id)
          (==_refl client_id)

  written :
      (c first op_code : ℕ) (seq : SequenceId) (result : List Text) (sent : ℕ → Text)
      → is_open first ≡ true
      → async_response p cuckoo is_open first seq op_code result sent c
        ≡ (if nat_eqb c first then sent c ++ send_async_response p seq op_code result else sent c)
  unfolding async_response
  written c first op_code seq result sent h = elim (Bool-cases (nat_eqb c first)) [
    | inl q ↦ rw q (
        subst
          (λ b.
            (if b then sent c ++ send_async_response p seq op_code result else sent c)
            ≡ sent c ++ send_async_response p seq op_code result)
          (sym (ap is_open ((nat_eqb_iff c first).0 q) ∙ h)) refl)
    | inr q ↦ rw q refl
  ]

  responds :
      (seq : SequenceId) (op_code : ℕ) (result : List Text) (m : ClientMap p cuckoo is_open)
      (first : ℕ)
      → nat_eqb seq.client_id (minus 1) ≡ false
      → cuckoo.find seq.client_id m.clients ≡ some first
      → (async_respond_client p cuckoo is_open seq op_code result m).sent
        ≡ async_response p cuckoo is_open first seq op_code result m.sent
  unfolding async_respond_client
  responds seq op_code result m first other found = rw (other, found) refl

  -- From `m` to `m'` bytes were written to the connection `first` and to no other, and the client's
  -- `recv_response` reads `answer` from them.
  abbrev pub Reaches :
      ClientMap p cuckoo is_open → ClientMap p cuckoo is_open → ℕ → List Text × ℕ → Text → Type 0
  Reaches m m' first answer rest =
      (bytes : Text) × ((c : ℕ)
        → m'.sent c ≡ (if nat_eqb c first then m.sent c ++ bytes else m.sent c))
      × (recv_response p (bytes ++ rest) ≡ ok (answer, rest))

  pub answer-Reaches :
      (seq : SequenceId) (op_code : ℕ) (result : List Text) (m : ClientMap p cuckoo is_open)
      (first : ℕ) (rest : Text)
      → IsFaithful p
      → FitsId seq
      → op_code < 2 ^ 32
      → FitsTexts result
      → nat_eqb seq.client_id (minus 1) ≡ false
      → is_open first ≡ true
      → cuckoo.find seq.client_id m.clients ≡ some first
      → Reaches m
          (async_respond_client p cuckoo is_open seq op_code result m)
          first
          (result, seq.client_seq_no)
          rest
  answer-Reaches seq op_code result m first rest good h0 h1 h2 other open_one found = (
    send_async_response p seq op_code result,
    λ c.
        ap (λ (sent : ℕ → Text). sent c) (responds seq op_code result m first other found)
        ∙ written c first op_code seq result m.sent open_one,
    recv_response-send p good seq op_code result rest h0 h1 h2,
  )

module _ (p : Protocol) (cuckoo : CuckooMap ℕ ℕ) (is_open : ℕ → Bool) {P : Type 0}
    (proxy : ProxyIface P) where
  -- the map of the clients after `register_client_id` and one answer
  abbrev pub answered :
      SequenceId
      → ℕ
      → List Text
      → ℕ
      → ThriftHandler p cuckoo is_open proxy
      → ClientMap p cuckoo is_open
  answered seq op_code result block_id h =
      async_respond_client p cuckoo is_open seq op_code result
        (register_client_id p cuckoo is_open proxy block_id seq.client_id h).0.id_to_client

  -- After `register_client_id` on a handler, an answer for that client id, other than -1, is
  -- written to the connection that registered the id first, if it is open, and to no other.
  -- `recv_response` on what was written, whatever follows it, returns the results and the
  -- client's sequence number. The protocol must read back what it wrote, and sequence id, op
  -- code and results fit into it.
  pub register_client_id-answered :
      (seq : SequenceId) (op_code : ℕ) (result : List Text) (block_id : ℕ)
      (h : ThriftHandler p cuckoo is_open proxy) (rest : Text)
      → IsFaithful p
      → FitsId seq
      → op_code < 2 ^ 32
      → FitsTexts result
      → seq.client_id ≢ minus 1
      → is_open (owner (cuckoo.find seq.client_id h.id_to_client.clients) h.client) ≡ true
      → Reaches p cuckoo is_open h.id_to_client
          (answered seq op_code result block_id h)
          (owner (cuckoo.find seq.client_id h.id_to_client.clients) h.client)
          (result, seq.client_seq_no)
          rest
  unfolding register_client_id add_client
  register_client_id-answered seq op_code result block_id h rest good h0 h1 h2 not_minus open_one =
      let other : nat_eqb seq.client_id (minus 1) ≡ false = ground arith in
      answer-Reaches p cuckoo is_open seq op_code result
        (add_client p cuckoo is_open seq.client_id h.client h.id_to_client)
        (owner (cuckoo.find seq.client_id h.id_to_client.clients) h.client) rest good h0 h1 h2 other
        open_one (registered p cuckoo is_open seq.client_id h.client h.id_to_client)
