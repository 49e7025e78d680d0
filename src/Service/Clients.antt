-- ===== src/Service/Clients.antt =====
-- service/src/thrift_response_client_map.cpp and thrift_response_client.cpp: which connection the
-- answers for a client go to. A connection is a number, and `sent` is what has been written to it.
-- A connection that is not in `is_open` throws a `TTransportException`, which is caught.
use pancake.Base.Tests.{
  ℕ, ◌-◌, ◌^◌, Bool, none, some, List, [], ◌∷◌, ◌++◌, ◌&&◌, if◌then◌else◌, nat_eqb, nat_eq,
}
use pancake.Base.Text.{Text}
use pancake.Base.Dict.{Dict}
use pancake.Cuckoo.{CuckooMap}
use pancake.Proxy.Requests.{SequenceId}
use pancake.Wire.Protocol.{Protocol}
use pancake.Wire.Response.{send_async_response}

-- an `int64_t` below zero, as its bit pattern
abbrev pub minus : ℕ → ℕ
minus n = 2 ^ 64 - n

module _ (p : Protocol) (cuckoo : CuckooMap ℕ ℕ) (is_open : ℕ → Bool) where
  pub record ClientMap : Type 0 where
    pub clients : cuckoo.Table
    pub sent : ℕ → Text

  -- `insert`, which keeps a client that is there
  unfoldable pub add_client : ℕ → ℕ → ClientMap → ClientMap
  add_client client_id client m = record m {
    clients = (cuckoo.insert client_id client m.clients).0;
  }

  unfoldable pub remove_client : ℕ → ClientMap → ClientMap
  remove_client client_id m = record m { clients = (cuckoo.erase client_id m.clients).0 }

  -- `thrift_response_client::async_response`, its exception caught
  unfoldable pub async_response : ℕ → SequenceId → ℕ → List Text → (ℕ → Text) → ℕ → Text
  async_response client seq_id op_code result sent c =
      if nat_eqb c client && is_open c
      then sent c ++ send_async_response p seq_id op_code result
      else sent c

  -- The functor of `update_fn` writes to the client, and leaves it in the map.
  unfoldable pub async_respond_client : SequenceId → ℕ → List Text → ClientMap → ClientMap
  unfolding async_response
  async_respond_client seq op_code result m =
      if nat_eqb seq.client_id (minus 1) then m else elim (cuckoo.find seq.client_id m.clients) [
        | none ↦ m
        | some client ↦ record {
          clients = (cuckoo.update_fn seq.client_id (λ c. c) m.clients).0;
          sent = async_response client seq op_code result m.sent;
        }
      ]

  unfoldable pub clear : ClientMap → ClientMap
  clear m = record m { clients = cuckoo.empty }

  -- the sequence id of a failure; the third call sets the client id once more
  abbrev pub failed : SequenceId
  failed = record { client_id = minus 2; client_seq_no = minus 2; server_seq_no = 0 }

  unfoldable pub fail_all : Dict ℕ ℕ → (ℕ → Text) → ℕ → Text
  unfolding async_response
  fail_all [] sent = sent
  fail_all ((client_id, client) ∷ more) sent =
      fail_all more (async_response client failed 5 [] sent)

  unfoldable pub send_failure : ClientMap → ClientMap
  unfolding fail_all
  send_failure m = record m { sent = fail_all (cuckoo.entries m.clients) m.sent }
