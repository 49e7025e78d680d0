-- ===== src/Tests/Served.antt =====
-- The proxy of Requests behind a handler, on the protocol of Bytes.
use pancake.Base.Tests.{◌%◌, refl, [], ◌∷◌, arith}
use pancake.Base.Text.{codes}
use pancake.Base.Run.{ok, ◌>>=◌, Returns}
use pancake.Base.Dict.{lookup}
use pancake.Proxy.Requests.{Service, async_get_batch, responder_round}
use pancake.Proxy.Requests.Answers.{set_to}
use pancake.Proxy.Requests.Appended.{Appended, gets}
use pancake.Wire.Client.{send_get_batch, recv_get_batch}
use pancake.Wire.Remote.{Answered}
use pancake.Service.Clients.{ClientMap, async_respond_client}
use pancake.Service.Delivered.{Reaches}
use pancake.Service.Handler.{handler}
use pancake.Service.Responded.{async_get_batch-Reaches}
use pancake.Service.Served.{pancake_proxy, Served, remote_get_batch-Answered}
use pancake.Tests.Bytes.{plain, plain-IsFaithful}
use pancake.Tests.Clients.{clients, always, no_clients}
use pancake.Tests.Requests.{service, seq_one, both_set, both-Answered, Known-a}
use pancake.Tests.World.{platform, key_a}

abbrev others : Service platform → Service platform
others = set_to platform both_set

abbrev dropped : Service platform → Service platform
dropped s = record s { operation_queues = [] }

-- a handler that has served three calls
abbrev third : Served plain clients always platform others dropped
third = record {
  operation_count = 3;
  client = 4;
  registered_client_id = 0;
  client_id_gen = 0;
  id_to_client = no_clients;
  proxy_state = service;
}

remote_get_batch-Answered_example :
    (t : Service platform) × Appended platform
      (3 % 2)
      (gets platform (key_a ∷ key_a ∷ []))
      service
      t
    × Answered plain
        (handler plain clients always (pancake_proxy platform others dropped))
        (codes "get_batch")
        (send_get_batch plain (key_a ∷ key_a ∷ []))
        (recv_get_batch plain)
        third
        (
          record third { operation_count = 4; proxy_state = others t },
          ok ((5 ∷ []) ∷ (6 ∷ []) ∷ []),
        )
        []
        []
remote_get_batch-Answered_example =
    remote_get_batch-Answered plain clients always platform others dropped third
      (key_a ∷ key_a ∷ []) ((5 ∷ []) ∷ (6 ∷ []) ∷ []) [] [] plain-IsFaithful (omega arith)
      (Known-a, (Known-a, tt)) refl (λ t a. both-Answered t) (omega arith) (omega arith)

-- the client 1 is at connection 4
abbrev one_client : ClientMap plain clients always
one_client = record { clients = (1, 4) ∷ []; sent = λ c. [] }

async_get_batch-Reaches_example :
    Returns
      (async_get_batch platform seq_one 3 (key_a ∷ key_a ∷ []) service >>= λ t.
        responder_round platform (set_to platform both_set t))
      λ ((id, op_code, results), u).
        Reaches plain clients always one_client
          (async_respond_client plain clients always id op_code results one_client)
          4
          ((5 ∷ []) ∷ (6 ∷ []) ∷ [], 2)
          []
unfolding lookup
async_get_batch-Reaches_example =
    async_get_batch-Reaches plain clients always platform seq_one 3 (key_a ∷ key_a ∷ [])
      ((5 ∷ []) ∷ (6 ∷ []) ∷ []) service both_set one_client 4 [] plain-IsFaithful (omega arith)
      (Known-a, (Known-a, tt)) refl refl refl both-Answered (omega arith) (omega arith)
      (omega arith) refl refl
