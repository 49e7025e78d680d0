-- ===== src/Tests/Clients.antt =====
-- Handlers and the client that does not wait, on the protocol of Bytes, with an association list for
-- the map of clients.
use pancake.Base.Tests.{
  ℕ, ◌+◌, ◌≡◌, refl, Bool, true, false, none, some, List, [], ◌∷◌, ◌++◌, arith, nat_eq,
}
use pancake.Base.Lists.{length}
use pancake.Base.Text.{Text, codes}
use pancake.Base.Run.{ok}
use pancake.Cuckoo.{CuckooMap}
use pancake.Cuckoo.Assoc.{assoc}
use pancake.Proxy.Requests.{SequenceId}
use pancake.Service.Clients.{ClientMap}
use pancake.Service.Handler.{ProxyIface, ThriftHandler}
use pancake.Service.Delivered.{owner, Reaches, answered, register_client_id-answered}
use pancake.Service.Ids.{Call, ids, returned, Rising, ids-Rising, new_id, gets, registers, resumes}
use pancake.Libclient.{AsyncClient, init, get, put, encode}
use pancake.Libclient.InFlight.{Event, asks, takes, reads, run, Balanced, run-in_flight}
use pancake.Libclient.Received.{IsReturning, Receives, run-Receives}
use pancake.Wire.Processor.{Iface}
use pancake.Wire.Response.{send_async_response, recv_response, recv_response-send}
use pancake.Tests.Bytes.{plain, plain-IsFaithful}

-- a proxy that counts its calls
abbrev counter : ProxyIface ℕ
counter = record {
  async_get = λ seq_id i key n. (n + 1, ok tt);
  async_put = λ seq_id i key value n. (n + 1, ok tt);
  async_get_batch = λ seq_id i keys n. (n + 1, ok tt);
  async_put_batch = λ seq_id i keys values n. (n + 1, ok tt);
  get = λ i key n. (n + 1, ok key);
  put = λ i key value n. (n + 1, ok tt);
  get_batch = λ i keys n. (n + 1, ok keys);
  put_batch = λ i keys values n. (n + 1, ok tt);
}

abbrev pub clients : CuckooMap ℕ ℕ
clients = assoc

abbrev pub always : ℕ → Bool
always c = true

abbrev pub no_clients : ClientMap plain clients always
no_clients = record { clients = clients.empty; sent = λ c. [] }

abbrev connection_4 : ThriftHandler plain clients always counter
connection_4 = record {
  operation_count = 0;
  client = 4;
  registered_client_id = 0;
  client_id_gen = 0;
  id_to_client = no_clients;
  proxy_state = 0;
}

abbrev of_client_9 : SequenceId
of_client_9 = record { client_id = 9; client_seq_no = 5; server_seq_no = 0 }

register_client_id-answered_example :
    Reaches plain clients always no_clients
      (answered plain clients always counter of_client_9 2 (codes "v" ∷ []) 1 connection_4)
      (owner (clients.find 9 no_clients.clients) 4)
      (codes "v" ∷ [], 5)
      []
register_client_id-answered_example =
    register_client_id-answered plain clients always counter of_client_9 2 (codes "v" ∷ []) 1
      connection_4 [] plain-IsFaithful (omega arith) (omega arith) (omega arith) (omega arith) refl

abbrev five_calls : List Call
five_calls = new_id ∷ gets (codes "k") ∷ resumes 0 5 0 ∷ new_id ∷ registers 1 1 ∷ []

ids-Rising_example :
    (given : List ℕ) × (ids plain clients always counter five_calls connection_4 ≡ returned given)
    × (length given ≡ 2)
    × Rising 0 given
ids-Rising_example = ids-Rising plain clients always counter five_calls connection_4 (omega arith)

-- the answer to the first request, with one result
abbrev first_answer : Text
first_answer =
    send_async_response plain (record { client_id = 9; client_seq_no = 0; server_seq_no = 0 }) 0
      (codes "v" ∷ [])
    ++ []

answer_read : recv_response plain first_answer ≡ ok ((codes "v" ∷ [], 0), [])
answer_read =
    recv_response-send plain plain-IsFaithful
      (record { client_id = 9; client_seq_no = 0; server_seq_no = 0 }) 0 (codes "v" ∷ []) []
      (omega arith) (omega arith) (omega arith)

-- two requests, of which the first is answered, and the thread takes the second
abbrev five_turns : List Event
five_turns =
    asks (get (codes "a"))
    ∷ takes
    ∷ asks (put (codes "b") (codes "c"))
    ∷ reads first_answer
    ∷ takes
    ∷ []

abbrev start : AsyncClient
start = record {
  sequence_num = 0;
  seq_id = record { client_id = 9; client_seq_no = 0; server_seq_no = 0 };
  requests = [];
  total = 0;
  finished = false;
  reading = none;
  sent = [];
}

abbrev two_sent : AsyncClient
two_sent = record {
  sequence_num = 2;
  seq_id = record { client_id = 9; client_seq_no = 1; server_seq_no = 0 };
  requests = [];
  total = 1;
  finished = false;
  reading = some 1;
  sent =
      encode plain (record { client_id = 9; client_seq_no = 0; server_seq_no = 0 })
        (get (codes "a"))
      ++ encode plain (record { client_id = 9; client_seq_no = 1; server_seq_no = 0 })
          (put (codes "b") (codes "c"));
}

-- `init` for client 9
starts : init 9 ≡ start
unfolding init
starts = refl

five_turns-run : run plain five_turns start ≡ ok two_sent
unfolding run
five_turns-run = rw answer_read refl

-- a server that writes down the numbers and the keys of the requests
abbrev writes_down : Iface (List (ℕ × Text))
writes_down = record {
  get_client_id = λ l. (l, ok (length l));
  register_client_id = λ b c l. (l, ok tt);
  async_get = λ i k l. ((i.client_seq_no, k) ∷ l, ok tt);
  async_put = λ i k v l. ((i.client_seq_no, k) ∷ l, ok tt);
  async_get_batch = λ i ks l. (l, ok tt);
  async_put_batch = λ i ks vs l. (l, ok tt);
  get = λ k l. (l, ok k);
  put = λ k v l. (l, ok tt);
  get_batch = λ ks l. (l, ok ks);
  put_batch = λ ks vs l. (l, ok tt);
}

writes_down-IsReturning : IsReturning plain writes_down
writes_down-IsReturning = record {
  get_returns = λ i k l. tt;
  put_returns = λ i k v l. tt;
  get_batch_returns = λ i ks l. tt;
  put_batch_returns = λ i ks vs l. tt;
}

run-Receives_example :
    (new : Text) × (two_sent.sent ≡ [] ++ new)
    × Receives plain writes_down new [] ((1, codes "b") ∷ (0, codes "a") ∷ [])
run-Receives_example =
    run-Receives plain plain-IsFaithful writes_down writes_down-IsReturning five_turns start
      two_sent [] refl five_turns-run (omega arith) (omega arith) (omega arith)
      (omega arith, ((omega arith, omega arith), tt))

run-in_flight_example : Balanced plain start five_turns two_sent
run-in_flight_example =
    run-in_flight plain five_turns start two_sent refl (omega arith) five_turns-run
