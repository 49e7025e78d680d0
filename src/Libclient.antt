-- ===== src/Libclient.antt =====
-- libclient/src/async_proxy_client.cpp: the client that does not wait for its answers. Its user calls
-- `get`, `put`, `get_batch` and `put_batch`; a thread takes the requests from a queue and reads an
-- answer for each. What the connection is sent is `sent`. A call that waits is the fault `waiting`.
pub mod InFlight
pub mod Received
use pancake.Base.Tests.{
  ℕ, ◌+◌, ◌-◌, ◌%◌, ◌^◌, Bool, true, false, Option, none, some, List, [], ◌∷◌, ◌++◌, if◌then◌else◌,
  ltb, leb,
}
use pancake.Base.Lists.{length}
use pancake.Base.Text.{Text, codes, text_eqb}
use pancake.Base.Run.{
  Run, ok, fault, Fault, waiting, aborted, thrown, out_of_range, assertion, division_by_zero,
  no_return, exhausted, ◌>>=◌, ◌>>◌, guard,
}
use pancake.Proxy.Requests.{SequenceId}
use pancake.Wire.Protocol.{Protocol}
use pancake.Wire.Client.{send_async_get, send_async_put, send_async_get_batch, send_async_put_batch}
use pancake.Wire.Processor.{no_sequence_id}
use pancake.Wire.Response.{recv_response}

pub data Request : Type 0 where
  get : Text → Request
  put : Text → Text → Request
  get_batch : List Text → Request
  put_batch : List Text → List Text → Request

-- GET, PUT, GET_BATCH and PUT_BATCH
abbrev pub op_code : Request → ℕ
op_code (get key) = 0
op_code (put key value) = 1
op_code (get_batch keys) = 2
op_code (put_batch keys values) = 3

abbrev pub in_flight_limit : ℕ
in_flight_limit = 16

pub record AsyncClient : Type 0 where
  pub sequence_num : ℕ
  pub seq_id : SequenceId
  pub requests : List ℕ
  pub total : ℕ
  pub finished : Bool
  -- the request that the thread has taken and not yet read the answer of
  pub reading : Option ℕ
  pub sent : Text

-- an `int64_t` stored in an `int` and widened again
unfoldable pub through_int : ℕ → ℕ
through_int id = let low = id % 2 ^ 32 in if ltb low (2 ^ 31) then low else 2 ^ 64 - 2 ^ 32 + low

-- `init`, once the server has handed out a client id
unfoldable pub init : ℕ → AsyncClient
unfolding through_int
init client_id = record {
  sequence_num = 0;
  seq_id = record no_sequence_id { client_id = through_int client_id };
  requests = [];
  total = 0;
  finished = false;
  reading = none;
  sent = [];
}

-- `sleep` while there are more than 63 requests, in `get_batch` only
unfoldable pub settles : Request → List ℕ → Bool
settles (get key) requests = true
settles (put key value) requests = true
settles (get_batch keys) requests = leb (length requests) 63
settles (put_batch keys values) requests = true

-- the thread ends the program by an exception that it does not catch
unfoldable pub not_caught : Fault → Run (List Text)
not_caught (thrown what) =
    if text_eqb what (codes "TTransportException") then ok [] else fault aborted
not_caught out_of_range = fault out_of_range
not_caught assertion = fault assertion
not_caught division_by_zero = fault division_by_zero
not_caught aborted = fault aborted
not_caught waiting = fault waiting
not_caught no_return = fault no_return
not_caught exhausted = fault exhausted

module _ (p : Protocol) where
  unfoldable pub encode : SequenceId → Request → Text
  encode seq_id (get key) = send_async_get p seq_id key
  encode seq_id (put key value) = send_async_put p seq_id key value
  encode seq_id (get_batch keys) = send_async_get_batch p seq_id keys
  encode seq_id (put_batch keys values) = send_async_put_batch p seq_id keys values

  -- `get`, `put`, `get_batch` and `put_batch`, which differ in the message
  unfoldable pub request : Request → AsyncClient → Run AsyncClient
  unfolding encode settles
  request r c = do
    guard (ltb (length c.requests) in_flight_limit) waiting
    let seq_id : SequenceId = record c.seq_id { client_seq_no = c.sequence_num }
    let requests = c.requests ++ (op_code r ∷ [])
    guard (settles r requests) waiting
    ok (record c {
      seq_id = seq_id;
      sequence_num = c.sequence_num + 1;
      sent = c.sent ++ encode seq_id r;
      requests = requests;
    })

  -- the thread: the next request
  unfoldable pub take_request : AsyncClient → Run AsyncClient
  take_request c = if c.finished then ok c else elim c.reading [
    | some type ↦ fault waiting
    | none ↦ elim c.requests [
      | [] ↦ fault waiting
      | type ∷ rest ↦ ok (record c { requests = rest; reading = some type })
    ]
  ]

  -- the thread: its answer, from the bytes that have come
  unfoldable pub read_response : Text → AsyncClient → Run AsyncClient
  unfolding not_caught
  read_response input c = elim c.reading [
    | none ↦ fault waiting
    | some type ↦
        (elim (recv_response p input) [
          | ok ((out, client_seq_no), rest) ↦ ok out
          | fault e ↦ not_caught e
        ])
        >>= λ out. ok (record c { total = c.total + length out; reading = none })
  ]

  -- the start of `finish`
  unfoldable pub finish : AsyncClient → AsyncClient
  finish c = record c { finished = true; requests = c.requests ++ (2 ∷ 2 ∷ 2 ∷ 2 ∷ 2 ∷ []) }
