-- ===== src/Service/Handler.antt =====
-- service/src/thrift_handler.cpp: the handler of a connection. `operation_count_` chooses the queue of
-- each call. The generator of client ids and the map of clients are shared by all handlers.
use pancake.Base.Tests.{ℕ, ◌+◌, ◌%◌, ◌^◌, Bool, List, nat_eq}
use pancake.Base.Text.{Text}
use pancake.Base.Run.{Run, ok}
use pancake.Cuckoo.{CuckooMap}
use pancake.Proxy.Requests.{SequenceId}
use pancake.Wire.Protocol.{Protocol}
use pancake.Wire.Processor.{Iface}
use pancake.Service.Clients.{ClientMap, add_client, minus}

-- `proxy`. The number is that of the queue; a method returns the proxy with its value or its exception.
pub record ProxyIface (P : Type 0) : Type 0 where
  pub async_get : SequenceId → ℕ → Text → P → P × Run (Unit {0})
  pub async_put : SequenceId → ℕ → Text → Text → P → P × Run (Unit {0})
  pub async_get_batch : SequenceId → ℕ → List Text → P → P × Run (Unit {0})
  pub async_put_batch : SequenceId → ℕ → List Text → List Text → P → P × Run (Unit {0})
  pub get : ℕ → Text → P → P × Run Text
  pub put : ℕ → Text → Text → P → P × Run (Unit {0})
  pub get_batch : ℕ → List Text → P → P × Run (List Text)
  pub put_batch : ℕ → List Text → List Text → P → P × Run (Unit {0})

module _ (p : Protocol) (cuckoo : CuckooMap ℕ ℕ) (is_open : ℕ → Bool) {P : Type 0}
    (proxy : ProxyIface P) where
  -- A handler, with the proxy and what the handlers share. `client` is its connection.
  pub record ThriftHandler : Type 0 where
    pub operation_count : ℕ
    pub client : ℕ
    pub registered_client_id : ℕ
    pub client_id_gen : ℕ
    pub id_to_client : ClientMap p cuckoo is_open
    pub proxy_state : P

  -- the constructor, for a connection
  unfoldable pub thrift_handler : ℕ → ℕ → ClientMap p cuckoo is_open → P → ThriftHandler
  thrift_handler connection client_id_gen id_to_client s = record {
    operation_count = 0;
    client = connection;
    registered_client_id = minus 1;
    client_id_gen = client_id_gen;
    id_to_client = id_to_client;
    proxy_state = s;
  }

  unfoldable pub get_client_id : ThriftHandler → ThriftHandler × Run ℕ
  get_client_id h =
      (record h { client_id_gen = (h.client_id_gen + 1) % 2 ^ 64 }, ok h.client_id_gen)

  unfoldable pub register_client_id : ℕ → ℕ → ThriftHandler → ThriftHandler × Run (Unit {0})
  register_client_id block_id client_id h = (
    record h {
      registered_client_id = client_id;
      id_to_client = add_client p cuckoo is_open client_id h.client h.id_to_client;
    },
    ok tt,
  )

  -- a call of the proxy, under the next operation count
  unfoldable pub with_count :
      {R : Type 0} → (ℕ → P → P × Run R) → ThriftHandler → ThriftHandler × Run R
  with_count call h = (
    record h {
      operation_count = h.operation_count + 1;
      proxy_state = (call h.operation_count h.proxy_state).0;
    },
    (call h.operation_count h.proxy_state).1,
  )

  abbrev pub handler : Iface ThriftHandler
  handler = record {
    get_client_id = get_client_id;
    register_client_id = register_client_id;
    async_get = λ seq_id key. with_count (λ i. proxy.async_get seq_id i key);
    async_put = λ seq_id key value. with_count (λ i. proxy.async_put seq_id i key value);
    async_get_batch = λ seq_id keys. with_count (λ i. proxy.async_get_batch seq_id i keys);
    async_put_batch =
        λ seq_id keys values. with_count (λ i. proxy.async_put_batch seq_id i keys values);
    get = λ key. with_count (λ i. proxy.get i key);
    put = λ key value. with_count (λ i. proxy.put i key value);
    get_batch = λ keys. with_count (λ i. proxy.get_batch i keys);
    put_batch = λ keys values. with_count (λ i. proxy.put_batch i keys values);
  }
