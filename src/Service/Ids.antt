-- ===== src/Service/Ids.antt =====
-- service/src/thrift_handler.cpp: the client ids that `get_client_id` hands out.
use pancake.Base.Tests.{
  ℕ, suc, refl, ap, ◌++◌, ◌+◌, ◌%◌, ◌^◌, ◌≤◌, ◌<◌, ◌≡◌, subst, Bool, List, [], ◌∷◌, arith, nat_eq,
}
use pancake.Base.Lists.{length}
use pancake.Base.Text.{Text}
use pancake.Base.Run.{Run, ok}
use pancake.Cuckoo.{CuckooMap}
use pancake.Proxy.Requests.{SequenceId}
use pancake.Wire.Protocol.{Protocol}
use pancake.Wire.Processor.{Iface}
use pancake.Service.Handler.{
  ProxyIface, ThriftHandler, get_client_id, register_client_id, with_count, handler,
}

-- what the handlers are asked, in the order in which it comes
pub data Call : Type 0 where
  -- the next calls come to another handler, with these fields of its own
  resumes : ℕ → ℕ → ℕ → Call
  new_id : Call
  registers : ℕ → ℕ → Call
  async_gets : SequenceId → Text → Call
  async_puts : SequenceId → Text → Text → Call
  async_get_batches : SequenceId → List Text → Call
  async_put_batches : SequenceId → List Text → List Text → Call
  gets : Text → Call
  puts : Text → Text → Call
  get_batches : List Text → Call
  put_batches : List Text → List Text → Call

-- each number is below the next, and none is below `low`
abbrev pub Rising : ℕ → List ℕ → Type 0
Rising low [] = Unit
Rising low (x ∷ xs) = (low ≤ x) × Rising (x + 1) xs

-- how many of the calls ask for an id
abbrev pub new_ids : List Call → ℕ
new_ids [] = 0
new_ids (new_id ∷ calls) = suc (new_ids calls)
new_ids (_ ∷ calls) = new_ids calls

abbrev pub returned : List ℕ → List (Run ℕ)
returned [] = []
returned (id ∷ ids) = ok id ∷ returned ids

module _ (p : Protocol) (cuckoo : CuckooMap ℕ ℕ) (is_open : ℕ → Bool) {P : Type 0}
    (proxy : ProxyIface P) where
  abbrev pub all : Iface (ThriftHandler p cuckoo is_open proxy)
  all = handler p cuckoo is_open proxy

  -- a call: the handler after it, and the outcome of `get_client_id` if it is that call
  pub call :
      Call
      → ThriftHandler p cuckoo is_open proxy
      → ThriftHandler p cuckoo is_open proxy × List (Run ℕ)
  unfolding get_client_id register_client_id with_count
  call (resumes operation_count client registered_client_id) h = (
    record h {
      operation_count = operation_count;
      client = client;
      registered_client_id = registered_client_id;
    },
    [],
  )
  call new_id h = let (h', id) = all.get_client_id h in (h', id ∷ [])
  call (registers block_id client_id) h = ((all.register_client_id block_id client_id h).0, [])
  call (async_gets seq_id key) h = ((all.async_get seq_id key h).0, [])
  call (async_puts seq_id key value) h = ((all.async_put seq_id key value h).0, [])
  call (async_get_batches seq_id keys) h = ((all.async_get_batch seq_id keys h).0, [])
  call (async_put_batches seq_id keys values) h = ((all.async_put_batch seq_id keys values h).0, [])
  call (gets key) h = ((all.get key h).0, [])
  call (puts key value) h = ((all.put key value h).0, [])
  call (get_batches keys) h = ((all.get_batch keys h).0, [])
  call (put_batches keys values) h = ((all.put_batch keys values h).0, [])

  -- the outcomes of `get_client_id` among these calls
  pub ids : List Call → ThriftHandler p cuckoo is_open proxy → List (Run ℕ)
  unfolding call
  ids [] h = []
  ids (c ∷ calls) h = let (h', returned) = call c h in returned ++ ids calls h'

  -- Among any calls of any handlers that share a generator, fewer than would make it wrap at
  -- 2^64, each `get_client_id` returns an id, and these ids rise strictly from the generator's
  -- value, so no two are the same.
  pub ids-Rising :
      (calls : List Call) (h : ThriftHandler p cuckoo is_open proxy)
      → h.client_id_gen + length calls < 2 ^ 64
      → (given : List ℕ) × (ids calls h ≡ returned given)
        × (length given ≡ new_ids calls)
        × Rising h.client_id_gen given
  unfolding ids
  ids-Rising [] h small = ([], refl, refl, tt)
  ids-Rising (new_id ∷ calls) h small =
      let next : (h.client_id_gen + 1) % 2 ^ 64 ≡ h.client_id_gen + 1 = omega arith in
      let (given, same, count, rising) = ids-Rising calls (call new_id h).0 (omega arith) in
      (
        h.client_id_gen ∷ given,
        ap (λ l. ok h.client_id_gen ∷ l) same,
        ap suc count,
        (omega arith, subst (λ low. Rising low given) next rising),
      )
  ids-Rising (resumes n c r ∷ calls) h small =
      ids-Rising calls (call (resumes n c r) h).0 (omega arith)
  ids-Rising (registers b c ∷ calls) h small =
      ids-Rising calls (call (registers b c) h).0 (omega arith)
  ids-Rising (async_gets i k ∷ calls) h small =
      ids-Rising calls (call (async_gets i k) h).0 (omega arith)
  ids-Rising (async_puts i k v ∷ calls) h small =
      ids-Rising calls (call (async_puts i k v) h).0 (omega arith)
  ids-Rising (async_get_batches i ks ∷ calls) h small =
      ids-Rising calls (call (async_get_batches i ks) h).0 (omega arith)
  ids-Rising (async_put_batches i ks vs ∷ calls) h small =
      ids-Rising calls (call (async_put_batches i ks vs) h).0 (omega arith)
  ids-Rising (gets k ∷ calls) h small = ids-Rising calls (call (gets k) h).0 (omega arith)
  ids-Rising (puts k v ∷ calls) h small = ids-Rising calls (call (puts k v) h).0 (omega arith)
  ids-Rising (get_batches ks ∷ calls) h small =
      ids-Rising calls (call (get_batches ks) h).0 (omega arith)
  ids-Rising (put_batches ks vs ∷ calls) h small =
      ids-Rising calls (call (put_batches ks vs) h).0 (omega arith)
