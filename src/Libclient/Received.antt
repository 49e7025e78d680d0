-- ===== src/Libclient/Received.antt =====
-- libclient/src/async_proxy_client.cpp with service/src/thrift.cpp: what a server makes of the messages of
-- the client that does not wait.
use pancake.Base.Tests.{
  ℕ, ◌+◌, ◌^◌, ◌<◌, ◌≤◌, ◌≡◌, refl, sym, ap, ◌∙◌, subst, false, some, arith, List, [], ◌∷◌, ◌++◌,
}
use mathlib.Core.List.{append_assoc, append-nil}
use pancake.Base.Lists.{length, All}
use pancake.Base.Text.{Text, codes}
use pancake.Base.Run.{ok, ok_inj, >>=-eq-ok}
use pancake.Proxy.Requests.{SequenceId}
use pancake.Wire.Protocol.{Protocol, IsFaithful, t_oneway}
use pancake.Wire.Structs.{FitsText, FitsTexts}
use pancake.Wire.Processor.{Iface, dispatch_call}
use pancake.Wire.Remote.{Carried}
use pancake.Wire.Remote.Oneway.{
  Delivered, async_get-Delivered, async_put-Delivered, async_get_batch-Delivered,
  async_put_batch-Delivered,
}
use pancake.Libclient.{
  Request, get, put, get_batch, put_batch, AsyncClient, encode, request, take_request,
  read_response,
}
use pancake.Libclient.InFlight.{
  Event, asks, takes, reads, asked, run, step, request-after, take_request-after,
  read_response-after,
}

module _ (p : Protocol) where
  -- the messages of requests that are numbered from `n`
  abbrev numbered : SequenceId → ℕ → List Request → Text
  numbered seq_id n [] = []
  numbered seq_id n (r ∷ rs) =
      encode p (record seq_id { client_seq_no = n }) r ++ numbered seq_id (n + 1) rs

  -- Only the id of the client matters for the numbers.
  numbered-seq_id :
      (seq_id : SequenceId) (m n : ℕ) (rs : List Request)
      → numbered (record seq_id { client_seq_no = m }) n rs ≡ numbered seq_id n rs
  numbered-seq_id seq_id m n [] = refl
  numbered-seq_id seq_id m n (r ∷ rs) =
      ap (λ (t : Text). encode p (record seq_id { client_seq_no = n }) r ++ t)
        (numbered-seq_id seq_id m (n + 1) rs)

  run-numbered :
      (events : List Event) (c c' : AsyncClient)
      → c.finished ≡ false
      → run p events c ≡ ok c'
      → c'.sent ≡ c.sent ++ numbered c.seq_id c.sequence_num (asked events)
  unfolding run step
  run-numbered [] c c' h e =
      ap (λ (d : AsyncClient). d.sent) (sym (ok_inj c c' e)) ∙ sym (append-nil c.sent)
  run-numbered (asks r ∷ events) c c' h e =
      let (d, first, others) = >>=-eq-ok (request p r c) (λ x. run p events x) c' e in
      let (room, same) = request-after p r c d first in
      let one = encode p (record c.seq_id { client_seq_no = c.sequence_num }) r in
      subst
        (λ (x : AsyncClient). c'.sent ≡ x.sent ++ numbered x.seq_id x.sequence_num (asked events))
        (sym same)
        (run-numbered events d c' (subst (λ (x : AsyncClient). x.finished ≡ false) same h) others)
      ∙ ap (λ (t : Text). (c.sent ++ one) ++ t)
          (numbered-seq_id c.seq_id c.sequence_num (c.sequence_num + 1) (asked events))
      ∙ append_assoc c.sent one _
  run-numbered (takes ∷ events) c c' h e =
      let (d, first, others) = >>=-eq-ok (take_request p c) (λ x. run p events x) c' e in
      let (idle, (type, rest, found, same)) = take_request-after p c d h first in
      subst
        (λ (x : AsyncClient). c'.sent ≡ x.sent ++ numbered x.seq_id x.sequence_num (asked events))
        (sym same)
        (run-numbered events d c' (subst (λ (x : AsyncClient). x.finished ≡ false) same h) others)
  run-numbered (reads input ∷ events) c c' h e =
      let (d, first, others) = >>=-eq-ok (read_response p input c) (λ x. run p events x) c' e in
      let (type, busy, same, ended) = read_response-after p input c d first in
      subst
        (λ (x : AsyncClient). c'.sent ≡ x.sent ++ numbered x.seq_id x.sequence_num (asked events))
        (sym same)
        (run-numbered events d c' (subst (λ (x : AsyncClient). x.finished ≡ false) same h) others)

module _ (p : Protocol) {S : Type 0} (iface : Iface S) where
  -- The processor of `iface` reads the input to its end: message by message, with nothing sent back.
  pub data Receives : Text → S → S → Type 0 where
    stops : {s : S} → Receives [] s s
    serves :
        {input args rest name : Text} {s t u : S}
        → p.read_message_begin input ≡ some ((name, t_oneway, 0), args)
        → dispatch_call p iface name 0 s args ≡ ok (t, [], rest)
        → Receives rest t u
        → Receives input s u

  -- the object after the requests, which come under the client's id and numbers from `n` on
  abbrev pub served : SequenceId → ℕ → List Request → S → S
  served seq_id n [] s = s
  served seq_id n (get key ∷ rs) s =
      served seq_id (n + 1) rs (iface.async_get (record seq_id { client_seq_no = n }) key s).0
  served seq_id n (put key value ∷ rs) s =
      served seq_id (n + 1) rs (iface.async_put (record seq_id { client_seq_no = n }) key value s).0
  served seq_id n (get_batch keys ∷ rs) s =
      served seq_id (n + 1) rs
        (iface.async_get_batch (record seq_id { client_seq_no = n }) keys s).0
  served seq_id n (put_batch keys values ∷ rs) s =
      served seq_id (n + 1) rs
        (iface.async_put_batch (record seq_id { client_seq_no = n }) keys values s).0

  -- Each method returns or throws.
  pub record IsReturning : Type 0 where
    pub get_returns :
        (i : SequenceId) (key : Text) (s : S) → Carried (λ _. Unit) (iface.async_get i key s).1
    pub put_returns :
        (i : SequenceId) (key value : Text) (s : S)
        → Carried (λ _. Unit) (iface.async_put i key value s).1
    pub get_batch_returns :
        (i : SequenceId) (keys : List Text) (s : S)
        → Carried (λ _. Unit) (iface.async_get_batch i keys s).1
    pub put_batch_returns :
        (i : SequenceId) (keys values : List Text) (s : S)
        → Carried (λ _. Unit) (iface.async_put_batch i keys values s).1

-- The texts of a request fit into the protocol.
abbrev pub FitsRequest : Request → Type 0
FitsRequest (get key) = FitsText key
FitsRequest (put key value) = FitsText key × FitsText value
FitsRequest (get_batch keys) = FitsTexts keys
FitsRequest (put_batch keys values) = FitsTexts keys × FitsTexts values

module _ (p : Protocol) (good : IsFaithful p) {S : Type 0} (iface : Iface S)
    (ends : IsReturning p iface) where
  Delivered-serves :
      (name send rest : Text) (s t u : S)
      → length name < 2 ^ 31
      → Delivered p iface name send s t rest
      → Receives p iface rest t u
      → Receives p iface (send ++ rest) s u
  Delivered-serves name send rest s t u short (body, sent, handled) more =
      serves
        (ap p.read_message_begin (
            ap (λ l. l ++ rest) sent
            ∙ append_assoc (p.write_message_begin name t_oneway 0) body rest)
          ∙ good.message_begin name t_oneway 0 (body ++ rest) short (omega arith) (omega arith))
        handled more

  numbered-Receives :
      (seq_id : SequenceId) (n : ℕ) (rs : List Request) (s : S)
      → seq_id.client_id < 2 ^ 64
      → seq_id.server_seq_no < 2 ^ 64
      → n + length rs ≤ 2 ^ 64
      → All FitsRequest rs
      → Receives p iface (numbered p seq_id n rs) s (served p iface seq_id n rs s)
  unfolding encode
  numbered-Receives seq_id n [] s h0 h1 small fits = stops
  numbered-Receives seq_id n (get key ∷ rs) s h0 h1 small (fit, fits) =
      let i : SequenceId = record seq_id { client_seq_no = n } in
      let more =
        numbered-Receives seq_id (n + 1) rs (iface.async_get i key s).0 h0 h1 (omega arith) fits in
      Delivered-serves (codes "async_get") _ (numbered p seq_id (n + 1) rs) s _ _ (omega arith)
        (async_get-Delivered p good iface s i key _ (h0, omega arith, h1) fit
          (ends.get_returns i key s))
        more
  numbered-Receives seq_id n (put key value ∷ rs) s h0 h1 small ((fit, fit'), fits) =
      let i : SequenceId = record seq_id { client_seq_no = n } in
      let more =
        numbered-Receives seq_id (n + 1) rs (iface.async_put i key value s).0 h0 h1 (omega arith)
          fits in
      Delivered-serves (codes "async_put") _ (numbered p seq_id (n + 1) rs) s _ _ (omega arith)
        (async_put-Delivered p good iface s i key value _ (h0, omega arith, h1) fit fit'
          (ends.put_returns i key value s))
        more
  numbered-Receives seq_id n (get_batch keys ∷ rs) s h0 h1 small (fit, fits) =
      let i : SequenceId = record seq_id { client_seq_no = n } in
      let more =
        numbered-Receives seq_id (n + 1) rs (iface.async_get_batch i keys s).0 h0 h1 (omega arith)
          fits in
      Delivered-serves (codes "async_get_batch") _ (numbered p seq_id (n + 1) rs) s _ _
        (omega arith)
        (async_get_batch-Delivered p good iface s i keys _ (h0, omega arith, h1) fit
          (ends.get_batch_returns i keys s))
        more
  numbered-Receives seq_id n (put_batch keys values ∷ rs) s h0 h1 small ((fit, fit'), fits) =
      let i : SequenceId = record seq_id { client_seq_no = n } in
      let more =
        numbered-Receives seq_id (n + 1) rs (iface.async_put_batch i keys values s).0 h0 h1
          (omega arith) fits in
      Delivered-serves (codes "async_put_batch") _ (numbered p seq_id (n + 1) rs) s _ _
        (omega arith)
        (async_put_batch-Delivered p good iface s i keys values _ (h0, omega arith, h1) fit fit'
          (ends.put_batch_returns i keys values s))
        more

  -- In any turns of user and thread in which none waits, before `finish`, the client sends what
  -- a server, whose methods return or throw, reads to its end, message by message, without an
  -- answer. It leaves the server's object as do the methods of the requests, called in their
  -- order, with their keys and values, under the client's id and numbered from its sequence
  -- number on. The protocol must read back what it wrote, texts, ids and numbers fit into it.
  pub run-Receives :
      (events : List Event) (c c' : AsyncClient) (s : S)
      → c.finished ≡ false
      → run p events c ≡ ok c'
      → c.seq_id.client_id < 2 ^ 64
      → c.seq_id.server_seq_no < 2 ^ 64
      → c.sequence_num + length (asked events) ≤ 2 ^ 64
      → All FitsRequest (asked events)
      → (new : Text) × (c'.sent ≡ c.sent ++ new)
        × Receives p iface new s (served p iface c.seq_id c.sequence_num (asked events) s)
  run-Receives events c c' s going e h0 h1 small fits = (
    numbered p c.seq_id c.sequence_num (asked events),
    run-numbered p events c c' going e,
    numbered-Receives c.seq_id c.sequence_num (asked events) s h0 h1 small fits,
  )
