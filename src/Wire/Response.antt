-- ===== src/Wire/Response.antt =====
-- service/src/thrift_response_service.cpp and libclient/src/command_response_reader.cpp: the answer to
-- a call that does not wait, from the proxy to the client.
use pancake.Base.Tests.{
  ℕ, ◌^◌, ◌<◌, ◌≡◌, ap, ◌∙◌, true, false, ◌&&◌, List, [], ◌++◌, arith, if◌then◌else◌, nat_eqb,
}
use mathlib.Core.List.{append_assoc}
use pancake.Base.Text.{Text, codes, text_eqb}
use pancake.Base.Run.{Run, ok, fault, thrown, no_return}
use pancake.Proxy.Requests.{SequenceId}
use pancake.Wire.Protocol.{Protocol, IsFaithful, t_struct, t_oneway, t_exception}
use pancake.Wire.Reading.{Read, ◌>>=◌, ◌>>◌, lib}
use pancake.Wire.Parsing.{>>=-ok, lib-ok}
use pancake.Wire.Structs.{FitsTexts}
use pancake.Wire.Sequence.{FitsId}
use pancake.Wire.Client.{send_message}
use pancake.Wire.Processor.{no_sequence_id, process_oneway, write_message, unknown_method}
use pancake.Wire.Args.Responses.{
  AsyncResponseArgs, read_async_response_args, write_async_response_pargs,
  async_response_pargs-Parses,
}

-- the arguments as they are constructed
abbrev pub no_response : AsyncResponseArgs
no_response = record {
  seq_id = no_sequence_id;
  op_code = 0;
  result = [];
  isset_seq_id = false;
  isset_op_code = false;
  isset_result = false;
}

module _ (p : Protocol) where
  unfoldable pub send_async_response : SequenceId → ℕ → List Text → Text
  unfolding send_message
  send_async_response seq_id op_code result =
      send_message p (codes "async_response") t_oneway
        (write_async_response_pargs p seq_id op_code result)

  unfoldable pub process_async_response :
      {S : Type 0}
      → (SequenceId → ℕ → List Text → S → S × Run (Unit {0}))
      → S
      → Text
      → Run (S × Text × Text)
  process_async_response async_response =
      process_oneway p (read_async_response_args p no_response)
        (λ a. async_response a.seq_id a.op_code a.result)

  unfoldable pub dispatch_response :
      {S : Type 0}
      → (SequenceId → ℕ → List Text → S → S × Run (Unit {0}))
      → Text
      → ℕ
      → S
      → Text
      → Run (S × Text × Text)
  unfolding process_async_response
  dispatch_response async_response fname seqid s input =
      if text_eqb fname (codes "async_response")
      then process_async_response async_response s input
      else elim ((lib (p.skip t_struct) >> lib p.read_message_end) input) [
        | fault e ↦ fault e
        | ok (_, rest) ↦ ok (
          s,
          write_message p fname t_exception seqid (
              p.write_exception unknown_method
                (codes "Invalid method name: '" ++ (fname ++ codes "'"))),
          rest,
        )
      ]

  -- `recv_response`: what is written to `out`, and the sequence number that it returns. Without both
  -- fields the function ends with no `return`.
  unfoldable pub recv_response : Read (List Text × ℕ)
  recv_response = lib p.read_message_begin >>= λ (fname, type, seqid).
      if nat_eqb type t_exception
      then (lib p.read_exception >>= λ (code, message).
          lib p.read_message_end >> λ s. fault (thrown message))
      else (do
        result ← read_async_response_args p no_response
        lib p.read_message_end
        λ s.
            if result.isset_seq_id && result.isset_result
            then ok ((result.result, result.seq_id.client_seq_no), s)
            else fault no_return)

module _ (p : Protocol) (good : IsFaithful p) where
  -- If the protocol reads back what it wrote, and sequence id, op code and results fit into it,
  -- then `recv_response` on a response, whatever follows it, returns the results and the
  -- client's sequence number, and keeps what follows.
  pub recv_response-send :
      (seq_id : SequenceId) (op_code : ℕ) (result : List Text) (rest : Text)
      → FitsId seq_id
      → op_code < 2 ^ 32
      → FitsTexts result
      → recv_response p (send_async_response p seq_id op_code result ++ rest)
        ≡ ok ((result, seq_id.client_seq_no), rest)
  unfolding recv_response send_async_response
  recv_response-send seq_id op_code result rest h0 h1 h2 =
      let args = write_async_response_pargs p seq_id op_code result in
      let tail = args ++ (p.write_message_end ++ rest) in
      ap (recv_response p) (simp append_assoc)
      ∙ >>=-ok (lib p.read_message_begin) _
          (p.write_message_begin (codes "async_response") t_oneway 0 ++ tail) tail
          (codes "async_response", 4, 0)
          (lib-ok p.read_message_begin _ _ (
            good.message_begin (codes "async_response") 4 0 tail (omega arith) (omega arith)
              (omega arith)))
      ∙ >>=-ok (read_async_response_args p no_response) _ tail (p.write_message_end ++ rest)
          (record {
            seq_id = seq_id;
            op_code = op_code;
            result = result;
            isset_seq_id = true;
            isset_op_code = true;
            isset_result = true;
          })
          (async_response_pargs-Parses p good no_response seq_id op_code result h0 h1 h2
            (p.write_message_end ++ rest))
      ∙ >>=-ok (lib p.read_message_end) _ (p.write_message_end ++ rest) rest tt
          (lib-ok p.read_message_end _ _ (good.message_end rest))
