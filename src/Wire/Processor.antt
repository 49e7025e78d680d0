-- ===== src/Wire/Processor.antt =====
-- service/src/thrift.cpp: the processor, `pancake_thriftProcessor`. No event handler is set, as in
-- thrift_server.cpp. A call returns the state of the object, what is sent back, and the rest of the
-- input.
use pancake.Base.Tests.{ℕ, true, false, List, [], ◌++◌, if◌then◌else◌}
use pancake.Base.Text.{Text, codes, text_eqb}
use pancake.Base.Run.{
  Run, ok, fault, out_of_range, assertion, division_by_zero, aborted, waiting, no_return, exhausted,
  thrown,
}
use pancake.Proxy.Requests.{SequenceId}
use pancake.Wire.Protocol.{Protocol, t_struct, t_reply, t_exception}
use pancake.Wire.Reading.{Read, ◌>>=◌, ◌>>◌, done, lib}
use pancake.Wire.Args.Ids.{read_get_client_id_args, read_register_client_id_args}
use pancake.Wire.Args.Async.{read_async_get_args, read_async_put_args}
use pancake.Wire.Args.AsyncBatches.{read_async_get_batch_args, read_async_put_batch_args}
use pancake.Wire.Args.Sync.{read_get_args, read_put_args}
use pancake.Wire.Args.Batches.{read_get_batch_args, read_put_batch_args}
use pancake.Wire.Args.Results.{write_get_client_id_result, write_get_result, write_get_batch_result}
use pancake.Wire.Args.Acks.{
  write_register_client_id_result, write_put_result, write_put_batch_result,
}

-- `pancake_thriftIf`. A method returns the state of its object with its value or its exception.
pub record Iface (S : Type 0) : Type 0 where
  pub get_client_id : S → S × Run ℕ
  pub register_client_id : ℕ → ℕ → S → S × Run (Unit {0})
  pub async_get : SequenceId → Text → S → S × Run (Unit {0})
  pub async_put : SequenceId → Text → Text → S → S × Run (Unit {0})
  pub async_get_batch : SequenceId → List Text → S → S × Run (Unit {0})
  pub async_put_batch : SequenceId → List Text → List Text → S → S × Run (Unit {0})
  pub get : Text → S → S × Run Text
  pub put : Text → Text → S → S × Run (Unit {0})
  pub get_batch : List Text → S → S × Run (List Text)
  pub put_batch : List Text → List Text → S → S × Run (Unit {0})

-- a `sequence_id` as it is constructed
abbrev pub no_sequence_id : SequenceId
no_sequence_id = record { client_id = 0; client_seq_no = 0; server_seq_no = 0 }

-- `TApplicationException::UNKNOWN_METHOD`
abbrev pub unknown_method : ℕ
unknown_method = 1

module _ (p : Protocol) where
  unfoldable pub write_message : Text → ℕ → ℕ → Text → Text
  write_message name type seqid body =
      p.write_message_begin name type seqid ++ (body ++ p.write_message_end)

  -- the arguments and the end of the message
  unfoldable pub read_call : {A : Type 0} → Read A → Read A
  read_call read_args = read_args >>= λ a. lib p.read_message_end >> done a

  -- A `std::exception` of the method becomes an exception message; other faults end the process.
  unfoldable pub reply :
      {S R : Type 0} → Text → ℕ → (R → Text) → Text → S → Run R → Run (S × Text × Text)
  unfolding write_message
  reply name seqid write_result rest s (ok r) =
      ok (s, write_message name t_reply seqid (write_result r), rest)
  reply name seqid write_result rest s (fault (thrown what)) =
      ok (s, write_message name t_exception seqid (p.write_exception 0 what), rest)
  reply name seqid write_result rest s (fault out_of_range) = fault out_of_range
  reply name seqid write_result rest s (fault assertion) = fault assertion
  reply name seqid write_result rest s (fault division_by_zero) = fault division_by_zero
  reply name seqid write_result rest s (fault aborted) = fault aborted
  reply name seqid write_result rest s (fault waiting) = fault waiting
  reply name seqid write_result rest s (fault no_return) = fault no_return
  reply name seqid write_result rest s (fault exhausted) = fault exhausted

  -- A oneway method is not answered, and its `std::exception` is dropped.
  unfoldable pub silent : {S : Type 0} → Text → S → Run (Unit {0}) → Run (S × Text × Text)
  silent rest s (ok r) = ok (s, [], rest)
  silent rest s (fault (thrown what)) = ok (s, [], rest)
  silent rest s (fault out_of_range) = fault out_of_range
  silent rest s (fault assertion) = fault assertion
  silent rest s (fault division_by_zero) = fault division_by_zero
  silent rest s (fault aborted) = fault aborted
  silent rest s (fault waiting) = fault waiting
  silent rest s (fault no_return) = fault no_return
  silent rest s (fault exhausted) = fault exhausted

  -- a call that is answered
  unfoldable pub process_call :
      {S A R : Type 0}
      → Text
      → Read A
      → (A → S → S × Run R)
      → (R → Text)
      → ℕ
      → S
      → Text
      → Run (S × Text × Text)
  unfolding read_call reply
  process_call name read_args run write_result seqid s input = elim (read_call read_args input) [
    | fault e ↦ fault e
    | ok (a, rest) ↦ reply name seqid write_result rest (run a s).0 (run a s).1
  ]

  unfoldable pub process_oneway :
      {S A : Type 0} → Read A → (A → S → S × Run (Unit {0})) → S → Text → Run (S × Text × Text)
  unfolding read_call silent
  process_oneway read_args run s input = elim (read_call read_args input) [
    | fault e ↦ fault e
    | ok (a, rest) ↦ silent rest (run a s).0 (run a s).1
  ]

  module _ {S : Type 0} (iface : Iface S) where
    unfoldable pub process_get_client_id : ℕ → S → Text → Run (S × Text × Text)
    unfolding process_call
    process_get_client_id =
        process_call (codes "get_client_id") (read_get_client_id_args p tt)
          (λ a. iface.get_client_id)
          (λ v. write_get_client_id_result p (record { success = v; isset_success = true }))

    unfoldable pub process_register_client_id : ℕ → S → Text → Run (S × Text × Text)
    unfolding process_call
    process_register_client_id =
        process_call (codes "register_client_id")
          (read_register_client_id_args p (record {
            block_id = 0;
            client_id = 0;
            isset_block_id = false;
            isset_client_id = false;
          }))
          (λ a. iface.register_client_id a.block_id a.client_id) (write_register_client_id_result p)

    unfoldable pub process_async_get : S → Text → Run (S × Text × Text)
    unfolding process_oneway
    process_async_get =
        process_oneway
          (read_async_get_args p
            (record { seq_id = no_sequence_id; key = []; isset_seq_id = false; isset_key = false }))
          (λ a. iface.async_get a.seq_id a.key)

    unfoldable pub process_async_put : S → Text → Run (S × Text × Text)
    unfolding process_oneway
    process_async_put =
        process_oneway
          (read_async_put_args p (record {
            seq_id = no_sequence_id;
            key = [];
            value = [];
            isset_seq_id = false;
            isset_key = false;
            isset_value = false;
          }))
          (λ a. iface.async_put a.seq_id a.key a.value)

    unfoldable pub process_async_get_batch : S → Text → Run (S × Text × Text)
    unfolding process_oneway
    process_async_get_batch =
        process_oneway
          (read_async_get_batch_args p (record {
            seq_id = no_sequence_id;
            keys = [];
            isset_seq_id = false;
            isset_keys = false;
          }))
          (λ a. iface.async_get_batch a.seq_id a.keys)

    unfoldable pub process_async_put_batch : S → Text → Run (S × Text × Text)
    unfolding process_oneway
    process_async_put_batch =
        process_oneway
          (read_async_put_batch_args p (record {
            seq_id = no_sequence_id;
            keys = [];
            values = [];
            isset_seq_id = false;
            isset_keys = false;
            isset_values = false;
          }))
          (λ a. iface.async_put_batch a.seq_id a.keys a.values)

    unfoldable pub process_get : ℕ → S → Text → Run (S × Text × Text)
    unfolding process_call
    process_get =
        process_call (codes "get") (read_get_args p (record { key = []; isset_key = false }))
          (λ a. iface.get a.key)
          (λ v. write_get_result p (record { success = v; isset_success = true }))

    unfoldable pub process_put : ℕ → S → Text → Run (S × Text × Text)
    unfolding process_call
    process_put =
        process_call (codes "put")
          (read_put_args p
            (record { key = []; value = []; isset_key = false; isset_value = false }))
          (λ a. iface.put a.key a.value) (write_put_result p)

    unfoldable pub process_get_batch : ℕ → S → Text → Run (S × Text × Text)
    unfolding process_call
    process_get_batch =
        process_call (codes "get_batch")
          (read_get_batch_args p (record { keys = []; isset_keys = false }))
          (λ a. iface.get_batch a.keys)
          (λ v. write_get_batch_result p (record { success = v; isset_success = true }))

    unfoldable pub process_put_batch : ℕ → S → Text → Run (S × Text × Text)
    unfolding process_call
    process_put_batch =
        process_call (codes "put_batch")
          (read_put_batch_args p
            (record { keys = []; values = []; isset_keys = false; isset_values = false }))
          (λ a. iface.put_batch a.keys a.values) (write_put_batch_result p)

    -- a name that is not in `processMap_`
    unfoldable pub process_unknown : Text → ℕ → S → Text → Run (S × Text × Text)
    unfolding write_message
    process_unknown fname seqid s input =
        elim ((lib (p.skip t_struct) >> lib p.read_message_end) input) [
          | fault e ↦ fault e
          | ok (_, rest) ↦ ok (
            s,
            write_message fname t_exception seqid (
                p.write_exception unknown_method
                  (codes "Invalid method name: '" ++ (fname ++ codes "'"))),
            rest,
          )
        ]

    unfoldable pub dispatch_call : Text → ℕ → S → Text → Run (S × Text × Text)
    unfolding process_get_client_id process_register_client_id process_async_get process_async_put
        process_async_get_batch process_async_put_batch process_get process_put process_get_batch
        process_put_batch process_unknown
    dispatch_call fname seqid s input =
        if text_eqb fname (codes "get_client_id")
        then process_get_client_id seqid s input
        else if text_eqb fname (codes "register_client_id")
        then process_register_client_id seqid s input
        else if text_eqb fname (codes "async_get")
        then process_async_get s input
        else if text_eqb fname (codes "async_put")
        then process_async_put s input
        else if text_eqb fname (codes "async_get_batch")
        then process_async_get_batch s input
        else if text_eqb fname (codes "async_put_batch")
        then process_async_put_batch s input
        else if text_eqb fname (codes "get")
        then process_get seqid s input
        else if text_eqb fname (codes "put")
        then process_put seqid s input
        else if text_eqb fname (codes "get_batch")
        then process_get_batch seqid s input
        else if text_eqb fname (codes "put_batch")
        then process_put_batch seqid s input
        else process_unknown fname seqid s input
