-- ===== src/Wire/Client.antt =====
-- service/src/thrift.cpp: the client, `pancake_thriftClient`. What is written before `flush` is what is
-- sent.
use pancake.Base.Tests.{ℕ, Bool, false, List, [], ◌++◌, if◌then◌else◌, nat_eqb}
use pancake.Base.Text.{Text, codes, text_eqb}
use pancake.Base.Run.{ok, fault, thrown}
use pancake.Proxy.Requests.{SequenceId}
use pancake.Wire.Protocol.{Protocol, t_struct, t_call, t_reply, t_exception, t_oneway}
use pancake.Wire.Reading.{Read, ◌>>=◌, ◌>>◌, done, lib}
use pancake.Wire.Args.Ids.{write_get_client_id_pargs, write_register_client_id_pargs}
use pancake.Wire.Args.Async.{write_async_get_pargs, write_async_put_pargs}
use pancake.Wire.Args.AsyncBatches.{write_async_get_batch_pargs, write_async_put_batch_pargs}
use pancake.Wire.Args.Sync.{write_get_pargs, write_put_pargs}
use pancake.Wire.Args.Batches.{write_get_batch_pargs, write_put_batch_pargs}
use pancake.Wire.Args.Results.{read_get_client_id_presult, read_get_presult, read_get_batch_presult}
use pancake.Wire.Args.Acks.{
  read_register_client_id_presult, read_put_presult, read_put_batch_presult,
}

module _ (p : Protocol) where
  unfoldable pub send_message : Text → ℕ → Text → Text
  send_message name type args = p.write_message_begin name type 0 ++ (args ++ p.write_message_end)

  -- a message that is not expected is skipped; the generated code then reads on
  unfoldable pub skip_unless : Bool → Read (Unit {0})
  skip_unless expected =
      if expected then done tt else (lib (p.skip t_struct) >> lib p.read_message_end)

  unfoldable pub recv_message : {A : Type 0} → Text → Read A → Read A
  unfolding skip_unless
  recv_message name read_presult = lib p.read_message_begin >>= λ (fname, type, seqid).
      if nat_eqb type t_exception
      then (lib p.read_exception >>= λ (code, message).
          lib p.read_message_end >> λ s. fault (thrown message))
      else (skip_unless (nat_eqb type t_reply)
          >> (skip_unless (text_eqb fname name)
              >> (read_presult >>= λ x. lib p.read_message_end >> done x)))

  -- `success`, where `__isset` says that the reply had one
  unfoldable pub success_or_throw : {A : Type 0} → Text → Bool → A → Read A
  success_or_throw name isset v s =
      if isset then ok (v, s) else fault (thrown (name ++ codes " failed: unknown result"))

  unfoldable pub send_get_client_id : Text
  send_get_client_id = send_message (codes "get_client_id") t_call (write_get_client_id_pargs p)

  unfoldable pub recv_get_client_id : Read ℕ
  unfolding recv_message success_or_throw
  recv_get_client_id = do
    r ←
        recv_message (codes "get_client_id")
          (read_get_client_id_presult p (record { success = 0; isset_success = false }))
    success_or_throw (codes "get_client_id") r.isset_success r.success

  unfoldable pub send_register_client_id : ℕ → ℕ → Text
  send_register_client_id block_id client_id =
      send_message (codes "register_client_id") t_call
        (write_register_client_id_pargs p block_id client_id)

  unfoldable pub recv_register_client_id : Read (Unit {0})
  unfolding recv_message
  recv_register_client_id =
      recv_message (codes "register_client_id") (read_register_client_id_presult p tt)

  unfoldable pub send_async_get : SequenceId → Text → Text
  send_async_get seq_id key =
      send_message (codes "async_get") t_oneway (write_async_get_pargs p seq_id key)

  unfoldable pub send_async_put : SequenceId → Text → Text → Text
  send_async_put seq_id key value =
      send_message (codes "async_put") t_oneway (write_async_put_pargs p seq_id key value)

  unfoldable pub send_async_get_batch : SequenceId → List Text → Text
  send_async_get_batch seq_id keys =
      send_message (codes "async_get_batch") t_oneway (write_async_get_batch_pargs p seq_id keys)

  unfoldable pub send_async_put_batch : SequenceId → List Text → List Text → Text
  send_async_put_batch seq_id keys values =
      send_message (codes "async_put_batch") t_oneway
        (write_async_put_batch_pargs p seq_id keys values)

  unfoldable pub send_get : Text → Text
  send_get key = send_message (codes "get") t_call (write_get_pargs p key)

  -- `_return` is the caller's string, empty at first
  unfoldable pub recv_get : Read Text
  unfolding recv_message success_or_throw
  recv_get = do
    r ←
        recv_message (codes "get")
          (read_get_presult p (record { success = []; isset_success = false }))
    success_or_throw (codes "get") r.isset_success r.success

  unfoldable pub send_put : Text → Text → Text
  send_put key value = send_message (codes "put") t_call (write_put_pargs p key value)

  unfoldable pub recv_put : Read (Unit {0})
  unfolding recv_message
  recv_put = recv_message (codes "put") (read_put_presult p tt)

  unfoldable pub send_get_batch : List Text → Text
  send_get_batch keys = send_message (codes "get_batch") t_call (write_get_batch_pargs p keys)

  unfoldable pub recv_get_batch : Read (List Text)
  unfolding recv_message success_or_throw
  recv_get_batch = do
    r ←
        recv_message (codes "get_batch")
          (read_get_batch_presult p (record { success = []; isset_success = false }))
    success_or_throw (codes "get_batch") r.isset_success r.success

  unfoldable pub send_put_batch : List Text → List Text → Text
  send_put_batch keys values =
      send_message (codes "put_batch") t_call (write_put_batch_pargs p keys values)

  unfoldable pub recv_put_batch : Read (Unit {0})
  unfolding recv_message
  recv_put_batch = recv_message (codes "put_batch") (read_put_batch_presult p tt)
