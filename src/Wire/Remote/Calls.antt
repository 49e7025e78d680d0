-- ===== src/Wire/Remote/Calls.antt =====
-- service/src/thrift.cpp: the six calls that are answered, from the client through the processor and
-- back.
use pancake.Base.Tests.{ℕ, ◌^◌, ◌<◌, refl, ap, true, false, List, [], ◌++◌, arith}
use pancake.Base.Text.{Text, codes}
use pancake.Base.Run.{ok, fault}
use pancake.Wire.Protocol.{Protocol, IsFaithful}
use pancake.Wire.Parsing.{>>=-ok}
use pancake.Wire.Structs.{FitsText, FitsTexts}
use pancake.Wire.Processor.{Iface, dispatch_call}
use pancake.Wire.Client.{
  send_message, recv_message, success_or_throw, send_get_client_id, recv_get_client_id,
  send_register_client_id, recv_register_client_id, send_get, recv_get, send_put, recv_put,
  send_get_batch, recv_get_batch, send_put_batch, recv_put_batch,
}
use pancake.Wire.Args.Ids.{
  read_get_client_id_args, write_get_client_id_pargs, get_client_id_pargs-Parses,
  read_register_client_id_args, write_register_client_id_pargs, register_client_id_pargs-Parses,
}
use pancake.Wire.Args.Sync.{
  read_get_args, write_get_pargs, get_pargs-Parses, read_put_args, write_put_pargs,
  put_pargs-Parses,
}
use pancake.Wire.Args.Batches.{
  read_get_batch_args, write_get_batch_pargs, get_batch_pargs-Parses, read_put_batch_args,
  write_put_batch_pargs, put_batch_pargs-Parses,
}
use pancake.Wire.Args.Results.{
  read_get_client_id_presult, write_get_client_id_result, get_client_id_presult-Parses,
  read_get_presult, write_get_result, get_presult-Parses, read_get_batch_presult,
  write_get_batch_result, get_batch_presult-Parses,
}
use pancake.Wire.Args.Acks.{
  read_register_client_id_presult, write_register_client_id_result,
  register_client_id_presult-Parses, read_put_presult, write_put_result, put_presult-Parses,
  read_put_batch_presult, write_put_batch_result, put_batch_presult-Parses,
}
use pancake.Wire.Remote.{Carried, Answered, process_call-deliver, recv-reply, recv-exception}

module _ (p : Protocol) (good : IsFaithful p) where
  pub send_get_client_id-Answered :
      {S : Type 0} (iface : Iface S) (s : S) (rest rest' : Text)
      → Carried (λ v. v < 2 ^ 64) (iface.get_client_id s).1
      → Answered p iface
          (codes "get_client_id")
          (send_get_client_id p)
          (recv_get_client_id p)
          s
          (iface.get_client_id s)
          rest
          rest'
  unfolding dispatch_call send_get_client_id send_message recv_get_client_id
  send_get_client_id-Answered iface s rest rest' c =
      let (out, e, r) =
        process_call-deliver p good (λ v. v < 2 ^ 64) (codes "get_client_id")
          (read_get_client_id_args p tt) (λ a. iface.get_client_id)
          (λ v. write_get_client_id_result p (record { success = v; isset_success = true }))
          (recv_get_client_id p) s (write_get_client_id_pargs p) tt
          (get_client_id_pargs-Parses p good tt)
          (λ v f rest.
            >>=-ok
              (recv_message p (codes "get_client_id")
                (read_get_client_id_presult p (record { success = 0; isset_success = false })))
              (λ r. success_or_throw p (codes "get_client_id") r.isset_success r.success) _ rest
              (record { success = v; isset_success = true })
              (recv-reply p good (codes "get_client_id")
                (read_get_client_id_presult p (record { success = 0; isset_success = false })) _
                (record { success = v; isset_success = true }) (omega arith)
                (get_client_id_presult-Parses p good (record { success = 0; isset_success = false })
                  v f)
                rest))
          (λ what rest f.
            ap
              (λ r. elim r [
                | fault e ↦ fault e
                | ok (x, t) ↦ success_or_throw p (codes "get_client_id") x.isset_success x.success t
              ])
              (recv-exception p good (codes "get_client_id")
                (read_get_client_id_presult p (record { success = 0; isset_success = false })) what
                rest (omega arith) f))
          rest rest' c in
      (write_get_client_id_pargs p ++ p.write_message_end, out, refl, e, r)

  pub send_register_client_id-Answered :
      {S : Type 0} (iface : Iface S) (s : S) (block_id : ℕ) (client_id : ℕ) (rest rest' : Text)
      → block_id < 2 ^ 32
      → client_id < 2 ^ 64
      → Carried (λ _. Unit) (iface.register_client_id block_id client_id s).1
      → Answered p iface
          (codes "register_client_id")
          (send_register_client_id p block_id client_id)
          (recv_register_client_id p)
          s
          (iface.register_client_id block_id client_id s)
          rest
          rest'
  unfolding dispatch_call send_register_client_id send_message recv_register_client_id
  send_register_client_id-Answered iface s block_id client_id rest rest' h0 h1 c =
      let (out, e, r) =
        process_call-deliver p good (λ _. Unit) (codes "register_client_id")
          (read_register_client_id_args p (record {
            block_id = 0;
            client_id = 0;
            isset_block_id = false;
            isset_client_id = false;
          }))
          (λ a. iface.register_client_id a.block_id a.client_id) (write_register_client_id_result p)
          (recv_register_client_id p) s (write_register_client_id_pargs p block_id client_id)
          (record {
            block_id = block_id;
            client_id = client_id;
            isset_block_id = true;
            isset_client_id = true;
          })
          (register_client_id_pargs-Parses p good
            (record {
              block_id = 0;
              client_id = 0;
              isset_block_id = false;
              isset_client_id = false;
            })
            block_id client_id h0 h1)
          (λ v f.
            recv-reply p good (codes "register_client_id") (read_register_client_id_presult p tt) _
              tt (omega arith) (register_client_id_presult-Parses p good tt v))
          (λ what rest f.
            recv-exception p good (codes "register_client_id")
              (read_register_client_id_presult p tt) what rest (omega arith) f)
          rest rest' c in
      (write_register_client_id_pargs p block_id client_id ++ p.write_message_end, out, refl, e, r)

  pub send_get-Answered :
      {S : Type 0} (iface : Iface S) (s : S) (key : Text) (rest rest' : Text)
      → FitsText key
      → Carried FitsText (iface.get key s).1
      → Answered p iface (codes "get") (send_get p key) (recv_get p) s (iface.get key s) rest rest'
  unfolding dispatch_call send_get send_message recv_get
  send_get-Answered iface s key rest rest' h0 c =
      let (out, e, r) =
        process_call-deliver p good FitsText (codes "get")
          (read_get_args p (record { key = []; isset_key = false })) (λ a. iface.get a.key)
          (λ v. write_get_result p (record { success = v; isset_success = true })) (recv_get p) s
          (write_get_pargs p key) (record { key = key; isset_key = true })
          (get_pargs-Parses p good (record { key = []; isset_key = false }) key h0)
          (λ v f rest.
            >>=-ok
              (recv_message p (codes "get")
                (read_get_presult p (record { success = []; isset_success = false })))
              (λ r. success_or_throw p (codes "get") r.isset_success r.success) _ rest
              (record { success = v; isset_success = true })
              (recv-reply p good (codes "get")
                (read_get_presult p (record { success = []; isset_success = false })) _
                (record { success = v; isset_success = true }) (omega arith)
                (get_presult-Parses p good (record { success = []; isset_success = false }) v f)
                rest))
          (λ what rest f.
            ap
              (λ r. elim r [
                | fault e ↦ fault e
                | ok (x, t) ↦ success_or_throw p (codes "get") x.isset_success x.success t
              ])
              (recv-exception p good (codes "get")
                (read_get_presult p (record { success = []; isset_success = false })) what rest
                (omega arith) f))
          rest rest' c in
      (write_get_pargs p key ++ p.write_message_end, out, refl, e, r)

  pub send_put-Answered :
      {S : Type 0} (iface : Iface S) (s : S) (key : Text) (value : Text) (rest rest' : Text)
      → FitsText key
      → FitsText value
      → Carried (λ _. Unit) (iface.put key value s).1
      → Answered p iface
          (codes "put")
          (send_put p key value)
          (recv_put p)
          s
          (iface.put key value s)
          rest
          rest'
  unfolding dispatch_call send_put send_message recv_put
  send_put-Answered iface s key value rest rest' h0 h1 c =
      let (out, e, r) =
        process_call-deliver p good (λ _. Unit) (codes "put")
          (read_put_args p
            (record { key = []; value = []; isset_key = false; isset_value = false }))
          (λ a. iface.put a.key a.value) (write_put_result p) (recv_put p) s
          (write_put_pargs p key value)
          (record { key = key; value = value; isset_key = true; isset_value = true })
          (put_pargs-Parses p good
            (record { key = []; value = []; isset_key = false; isset_value = false }) key value h0
            h1)
          (λ v f.
            recv-reply p good (codes "put") (read_put_presult p tt) _ tt (omega arith)
              (put_presult-Parses p good tt v))
          (λ what rest f.
            recv-exception p good (codes "put") (read_put_presult p tt) what rest (omega arith) f)
          rest rest' c in
      (write_put_pargs p key value ++ p.write_message_end, out, refl, e, r)

  -- If the protocol reads back what it wrote, the keys fit into it, and the method of the
  -- object returns texts that fit or throws an exception whose text fits, then `send_get_batch`
  -- begins with the header of its message, and the processor, on what follows and any further
  -- input, leaves the object as the method leaves it, keeps that input, and answers so that
  -- `recv_get_batch`, whatever follows the answer, returns the method's texts or throws its
  -- exception.
  pub send_get_batch-Answered :
      {S : Type 0} (iface : Iface S) (s : S) (keys : List Text) (rest rest' : Text)
      → FitsTexts keys
      → Carried FitsTexts (iface.get_batch keys s).1
      → Answered p iface
          (codes "get_batch")
          (send_get_batch p keys)
          (recv_get_batch p)
          s
          (iface.get_batch keys s)
          rest
          rest'
  unfolding dispatch_call send_get_batch send_message recv_get_batch
  send_get_batch-Answered iface s keys rest rest' h0 c =
      let (out, e, r) =
        process_call-deliver p good FitsTexts (codes "get_batch")
          (read_get_batch_args p (record { keys = []; isset_keys = false }))
          (λ a. iface.get_batch a.keys)
          (λ v. write_get_batch_result p (record { success = v; isset_success = true }))
          (recv_get_batch p) s (write_get_batch_pargs p keys)
          (record { keys = keys; isset_keys = true })
          (get_batch_pargs-Parses p good (record { keys = []; isset_keys = false }) keys h0)
          (λ v f rest.
            >>=-ok
              (recv_message p (codes "get_batch")
                (read_get_batch_presult p (record { success = []; isset_success = false })))
              (λ r. success_or_throw p (codes "get_batch") r.isset_success r.success) _ rest
              (record { success = v; isset_success = true })
              (recv-reply p good (codes "get_batch")
                (read_get_batch_presult p (record { success = []; isset_success = false })) _
                (record { success = v; isset_success = true }) (omega arith)
                (get_batch_presult-Parses p good (record { success = []; isset_success = false }) v
                  f)
                rest))
          (λ what rest f.
            ap
              (λ r. elim r [
                | fault e ↦ fault e
                | ok (x, t) ↦ success_or_throw p (codes "get_batch") x.isset_success x.success t
              ])
              (recv-exception p good (codes "get_batch")
                (read_get_batch_presult p (record { success = []; isset_success = false })) what
                rest (omega arith) f))
          rest rest' c in
      (write_get_batch_pargs p keys ++ p.write_message_end, out, refl, e, r)

  pub send_put_batch-Answered :
      {S : Type 0} (iface : Iface S) (s : S) (keys : List Text) (values : List Text)
      (rest rest' : Text)
      → FitsTexts keys
      → FitsTexts values
      → Carried (λ _. Unit) (iface.put_batch keys values s).1
      → Answered p iface
          (codes "put_batch")
          (send_put_batch p keys values)
          (recv_put_batch p)
          s
          (iface.put_batch keys values s)
          rest
          rest'
  unfolding dispatch_call send_put_batch send_message recv_put_batch
  send_put_batch-Answered iface s keys values rest rest' h0 h1 c =
      let (out, e, r) =
        process_call-deliver p good (λ _. Unit) (codes "put_batch")
          (read_put_batch_args p
            (record { keys = []; values = []; isset_keys = false; isset_values = false }))
          (λ a. iface.put_batch a.keys a.values) (write_put_batch_result p) (recv_put_batch p) s
          (write_put_batch_pargs p keys values)
          (record { keys = keys; values = values; isset_keys = true; isset_values = true })
          (put_batch_pargs-Parses p good
            (record { keys = []; values = []; isset_keys = false; isset_values = false }) keys
            values h0 h1)
          (λ v f.
            recv-reply p good (codes "put_batch") (read_put_batch_presult p tt) _ tt (omega arith)
              (put_batch_presult-Parses p good tt v))
          (λ what rest f.
            recv-exception p good (codes "put_batch") (read_put_batch_presult p tt) what rest
              (omega arith) f)
          rest rest' c in
      (write_put_batch_pargs p keys values ++ p.write_message_end, out, refl, e, r)
