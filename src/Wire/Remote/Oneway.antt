-- ===== src/Wire/Remote/Oneway.antt =====
-- service/src/thrift.cpp: the four calls that are not answered.
use pancake.Base.Tests.{◌≡◌, refl, ◌∙◌, true, false, List, [], ◌++◌}
use pancake.Base.Text.{Text, codes}
use pancake.Base.Run.{
  Run, ok, fault, thrown, out_of_range, assertion, division_by_zero, aborted, waiting, no_return,
  exhausted,
}
use pancake.Proxy.Requests.{SequenceId}
use pancake.Wire.Protocol.{Protocol, IsFaithful, t_oneway}
use pancake.Wire.Structs.{FitsText, FitsTexts}
use pancake.Wire.Sequence.{FitsId}
use pancake.Wire.Processor.{Iface, no_sequence_id, dispatch_call, silent}
use pancake.Wire.Client.{
  send_message, send_async_get, send_async_put, send_async_get_batch, send_async_put_batch,
}
use pancake.Wire.Args.Async.{
  read_async_get_args, write_async_get_pargs, async_get_pargs-Parses, read_async_put_args,
  write_async_put_pargs, async_put_pargs-Parses,
}
use pancake.Wire.Args.AsyncBatches.{
  read_async_get_batch_args, write_async_get_batch_pargs, async_get_batch_pargs-Parses,
  read_async_put_batch_args, write_async_put_batch_pargs, async_put_batch_pargs-Parses,
}
use pancake.Wire.Remote.{Carried, process_oneway-silent}

module _ (p : Protocol) where
  -- What `send` wrote after the header of the message, the processor of `iface` handles: the object
  -- is then `s'`, and nothing is sent back.
  abbrev pub Delivered : {S : Type 0} → Iface S → Text → Text → S → S → Text → Type 0
  Delivered iface name send s s' rest =
      (body : Text) × (send ≡ p.write_message_begin name t_oneway 0 ++ body)
      × (dispatch_call p iface name 0 s (body ++ rest) ≡ ok (s', [], rest))

  -- A method that returns or throws leaves its object, and nothing is written.
  silent_lem :
      {S : Type 0} (rest : Text) (s : S) (o : Run (Unit {0}))
      → Carried (λ _. Unit) o
      → silent p rest s o ≡ ok (s, [], rest)
  unfolding silent
  silent_lem rest s (ok v) c = refl
  silent_lem rest s (fault (thrown what)) c = refl
  silent_lem rest s (fault out_of_range) c = absurd c
  silent_lem rest s (fault assertion) c = absurd c
  silent_lem rest s (fault division_by_zero) c = absurd c
  silent_lem rest s (fault aborted) c = absurd c
  silent_lem rest s (fault waiting) c = absurd c
  silent_lem rest s (fault no_return) c = absurd c
  silent_lem rest s (fault exhausted) c = absurd c

module _ (p : Protocol) (good : IsFaithful p) where
  pub async_get-Delivered :
      {S : Type 0} (iface : Iface S) (s : S) (seq_id : SequenceId) (key : Text) (rest : Text)
      → FitsId seq_id
      → FitsText key
      → Carried (λ _. Unit) (iface.async_get seq_id key s).1
      → Delivered p iface
          (codes "async_get")
          (send_async_get p seq_id key)
          s
          (iface.async_get seq_id key s).0
          rest
  unfolding dispatch_call send_async_get send_message
  async_get-Delivered iface s seq_id key rest h0 h1 c = (
    write_async_get_pargs p seq_id key ++ p.write_message_end,
    refl,
    process_oneway-silent p good
          (read_async_get_args p
            (record { seq_id = no_sequence_id; key = []; isset_seq_id = false; isset_key = false }))
          (λ a. iface.async_get a.seq_id a.key) s (write_async_get_pargs p seq_id key) rest
          (record { seq_id = seq_id; key = key; isset_seq_id = true; isset_key = true })
          (async_get_pargs-Parses p good
            (record { seq_id = no_sequence_id; key = []; isset_seq_id = false; isset_key = false })
            seq_id key h0 h1)
        ∙ silent_lem p rest (iface.async_get seq_id key s).0 (iface.async_get seq_id key s).1 c,
  )

  pub async_put-Delivered :
      {S : Type 0} (iface : Iface S) (s : S) (seq_id : SequenceId) (key : Text) (value : Text)
      (rest : Text)
      → FitsId seq_id
      → FitsText key
      → FitsText value
      → Carried (λ _. Unit) (iface.async_put seq_id key value s).1
      → Delivered p iface
          (codes "async_put")
          (send_async_put p seq_id key value)
          s
          (iface.async_put seq_id key value s).0
          rest
  unfolding dispatch_call send_async_put send_message
  async_put-Delivered iface s seq_id key value rest h0 h1 h2 c = (
    write_async_put_pargs p seq_id key value ++ p.write_message_end,
    refl,
    process_oneway-silent p good
          (read_async_put_args p (record {
            seq_id = no_sequence_id;
            key = [];
            value = [];
            isset_seq_id = false;
            isset_key = false;
            isset_value = false;
          }))
          (λ a. iface.async_put a.seq_id a.key a.value) s (write_async_put_pargs p seq_id key value)
          rest
          (record {
            seq_id = seq_id;
            key = key;
            value = value;
            isset_seq_id = true;
            isset_key = true;
            isset_value = true;
          })
          (async_put_pargs-Parses p good
            (record {
              seq_id = no_sequence_id;
              key = [];
              value = [];
              isset_seq_id = false;
              isset_key = false;
              isset_value = false;
            })
            seq_id key value h0 h1 h2)
        ∙ silent_lem p rest (iface.async_put seq_id key value s).0
            (iface.async_put seq_id key value s).1 c,
  )

  pub async_get_batch-Delivered :
      {S : Type 0} (iface : Iface S) (s : S) (seq_id : SequenceId) (keys : List Text) (rest : Text)
      → FitsId seq_id
      → FitsTexts keys
      → Carried (λ _. Unit) (iface.async_get_batch seq_id keys s).1
      → Delivered p iface
          (codes "async_get_batch")
          (send_async_get_batch p seq_id keys)
          s
          (iface.async_get_batch seq_id keys s).0
          rest
  unfolding dispatch_call send_async_get_batch send_message
  async_get_batch-Delivered iface s seq_id keys rest h0 h1 c = (
    write_async_get_batch_pargs p seq_id keys ++ p.write_message_end,
    refl,
    process_oneway-silent p good
          (read_async_get_batch_args p (record {
            seq_id = no_sequence_id;
            keys = [];
            isset_seq_id = false;
            isset_keys = false;
          }))
          (λ a. iface.async_get_batch a.seq_id a.keys) s (write_async_get_batch_pargs p seq_id keys)
          rest (record { seq_id = seq_id; keys = keys; isset_seq_id = true; isset_keys = true })
          (async_get_batch_pargs-Parses p good
            (record {
              seq_id = no_sequence_id;
              keys = [];
              isset_seq_id = false;
              isset_keys = false;
            })
            seq_id keys h0 h1)
        ∙ silent_lem p rest (iface.async_get_batch seq_id keys s).0
            (iface.async_get_batch seq_id keys s).1 c,
  )

  -- If the protocol reads back what it wrote, the sequence id, the keys and the values fit into
  -- it, and the method of the object returns or throws, then `send_async_put_batch` begins with
  -- the header of its message, and the processor, on what follows and any further input, leaves
  -- the object as the method leaves it, keeps that input and answers nothing.
  pub async_put_batch-Delivered :
      {S : Type 0} (iface : Iface S) (s : S) (seq_id : SequenceId) (keys : List Text)
      (values : List Text) (rest : Text)
      → FitsId seq_id
      → FitsTexts keys
      → FitsTexts values
      → Carried (λ _. Unit) (iface.async_put_batch seq_id keys values s).1
      → Delivered p iface
          (codes "async_put_batch")
          (send_async_put_batch p seq_id keys values)
          s
          (iface.async_put_batch seq_id keys values s).0
          rest
  unfolding dispatch_call send_async_put_batch send_message
  async_put_batch-Delivered iface s seq_id keys values rest h0 h1 h2 c = (
    write_async_put_batch_pargs p seq_id keys values ++ p.write_message_end,
    refl,
    process_oneway-silent p good
          (read_async_put_batch_args p (record {
            seq_id = no_sequence_id;
            keys = [];
            values = [];
            isset_seq_id = false;
            isset_keys = false;
            isset_values = false;
          }))
          (λ a. iface.async_put_batch a.seq_id a.keys a.values) s
          (write_async_put_batch_pargs p seq_id keys values) rest
          (record {
            seq_id = seq_id;
            keys = keys;
            values = values;
            isset_seq_id = true;
            isset_keys = true;
            isset_values = true;
          })
          (async_put_batch_pargs-Parses p good
            (record {
              seq_id = no_sequence_id;
              keys = [];
              values = [];
              isset_seq_id = false;
              isset_keys = false;
              isset_values = false;
            })
            seq_id keys values h0 h1 h2)
        ∙ silent_lem p rest (iface.async_put_batch seq_id keys values s).0
            (iface.async_put_batch seq_id keys values s).1 c,
  )
