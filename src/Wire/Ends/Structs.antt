-- ===== src/Wire/Ends/Structs.antt =====
-- service/src/proxy_types.cpp and thrift.cpp: the loops of `sequence_id` and of the arguments of
-- `async_put_batch`, which read every kind of field.
use pancake.Base.Tests.{ℕ, Bool, true, false, nat_eqb}
use pancake.Base.Lists.{length}
use pancake.Base.Text.{Text}
use pancake.Proxy.Requests.{SequenceId}
use pancake.Wire.Protocol.{Protocol, t_i64, t_list, t_struct}
use pancake.Wire.Reading.{◌>>=◌, ◌>>◌, done, lib, read_struct, expect, read_list}
use pancake.Wire.Sequence.{SequenceRead, sequence_field, require, read_sequence_id}
use pancake.Wire.Args.AsyncBatches.{
  AsyncPutBatchArgs, async_put_batch_args_field, read_async_put_batch_args,
}
use pancake.Wire.Ends.{
  IsConsuming, Ends, Ended, if-Ends, then_done-Ends, >>=-Ends, lib-Ends, done-Ends, expect-Ends,
  ignore-Ends, list-Ends, struct-Ends,
}

module _ (p : Protocol) (takes : IsConsuming p) where
  sequence_field-Ends : (type id : ℕ) (x : SequenceRead) → Ends (sequence_field p type id x)
  unfolding sequence_field
  sequence_field-Ends type id x =
      (if-Ends (nat_eqb id 1)
        (expect p type t_i64
          (lib p.read_i64 >>= λ v.
            done (record x { this = record x.this { client_id = v }; isset_client_id = true }))
          x)
        _
        (expect-Ends p takes type t_i64
          (lib p.read_i64 >>= λ v.
            done (record x { this = record x.this { client_id = v }; isset_client_id = true }))
          x
          (then_done-Ends (lib p.read_i64)
            (λ v. record x { this = record x.this { client_id = v }; isset_client_id = true })
            (lib-Ends p.read_i64 takes.i64)))
        (if-Ends (nat_eqb id 2)
          (expect p type t_i64
            (lib p.read_i64 >>= λ v.
              done (record x {
                this = record x.this { client_seq_no = v };
                isset_client_seq_no = true;
              }))
            x)
          _
          (expect-Ends p takes type t_i64
            (lib p.read_i64 >>= λ v.
              done (record x {
                this = record x.this { client_seq_no = v };
                isset_client_seq_no = true;
              }))
            x
            (then_done-Ends (lib p.read_i64)
              (λ v. record x {
                this = record x.this { client_seq_no = v };
                isset_client_seq_no = true;
              })
              (lib-Ends p.read_i64 takes.i64)))
          (if-Ends (nat_eqb id 3)
            (expect p type t_i64
              (lib p.read_i64 >>= λ v. done (record x {
                this = record x.this { server_seq_no = v };
                isset_server_seq_no = true;
              }))
              x)
            _
            (expect-Ends p takes type t_i64
              (lib p.read_i64 >>= λ v. done (record x {
                this = record x.this { server_seq_no = v };
                isset_server_seq_no = true;
              }))
              x
              (then_done-Ends (lib p.read_i64)
                (λ v. record x {
                  this = record x.this { server_seq_no = v };
                  isset_server_seq_no = true;
                })
                (lib-Ends p.read_i64 takes.i64)))
            (ignore-Ends p takes type x))))

  require-Ends : (b : Bool) → Ends (require p b)
  unfolding require
  require-Ends true s = done-Ends tt s
  require-Ends false s = tt

  pub read_sequence_id-Ends : (x : SequenceId) → Ends (read_sequence_id p x)
  unfolding read_sequence_id
  read_sequence_id-Ends x =
      >>=-Ends (read_struct p (sequence_field p) _)
        (λ z.
          require p z.isset_client_id
          >> (require p z.isset_client_seq_no >> (require p z.isset_server_seq_no >> done z.this)))
        (struct-Ends p takes (sequence_field p) _ sequence_field-Ends)
        (λ z. >>=-Ends (require p z.isset_client_id) _ (require-Ends z.isset_client_id) (λ _.
          >>=-Ends (require p z.isset_client_seq_no) _ (require-Ends z.isset_client_seq_no) (λ _.
            >>=-Ends (require p z.isset_server_seq_no) _ (require-Ends z.isset_server_seq_no)
              (λ _. done-Ends z.this))))

  put_batch_field-Ends :
      (type id : ℕ) (x : AsyncPutBatchArgs) → Ends (async_put_batch_args_field p type id x)
  unfolding async_put_batch_args_field
  put_batch_field-Ends type id x =
      (if-Ends (nat_eqb id 1)
        (expect p type t_struct
          (read_sequence_id p x.seq_id >>= λ v. done (record x { seq_id = v; isset_seq_id = true }))
          x)
        _
        (expect-Ends p takes type t_struct
          (read_sequence_id p x.seq_id >>= λ v. done (record x { seq_id = v; isset_seq_id = true }))
          x
          (then_done-Ends (read_sequence_id p x.seq_id)
            (λ v. record x { seq_id = v; isset_seq_id = true }) (read_sequence_id-Ends x.seq_id)))
        (if-Ends (nat_eqb id 2)
          (expect p type t_list
            (read_list p >>= λ v. done (record x { keys = v; isset_keys = true })) x)
          _
          (expect-Ends p takes type t_list
            (read_list p >>= λ v. done (record x { keys = v; isset_keys = true })) x
            (then_done-Ends (read_list p) (λ v. record x { keys = v; isset_keys = true })
              (list-Ends p takes)))
          (if-Ends (nat_eqb id 3)
            (expect p type t_list
              (read_list p >>= λ v. done (record x { values = v; isset_values = true })) x)
            _
            (expect-Ends p takes type t_list
              (read_list p >>= λ v. done (record x { values = v; isset_values = true })) x
              (then_done-Ends (read_list p) (λ v. record x { values = v; isset_values = true })
                (list-Ends p takes)))
            (ignore-Ends p takes type x))))

  -- If no read of the protocol returns more bytes than it was given, and a field's header is at
  -- least one, then the arguments of `async_put_batch` are read on every input without the fuel
  -- of any loop running out, and what is left is no longer than the input.
  pub read_async_put_batch_args-ends :
      (x : AsyncPutBatchArgs) (input : Text)
      → Ended (length input) (read_async_put_batch_args p x input)
  unfolding read_async_put_batch_args
  read_async_put_batch_args-ends x input =
      struct-Ends p takes (async_put_batch_args_field p) x put_batch_field-Ends input
