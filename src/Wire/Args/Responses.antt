-- ===== src/Wire/Args/Responses.antt =====
-- service/src/thrift_response_service.cpp: the arguments of `async_response`, with `read` and `write`, and with
-- the `write` of the struct of pointers.
use pancake.Base.Tests.{refl, ℕ, ◌^◌, ◌<◌, Bool, true, List, ◌++◌, if◌then◌else◌, nat_eqb, arith}
use pancake.Base.Text.{Text, codes}
use pancake.Proxy.Requests.{SequenceId}
use pancake.Wire.Protocol.{Protocol, IsFaithful, t_i32, t_struct, t_list}
use pancake.Wire.Reading.{
  Read, ◌>>=◌, done, lib, read_struct, expect, ignore, read_list, write_list, write_field,
  write_struct,
}
use pancake.Wire.Sequence.{read_sequence_id, write_sequence_id, FitsId, Loops-sequence_id}
use pancake.Wire.Parsing.{Parses}
use pancake.Wire.Structs.{FitsTexts, Loops-i32, Loops-list, Loops, Loops-stop, struct-Parses}

-- `pancake_thrift_response_async_response_args`, with its `__isset`
pub record AsyncResponseArgs : Type 0 where
  pub seq_id : SequenceId
  pub op_code : ℕ
  pub result : List Text
  pub isset_seq_id : Bool
  pub isset_op_code : Bool
  pub isset_result : Bool

module _ (p : Protocol) where
  -- `pancake_thrift_response_async_response_args::read`
  unfoldable pub async_response_args_field : ℕ → ℕ → AsyncResponseArgs → Read AsyncResponseArgs
  unfolding expect ignore
  async_response_args_field type id x =
      if nat_eqb id 1
      then expect p type t_struct
          (read_sequence_id p x.seq_id >>= λ v. done (record x { seq_id = v; isset_seq_id = true }))
          x
      else if nat_eqb id 2
      then expect p type t_i32
          (lib p.read_i32 >>= λ v. done (record x { op_code = v; isset_op_code = true })) x
      else if nat_eqb id 3
      then expect p type t_list
          (read_list p >>= λ v. done (record x { result = v; isset_result = true })) x
      else ignore p type x

  unfoldable pub read_async_response_args : AsyncResponseArgs → Read AsyncResponseArgs
  unfolding async_response_args_field
  read_async_response_args = read_struct p async_response_args_field

  unfoldable pub write_async_response_args : AsyncResponseArgs → Text
  write_async_response_args x =
      write_struct p (codes "pancake_thrift_response_async_response_args") (
        write_field p (codes "seq_id") t_struct 1 (write_sequence_id p x.seq_id)
        ++ (write_field p (codes "op_code") t_i32 2 (p.write_i32 x.op_code)
            ++ (write_field p (codes "result") t_list 3 (write_list p x.result)
                ++ p.write_field_stop)))

  -- `pancake_thrift_response_async_response_pargs::write`, on what it points to
  unfoldable pub write_async_response_pargs : SequenceId → ℕ → List Text → Text
  write_async_response_pargs seq_id op_code result =
      write_struct p (codes "pancake_thrift_response_async_response_pargs") (
        write_field p (codes "seq_id") t_struct 1 (write_sequence_id p seq_id)
        ++ (write_field p (codes "op_code") t_i32 2 (p.write_i32 op_code)
            ++ (write_field p (codes "result") t_list 3 (write_list p result)
                ++ p.write_field_stop)))

module _ (p : Protocol) (good : IsFaithful p) where
  async_response_args-Loops :
      (x : AsyncResponseArgs) (seq_id : SequenceId) (op_code : ℕ) (result : List Text)
      → FitsId seq_id
      → op_code < 2 ^ 32
      → FitsTexts result
      → Loops p good
          (async_response_args_field p)
          x
          (write_field p (codes "seq_id") t_struct 1 (write_sequence_id p seq_id)
            ++ (write_field p (codes "op_code") t_i32 2 (p.write_i32 op_code)
                ++ (write_field p (codes "result") t_list 3 (write_list p result)
                    ++ p.write_field_stop)))
          (record {
            seq_id = seq_id;
            op_code = op_code;
            result = result;
            isset_seq_id = true;
            isset_op_code = true;
            isset_result = true;
          })
  unfolding async_response_args_field
  async_response_args-Loops x seq_id op_code result h0 h1 h2 =
      let one : AsyncResponseArgs = record x { seq_id = seq_id; isset_seq_id = true } in
      let two : AsyncResponseArgs = record one { op_code = op_code; isset_op_code = true } in
      let three : AsyncResponseArgs = record two { result = result; isset_result = true } in
      let end : AsyncResponseArgs = record {
        seq_id = seq_id;
        op_code = op_code;
        result = result;
        isset_seq_id = true;
        isset_op_code = true;
        isset_result = true;
      } in
      (Loops-sequence_id p good (async_response_args_field p) (codes "seq_id") 1 x x.seq_id
        (λ v. record x { seq_id = v; isset_seq_id = true }) seq_id _ end (omega arith) refl h0
        (Loops-i32 p good (async_response_args_field p) (codes "op_code") 2 one
          (λ v. record one { op_code = v; isset_op_code = true }) op_code _ end (omega arith) refl
          h1
          (Loops-list p good (async_response_args_field p) (codes "result") 3 two
            (λ v. record two { result = v; isset_result = true }) result _ end (omega arith) refl h2
            (Loops-stop p good (async_response_args_field p) three))))

  pub async_response_args-Parses :
      (x : AsyncResponseArgs) (y : AsyncResponseArgs)
      → FitsId y.seq_id
      → y.op_code < 2 ^ 32
      → FitsTexts y.result
      → Parses (read_async_response_args p x) (write_async_response_args p y) (record {
        seq_id = y.seq_id;
        op_code = y.op_code;
        result = y.result;
        isset_seq_id = true;
        isset_op_code = true;
        isset_result = true;
      })
  unfolding read_async_response_args write_async_response_args
  async_response_args-Parses x y h0 h1 h2 =
      struct-Parses p good (async_response_args_field p)
        (codes "pancake_thrift_response_async_response_args") x _ _
        (async_response_args-Loops x y.seq_id y.op_code y.result h0 h1 h2)

  pub async_response_pargs-Parses :
      (x : AsyncResponseArgs) (seq_id : SequenceId) (op_code : ℕ) (result : List Text)
      → FitsId seq_id
      → op_code < 2 ^ 32
      → FitsTexts result
      → Parses
          (read_async_response_args p x)
          (write_async_response_pargs p seq_id op_code result)
          (record {
            seq_id = seq_id;
            op_code = op_code;
            result = result;
            isset_seq_id = true;
            isset_op_code = true;
            isset_result = true;
          })
  unfolding read_async_response_args write_async_response_pargs
  async_response_pargs-Parses x seq_id op_code result h0 h1 h2 =
      struct-Parses p good (async_response_args_field p)
        (codes "pancake_thrift_response_async_response_pargs") x _ _
        (async_response_args-Loops x seq_id op_code result h0 h1 h2)
