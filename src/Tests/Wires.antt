-- ===== src/Tests/Wires.antt =====
-- The transport code on the protocol of Bytes, over an object that is a dictionary.
use pancake.Base.Tests.{◌≡◌, refl, false, none, some, List, [], ◌∷◌, ◌++◌, arith}
use pancake.Base.Lists.{length}
use pancake.Base.Text.{Text, codes, text_eq}
use pancake.Base.Run.{Run, ok, fault, thrown}
use pancake.Base.Dict.{Dict, lookup, insert}
use pancake.Proxy.Requests.{SequenceId}
use pancake.Wire.Reading.{write_field, write_struct}
use pancake.Wire.Sequence.{read_sequence_id, write_sequence_id}
use pancake.Wire.Client.{send_get_batch, recv_get_batch, send_async_put_batch, recv_message}
use pancake.Wire.Processor.{Iface, dispatch_call}
use pancake.Wire.Remote.{Answered}
use pancake.Wire.Remote.Calls.{send_get_batch-Answered}
use pancake.Wire.Remote.Oneway.{Delivered, async_put_batch-Delivered}
use pancake.Wire.Required.{dispatch_call-unknown}
use pancake.Wire.Fields.{
  Field, client_id, client_seq_no, server_seq_no, other, fields_text, read_sequence_id-fields,
}
use pancake.Wire.Response.{send_async_response, recv_response, recv_response-send}
use pancake.Wire.Ends.{Ended}
use pancake.Wire.Ends.Structs.{read_async_put_batch_args-ends}
use pancake.Wire.Args.AsyncBatches.{AsyncPutBatchArgs, read_async_put_batch_args}
use pancake.Wire.Args.Sync.{read_get_args}
use pancake.Tests.Bytes.{plain, plain-IsFaithful, plain-IsConsuming}

abbrev get_all : List Text → Dict Text Text → Run (List Text)
get_all [] d = ok []
get_all (k ∷ ks) d = elim (lookup k d) [
  | none ↦ fault (thrown (codes "Key does not exist"))
  | some v ↦ elim (get_all ks d) [ fault e ↦ fault e | ok vs ↦ ok (v ∷ vs) ]
]

abbrev put_all : List Text → List Text → Dict Text Text → Dict Text Text
put_all [] vs d = d
put_all (k ∷ ks) [] d = d
put_all (k ∷ ks) (v ∷ vs) d = put_all ks vs (insert k v d)

abbrev store : Iface (Dict Text Text)
store = record {
  get_client_id = λ d. (d, ok (length d));
  register_client_id = λ b c d. (d, ok tt);
  async_get = λ i k d. (d, ok tt);
  async_put = λ i k v d. (insert k v d, ok tt);
  async_get_batch = λ i ks d. (d, ok tt);
  async_put_batch = λ i ks vs d. (put_all ks vs d, ok tt);
  get = λ k d.
      (d, elim (lookup k d) [ none ↦ fault (thrown (codes "Key does not exist")) | some v ↦ ok v ]);
  put = λ k v d. (insert k v d, ok tt);
  get_batch = λ ks d. (d, get_all ks d);
  put_batch = λ ks vs d. (put_all ks vs d, ok tt);
}

abbrev two_entries : Dict Text Text
two_entries = (codes "a", codes "one") ∷ ((codes "b", codes "two") ∷ [])

abbrev seven : SequenceId
seven = record { client_id = 7; client_seq_no = 3; server_seq_no = 0 }

-- the bytes of a sequence id
written : write_sequence_id plain seven ≡ 10 ∷ 1 ∷ 7 ∷ 10 ∷ 2 ∷ 3 ∷ 10 ∷ 3 ∷ 0 ∷ 0 ∷ []
unfolding write_sequence_id write_struct write_field
written = refl

send_get_batch-Answered_example :
    Answered plain store
      (codes "get_batch")
      (send_get_batch plain (codes "a" ∷ codes "b" ∷ []))
      (recv_get_batch plain)
      two_entries
      (store.get_batch (codes "a" ∷ codes "b" ∷ []) two_entries)
      []
      []
unfolding lookup
send_get_batch-Answered_example =
    send_get_batch-Answered plain plain-IsFaithful store two_entries (codes "a" ∷ codes "b" ∷ []) []
      [] (omega arith) (omega arith)

async_put_batch-Delivered_example :
    Delivered plain store
      (codes "async_put_batch")
      (send_async_put_batch plain seven (codes "a" ∷ []) (codes "new" ∷ []))
      two_entries
      (put_all (codes "a" ∷ []) (codes "new" ∷ []) two_entries)
      []
async_put_batch-Delivered_example =
    async_put_batch-Delivered plain plain-IsFaithful store two_entries seven (codes "a" ∷ [])
      (codes "new" ∷ []) [] (omega arith) (omega arith) (omega arith) tt

recv_response-send_example :
    recv_response plain (send_async_response plain seven 2 (codes "one" ∷ []) ++ [])
    ≡ ok ((codes "one" ∷ [], 3), [])
recv_response-send_example =
    recv_response-send plain plain-IsFaithful seven 2 (codes "one" ∷ []) [] (omega arith)
      (omega arith) (omega arith)

-- a `sequence_id` that has but its first field
-- in reverse, with a field of another version, and with one field twice
abbrev five_fields : List Field
five_fields =
    server_seq_no 1
    ∷ other (codes "epoch") 11 9 (2 ∷ 0 ∷ 0 ∷ [])
    ∷ client_seq_no 5
    ∷ client_id 8
    ∷ client_id 9
    ∷ []

read_sequence_id-fields_example :
    read_sequence_id plain seven
      (write_struct plain (codes "sequence_id") (fields_text plain five_fields) ++ [])
    ≡ ok (record { client_id = 9; client_seq_no = 5; server_seq_no = 1 }, [])
read_sequence_id-fields_example =
    read_sequence_id-fields plain plain-IsFaithful seven five_fields [] (
      omega arith,
      (
        (omega arith, omega arith, omega arith, omega arith, λ rest. refl),
        (omega arith, (omega arith, (omega arith, tt))),
      ),
    )

dispatch_call-unknown_example :
    (out : Text) × (dispatch_call plain store (codes "del") 0 two_entries (0 ∷ [])
      ≡ ok (two_entries, out, []))
    × (recv_message plain
          (codes "get")
          (read_get_args plain (record { key = []; isset_key = false }))
          (out ++ [])
        ≡ fault (thrown (codes "Invalid method name: 'del'")))
dispatch_call-unknown_example =
    dispatch_call-unknown plain plain-IsFaithful store two_entries (codes "del") (codes "get")
      (read_get_args plain (record { key = []; isset_key = false })) (0 ∷ []) [] [] []
      (refl, (refl, (refl, (refl, (refl, (refl, (refl, (refl, (refl, (refl, tt))))))))))
      (omega arith) refl refl

abbrev no_args : AsyncPutBatchArgs
no_args = record {
  seq_id = seven;
  keys = [];
  values = [];
  isset_seq_id = false;
  isset_keys = false;
  isset_values = false;
}

read_async_put_batch_args-ends_example :
    Ended 3 (read_async_put_batch_args plain no_args (12 ∷ 1 ∷ 10 ∷ []))
read_async_put_batch_args-ends_example =
    read_async_put_batch_args-ends plain plain-IsConsuming no_args (12 ∷ 1 ∷ 10 ∷ [])
