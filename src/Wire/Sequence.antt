-- ===== src/Wire/Sequence.antt =====
-- service/src/proxy_types.cpp: `sequence_id`, its `read` and `write`.
use pancake.Base.Tests.{
  ◌≡◌, refl, ℕ, ◌^◌, ◌<◌, Bool, true, false, ◌++◌, arith, if◌then◌else◌, nat_eqb,
}
use pancake.Base.Text.{Text, codes}
use pancake.Base.Run.{ok, fault, thrown}
use pancake.Proxy.Requests.{SequenceId}
use pancake.Wire.Protocol.{Protocol, IsFaithful, t_i64, t_struct}
use pancake.Wire.Parsing.{Parses, >>=-ok}
use pancake.Wire.Structs.{Loops, Loops-value, Loops-i64, Loops-stop, struct-Parses}
use pancake.Wire.Reading.{
  Read, ◌>>=◌, ◌>>◌, done, lib, read_struct, expect, ignore, write_field, write_struct,
}

-- the variables of `read`
pub record SequenceRead : Type 0 where
  pub this : SequenceId
  pub isset_client_id : Bool
  pub isset_client_seq_no : Bool
  pub isset_server_seq_no : Bool

module _ (p : Protocol) where
  unfoldable pub sequence_field : ℕ → ℕ → SequenceRead → Read SequenceRead
  unfolding expect ignore
  sequence_field type id x =
      if nat_eqb id 1
      then expect p type t_i64
          (do
            v ← lib p.read_i64
            done (record x { this = record x.this { client_id = v }; isset_client_id = true }))
          x
      else if nat_eqb id 2
      then expect p type t_i64
          (do
            v ← lib p.read_i64
            done (record x {
              this = record x.this { client_seq_no = v };
              isset_client_seq_no = true;
            }))
          x
      else if nat_eqb id 3
      then expect p type t_i64
          (do
            v ← lib p.read_i64
            done (record x {
              this = record x.this { server_seq_no = v };
              isset_server_seq_no = true;
            }))
          x
      else ignore p type x

  -- `throw TProtocolException(INVALID_DATA)` where a required field is missing
  unfoldable pub require : Bool → Read (Unit {0})
  require isset s =
      if isset then ok (tt, s) else fault (thrown (codes "TProtocolException: Invalid data"))

  unfoldable pub read_sequence_id : SequenceId → Read SequenceId
  unfolding require sequence_field
  read_sequence_id this = do
    x ← read_struct p sequence_field (record {
      this = this;
      isset_client_id = false;
      isset_client_seq_no = false;
      isset_server_seq_no = false;
    })
    require x.isset_client_id
    require x.isset_client_seq_no
    require x.isset_server_seq_no
    done x.this

  -- the fields of `write`
  unfoldable pub sequence_fields : SequenceId → Text
  sequence_fields x =
      write_field p (codes "client_id") t_i64 1 (p.write_i64 x.client_id)
      ++ (write_field p (codes "client_seq_no") t_i64 2 (p.write_i64 x.client_seq_no)
          ++ (write_field p (codes "server_seq_no") t_i64 3 (p.write_i64 x.server_seq_no)
              ++ p.write_field_stop))

  unfoldable pub write_sequence_id : SequenceId → Text
  unfolding sequence_fields
  write_sequence_id x = write_struct p (codes "sequence_id") (sequence_fields x)

abbrev pub FitsId : SequenceId → Type 0
FitsId x = (x.client_id < 2 ^ 64) × (x.client_seq_no < 2 ^ 64) × (x.server_seq_no < 2 ^ 64)

module _ (p : Protocol) (good : IsFaithful p) where
  pub fields-Loops :
      (x : SequenceRead) (y : SequenceId)
      → FitsId y
      → Loops p good (sequence_field p) x (sequence_fields p y) (record {
        this = y;
        isset_client_id = true;
        isset_client_seq_no = true;
        isset_server_seq_no = true;
      })
  unfolding sequence_field sequence_fields
  fields-Loops x y (h0, h1, h2) =
      let field = sequence_field p in
      let one : ℕ → SequenceRead =
        λ v. record x { this = record x.this { client_id = v }; isset_client_id = true } in
      let a = one y.client_id in
      let two : ℕ → SequenceRead =
        λ v. record a { this = record a.this { client_seq_no = v }; isset_client_seq_no = true } in
      let b = two y.client_seq_no in
      let three : ℕ → SequenceRead =
        λ v. record b { this = record b.this { server_seq_no = v }; isset_server_seq_no = true } in
      let c = three y.server_seq_no in
      Loops-i64 p good field (codes "client_id") 1 x one y.client_id _ c (omega arith) refl h0 (
        Loops-i64 p good field (codes "client_seq_no") 2 a two y.client_seq_no _ c (omega arith)
          refl h1
          (Loops-i64 p good field (codes "server_seq_no") 3 b three y.server_seq_no _ c
            (omega arith) refl h2 (Loops-stop p good field c)))

  pub sequence_id-Parses :
      (x y : SequenceId) → FitsId y → Parses (read_sequence_id p x) (write_sequence_id p y) y
  unfolding read_sequence_id write_sequence_id
  sequence_id-Parses x y h rest =
      let first : SequenceRead = record {
        this = x;
        isset_client_id = false;
        isset_client_seq_no = false;
        isset_server_seq_no = false;
      } in
      >>=-ok (read_struct p (sequence_field p) first)
        (λ z.
          require p z.isset_client_id
          >> (require p z.isset_client_seq_no >> (require p z.isset_server_seq_no >> done z.this)))
        (write_sequence_id p y ++ rest) rest _
        (struct-Parses p good (sequence_field p) (codes "sequence_id") first _ _
          (fields-Loops first y h) rest)

  -- a field that is a sequence id
  pub Loops-sequence_id :
      {A : Type 0} (field : ℕ → ℕ → A → Read A) (name : Text) (id : ℕ) (x : A) (old : SequenceId)
      (put : SequenceId → A) (v : SequenceId) (bytes : Text) (y : A)
      → id < 2 ^ 15
      → field t_struct id x ≡ (read_sequence_id p old >>= λ w. done (put w))
      → FitsId v
      → Loops p good field (put v) bytes y
      → Loops p good field x (write_field p name t_struct id (write_sequence_id p v) ++ bytes) y
  Loops-sequence_id field name id x old put v bytes y h e fits =
      Loops-value p good field name t_struct id x (read_sequence_id p old) put
        (write_sequence_id p v) v bytes y (omega arith) e (sequence_id-Parses old v fits)
