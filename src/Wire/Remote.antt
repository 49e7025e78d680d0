-- ===== src/Wire/Remote.antt =====
-- service/src/thrift.cpp: a client's call through the processor is the call of the handler.
pub mod Calls
pub mod Oneway
use pancake.Base.Tests.{ℕ, ◌^◌, ◌<◌, ◌≡◌, refl, ap, ◌∙◌, ◌++◌, arith}
use mathlib.Core.List.{append_assoc}
use pancake.Base.Lists.{length}
use pancake.Base.Text.{Text, text_eqb, text_eqb_iff}
use pancake.Base.Run.{
  Run, ok, fault, out_of_range, assertion, division_by_zero, aborted, waiting, no_return, exhausted,
  thrown,
}
use pancake.Wire.Protocol.{Protocol, IsFaithful, t_call, t_reply, t_exception}
use pancake.Wire.Reading.{Read, ◌>>◌, done, lib}
use pancake.Wire.Parsing.{Parses, >>=-Parses, >>=-done, >>=-ok, lib-ok}
use pancake.Wire.Structs.{FitsText}
use pancake.Wire.Client.{recv_message, skip_unless}
use pancake.Wire.Processor.{
  Iface, write_message, read_call, reply, silent, process_call, process_oneway, dispatch_call,
}

-- The protocol can carry the outcome of a method: its value, or the text of its exception.
abbrev pub Carried : {R : Type 0} → (R → Type 0) → Run R → Type 0
Carried Fits (ok v) = Fits v
Carried Fits (fault (thrown what)) = FitsText what
Carried Fits (fault out_of_range) = ⊥
Carried Fits (fault assertion) = ⊥
Carried Fits (fault division_by_zero) = ⊥
Carried Fits (fault aborted) = ⊥
Carried Fits (fault waiting) = ⊥
Carried Fits (fault no_return) = ⊥
Carried Fits (fault exhausted) = ⊥

-- the outcome of a call at the client, with the rest of its input
abbrev pub deliver : {R : Type 0} → Run R → Text → Run (R × Text)
deliver (ok v) rest = ok (v, rest)
deliver (fault e) rest = fault e

module _ (p : Protocol) where
  -- What `send` wrote after the header of the message, the processor of `iface` handles: the object
  -- is then as the method `result` leaves it, and `recv` ends as the method ended.
  abbrev pub Answered :
      {S R : Type 0} → Iface S → Text → Text → Read R → S → S × Run R → Text → Text → Type 0
  Answered iface name send recv s result rest rest' =
      (body : Text) × (out : Text) × (send ≡ p.write_message_begin name t_call 0 ++ body)
      × (dispatch_call p iface name 0 s (body ++ rest) ≡ ok (result.0, out, rest))
      × (recv (out ++ rest') ≡ deliver result.1 rest')

module _ (p : Protocol) (good : IsFaithful p) where
  call-Parses :
      {A : Type 0} (read_args : Read A) (body : Text) (a : A)
      → Parses read_args body a
      → Parses (read_call p read_args) (body ++ p.write_message_end) a
  unfolding read_call
  call-Parses read_args body a h =
      >>=-Parses read_args (λ b. lib p.read_message_end >> done b) body p.write_message_end a a h
        (>>=-done (lib p.read_message_end) (λ _. a) p.write_message_end tt
          (λ rest. lib-ok p.read_message_end _ _ (good.message_end rest)))

  pub process_call-reply :
      {S A R : Type 0} (name : Text) (read_args : Read A) (run : A → S → S × Run R)
      (write_result : R → Text) (seqid : ℕ) (s : S) (body rest : Text) (a : A)
      → Parses read_args body a
      → process_call p name read_args run write_result seqid s
          ((body ++ p.write_message_end) ++ rest)
        ≡ reply p name seqid write_result rest (run a s).0 (run a s).1
  unfolding process_call
  process_call-reply name read_args run write_result seqid s body rest a h =
      rw (call-Parses read_args body a h rest, process_call) refl

  pub process_oneway-silent :
      {S A : Type 0} (read_args : Read A) (run : A → S → S × Run (Unit {0})) (s : S)
      (body rest : Text) (a : A)
      → Parses read_args body a
      → process_oneway p read_args run s ((body ++ p.write_message_end) ++ rest)
        ≡ silent p rest (run a s).0 (run a s).1
  unfolding process_oneway
  process_oneway-silent read_args run s body rest a h =
      rw (call-Parses read_args body a h rest, process_oneway) refl

  expected : (name s : Text) → skip_unless p (text_eqb name name) s ≡ ok (tt, s)
  unfolding skip_unless
  expected name s = rw ((text_eqb_iff name name).1 refl) refl

  ended : {A : Type 0} (x : A) → Parses (lib p.read_message_end >> done x) p.write_message_end x
  ended x =
      >>=-done (lib p.read_message_end) (λ _. x) p.write_message_end tt
        (λ rest. lib-ok p.read_message_end _ _ (good.message_end rest))

  -- A reply under the expected name is read to its end.
  pub recv-reply :
      {A : Type 0} (name : Text) (read_presult : Read A) (body : Text) (x : A)
      → length name < 2 ^ 31
      → Parses read_presult body x
      → Parses (recv_message p name read_presult) (write_message p name t_reply 0 body) x
  unfolding recv_message write_message
  recv-reply name read_presult body x short h rest =
      let tail = body ++ (p.write_message_end ++ rest) in
      ap (recv_message p name read_presult) (simp append_assoc)
      ∙ >>=-ok (lib p.read_message_begin) _ (p.write_message_begin name t_reply 0 ++ tail) tail
          (name, 2, 0)
          (lib-ok p.read_message_begin _ _
            (good.message_begin name 2 0 tail short (omega arith) (omega arith)))
      ∙ >>=-ok (skip_unless p (text_eqb name name)) _ tail tail tt (expected name tail)
      ∙ >>=-ok read_presult _ tail (p.write_message_end ++ rest) x (h (p.write_message_end ++ rest))
      ∙ ended x rest

  -- An exception is thrown again at the client, whatever name it was sent under.
  pub recv-failure :
      {A : Type 0} (sent name : Text) (code : ℕ) (read_presult : Read A) (what rest : Text)
      → length sent < 2 ^ 31
      → code < 2 ^ 32
      → FitsText what
      → recv_message p name read_presult
          (write_message p sent t_exception 0 (p.write_exception code what) ++ rest)
        ≡ fault (thrown what)
  unfolding recv_message write_message
  recv-failure sent name code read_presult what rest short small h =
      let tail = p.write_exception code what ++ (p.write_message_end ++ rest) in
      ap (recv_message p name read_presult) (simp append_assoc)
      ∙ >>=-ok (lib p.read_message_begin) _ (p.write_message_begin sent t_exception 0 ++ tail) tail
          (sent, 3, 0)
          (lib-ok p.read_message_begin _ _
            (good.message_begin sent 3 0 tail short (omega arith) (omega arith)))
      ∙ >>=-ok (lib p.read_exception) _ tail (p.write_message_end ++ rest) (code, what)
          (lib-ok p.read_exception _ _ (good.exception code what _ small h))
      ∙ >>=-ok (lib p.read_message_end) _ (p.write_message_end ++ rest) rest tt
          (lib-ok p.read_message_end _ _ (good.message_end rest))

  pub recv-exception :
      {A : Type 0} (name : Text) (read_presult : Read A) (what rest : Text)
      → length name < 2 ^ 31
      → FitsText what
      → recv_message p name read_presult
          (write_message p name t_exception 0 (p.write_exception 0 what) ++ rest)
        ≡ fault (thrown what)
  recv-exception name read_presult what rest short h =
      recv-failure name name 0 read_presult what rest short (omega arith) h

  -- The two ends of a call, whatever its outcome.
  reply-deliver :
      {S R : Type 0} (Fits : R → Type 0) (name : Text) (write_result : R → Text) (recv : Read R)
      → ((v : R) → Fits v → Parses recv (write_message p name t_reply 0 (write_result v)) v)
      → ((what rest : Text)
          → FitsText what
          → recv (write_message p name t_exception 0 (p.write_exception 0 what) ++ rest)
            ≡ fault (thrown what))
      → (s : S) (o : Run R) (rest rest' : Text) → Carried Fits o
      → (out : Text) × (reply p name 0 write_result rest s o ≡ ok (s, out, rest))
        × (recv (out ++ rest') ≡ deliver o rest')
  unfolding reply
  reply-deliver Fits name write_result recv h k s (ok v) rest rest' c = (_, refl, h v c rest')
  reply-deliver Fits name write_result recv h k s (fault (thrown what)) rest rest' c =
      (_, refl, k what rest' c)
  reply-deliver Fits name write_result recv h k s (fault out_of_range) rest rest' c = absurd c
  reply-deliver Fits name write_result recv h k s (fault assertion) rest rest' c = absurd c
  reply-deliver Fits name write_result recv h k s (fault division_by_zero) rest rest' c = absurd c
  reply-deliver Fits name write_result recv h k s (fault aborted) rest rest' c = absurd c
  reply-deliver Fits name write_result recv h k s (fault waiting) rest rest' c = absurd c
  reply-deliver Fits name write_result recv h k s (fault no_return) rest rest' c = absurd c
  reply-deliver Fits name write_result recv h k s (fault exhausted) rest rest' c = absurd c

  -- A call that is answered, from the bytes of its arguments to the client's end.
  pub process_call-deliver :
      {S A R : Type 0} (Fits : R → Type 0) (name : Text) (read_args : Read A)
      (run : A → S → S × Run R) (write_result : R → Text) (recv : Read R) (s : S) (body : Text)
      (a : A)
      → Parses read_args body a
      → ((v : R) → Fits v → Parses recv (write_message p name t_reply 0 (write_result v)) v)
      → ((what rest : Text)
          → FitsText what
          → recv (write_message p name t_exception 0 (p.write_exception 0 what) ++ rest)
            ≡ fault (thrown what))
      → (rest rest' : Text) → Carried Fits (run a s).1
      → (out : Text) × (process_call p name read_args run write_result 0 s
            ((body ++ p.write_message_end) ++ rest)
          ≡ ok ((run a s).0, out, rest))
        × (recv (out ++ rest') ≡ deliver (run a s).1 rest')
  process_call-deliver Fits name read_args run write_result recv s body a args h k rest rest' c =
      let (out, e, r) =
        reply-deliver Fits name write_result recv h k (run a s).0 (run a s).1 rest rest' c in
      (out, process_call-reply name read_args run write_result 0 s body rest a args ∙ e, r)
