-- ===== src/Engine/Verify.antt =====
-- proxy/src/encryption_engine.cpp: what `verify_it` accepts.
use pancake.Base.Tests.{
  ℕ, ◌<◌, ◌≡◌, refl, sym, ap, ◌∙◌, ◌↔◌, some, [], ◌∷◌, ◌++◌, arith, if◌then◌else◌, ltb, Bool-cases,
  inl, inr,
}
use mathlib.Core.List.{append-nil}
use pancake.Base.Lists.{length, length-append, take}
use pancake.Base.Text.{Text, text_eqb, text_eqb_iff}
use pancake.Base.Run.{ok, Returns, ok_inj}
use pancake.Engine.Openssl.{Openssl, IsMac}
use pancake.Engine.Mac.{mac_it, sign_it, verify_it, digest_name}

-- `m`, the number of bytes that are compared
abbrev pub shorter : Text → Text → ℕ
shorter sig mac = if ltb (length sig) (length mac) then length sig else length mac

take_all : (a : Text) → take (length a) a ≡ a
take_all [] = refl
take_all (c ∷ a) = ap (λ (t : Text). c ∷ t) (take_all a)

take-append : (a b : Text) → take (length a) (a ++ b) ≡ a
take-append [] b = refl
take-append (c ∷ a) b = ap (λ (t : Text). c ∷ t) (take-append a b)

take-prefix : (a b : Text) → take (shorter a (a ++ b)) a ≡ take (shorter a (a ++ b)) (a ++ b)
take-prefix a [] = rw (append-nil a) refl
take-prefix a (c ∷ b) =
    let short : shorter a (a ++ (c ∷ b)) ≡ length a = ground (arith, length-append a (c ∷ b)) in
    rw short (take_all a ∙ sym (take-append a (c ∷ b)))

module _ (o : Openssl) (works : IsMac o) where
  signs :
      (name msg : Text) (pkey : o.Pkey)
      → 0 < length msg
      → Returns
          (mac_it o name msg pkey)
          λ (rc, mac). (rc ≡ 0) × (o.digest_sign_final pkey msg ≡ some mac) × (0 < length mac)
  unfolding mac_it
  signs name msg pkey h =
      let (size, named) = works.named name in
      let (mac, final, asked, some_byte, short) = works.final pkey msg in
      (
        (0, mac),
        rw
            (
              works.ctx,
              named,
              works.init,
              works.sign_init pkey,
              works.update pkey msg,
              asked,
              works.malloc (length mac),
              final,
            )
            (ground arith),
        (refl, final, some_byte),
      )

  verified :
      (msg sig mac : Text) (pkey : o.Pkey)
      → 0 < length msg
      → 0 < length sig
      → sign_it o msg pkey ≡ ok (0, mac)
      → verify_it o msg sig pkey
        ≡ ok (if text_eqb (take (shorter sig mac) sig) (take (shorter sig mac) mac) then 0 else 1)
  unfolding verify_it sign_it
  verified msg sig mac pkey h h' e =
      let (size, named) = works.named digest_name in
      let (out, made, (zero_rc, final, some_byte)) = signs digest_name msg pkey h in
      let same : out.1 ≡ mac = ap (λ (r : ℕ × Text). r.1) (ok_inj out (0, mac) (sym made ∙ e)) in
      rw (works.ctx, named, works.init, works.sign_init pkey, works.update pkey msg, final)
        (rw same (ground (arith, some_byte, same)))

  -- If the calls of the MAC succeed, message and signature are not empty, and the message is
  -- signed by `mac`, then `verify_it` accepts the signature exactly if it agrees with `mac` in
  -- as many bytes as the shorter of both has.
  pub verify_it-compares :
      (msg sig mac : Text) (pkey : o.Pkey)
      → 0 < length msg
      → 0 < length sig
      → sign_it o msg pkey ≡ ok (0, mac)
      → (verify_it o msg sig pkey ≡ ok 0)
        ↔ (take (shorter sig mac) sig ≡ take (shorter sig mac) mac)
  verify_it-compares msg sig mac pkey h h' e =
      let run = verified msg sig mac pkey h h' e in
      let a : Text = take (shorter sig mac) sig in
      let b : Text = take (shorter sig mac) mac in
      elim (Bool-cases (text_eqb a b)) [
        | inl q ↦ (λ _. (text_eqb_iff a b).0 q, λ _. rw q at run)
        | inr q ↦ (
          λ r.
              let bad : ◌≡◌ {A = ℕ} 0 1 = ok_inj 0 1 (sym r ∙ (rw q at run)) in
              absurd (omega arith),
          λ same. cc ((text_eqb_iff a b).1 same),
        )
      ]

  pub verify_it-prefix :
      (msg sig more : Text) (pkey : o.Pkey)
      → 0 < length msg
      → 0 < length sig
      → sign_it o msg pkey ≡ ok (0, sig ++ more)
      → verify_it o msg sig pkey ≡ ok 0
  verify_it-prefix msg sig more pkey h h' e =
      (verify_it-compares msg sig (sig ++ more) pkey h h' e).1 (take-prefix sig more)
