-- ===== src/Engine/Carries.antt =====
-- proxy/src/encryption_engine.cpp: what the cipher carries. The engine meets the interface that the
-- proxy relies on.
use pancake.Base.Tests.{
  ℕ, ◌+◌, ◌*◌, ◌/◌, ◌≤◌, ◌<◌, ◌≡◌, refl, ap, ◌∙◌, ◌≢◌, some, [], ◌∷◌, ◌++◌, arith, if◌then◌else◌,
  ltb, leb,
}
use pancake.Base.Lists.{length, length-append, All}
use pancake.Base.Text.{Text}
use pancake.Base.Run.{Run, ok, fault, assertion, out_of_range, ◌>>=◌, ◌>>◌, guard, Returns}
use pancake.Engine.{Engine}
use pancake.Engine.Openssl.{Openssl, IsCipher}
use pancake.Engine.Cipher.{until_nul, buffer_size, encrypt_buffer, decrypt_buffer, encrypt, decrypt}

-- the length of a text with its padding
abbrev pub padded : Text → ℕ
padded t = (length t / 16 + 1) * 16

pub until_nul-plain : (t : Text) → All (λ c. c ≢ 0) t → until_nul t ≡ t
unfolding until_nul
until_nul-plain [] h = refl
until_nul-plain (c ∷ t) (h, hs) = ground (arith, until_nul-plain t hs)

-- The tests of both writes against the buffer are the test of the second.
pieces :
    (capacity : ℕ) (u v : Text)
    → (guard (leb (length u) capacity) out_of_range
        >> (guard (leb (length (u ++ v)) capacity) out_of_range >> ok (u ++ v)))
      ≡ (if leb (length (u ++ v)) capacity then ok (u ++ v) else fault out_of_range)
pieces capacity u v = ground (arith, length-append u v)

module _ (o : Openssl) (works : IsCipher o) (key iv : Text) where
  encrypt_buffer-pieces :
      (capacity : ℕ) (t u v : Text)
      → o.encrypt_update key iv t ≡ some u
      → o.encrypt_final key iv t ≡ some v
      → encrypt_buffer o capacity t key iv
        ≡ (if leb (length (u ++ v)) capacity then ok (u ++ v) else fault out_of_range)
  unfolding encrypt_buffer
  encrypt_buffer-pieces capacity t u v eu ev =
      rw (works.ctx, (works.init key iv).0, eu, ev, encrypt_buffer) (pieces capacity u v)

  decrypt_buffer-pieces :
      (capacity : ℕ) (c a b : Text)
      → o.decrypt_update key iv c ≡ some a
      → o.decrypt_final key iv c ≡ some b
      → decrypt_buffer o capacity c key iv
        ≡ (if leb (length (a ++ b)) capacity then ok (a ++ b) else fault out_of_range)
  unfolding decrypt_buffer
  decrypt_buffer-pieces capacity c a b ea eb =
      rw (works.ctx, (works.init key iv).1, ea, eb, decrypt_buffer) (pieces capacity a b)

  abbrev finish : Run Text → Run Text
  finish m = m >>= λ c. guard (ltb 0 (length c)) assertion >> ok c

  abbrev cut : Run Text → Run Text
  cut m = m >>= λ t. guard (ltb 0 (length t)) assertion >> ok (until_nul t)

  encrypted :
      (c : Text)
      → finish (if leb (length c) buffer_size then ok c else fault out_of_range) ≡ (
          if leb (length c) buffer_size
          then (if ltb 0 (length c) then ok c else fault assertion)
          else fault out_of_range)
  encrypted c = ground arith

  decrypted :
      (t : Text)
      → length t ≤ buffer_size
      → cut (if leb (length t) buffer_size then ok t else fault out_of_range)
        ≡ (if ltb 0 (length t) then ok (until_nul t) else fault assertion)
  decrypted t h = ground arith

  -- If the cipher's calls succeed, fill up the last block and undo each other, then a text
  -- whose padded length is at most 4096 is encrypted to that many bytes. Decrypted, they are
  -- the text up to its first zero byte; for the empty text an assertion fails.
  pub encrypt-fits :
      (t : Text)
      → padded t ≤ buffer_size
      → Returns (encrypt o key iv t) λ c.
        (length c ≡ padded t)
        × (decrypt o key iv c ≡ (if ltb 0 (length t) then ok (until_nul t) else fault assertion))
  unfolding encrypt decrypt
  encrypt-fits t h =
      let (u, v, eu, ev, size) = works.encrypts key iv t in
      let (a, b, ea, eb, joined) = works.decrypts key iv t u v eu ev in
      (
        u ++ v,
        ap finish (encrypt_buffer-pieces buffer_size t u v eu ev)
            ∙ encrypted (u ++ v)
            ∙ ground (arith, size, h),
        (
          size,
          ap cut (decrypt_buffer-pieces buffer_size (u ++ v) a b ea eb)
              ∙ rw joined (decrypted t (omega arith)),
        ),
      )

  -- If the cipher's calls succeed and fill up the last block, encryption of a text whose padded
  -- length exceeds 4096 writes past the end of its buffer.
  pub encrypt-overflow :
      (t : Text) → buffer_size < padded t → encrypt o key iv t ≡ fault out_of_range
  unfolding encrypt
  encrypt-overflow t h =
      let (u, v, eu, ev, size) = works.encrypts key iv t in
      ap finish (encrypt_buffer-pieces buffer_size t u v eu ev)
      ∙ encrypted (u ++ v)
      ∙ ground (arith, size, h)

  -- a text that comes back whole
  abbrev pub IsPlain : Text → Type 0
  IsPlain t = (0 < length t) × All (λ c. c ≢ 0) t × (padded t ≤ buffer_size)

  pub decrypt-encrypt :
      (t : Text) → IsPlain t → Returns (encrypt o key iv t) λ c. decrypt o key iv c ≡ ok t
  decrypt-encrypt t (some_byte, plain, fits) =
      let (c, e, (size, d)) = encrypt-fits t fits in
      (c, e, d ∙ ground (arith, until_nul-plain t plain))

  -- The engine as the proxy uses it.
  abbrev pub openssl_engine : Engine
  openssl_engine = record {
    encrypt = encrypt o key iv;
    decrypt = decrypt o key iv;
    IsPlain = IsPlain;
    nonempty = λ h. omega (arith, h.0);
    decrypt-encrypt = decrypt-encrypt;
  }
