-- ===== src/Engine/Cipher.antt =====
-- proxy/src/encryption_engine.cpp: `encrypt` and `decrypt`, on buffers and on strings. A write past
-- the end of an array is the fault `out_of_range`.
use pancake.Base.Tests.{ℕ, Option, none, some, [], ◌∷◌, ◌++◌, if◌then◌else◌, ltb, leb, nat_eqb}
use pancake.Base.Lists.{length}
use pancake.Base.Text.{Text}
use pancake.Base.Run.{Run, ok, fault, aborted, assertion, out_of_range, ◌>>=◌, ◌>>◌, guard}
use pancake.Engine.Openssl.{Openssl}

-- `unsigned char [4096]`
abbrev pub buffer_size : ℕ
buffer_size = 4096

-- `std::find(text, text + text_len, '\0')`
unfoldable pub until_nul : Text → Text
until_nul [] = []
until_nul (c ∷ t) = if nat_eqb c 0 then [] else c ∷ until_nul t

-- what a call wrote, or `handle_errors()`, which aborts
abbrev pub or_abort : Option Text → Run Text
or_abort none = fault aborted
or_abort (some t) = ok t

module _ (o : Openssl) where
  -- the bytes that `encrypt` writes to a buffer of `capacity` bytes
  unfoldable pub encrypt_buffer : ℕ → Text → Text → Text → Run Text
  encrypt_buffer capacity plaintext key iv = do
    guard o.cipher_ctx_new aborted
    guard (o.encrypt_init key iv) aborted
    first ← or_abort (o.encrypt_update key iv plaintext)
    guard (leb (length first) capacity) out_of_range
    last ← or_abort (o.encrypt_final key iv plaintext)
    guard (leb (length (first ++ last)) capacity) out_of_range
    ok (first ++ last)

  unfoldable pub decrypt_buffer : ℕ → Text → Text → Text → Run Text
  decrypt_buffer capacity ciphertext key iv = do
    guard o.cipher_ctx_new aborted
    guard (o.decrypt_init key iv) aborted
    first ← or_abort (o.decrypt_update key iv ciphertext)
    guard (leb (length first) capacity) out_of_range
    last ← or_abort (o.decrypt_final key iv ciphertext)
    guard (leb (length (first ++ last)) capacity) out_of_range
    ok (first ++ last)

  -- on strings, under the key and the vector of the engine
  unfoldable pub encrypt : Text → Text → Text → Run Text
  unfolding encrypt_buffer
  encrypt key iv plain_text = do
    cipher_text ← encrypt_buffer buffer_size plain_text key iv
    guard (ltb 0 (length cipher_text)) assertion
    ok cipher_text

  unfoldable pub decrypt : Text → Text → Text → Run Text
  unfolding decrypt_buffer until_nul
  decrypt key iv cipher_text = do
    text ← decrypt_buffer buffer_size cipher_text key iv
    guard (ltb 0 (length text)) assertion
    ok (until_nul text)
