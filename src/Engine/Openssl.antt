-- ===== src/Engine/Openssl.antt =====
-- OpenSSL as proxy/src/encryption_engine.cpp calls it: what each call returns or writes, `none` or
-- `false` where it fails. A context is known by the key, the vector and the bytes given to it so far.
use pancake.Base.Tests.{ℕ, ◌+◌, ◌*◌, ◌/◌, ◌<◌, ◌≤◌, ◌≡◌, Bool, true, Option, some, ◌++◌}
use pancake.Base.Lists.{length}
use pancake.Base.Text.{Text}

pub record Openssl : Type 1 where
  -- `EVP_PKEY`
  pub Pkey : Type 0
  -- `EVP_CIPHER_CTX_new` returns a context
  pub cipher_ctx_new : Bool
  -- of the key and the vector, for `EVP_aes_256_cbc`
  pub encrypt_init : Text → Text → Bool
  pub encrypt_update : Text → Text → Text → Option Text
  pub encrypt_final : Text → Text → Text → Option Text
  pub decrypt_init : Text → Text → Bool
  pub decrypt_update : Text → Text → Text → Option Text
  pub decrypt_final : Text → Text → Text → Option Text
  -- `EVP_MD_CTX_create` returns a context
  pub md_ctx_create : Bool
  -- the size of the digest of a name
  pub digest_by_name : Text → Option ℕ
  pub digest_init : Bool
  pub digest_sign_init : Pkey → Bool
  pub digest_sign_update : Pkey → Text → Bool
  -- `EVP_DigestSignFinal`, asked for the size, and for the bytes
  pub digest_sign_size : Pkey → Text → Option ℕ
  pub digest_sign_final : Pkey → Text → Option Text
  pub malloc : ℕ → Bool
  pub rand_bytes : ℕ → Option Text
  -- `EVP_PKEY_new_mac_key` for an HMAC; the number tells its two calls apart
  pub new_mac_key : ℕ → Text → Option Pkey

-- The cipher calls succeed on whole texts; padding fills up the last block of 16 bytes, of which
-- there is always one; what was encrypted is decrypted.
pub record IsCipher (o : Openssl) : Type 0 where
  pub ctx : o.cipher_ctx_new ≡ true
  pub init : (key iv : Text) → (o.encrypt_init key iv ≡ true) × (o.decrypt_init key iv ≡ true)
  pub encrypts :
      (key iv t : Text)
      → (u : Text) × (v : Text) × (o.encrypt_update key iv t ≡ some u)
        × (o.encrypt_final key iv t ≡ some v)
        × (length (u ++ v) ≡ (length t / 16 + 1) * 16)
  pub decrypts :
      (key iv t u v : Text)
      → o.encrypt_update key iv t ≡ some u
      → o.encrypt_final key iv t ≡ some v
      → (a : Text) × (b : Text) × (o.decrypt_update key iv (u ++ v) ≡ some a)
        × (o.decrypt_final key iv (u ++ v) ≡ some b)
        × (a ++ b ≡ t)

-- The calls of the HMAC succeed; the bytes are as many as was said before, which `EVP_MAX_MD_SIZE`
-- bounds.
pub record IsMac (o : Openssl) : Type 0 where
  pub ctx : o.md_ctx_create ≡ true
  pub named : (name : Text) → (size : ℕ) × (o.digest_by_name name ≡ some size)
  pub init : o.digest_init ≡ true
  pub sign_init : (key : o.Pkey) → o.digest_sign_init key ≡ true
  pub update : (key : o.Pkey) (msg : Text) → o.digest_sign_update key msg ≡ true
  pub final :
      (key : o.Pkey) (msg : Text)
      → (mac : Text) × (o.digest_sign_final key msg ≡ some mac)
        × (o.digest_sign_size key msg ≡ some (length mac))
        × (0 < length mac)
        × (length mac ≤ 64)
  pub malloc : (n : ℕ) → o.malloc n ≡ true
