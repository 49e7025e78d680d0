-- ===== src/Engine/Mac.antt =====
-- proxy/src/encryption_engine.cpp: `make_keys`, `sign_it`, `hmac_it`, `verify_it`, `hmac` and the
-- constructors. A failed `assert` stops the program, so the `break` that follows each is never taken.
use pancake.Base.Tests.{[], ℕ, Option, none, some, if◌then◌else◌, ltb, leb, nat_eqb}
use pancake.Base.Lists.{length, take}
use pancake.Base.Text.{Text, codes, text_eqb}
use pancake.Base.Run.{Run, ok, fault, assertion, ◌>>=◌, ◌>>◌, guard}
use pancake.Engine.Openssl.{Openssl}
use pancake.Util.{Rng, rand_str}

-- `EVP_MAX_MD_SIZE`
abbrev pub max_md_size : ℕ
max_md_size = 64

-- `hn`
abbrev pub digest_name : Text
digest_name = codes "SHA256"

-- the value that an `assert` asks for
abbrev pub asserted {ℓ} : {A : Type ℓ} → Option A → Run A
asserted none = fault assertion
asserted (some a) = ok a

module _ (o : Openssl) where
  -- the MAC of a message, as `sign_it` and `hmac_it` compute it; it returns 0 with the bytes
  unfoldable pub mac_it : Text → Text → o.Pkey → Run (ℕ × Text)
  mac_it name msg pkey = do
    guard (ltb 0 (length msg)) assertion
    guard o.md_ctx_create assertion
    md ← asserted (o.digest_by_name name)
    guard o.digest_init assertion
    guard (o.digest_sign_init pkey) assertion
    guard (o.digest_sign_update pkey msg) assertion
    req ← asserted (o.digest_sign_size pkey msg)
    guard (ltb 0 req) assertion
    guard (o.malloc req) assertion
    mac ← asserted (o.digest_sign_final pkey msg)
    guard (nat_eqb req (length mac)) assertion
    ok (0, mac)

  unfoldable pub sign_it : Text → o.Pkey → Run (ℕ × Text)
  unfolding mac_it
  sign_it = mac_it digest_name

  unfoldable pub hmac_it : Text → o.Pkey → Run (ℕ × Text)
  unfolding mac_it
  hmac_it = mac_it (codes "SHA256")

  -- It compares no more bytes than the signature has; 0 is success.
  unfoldable pub verify_it : Text → Text → o.Pkey → Run ℕ
  verify_it msg sig pkey = do
    guard (ltb 0 (length msg)) assertion
    guard (ltb 0 (length sig)) assertion
    guard o.md_ctx_create assertion
    md ← asserted (o.digest_by_name digest_name)
    guard o.digest_init assertion
    guard (o.digest_sign_init pkey) assertion
    guard (o.digest_sign_update pkey msg) assertion
    buff ← asserted (o.digest_sign_final pkey msg)
    guard (ltb 0 (length buff)) assertion
    let m = if ltb (length sig) (length buff) then length sig else length buff
    ok (if text_eqb (take m sig) (take m buff) then 0 else 1)

  -- the keys to sign and to verify with, of the same random bytes
  unfoldable pub make_keys : Run (o.Pkey × o.Pkey)
  make_keys = do
    size ← asserted (o.digest_by_name digest_name)
    guard (leb 16 size) assertion
    guard (leb size max_md_size) assertion
    hkey ← asserted (o.rand_bytes size)
    skey ← asserted (o.new_mac_key 0 hkey)
    vkey ← asserted (o.new_mac_key 1 hkey)
    ok (skey, vkey)

  pub record EncryptionEngine : Type 0 where
    -- the strings that it owns, and what its pointers point to
    pub encryption_string : Text
    pub iv_string : Text
    pub encryption_key : Text
    pub iv : Text
    pub skey : o.Pkey
    pub vkey : o.Pkey

  -- the constructor, over the random numbers that are left
  unfoldable pub encryption_engine : Rng → Run (EncryptionEngine × Rng)
  unfolding make_keys
  encryption_engine g = do
    let key = rand_str 32 g
    let vector = rand_str 16 key.1
    (skey, vkey) ← make_keys
    ok (
      record {
        encryption_string = key.0;
        iv_string = vector.0;
        encryption_key = key.0;
        iv = vector.0;
        skey = skey;
        vkey = vkey;
      },
      vector.1,
    )

  -- The copy constructor: it points into the strings of the other, has none of its own, and makes new
  -- keys for the MAC.
  unfoldable pub copy_engine : EncryptionEngine → Run EncryptionEngine
  unfolding make_keys
  copy_engine other = do
    (skey, vkey) ← make_keys
    ok (record {
      encryption_string = [];
      iv_string = [];
      encryption_key = other.encryption_string;
      iv = other.iv_string;
      skey = skey;
      vkey = vkey;
    })

  -- `hmac`, which looks at the MAC and not at the result
  unfoldable pub hmac : Text → EncryptionEngine → Run Text
  unfolding hmac_it
  hmac key e = do (res, val) ← hmac_it key e.skey; ok val
