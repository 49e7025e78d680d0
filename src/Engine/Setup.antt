-- ===== src/Engine/Setup.antt =====
-- proxy/src/encryption_engine.cpp: the constructors.
use pancake.Base.Tests.{[], ℕ, true, ◌≤◌, ◌<◌, ◌≡◌, refl, some, arith, leb}
use pancake.Base.Lists.{length, All}
use pancake.Base.Text.{Text}
use pancake.Base.Run.{Returns}
use pancake.Engine.Openssl.{Openssl}
use pancake.Engine.Cipher.{encrypt, decrypt}
use pancake.Engine.Mac.{make_keys, EncryptionEngine, encryption_engine, copy_engine, digest_name}
use pancake.Util.{Rng, rand_str, rand_str_digits}

-- The digest has from 16 to 64 bytes, and random bytes and keys can be had.
pub record IsKeyed (o : Openssl) : Type 0 where
  pub named : (size : ℕ) × (o.digest_by_name digest_name ≡ some size) × (16 ≤ size) × (size ≤ 64)
  pub bytes : (n : ℕ) → (b : Text) × (o.rand_bytes n ≡ some b)
  pub keys : (i : ℕ) (b : Text) → (k : o.Pkey) × (o.new_mac_key i b ≡ some k)

-- decimal digits
abbrev pub Digits : Text → Type 0
Digits t = All (λ c. (48 ≤ c) × (c < 58)) t

module _ (o : Openssl) (works : IsKeyed o) where
  keys-made : Returns (make_keys o) λ _. Unit {0}
  unfolding make_keys
  keys-made =
      let (size, named, low, high) = works.named in
      let (hkey, drawn) = works.bytes size in
      let (skey, signing) = works.keys 0 hkey in
      let (vkey, verifying) = works.keys 1 hkey in
      let large : leb 16 size ≡ true = ground (arith, low) in
      let small : leb size 64 ≡ true = ground (arith, high) in
      ((skey, vkey), rw (named, large, small, drawn, signing, verifying) refl, tt)

  -- If keys can be made, the constructor ends normally, with a key of 32 and a vector of 16
  -- decimal digits, whatever the random numbers are. A copy can then be made, and it encrypts
  -- and decrypts as the original does.
  pub encryption_engine-Digits :
      (g : Rng)
      → Returns (encryption_engine o g) λ (e, g').
        (length e.encryption_key ≡ 32)
        × Digits e.encryption_key
        × (length e.iv ≡ 16)
        × Digits e.iv
        × Returns (copy_engine o e) λ copy.
          (t : Text)
          → (encrypt o copy.encryption_key copy.iv t ≡ encrypt o e.encryption_key e.iv t)
            × (decrypt o copy.encryption_key copy.iv t ≡ decrypt o e.encryption_key e.iv t)
  unfolding encryption_engine copy_engine
  encryption_engine-Digits g =
      let (pair, made, _) = keys-made in
      let key = rand_str 32 g in
      let vector = rand_str 16 key.1 in
      let e : EncryptionEngine o = record {
        encryption_string = key.0;
        iv_string = vector.0;
        encryption_key = key.0;
        iv = vector.0;
        skey = pair.0;
        vkey = pair.1;
      } in
      (
        (e, vector.1),
        rw made refl,
        (
          (rand_str_digits 32 g).0,
          (rand_str_digits 32 g).1,
          (rand_str_digits 16 key.1).0,
          (rand_str_digits 16 key.1).1,
          (record e { encryption_string = []; iv_string = [] }, rw made refl, λ t. (refl, refl)),
        ),
      )
