-- ===== src/Tests/Engines.antt =====
-- The engine over a cipher that only pads, and a MAC of two bytes, the lengths of message and key.
use pancake.Base.Tests.{
  ℕ, zero, suc, ◌-◌, ◌%◌, ◌≡◌, refl, ap, ◌∙◌, ◌↔◌, true, some, [], ◌∷◌, ◌++◌, arith, if◌then◌else◌,
  ltb,
}
use mathlib.Core.List.{append-nil}
use pancake.Base.Lists.{length, length-append, replicate, drop, take}
use pancake.Base.Text.{Text, codes}
use pancake.Base.Run.{ok, fault, assertion, out_of_range, Returns}
use pancake.Engine.Openssl.{Openssl, IsCipher, IsMac}
use pancake.Engine.Cipher.{encrypt, decrypt, until_nul}
use pancake.Engine.Mac.{verify_it, sign_it, encryption_engine, copy_engine}
use pancake.Engine.Carries.{padded, encrypt-fits, encrypt-overflow}
use pancake.Engine.Verify.{verify_it-compares, shorter}
use pancake.Engine.Setup.{IsKeyed, encryption_engine-Digits, Digits}
use pancake.Util.{Rng}

-- the padding stands in front, and begins with its length
abbrev fill : Text → ℕ
fill t = 15 - length t % 16

abbrev pad : Text → Text
pad t = fill t ∷ (replicate (fill t) 0 ++ t)

abbrev strip : Text → Text
strip [] = []
strip (n ∷ c) = drop n c

drop-replicate : (n : ℕ) (t : Text) → drop n (replicate n 0 ++ t) ≡ t
drop-replicate zero t = refl
drop-replicate (suc n) t = drop-replicate n t

length-replicate : (n : ℕ) → length {A = ℕ} (replicate n 0) ≡ n
length-replicate zero = refl
length-replicate (suc n) = omega (arith, length-replicate n)

abbrev fake_openssl : Openssl
fake_openssl = record {
  Pkey = Text;
  cipher_ctx_new = true;
  encrypt_init = λ key iv. true;
  encrypt_update = λ key iv t. some (pad t);
  encrypt_final = λ key iv t. some [];
  decrypt_init = λ key iv. true;
  decrypt_update = λ key iv c. some (strip c);
  decrypt_final = λ key iv c. some [];
  md_ctx_create = true;
  digest_by_name = λ name. some 32;
  digest_init = true;
  digest_sign_init = λ k. true;
  digest_sign_update = λ k m. true;
  digest_sign_size = λ k m. some 2;
  digest_sign_final = λ k m. some (length m ∷ (length k ∷ []));
  malloc = λ n. true;
  rand_bytes = λ n. some (replicate n 7);
  new_mac_key = λ i b. some b;
}

unpadded : (t u v : Text) → some (pad t) ≡ some u → some [] ≡ some v → strip (u ++ v) ++ [] ≡ t
unpadded t u v eu ev =
    let whole : u ++ v ≡ pad t ++ [] = cc in
    append-nil (strip (u ++ v))
    ∙ ap strip whole
    ∙ ap strip (append-nil (pad t))
    ∙ drop-replicate (fill t) t

pub fake-IsCipher : IsCipher fake_openssl
fake-IsCipher = record {
  ctx = refl;
  init = λ key iv. (refl, refl);
  encrypts = λ key iv t. (
    pad t,
    [],
    refl,
    refl,
    omega (
      arith,
      ap length (append-nil (pad t)),
      length-append (replicate (fill t) 0) t,
      length-replicate (fill t),
    ),
  );
  decrypts = λ key iv t u v eu ev. (strip (u ++ v), [], refl, refl, unpadded t u v eu ev);
}

pub fake-IsMac : IsMac fake_openssl
fake-IsMac = record {
  ctx = refl;
  named = λ name. (32, refl);
  init = refl;
  sign_init = λ k. refl;
  update = λ k m. refl;
  final = λ k m. (length m ∷ (length k ∷ []), refl, refl, omega arith, omega arith);
  malloc = λ n. refl;
}

fake-IsKeyed : IsKeyed fake_openssl
fake-IsKeyed = record {
  named = (32, refl, omega arith, omega arith);
  bytes = λ n. (replicate n 7, refl);
  keys = λ i b. (b, refl);
}

encrypt-fits_example : Returns (encrypt fake_openssl [] [] (codes "ab" ++ (0 ∷ codes "c"))) λ c.
    (length c ≡ padded (codes "ab" ++ (0 ∷ codes "c")))
    × (decrypt fake_openssl [] [] c ≡ (
        if ltb 0 (length (codes "ab" ++ (0 ∷ codes "c")))
        then ok (until_nul (codes "ab" ++ (0 ∷ codes "c")))
        else fault assertion))
encrypt-fits_example =
    encrypt-fits fake_openssl fake-IsCipher [] [] (codes "ab" ++ (0 ∷ codes "c")) (omega arith)

encrypt-overflow_example : encrypt fake_openssl [] [] (replicate 4096 65) ≡ fault out_of_range
encrypt-overflow_example =
    encrypt-overflow fake_openssl fake-IsCipher [] [] (replicate 4096 65)
      (omega (arith, length-replicate 4096))

verify_it-compares_example :
    (verify_it fake_openssl (codes "msg") (3 ∷ (9 ∷ [])) (1 ∷ []) ≡ ok 0) ↔ (
      take {A = ℕ} (shorter (3 ∷ (9 ∷ [])) (3 ∷ (1 ∷ []))) (3 ∷ (9 ∷ []))
      ≡ take {A = ℕ} (shorter (3 ∷ (9 ∷ [])) (3 ∷ (1 ∷ []))) (3 ∷ (1 ∷ [])))
unfolding sign_it
verify_it-compares_example =
    verify_it-compares fake_openssl fake-IsMac (codes "msg") (3 ∷ (9 ∷ [])) (3 ∷ (1 ∷ [])) (1 ∷ [])
      (omega arith) (omega arith) refl

abbrev counting_up : Rng
counting_up = record { stream = λ n. n; drawn = 0 }

encryption_engine-Digits_example : Returns (encryption_engine fake_openssl counting_up) λ (e, g').
    (length e.encryption_key ≡ 32)
    × Digits e.encryption_key
    × (length e.iv ≡ 16)
    × Digits e.iv
    × Returns (copy_engine fake_openssl e) λ copy.
      (t : Text)
      → (encrypt fake_openssl copy.encryption_key copy.iv t
          ≡ encrypt fake_openssl e.encryption_key e.iv t)
        × (decrypt fake_openssl copy.encryption_key copy.iv t
            ≡ decrypt fake_openssl e.encryption_key e.iv t)
encryption_engine-Digits_example = encryption_engine-Digits fake_openssl fake-IsKeyed counting_up
