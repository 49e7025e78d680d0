-- ===== src/Engine.antt =====
-- What the proxy relies on in the encryption engine (proxy/src/encryption_engine.h): a text that the
-- engine can carry comes back from its cipher text.
pub mod Openssl
pub mod Cipher
pub mod Mac
pub mod Carries
pub mod Verify
pub mod Setup
use pancake.Base.Tests.{◌≡◌, []}
use pancake.Base.Text.{Text}
use pancake.Base.Run.{Run, ok, Returns}

pub record Engine : Type 1 where
  pub encrypt : Text → Run Text
  pub decrypt : Text → Run Text
  -- the texts that survive the round trip
  pub IsPlain : Text → Type 0
  pub nonempty : IsPlain [] → ⊥
  pub decrypt-encrypt : (t : Text) → IsPlain t → Returns (encrypt t) λ c. decrypt c ≡ ok t
