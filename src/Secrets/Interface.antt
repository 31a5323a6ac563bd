-- ===== src/Secrets/Interface.antt =====
-- What core/infrastructure/security/encryption.py asks of the library `cryptography`, and of text and
-- bytes: `str.encode`, `bytes.decode`, `base64` and `str` on values that are not text.
use self_optimizing_competit.Base.{◌≡◌, Option, some}

pub data Value (Text Other : Type 0) : Type 0 where
  null : Value Text Other
  text : Text → Value Text Other
  other : Other → Value Text Other

-- A text with lone surrogates has no encoding; bytes may be no text, no base64 and no token. A token
-- depends on the time and on random bytes, which `Seed` stands for, and opens to what was sealed.
pub record Crypto : Type 1 where
  pub Text : Type 0
  pub Other : Type 0
  pub Bytes : Type 0
  pub Seed : Type 0
  pub str : Value Text Other → Text
  pub utf8_encode : Text → Option Bytes
  pub utf8_decode : Bytes → Option Text
  pub b64encode : Bytes → Bytes
  pub b64decode : Bytes → Option Bytes
  pub seal : Bytes → Seed → Bytes × Seed
  pub unseal : Bytes → Option Bytes
  pub decode_encode : (t : Text) (b : Bytes) → utf8_encode t ≡ some b → utf8_decode b ≡ some t
  pub b64_ascii :
      (b : Bytes)
      → (t : Text) × (utf8_decode (b64encode b) ≡ some t) × (utf8_encode t ≡ some (b64encode b))
  pub b64decode_encode : (b : Bytes) → b64decode (b64encode b) ≡ some b
  pub unseal_seal : (b : Bytes) (s : Seed) → unseal (seal b s).0 ≡ some b
