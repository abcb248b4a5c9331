-- ===== src/Crypto.antt =====
-- The cryptographic primitives that the protocol calls: Go's crypto packages, which are not part
-- of the repository. They are functions without laws; what a theorem relies on is a hypothesis.
use quantumcat.Base.{ℕ, Bytes, Bool, Option, ◌≡◌, length}

pub record Crypto : Type 0 where
  -- crypto/sha512: Sum512_256 and Sum384.
  pub sha512_256 : Bytes → Bytes
  pub sha384 : Bytes → Bytes
  -- crypto/hmac with SHA-384: the key, then the message.
  pub hmac384 : Bytes → Bytes → Bytes
  -- crypto/hkdf with SHA-384: the secret and the salt; the key, the info and the length.
  pub hkdf_extract : Bytes → Bytes → Option Bytes
  pub hkdf_expand : Bytes → Bytes → ℕ → Option Bytes
  -- crypto/mldsa: `NewPublicKey` accepts the key and `Verify` the signature under the context.
  pub mldsa_verify : Bytes → Bytes → Bytes → Bytes → Bool
  -- encoding/base32 without padding; `none` is a decoding error.
  pub base32_encode : Bytes → Bytes
  pub base32_decode : Bytes → Option Bytes

-- The documented output sizes of the hash functions.
pub record HasSizes (c : Crypto) : Type 0 where
  pub sha512_256_size : (m : Bytes) → length (c.sha512_256 m) ≡ 32
  pub sha384_size : (m : Bytes) → length (c.sha384 m) ≡ 48
  pub hmac384_size : (k m : Bytes) → length (c.hmac384 k m) ≡ 48
