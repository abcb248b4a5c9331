-- ===== src/Handshake.antt =====
-- internal/protocol/handshake.go: the key schedule and the proofs; the children have the client,
-- the rate limits and the server.
pub mod Limits
pub mod Tests
pub mod Server
pub mod Client
use quantumcat.Base.{Bytes, ascii, Option, none, some, ◌++◌, ◌∷◌, []}
use quantumcat.Crypto.{Crypto}

abbrev extract_salt : Bytes
extract_salt = ascii "qcat-handshake-extract-v1"

abbrev psk_info : Bytes
psk_info = ascii "qcat-wireguard-psk-v3"

abbrev confirm_info : Bytes
confirm_info = ascii "qcat-handshake-confirm-v3"

abbrev pub server_finished : Bytes
server_finished = ascii "server-finished"

abbrev pub client_finished : Bytes
client_finished = ascii "client-finished"

abbrev pub accepted_label : Bytes
accepted_label = ascii "server-accepted"

infixl 5 ◌>>=◌
abbrev pub ◌>>=◌ {ℓ κ} : {A : Type ℓ} {B : Type κ} → Option A → (A → Option B) → Option B
none >>= f = none
some a >>= f = f a

module _ (c : Crypto) where
  -- The pre-shared key and the confirmation key; `none` is an error of HKDF.
  unfoldable pub derive : Bytes → Bytes → Option (Bytes × Bytes)
  derive ss hash = do
    prk ← c.hkdf_extract ss extract_salt
    p ← c.hkdf_expand prk (psk_info ++ hash) 32
    k ← c.hkdf_expand prk (confirm_info ++ hash) 32
    some (p, k)

  unfoldable pub proof : Bytes → Bytes → Bytes → Bytes
  proof k label hash = c.hmac384 k (label ++ hash)
