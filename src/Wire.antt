-- ===== src/Wire.antt =====
-- internal/protocol/wire.go: frames, peer identities, blinded tags, the transcript.
-- A `[]byte` and a `[32]byte` are lists of numbers. The sizes of ML-KEM-1024 and ML-DSA-87 values
-- are those of PROTOCOL.md.
pub mod Framing
pub mod Layout
mod Tests
use quantumcat.Base.{
  ℕ, zero, suc, ◌+◌, ◌-◌, Bytes, ascii, bytes_eq, put_u16, read_be, Bool, true, false, not, ◌||◌,
  ◌&&◌, ◌==◌, ltb, if◌then◌else◌, Option, none, some, List, [], ◌∷◌, ◌++◌, length, slice, take,
  drop,
}
use quantumcat.Crypto.{Crypto}

abbrev pub version : ℕ
version = 1

abbrev pub max_packet : ℕ
max_packet = 32768

abbrev pub client_hello : ℕ
client_hello = 1

abbrev pub server_hello : ℕ
server_hello = 2

abbrev pub client_finish : ℕ
client_finish = 3

abbrev pub server_accepted : ℕ
server_accepted = 4

-- mlkem.EncapsulationKeySize1024, mlkem.CiphertextSize1024, mldsa.MLDSA87SignatureSize and
-- mldsa.MLDSA87PublicKeySize.
abbrev pub kem_public_size : ℕ
kem_public_size = 1568

abbrev pub ciphertext_size : ℕ
ciphertext_size = 1568

abbrev pub signature_size : ℕ
signature_size = 4627

abbrev pub public_key_size : ℕ
public_key_size = 2592

abbrev pub hash_size : ℕ
hash_size = 48

abbrev pub proof_size : ℕ
proof_size = 48

-- 32*6 + 8 + the KEM key.
abbrev pub hello_size : ℕ
hello_size = 1768

-- 32*4 + ciphertext + signature + proof.
abbrev pub server_size : ℕ
server_size = 6371

abbrev pub client_context : Bytes
client_context = ascii "qcat-handshake-client-v1"

abbrev pub server_context : Bytes
server_context = ascii "qcat-handshake-server-v1"

abbrev pub peer_id_domain : Bytes
peer_id_domain = ascii "qcat-peer-v1"

abbrev pub peer_tag_domain : Bytes
peer_tag_domain = ascii "qcat-peer-tag-v1"

abbrev pub transcript_domain : Bytes
transcript_domain = ascii "qcat-transcript-v1"

-- `b[i]`; every caller has checked the length.
unfoldable pub byte_at : ℕ → Bytes → ℕ
byte_at i [] = 0
byte_at zero (b ∷ bs) = b
byte_at (suc i) (b ∷ bs) = byte_at i bs

unfoldable pub join : List Bytes → Bytes
join [] = []
join (p ∷ ps) = p ++ join ps

unfoldable pub frame : ℕ → Bytes → Bytes
frame kind payload = ascii "QCAT" ++ (version ∷ kind ∷ (put_u16 (length payload) ++ payload))

-- The payload size of each message type; `none` is the switch's default.
unfoldable pub payload_size : ℕ → Option ℕ
payload_size kind =
    if kind == client_hello
    then some (hello_size + signature_size)
    else if kind == server_hello
    then some server_size
    else if kind == client_finish || kind == server_accepted
    then some (hash_size + proof_size)
    else none

unfoldable pub valid_frame : Bytes → Bool
valid_frame b =
    if ltb (length b) 8
      || (ltb max_packet (length b)
          || (not (bytes_eq (slice 0 4 b) (ascii "QCAT"))
              || (not (byte_at 4 b == version) || not (read_be (slice 6 8 b) == length b - 8))))
    then false
    else elim (payload_size (byte_at 5 b)) [ none ↦ false | some size ↦ length b - 8 == size ]

-- `none` is the error "invalid handshake frame".
unfoldable pub parse : Bytes → Option (ℕ × Bytes)
parse b = if valid_frame b then some (byte_at 5 b, drop 8 b) else none

-- The authorized peers as the iterator yields them; `none` is a nil iterator.
abbrev pub Peers : Type 0
Peers = Option (List (Bytes × Bytes))

lookup_in : List (Bytes × Bytes) → Bytes → Bytes
lookup_in [] id = []
lookup_in ((candidate, key) ∷ rest) id = if bytes_eq candidate id then key else lookup_in rest id

-- The nil slice is the empty list: callers only ask for the length.
unfoldable pub lookup_peer : Peers → Bytes → Bytes
unfolding lookup_in
lookup_peer none id = []
lookup_peer (some peers) id = lookup_in peers id

pub record Keys : Type 0 where
  pub wg : Bytes
  pub disco : Bytes

module _ (c : Crypto) where
  unfoldable pub peer_id : Bytes → Bytes
  peer_id key = c.sha512_256 (peer_id_domain ++ key)

  unfoldable pub id_string : Bytes → Bytes
  id_string id = ascii "qpeer:" ++ c.base32_encode id

  trim_id_prefix : Bytes → Bytes
  trim_id_prefix s = if bytes_eq (take 6 s) (ascii "qpeer:") then drop 6 s else s

  -- `none` is the error "invalid PeerID".
  unfoldable pub parse_id : Bytes → Option Bytes
  unfolding trim_id_prefix
  parse_id s = elim (c.base32_decode (trim_id_prefix s)) [
    | none ↦ none
    | some b ↦ if not (length b == 32) then none else some b
  ]

  unfoldable pub peer_tag : Bytes → Bytes → Bytes
  peer_tag id nonce = take 32 (c.hmac384 nonce (peer_tag_domain ++ id))

  unfoldable pub verify : Bytes → Bytes → Bytes → Bytes → Bool
  verify key label msg sig =
      if not (length key == public_key_size) || not (length sig == signature_size)
      then false
      else c.mldsa_verify key label msg sig

  unfoldable pub transcript : Bytes → Bytes → Keys → Bytes → Bytes → Bytes × Bytes
  transcript hello server keys nonce ct =
      let b = join (
        transcript_domain
        ∷ (version ∷ [])
        ∷ server
        ∷ keys.wg
        ∷ keys.disco
        ∷ nonce
        ∷ ct
        ∷ hello
        ∷ []) in
      (b, c.sha384 b)
