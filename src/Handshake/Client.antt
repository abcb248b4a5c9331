-- ===== src/Handshake/Client.antt =====
-- internal/protocol/handshake.go: `NewClient`, `Complete`, `Accepted` and `Close` of `Client`.
-- The identity and the KEM are those of internal/crypto/provider: what their calls return is given.
pub mod Soundness
mod HelloParts
pub mod Agreement
use quantumcat.Base.{
  ℕ, ◌+◌, ◌-◌, Bytes, bytes_eq, put_u64, replicate, Bool, true, false, not, ◌&&◌, ◌||◌, ◌==◌, ltb,
  if◌then◌else◌, Option, none, some, List, [], ◌∷◌, length, take, drop, slice,
}
use quantumcat.Base.Int.{ℤ, to_u64}
use quantumcat.Crypto.{Crypto}
use quantumcat.Wire.{
  Keys, frame, parse, join, peer_id, peer_tag, verify, transcript, client_hello, server_hello,
  client_finish, server_accepted, client_context, server_context, public_key_size, kem_public_size,
  proof_size,
}
use quantumcat.Handshake.{derive, proof, server_finished, client_finished, accepted_label}
use quantumcat.Handshake.Server.Hello.{unix}

-- `ErrRejected`, or an error that a provider, the random source or HKDF returned.
pub data ClientError : Type 0 where
  rejected : ClientError
  failed : ClientError

pub data Result {ℓ} (A : Type ℓ) : Type ℓ where
  ok : A → Result A
  err : ClientError → Result A

-- One connection's key: what its methods return before `Destroy`.
pub record Kem : Type 0 where
  pub public : Option Bytes
  pub decapsulate : Bytes → Option Bytes

pub record Client : Type 0 where
  pub kem : Kem
  -- `Destroy` has not been called on the KEM.
  pub live : Bool
  pub hello : Bytes
  pub server : Bytes
  pub server_public : Bytes
  pub keys : Keys
  pub ack : Bytes

-- What `NewClient` takes from outside; `none` is an error.
pub record Setup : Type 0 where
  pub public_key : Option Bytes
  pub new_kem : Option Kem
  pub nonce : Option Bytes
  pub sign : Bytes → Bytes → Option Bytes

-- The result, and whether a KEM was made that is not destroyed.
pub record Started : Type 0 where
  pub result : Result (Client × Bytes)
  pub kem_live : Bool

abbrev fail_clean : ClientError → Started
fail_clean e = record { result = err e; kem_live = false }

module _ (c : Crypto) where
  unfoldable pub unsigned_hello : Bytes → Keys → Bytes → Bytes → ℕ → Bytes → Bytes
  unsigned_hello key local nonce server_public now kp = join (
      peer_tag c (peer_id c key) nonce
      ∷ local.wg
      ∷ local.disco
      ∷ nonce
      ∷ peer_id c server_public
      ∷ replicate 32 0
      ∷ put_u64 (to_u64 (unix now))
      ∷ kp
      ∷ [])

  -- Behind the KEM: each failure is `fail`, which destroys it.
  unfoldable pub sign_hello : Setup → Bytes → Kem → Bytes → Bytes → Keys → Keys → ℕ → Started
  sign_hello e key kem kp server_public local remote now = elim e.nonce [
    | none ↦ fail_clean failed
    | some nonce ↦
        let hello = unsigned_hello key local nonce server_public now kp in
        elim (e.sign client_context (frame client_hello hello)) [
          | none ↦ fail_clean failed
          | some sig ↦ record {
            result = ok (
              record {
                kem = kem;
                live = true;
                hello = hello;
                server = peer_id c server_public;
                server_public = server_public;
                keys = remote;
                ack = [];
              },
              frame client_hello (join (hello ∷ sig ∷ [])),
            );
            kem_live = true;
          }
        ]
  ]

  unfoldable pub with_kem : Setup → Bytes → Kem → Bytes → Keys → Keys → ℕ → Started
  with_kem e key kem server_public local remote now = elim kem.public [
    | none ↦ fail_clean failed
    | some kp ↦
        if not (length kp == kem_public_size)
        then fail_clean rejected
        else sign_hello e key kem kp server_public local remote now
  ]

  unfoldable pub new_client : Setup → Bytes → Keys → Keys → ℕ → Started
  new_client e server_public local remote now =
      if not (length server_public == public_key_size)
      then fail_clean rejected
      else elim e.public_key [
        | none ↦ fail_clean failed
        | some key ↦ elim e.new_kem [
          | none ↦ fail_clean failed
          | some kem ↦ with_kem e key kem server_public local remote now
        ]
      ]

  unfoldable pub close : Client → Client
  close cl = record cl { live = false }

  -- A destroyed KEM answers with an error.
  abbrev pub decapsulate : Client → Bytes → Option Bytes
  decapsulate cl ct = if cl.live then cl.kem.decapsulate ct else none

  -- The confirmation key and hash are known: compare the proof, and keep what `Accepted` expects.
  unfoldable pub confirm : Client → Bytes → Bytes → Bytes → Bytes → Client × Result (Bytes × Bytes)
  confirm cl hash psk hk tag =
      if not (bytes_eq (proof c hk server_finished hash) tag) then (cl, err rejected) else (
        record cl {
          live = false;
          ack = frame server_accepted (join (hash ∷ proof c hk accepted_label hash ∷ []));
        },
        ok (psk, frame client_finish (join (hash ∷ proof c hk client_finished hash ∷ []))),
      )

  -- The signature is good: the key exchange.
  unfoldable pub exchange : Client → Bytes → Bytes → Bytes → Client × Result (Bytes × Bytes)
  exchange cl hash ct tag = elim (decapsulate cl ct) [
    | none ↦ (cl, err failed)
    | some ss ↦ elim (derive c ss hash) [
      | none ↦ (cl, err failed)
      | some (psk, hk) ↦ confirm cl hash psk hk tag
    ]
  ]

  -- The payload names the server and its transport keys.
  unfoldable pub expected : Client → Bytes → Bool
  expected cl b = not (
      not (bytes_eq (take 32 b) cl.server)
      || (not (bytes_eq (slice 32 64 b) cl.keys.wg)
          || not (bytes_eq (slice 64 96 b) cl.keys.disco)))

  unfoldable pub complete_payload : Client → Bytes → Client × Result (Bytes × Bytes)
  complete_payload cl b =
      if not (expected cl b)
      then (cl, err rejected)
      else let ct = slice 128 1696 b in
        let (tb, hash) = transcript c cl.hello cl.server cl.keys (slice 96 128 b) ct in
        let sig_end = length b - proof_size in
        if not (verify c cl.server_public server_context tb (slice 1696 sig_end b))
        then (cl, err rejected)
        else exchange cl hash ct (drop sig_end b)

  unfoldable pub complete : Client → Bytes → Client × Result (Bytes × Bytes)
  complete cl packet = elim (parse packet) [
    | none ↦ (cl, err rejected)
    | some (kind, b) ↦
        if not (kind == server_hello) then (cl, err rejected) else complete_payload cl b
  ]

unfoldable pub accepted : Client → Bytes → Bool
accepted cl packet = ltb 0 (length cl.ack) && bytes_eq cl.ack packet
