-- ===== src/Transport.antt =====
-- internal/transport/transport.go: the client's bootstrap over a channel that loses, repeats and
-- reorders packets, and how long a server's session stays valid. The tailcat library calls both.
pub mod Confirmed
pub mod Retries
pub mod Validity
mod Tests
use quantumcat.Base.{
  ℕ, ◌+◌, ◌*◌, replicate, Bytes, bytes_eq, Bool, true, false, not, ◌&&◌, ltb, if◌then◌else◌, Option,
  none, some, List, [], ◌∷◌, ◌++◌, length,
}
use quantumcat.Crypto.{Crypto}
use quantumcat.Wire.{Peers, lookup_peer}
use quantumcat.Handshake.Client.{Client, Result, ok, err, complete, accepted, close, Started}
use quantumcat.Config.{Endpoint, Libraries}

-- One hour, in nanoseconds.
abbrev pub session_lifetime : ℕ
session_lifetime = 3600000000000

-- What `Client` needs of an endpoint: it parses, and holds no pre-shared key.
unfoldable pub client_endpoint : Libraries → Bytes → Option Endpoint
client_endpoint lib endpoint = elim (lib.parse_addr endpoint) [
  | none ↦ none
  | some a ↦ if a.has_psk then none else some a
]

-- What the loop of the bootstrap meets: the context ends, a second passes, or a packet arrives. The
-- flag says that a packet sent now is taken.
pub data Event : Type 0 where
  cancelled : Event
  tick : Bool → Event
  reply : Bytes → Bool → Event

pub record Boot : Type 0 where
  pub client : Client
  pub packet : Bytes
  pub psk : Bytes
  pub finishing : Bool

-- The loop goes on, or it returns a key or an error.
pub data Progress : Type 0 where
  going : Boot → Progress
  connected : Bytes → Progress
  stopped : Progress

module _ (c : Crypto) where
  -- A packet arrives, with what was sent in answer.
  unfoldable pub receive : Boot → Bytes → Bool → Progress × List Bytes
  receive b packet taken =
      if b.finishing
      then (if accepted b.client packet then connected b.psk else going b, [])
      else let (client, result) = complete c b.client packet in
        elim result [
          | err e ↦ (going (record b { client = client; psk = replicate 32 0 }), [])
          | ok (psk, finish) ↦ (
            if taken
                then going
                    (record { client = client; packet = finish; psk = psk; finishing = true })
                else stopped,
            finish ∷ [],
          )
        ]

  unfoldable pub react : Boot → Event → Progress × List Bytes
  react b cancelled = (stopped, [])
  react b (tick taken) = (if taken then going b else stopped, b.packet ∷ [])
  react b (reply packet taken) = receive b packet taken

  -- The loop over what happens, and everything sent.
  unfoldable pub bootstrap : Boot → List Event → Progress × List Bytes
  bootstrap b [] = (going b, [])
  bootstrap b (e ∷ rest) =
      let s = react b e in
      elim s.0 [
        | going b' ↦ let later = bootstrap b' rest in (later.0, s.1 ++ later.1)
        | connected psk ↦ (connected psk, s.1)
        | stopped ↦ (stopped, s.1)
      ]

  abbrev pub started : Client → Bytes → Boot
  started client hello = record {
    client = client;
    packet = hello;
    psk = replicate 32 0;
    finishing = false;
  }

  -- `c.Bootstrap`: the client is made, the hello sent (`first` says whether it was taken), and the loop
  -- runs.
  unfoldable pub connect : Started → Bool → List Event → Progress × List Bytes
  connect s first events = elim s.result [
    | err e ↦ (stopped, [])
    | ok (client, hello) ↦
        if not first
        then (stopped, hello ∷ [])
        else let later = bootstrap (started client hello) events in (later.0, hello ∷ later.1)
  ]

-- What a server keeps of an authenticated peer.
pub record Session : Type 0 where
  pub peer : Bytes
  pub pinned : Bytes
  pub expires : ℕ

unfoldable pub open_session : Bytes → Peers → ℕ → ℕ → Session
open_session peer authorized now lifetime = record {
  peer = peer;
  pinned = lookup_peer authorized peer;
  expires = now + lifetime;
}

-- `peer.Valid`, with the peers authorized now.
unfoldable pub is_valid : Session → Peers → ℕ → Bool
is_valid s authorized now =
    ltb now s.expires
    && (ltb 0 (length s.pinned) && bytes_eq (lookup_peer authorized s.peer) s.pinned)
