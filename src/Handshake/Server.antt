-- ===== src/Handshake/Server.antt =====
-- internal/protocol/handshake.go: the state of `Server`, `Expire`, `Close`, `resolve` and the
-- installation callback. A map is an association list; the order in which Go ranges over it is the
-- order of the list, whichever it is. Pending entries are compared by pointer, so each has the
-- number of its allocation, `ident`. `Handle` runs under the mutex: a call is one step.
pub mod Finish
pub mod Hello
pub mod Handle
pub mod Steps
pub mod Life
use quantumcat.Base.{
  ℕ, ◌-◌, Bytes, bytes_eq, replicate, Bool, true, false, not, ◌==◌, ltb, if◌then◌else◌, Option,
  none, some, List, [], ◌∷◌, keep_if,
}
use quantumcat.Base.Assoc.{lookup, insert, erase, bytes_key}
use quantumcat.Crypto.{Crypto}
use quantumcat.Wire.{Keys, Peers, peer_tag}
use quantumcat.Handshake.Limits.{Bucket, Table, second}

pub record Pending : Type 0 where
  pub ident : ℕ
  pub peer : Bytes
  pub keys : Keys
  pub psk : Bytes
  pub hash : Bytes
  pub hk : Bytes
  pub source : Bytes
  pub expires : ℕ
  pub accepted : Bool
  pub installing : Bool
  pub hello_hash : Bytes
  pub response : Bytes

pub record Server : Type 0 where
  pub public : Bytes
  pub keys : Keys
  pub authorized : Peers
  pub pending : List (Bytes × Pending)
  pub replay : List (Bytes × ℕ)
  pub limits : Table
  pub peer_limits : Table
  pub global : Bucket
  -- The next allocation's number.
  pub next : ℕ

-- The closure `Installed` with its `sync.Once`: the transcript hash, the entry it was made for, and
-- whether it has run.
pub record Callback : Type 0 where
  pub hash : Bytes
  pub ident : ℕ
  pub fired : Bool

pub record Session : Type 0 where
  pub peer : Bytes
  pub keys : Keys
  pub psk : Bytes
  pub callback : Callback

-- What `Handle` returns; a nil packet is `none`.
pub record Reply : Type 0 where
  pub packet : Option Bytes
  pub session : Option Session

abbrev pub silence : Reply
silence = record { packet = none; session = none }

abbrev pub reply_with : Bytes → Reply
reply_with b = record { packet = some b; session = none }

abbrev pub zero_key : Bytes
zero_key = replicate 32 0

abbrev pub is_live : ℕ → Bytes × Pending → Bool
is_live now (h, p) = ltb now p.expires

abbrev pub is_recent : ℕ → Bytes × ℕ → Bool
is_recent now (h, t) = ltb now t

abbrev pub is_active : ℕ → Bytes × Bucket → Bool
is_active now (h, b) = not (ltb second (now - b.start))

unfoldable pub expire : Server → ℕ → Server
expire s now = record s {
  pending = keep_if (is_live now) s.pending;
  replay = keep_if (is_recent now) s.replay;
  limits = keep_if (is_active now) s.limits;
  peer_limits = keep_if (is_active now) s.peer_limits;
}

unfoldable pub close : Server → Server
close s = record s { pending = []; replay = []; limits = []; peer_limits = [] }

-- The body of the callback: `s.pending[h] != p` compares pointers.
unfoldable pub install_result : Server → Callback → Bool → Server
install_result s cb done = elim (lookup cb.hash s.pending) [
  | none ↦ s
  | some p ↦
      if not (p.ident == cb.ident)
      then s
      else if done
      then record s {
        pending = insert cb.hash (record p { psk = zero_key; accepted = true }) s.pending;
      }
      else record s { pending = erase cb.hash s.pending }
]

unfoldable pub installed : Server → Callback → Bool → Server × Callback
installed s cb done =
    if cb.fired then (s, cb) else (install_result s cb done, record cb { fired = true })

module _ (c : Crypto) where
  resolve_in : List (Bytes × Bytes) → Bytes → Bytes → Bytes × Bytes
  resolve_in [] tag nonce = (zero_key, [])
  resolve_in ((id, key) ∷ rest) tag nonce =
      if bytes_eq (peer_tag c id nonce) tag then (id, key) else resolve_in rest tag nonce

  unfoldable pub resolve : Peers → Bytes → Bytes → Bytes × Bytes
  unfolding resolve_in
  resolve none tag nonce = (zero_key, [])
  resolve (some peers) tag nonce = resolve_in peers tag nonce
