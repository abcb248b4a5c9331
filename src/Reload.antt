-- ===== src/Reload.antt =====
-- cmd/qcat/authorization.go: a server reads the configured peers again every second. A failure keeps
-- what was authorized, until the third in a row.
pub mod History
mod Tests
use quantumcat.Base.{
  ℕ, ◌+◌, Bytes, bytes_eq, Bool, true, false, not, ◌||◌, ◌==◌, ltb, if◌then◌else◌, Option, none,
  some, List, [], ◌∷◌, length, map,
}
use quantumcat.Base.Assoc.{insert, bytes_key}
use quantumcat.Crypto.{Crypto}
use quantumcat.Wire.{peer_id}
use quantumcat.Config.{Peer}

-- What `Peers` returns: the descriptors, or an error with its text.
pub data Listing : Type 0 where
  listed : List Peer → Listing
  unlisted : Bytes → Listing

abbrev pub Authorized : Type 0
Authorized = List (Bytes × Bytes)

pub record ReloadState : Type 0 where
  pub last_error : Bytes
  pub failures : ℕ

abbrev pub fresh_state : ReloadState
fresh_state = record { last_error = []; failures = 0 }

-- A line of the log.
pub data Notice : Type 0 where
  keeping : ℕ → Bytes → Notice
  revoking : ℕ → Bytes → Notice
  restoring : Notice

unfoldable pub notice : ReloadState → Bytes → Authorized → Option Notice
notice s message current =
    if not (bytes_eq message s.last_error) || (s.failures + 1 == 3)
    then (if ltb (s.failures + 1) 3
        then some (keeping (s.failures + 1) message)
        else some (revoking (length current) message))
    else none

-- The text of the error is kept when it is logged.
unfoldable pub remember : ReloadState → Bytes → ReloadState
remember s message =
    if not (bytes_eq message s.last_error) || (s.failures + 1 == 3)
    then record { last_error = message; failures = s.failures + 1 }
    else record s { failures = s.failures + 1 }

module _ (c : Crypto) where
  unfoldable pub authorize_from : Authorized → List Peer → Authorized
  authorize_from next [] = next
  authorize_from next (p ∷ rest) =
      authorize_from (insert (peer_id c p.public_key) p.public_key next) rest

  abbrev pub authorize : List Peer → Authorized
  authorize ps = authorize_from [] ps

  unfoldable pub reload :
      Listing → ReloadState → Authorized → (ReloadState × Authorized) × Option Notice
  reload (unlisted message) s current = (
    (remember s message, if ltb (s.failures + 1) 3 then current else []),
    notice s message current,
  )
  reload (listed peers) s current = (
    (if not (s.failures == 0) then fresh_state else s, authorize peers),
    if not (s.failures == 0) then some restoring else none,
  )
