-- ===== src/Handshake/Server/Life.antt =====
-- The life of a server of internal/protocol/handshake.go: any sequence of packets, reports of the
-- transport through `Installed`, calls of `Expire`, and `Close`.
pub mod Once
use quantumcat.Base.{
  ℕ, zero, suc, ◌≡◌, Bytes, Bool, true, false, ◌==◌, if◌then◌else◌, Option, none, some, List, [],
  ◌∷◌,
}
use quantumcat.Crypto.{Crypto}
use quantumcat.Wire.{Keys, Peers}
use quantumcat.Handshake.Limits.{zero_bucket}
use quantumcat.Handshake.Server.{Server, Callback, Session, expire, close, installed}
use quantumcat.Handshake.Server.Hello.{Draws}
use quantumcat.Handshake.Server.Handle.{handle}

-- A server with the callbacks that it has handed to the transport, newest first.
pub record Life : Type 0 where
  pub server : Server
  pub handed : List Callback

-- Whether one of the callbacks was made for this entry.
pub holds : ℕ → List Callback → Bool
holds n [] = false
holds n (cb ∷ cbs) = if cb.ident == n then true else holds n cbs

-- No entry was handed out twice.
abbrev pub IsOnce : List Callback → Type 0
IsOnce [] = Unit {0}
IsOnce (cb ∷ cbs) = (holds cb.ident cbs ≡ false) × IsOnce cbs

-- The transport reports to the callback at a position of the list.
pub report : Server → List Callback → ℕ → Bool → Server × List Callback
report s [] i done = (s, [])
report s (cb ∷ cbs) zero done = let (s', cb') = installed s cb done in (s', cb' ∷ cbs)
report s (cb ∷ cbs) (suc i) done = let (s', cbs') = report s cbs i done in (s', cb ∷ cbs')

pub data Event : Type 0 where
  receives : Draws → Bytes → Bytes → ℕ → Event
  reports : ℕ → Bool → Event
  expires : ℕ → Event
  closes : Event

abbrev with_session : Option Session → List Callback → List Callback
with_session none cbs = cbs
with_session (some x) cbs = x.callback ∷ cbs

pub step : Crypto → Life → Event → Life
unfolding report
step c l (receives d source packet now) =
    let (s, r) = handle c d l.server source packet now in
    record { server = s; handed = with_session r.session l.handed }
step c l (reports i done) =
    let (s, cbs) = report l.server l.handed i done in record { server = s; handed = cbs }
step c l (expires now) = record l { server = expire l.server now }
step c l closes = record l { server = close l.server }

pub run : Crypto → Life → List Event → Life
unfolding step
run c l [] = l
run c l (e ∷ es) = run c (step c l e) es

-- A server as `transport.Server` makes it.
abbrev pub new_server : Bytes → Keys → Peers → Server
new_server public keys authorized = record {
  public = public;
  keys = keys;
  authorized = authorized;
  pending = [];
  replay = [];
  limits = [];
  peer_limits = [];
  global = zero_bucket;
  next = 0;
}

abbrev pub new_life : Bytes → Keys → Peers → Life
new_life public keys authorized = record { server = new_server public keys authorized; handed = [] }
