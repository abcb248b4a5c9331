-- ===== src/Flows/Published.antt =====
-- internal/proxy/udp.go and udp_frame.go: UDPServices with its connections in progress, and a pump of
-- proxyUDPDatagrams.
pub mod Limits
mod Tests
use quantumcat.Base.{
  ℕ, ◌+◌, Bytes, Bool, true, false, not, ◌&&◌, ◌||◌, ◌==◌, ltb, leb, if◌then◌else◌, Option, none,
  some, List, [], ◌∷◌, length,
}
use quantumcat.Base.Assoc.{lookup, insert, erase, member, number_key}
use quantumcat.Socks.{Net, validate_target}
use quantumcat.Services.{Targets}
use quantumcat.Udp.{max_datagram}
use quantumcat.Flows.{max_flows}

-- The copy of the targets that the handlers use; one bad target is an error.
unfoldable pub configure_targets : Net → Targets → Option Targets
configure_targets net [] = some []
configure_targets net ((port, target) ∷ rest) =
    let later = configure_targets net rest in
    if port == 0 || not (validate_target net target)
    then none
    else elim later [ none ↦ none | some ts ↦ some (insert port target ts) ]

-- A connection in progress: its port, its target, and whether the target was dialed.
pub record Relay : Type 0 where
  pub port : ℕ
  pub target : Bytes
  pub dialed : Bool

-- The connections in progress by their number, and how many have been closed.
pub record Publication : Type 0 where
  pub configured : Targets
  pub cancelled : Bool
  pub active : List (ℕ × Relay)
  pub closed : ℕ

unfoldable pub publish : Net → Targets → Option Publication
publish net targets = elim (configure_targets net targets) [
  | none ↦ none
  | some ts ↦ some (record { configured = ts; cancelled = false; active = []; closed = 0 })
]

-- The connection takes a slot, or is closed at once. Where the context has ended and a slot is free,
-- either can happen.
unfoldable pub take_slot : ℕ → ℕ → Bytes → Bool → Publication → Publication
take_slot n port target slot s =
    if leb max_flows (length s.active) || (s.cancelled && not slot)
    then record s { closed = s.closed + 1 }
    else record s {
      active = insert n (record { port = port; target = target; dialed = false }) s.active;
    }

-- A new connection to a port; without a target there is no handler for it.
unfoldable pub accept_port : ℕ → ℕ → Bool → Publication → Publication
accept_port n port slot s =
    if member n s.active
    then s
    else elim (lookup port s.configured) [ none ↦ s | some target ↦ take_slot n port target slot s ]

-- The handler returns: its slot is free, and the connection closed.
unfoldable pub finish_relay : ℕ → Publication → Publication
finish_relay n s =
    if member n s.active then record s { active = erase n s.active; closed = s.closed + 1 } else s

-- The target was dialed, or the handler returns.
unfoldable pub dial_relay : ℕ → Bool → Publication → Publication
dial_relay n good s = elim (lookup n s.active) [
  | none ↦ s
  | some r ↦
      if good
      then record s { active = insert n (record r { dialed = true }) s.active }
      else finish_relay n s
]

pub data Turn : Type 0 where
  arrives : ℕ → ℕ → Bool → Turn
  dials : ℕ → Bool → Turn
  returns : ℕ → Turn
  cancels : Turn

unfoldable pub turn : Turn → Publication → Publication
turn (arrives n port slot) s = accept_port n port slot s
turn (dials n good) s = dial_relay n good s
turn (returns n) s = finish_relay n s
turn cancels s = record s { cancelled = true }

unfoldable pub turns : List Turn → Publication → Publication
turns [] s = s
turns (t ∷ rest) s = turns rest (turn t s)

-- The datagrams that a pump writes, of those that it reads up to the error, which is the end of the
-- list; `writes` says of each whether the write is complete.
unfoldable pub pump : (Bytes → Bool) → List Bytes → List Bytes
pump writes [] = []
pump writes (packet ∷ rest) =
    let later = pump writes rest in
    if ltb max_datagram (length packet)
    then later
    else if writes packet
    then packet ∷ later
    else packet ∷ []
