-- ===== src/Handshake/Server/Handle.antt =====
-- `Handle` of internal/protocol/handshake.go, and a server's life as a sequence of its calls.
pub mod Bounds
use quantumcat.Base.{
  ℕ, Bytes, Bool, true, false, not, ◌==◌, if◌then◌else◌, Option, none, some, List, [], ◌∷◌,
}
use quantumcat.Crypto.{Crypto}
use quantumcat.Wire.{parse, client_hello, client_finish}
use quantumcat.Handshake.Server.{
  Server, Reply, Callback, silence, expire, close, installed, install_result,
}
use quantumcat.Handshake.Server.Finish.{finish}
use quantumcat.Handshake.Server.Hello.{Draws, Packet, hello}

module _ (c : Crypto) where
  unfoldable pub dispatch : Draws → Server → ℕ → Packet → Server × Reply
  dispatch d s kind m =
      if kind == client_finish
      then finish c s m.source m.payload
      else if not (kind == client_hello)
      then (s, silence)
      else hello c d s m

  unfoldable pub handle : Draws → Server → Bytes → Bytes → ℕ → Server × Reply
  handle d s source packet now = elim (parse packet) [
    | none ↦ (s, silence)
    | some (kind, b) ↦
        dispatch d (expire s now) kind
          (record { source = source; payload = b; whole = packet; now = now })
  ]
