-- ===== src/Handshake/Server/Finish.antt =====
-- The ClientFinish branch of `Handle` in internal/protocol/handshake.go.
use quantumcat.Base.{
  Bytes, bytes_eq, Bool, true, false, not, ◌&&◌, ◌||◌, ◌==◌, if◌then◌else◌, none, some, [], ◌∷◌,
  length, take, drop, any, keep_if,
}
use quantumcat.Base.Assoc.{lookup, insert, bytes_key}
use quantumcat.Crypto.{Crypto}
use quantumcat.Wire.{frame, join, lookup_peer, server_accepted, hash_size}
use quantumcat.Handshake.{proof, client_finished, accepted_label}
use quantumcat.Handshake.Server.{Server, Pending, Session, Reply, silence, reply_with}

-- Another entry of the source whose installation is outstanding.
abbrev pub is_competing : Pending → Bytes → Bytes × Pending → Bool
is_competing p source (k, o) =
    not (o.ident == p.ident) && (bytes_eq o.source source && (o.installing && not o.accepted))

-- Not another entry of the source: these are kept.
abbrev pub is_kept : Pending → Bytes → Bytes × Pending → Bool
is_kept p source (k, o) = not (not (o.ident == p.ident) && bytes_eq o.source source)

abbrev pub session_of : Bytes → Pending → Session
session_of h p = record {
  peer = p.peer;
  keys = p.keys;
  psk = p.psk;
  callback = record { hash = h; ident = p.ident; fired = false };
}

module _ (c : Crypto) where
  abbrev pub ack_of : Bytes → Pending → Bytes
  ack_of h p = frame server_accepted (join (h ∷ proof c p.hk accepted_label h ∷ []))

  -- The tests before an acknowledgement is made.
  unfoldable pub may_finish : Server → Bytes → Bytes → Pending → Bytes → Bool
  may_finish s source h p tag = not (
      not (bytes_eq p.source source)
      || ((length (lookup_peer s.authorized p.peer) == 0)
          || not (bytes_eq (proof c p.hk client_finished h) tag)))

  unfoldable pub begin_install : Server → Bytes → Bytes → Pending → Server × Reply
  begin_install s source h p = if any (is_competing p source) s.pending then (s, silence) else (
    record s {
      pending = insert h (record p { installing = true }) (keep_if (is_kept p source) s.pending);
    },
    record { packet = some (ack_of h p); session = some (session_of h p) },
  )

  unfoldable pub finish_pending : Server → Bytes → Bytes → Pending → Bytes → Server × Reply
  finish_pending s source h p tag =
      if not (may_finish s source h p tag)
      then (s, silence)
      else if p.accepted
      then (s, reply_with (ack_of h p))
      else if p.installing
      then (s, silence)
      else begin_install s source h p

  unfoldable pub finish : Server → Bytes → Bytes → Server × Reply
  finish s source b = elim (lookup (take hash_size b) s.pending) [
    | none ↦ (s, silence)
    | some p ↦ finish_pending s source (take hash_size b) p (drop hash_size b)
  ]
