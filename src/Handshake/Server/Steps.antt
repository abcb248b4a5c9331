-- ===== src/Handshake/Server/Steps.antt =====
-- What one call of `Handle` in internal/protocol/handshake.go may do to the pending handshakes: an
-- abstract transition relation, and the theorem that the handler refines it.
pub mod Invariant
use quantumcat.Base.{
  ℕ, ◌+◌, ◌*◌, ◌<◌, ◌≡◌, refl, sym, Bytes, bytes_eq, bytes_eq_iff, read_be, Bool, true, false, not,
  ◌&&◌, ◌||◌, ◌==◌, leb, if◌then◌else◌, Option, none, some, List, [], ◌∷◌, length, take, drop,
  slice, any, find, keep_if, count_if, arith, Bool-cases, Option-cases, if_cases, not_eq_false, inl,
  inr, ◌⊎◌,
}
use quantumcat.Base.Assoc.{lookup, insert, member, bytes_key}
use quantumcat.Base.Int.{to_i64}
use quantumcat.Crypto.{Crypto}
use quantumcat.Wire.{
  parse, frame, verify, peer_id, lookup_peer, client_hello, client_finish, client_context,
  hello_size,
}
use quantumcat.Handshake.{proof, client_finished}
use quantumcat.Handshake.Limits.{Bucket, Table, allow, second}
use quantumcat.Handshake.Server.{
  Server, Pending, Reply, Session, expire, silence, reply_with, resolve,
}
use quantumcat.Handshake.Server.Finish.{
  finish, finish_pending, begin_install, may_finish, is_competing, is_kept, session_of, ack_of,
}
use quantumcat.Handshake.Server.Hello.{
  Draws, Packet, Answer, hello, identify, fresh, authenticate, quota, respond, answer, charge,
  replay_key, addressed, timely, entry_of, is_owned, is_repeat, cached,
}
use quantumcat.Handshake.Server.Handle.{dispatch, handle}

module _ (c : Crypto) (d : Draws) where
  -- What is known of a ClientHello that starts a handshake: it is addressed to this server and
  -- timely, its tag resolves to an authorized identity, its nonce is new, and the signature of that
  -- identity covers the unsigned hello.
  pub record IsAuthentic (s : Server) (m : Packet) (id key : Bytes) : Type 0 where
    pub to_us : addressed c d s m.source m.payload ≡ true
    pub in_time : timely (to_i64 (read_be (slice 192 200 m.payload))) m.now ≡ true
    pub resolved : resolve c s.authorized (take 32 m.payload) (slice 96 128 m.payload) ≡ (id, key)
    pub named : peer_id c key ≡ id
    pub unseen : member (replay_key c d id m.payload) s.replay ≡ false
    pub signed :
        verify c key client_context
          (frame client_hello (take hello_size m.payload))
          (drop hello_size m.payload)
        ≡ true

  -- `rest`: no handshake starts, ends or moves on, no nonce is taken, and no key is handed out.
  -- `admit`: an authentic hello whose identity owns fewer than eight adds an entry of its own,
  -- remembers its nonce, and is answered.
  -- `install`: a proven finish hands the key of an entry to the transport, marks the entry, and
  -- drops the others of its source, none of which is being installed.
  pub data Step (s : Server) (m : Packet) (t : Server) (r : Reply) : Type 0 where
    rest :
        t.pending ≡ s.pending
        → t.replay ≡ s.replay
        → t.next ≡ s.next
        → r.session ≡ none
        → Step s m t r
    admit :
        (id key : Bytes) (a : Answer)
        → IsAuthentic s m id key
        → count_if (is_owned id) s.pending < 8
        → t.pending ≡ insert a.hash (entry_of c d s m id a) s.pending
        → t.replay ≡ insert (replay_key c d id m.payload) (m.now + 300 * second) s.replay
        → t.next ≡ s.next + 1
        → r ≡ reply_with a.packet
        → Step s m t r
    install :
        (h : Bytes) (p : Pending)
        → lookup h s.pending ≡ some p
        → may_finish c s m.source h p (drop 48 m.payload) ≡ true
        → p.accepted ≡ false
        → p.installing ≡ false
        → any (is_competing p m.source) s.pending ≡ false
        → t.pending
          ≡ insert h (record p { installing = true }) (keep_if (is_kept p m.source) s.pending)
        → t.replay ≡ s.replay
        → t.next ≡ s.next
        → r ≡ record { packet = some (ack_of c h p); session = some (session_of h p) }
        → Step s m t r

  abbrev Steps : Server → Packet → Server × Reply → Type 0
  Steps s m (t, r) = Step s m t r

  idle : {s : Server} {m : Packet} {r : Reply} → r.session ≡ none → Step s m s r
  idle e = rest refl refl refl e

  begin_install-Step :
      (s : Server) (m : Packet) (h : Bytes) (p : Pending)
      → lookup h s.pending ≡ some p
      → may_finish c s m.source h p (drop 48 m.payload) ≡ true
      → p.accepted ≡ false
      → p.installing ≡ false
      → Steps s m (begin_install c s m.source h p)
  unfolding begin_install
  begin_install-Step s m h p found proven a i =
      if_cases (Steps s m) (any (is_competing p m.source) s.pending) (λ _. idle refl)
        λ e. install h p found proven a i e refl refl refl refl

  finish_pending-Step :
      (s : Server) (m : Packet) (h : Bytes) (p : Pending)
      → lookup h s.pending ≡ some p
      → Steps s m (finish_pending c s m.source h p (drop 48 m.payload))
  unfolding finish_pending
  finish_pending-Step s m h p found =
      if_cases (Steps s m) (not (may_finish c s m.source h p (drop 48 m.payload))) (λ _. idle refl)
        λ proven.
          if_cases (Steps s m) p.accepted (λ _. idle refl)
            λ a.
              if_cases (Steps s m) p.installing (λ _. idle refl)
                λ i. begin_install-Step s m h p found (not_eq_false _ proven) a i

  finish-Step : (s : Server) (m : Packet) → Steps s m (finish c s m.source m.payload)
  unfolding finish
  finish-Step s m = elim (Option-cases (lookup (take 48 m.payload) s.pending)) [
    | inl e ↦ rw (e, finish) (idle refl)
    | inr (p, e) ↦ rw (e, finish) (finish_pending-Step s m (take 48 m.payload) p e)
  ]

  -- The stages change the buckets before the handshakes.
  module _ (s : Server) (m : Packet) (id key : Bytes) where
    respond-Step :
        (l q : Table) (g : Bucket)
        → IsAuthentic s m id key
        → count_if (is_owned id) s.pending < 8
        → Steps s m (respond c d (record s { limits = l; global = g; peer_limits = q }) m id)
    unfolding respond
    respond-Step l q g v n =
        let s' : Server = record s { limits = l; global = g; peer_limits = q } in
        elim (Option-cases (answer c d s' (take hello_size m.payload))) [
          | inl e ↦ rw (e, respond) (rest refl refl refl refl)
          | inr (a, e) ↦ rw (e, respond) (admit id key a v n refl refl refl refl)
        ]

    quota-Step :
        (l : Table) (g : Bucket)
        → IsAuthentic s m id key
        → Steps s m (quota c d (record s { limits = l; global = g }) m id)
    unfolding quota
    quota-Step l g v =
        if_cases (Steps s m) (not (charge s.peer_limits id m.now 4).1)
          (λ _. rest refl refl refl refl)
          λ _.
            if_cases (Steps s m) (leb 8 (count_if (is_owned id) s.pending))
              (λ _. rest refl refl refl refl)
              λ few. respond-Step l (charge s.peer_limits id m.now 4).0 g v (ground arith)

  cached_session : (o : Option (Bytes × Pending)) → (cached c d o).session ≡ none
  cached_session none = refl
  cached_session (some (h, p)) = refl

  module _ (s : Server) (m : Packet) where
    fresh-Step :
        (l : Table) (g : Bucket) (id key : Bytes)
        → addressed c d s m.source m.payload ≡ true
        → timely (to_i64 (read_be (slice 192 200 m.payload))) m.now ≡ true
        → resolve c s.authorized (take 32 m.payload) (slice 96 128 m.payload) ≡ (id, key)
        → peer_id c key ≡ id
        → Steps s m (fresh c d (record s { limits = l; global = g }) m id key)
    unfolding fresh authenticate
    fresh-Step l g id key us time from named =
        if_cases (Steps s m) (member (replay_key c d id m.payload) s.replay)
          (λ _. rest refl refl refl (cached_session (find (is_repeat c d m) s.pending)))
          λ unseen.
            if_cases (Steps s m) (leb 19264 (length s.replay) || leb 256 (length s.pending))
              (λ _. rest refl refl refl refl)
              λ _.
                if_cases (Steps s m)
                  (not (
                    verify c key client_context (frame client_hello (take hello_size m.payload))
                      (drop hello_size m.payload)))
                  (λ _. rest refl refl refl refl)
                  λ signed. quota-Step s m id key l g (record {
                    to_us = us;
                    in_time = time;
                    resolved = from;
                    named = named;
                    unseen = unseen;
                    signed = not_eq_false _ signed;
                  })

    identify-Step :
        (l : Table)
        → addressed c d s m.source m.payload ≡ true
        → timely (to_i64 (read_be (slice 192 200 m.payload))) m.now ≡ true
        → Steps s m (identify c d (record s { limits = l }) m)
    unfolding identify
    identify-Step l us time =
        let found = resolve c s.authorized (take 32 m.payload) (slice 96 128 m.payload) in
        if_cases (Steps s m) ((length found.1 == 0) || not (bytes_eq (peer_id c found.1) found.0))
          (λ _. rest refl refl refl refl)
          λ known.
            if_cases (Steps s m) (not (allow s.global m.now 64).1) (λ _. rest refl refl refl refl)
              λ _.
                fresh-Step l (allow s.global m.now 64).0 found.0 found.1 us time refl
                  (ground (arith, bytes_eq_iff (peer_id c found.1) found.0))

    hello-Step : Steps s m (hello c d s m)
    unfolding hello
    hello-Step =
        if_cases (Steps s m) (not (addressed c d s m.source m.payload)) (λ _. idle refl)
          λ us.
            if_cases (Steps s m) (not (timely (to_i64 (read_be (slice 192 200 m.payload))) m.now))
              (λ _. idle refl)
              λ time.
                if_cases (Steps s m) (not (charge s.limits m.source m.now 4).1)
                  (λ _. rest refl refl refl refl)
                  λ _.
                    identify-Step (charge s.limits m.source m.now 4).0 (not_eq_false _ us)
                      (not_eq_false _ time)

  -- The handler refines the relation, whatever the packet.
  pub dispatch-Step :
      (s : Server) (kind : ℕ) (m : Packet) → let (t, r) = dispatch c d s kind m in Step s m t r
  unfolding dispatch
  dispatch-Step s kind m =
      if_cases (Steps s m) (kind == client_finish) (λ _. finish-Step s m)
        λ _. if_cases (Steps s m) (not (kind == client_hello)) (λ _. idle refl) λ _. hello-Step s m

  abbrev pub packet_of : Bytes → Bytes → Bytes → ℕ → Packet
  packet_of source packet b now = record { source = source; payload = b; whole = packet; now = now }

  -- A packet that is no frame changes nothing; any other meets a server without what has expired.
  pub handle-Step :
      (s : Server) (source packet : Bytes) (now : ℕ)
      → (handle c d s source packet now ≡ (s, silence))
        ⊎ ((kind : ℕ) × (b : Bytes) × (parse packet ≡ some (kind, b))
            × Step
                (expire s now)
                (packet_of source packet b now)
                (handle c d s source packet now).0
                (handle c d s source packet now).1)
  unfolding handle
  handle-Step s source packet now = elim (Option-cases (parse packet)) [
    | inl e ↦ inl (rw (e, handle))
    | inr ((kind, b), e) ↦ inr (
      kind,
      b,
      e,
      rw (e, handle) (dispatch-Step (expire s now) kind (packet_of source packet b now)),
    )
  ]
