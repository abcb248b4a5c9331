-- ===== src/Handshake/Server/Handle/Bounds.antt =====
-- The caches of `Server` in internal/protocol/handshake.go stay within their limits.
use quantumcat.Base.{
  ℕ, ◌+◌, ◌≤◌, ◌<◌, ◌≡◌, ◌≢◌, ◌⊎◌, Bytes, Bool, true, not, ◌&&◌, leb, some, length, All, keep_if,
  length-keep_if, keep_if-All, arith, Bool-cases, Option-cases, inl, inr, take, slice,
}
use quantumcat.Base.Assoc.{
  member, lookup, bytes_key, length-insert, length-insert-member, length-erase, insert-All,
  erase-All, lookup-member, lookup-keep_if,
}
use quantumcat.Crypto.{Crypto}
use quantumcat.Wire.{parse, hello_size}
use quantumcat.Handshake.Limits.{Bucket, Table, allow, refill}
use quantumcat.Handshake.Limits.Evict.{IsStarted, length-evict_oldest, evict_oldest-Evicts}
use quantumcat.Handshake.Server.{
  Server, Pending, Callback, expire, install_result, is_active, is_live, is_recent, resolve,
  zero_key,
}
use quantumcat.Handshake.Server.Finish.{finish, finish_pending, begin_install, is_kept}
use quantumcat.Handshake.Server.Hello.{
  Draws, Packet, hello, identify, fresh, authenticate, quota, respond, answer, charge, make_room,
  bucket_at, entry_of, replay_key,
}
use quantumcat.Handshake.Server.Handle.{dispatch, handle}

-- At most 256 handshakes are pending, 64 * 301 nonces are remembered, and 4096 buckets are kept for
-- sources and for peers, each with its time set.
pub record IsBounded (s : Server) : Type 0 where
  pub pending_256 : length s.pending ≤ 256
  pub replay_19264 : length s.replay ≤ 19264
  pub limits_4096 : length s.limits ≤ 4096
  pub peers_4096 : length s.peer_limits ≤ 4096
  pub limits_started : All IsStarted s.limits
  pub peers_started : All IsStarted s.peer_limits

-- The first part of each bound, without the buckets.
pub expire-IsBounded : (s : Server) (now : ℕ) → IsBounded s → IsBounded (expire s now)
unfolding expire
expire-IsBounded s now v = record {
  pending_256 = omega (arith, length-keep_if (is_live now) s.pending);
  replay_19264 = omega (arith, length-keep_if (is_recent now) s.replay);
  limits_4096 = omega (arith, length-keep_if (is_active now) s.limits);
  peers_4096 = omega (arith, length-keep_if (is_active now) s.peer_limits);
  limits_started = keep_if-All IsStarted (is_active now) s.limits v.limits_started;
  peers_started = keep_if-All IsStarted (is_active now) s.peer_limits v.peers_started;
}

allow_started : (b : Bucket) (now limit : ℕ) → 0 < now → (allow b now limit).0.start ≢ 0
unfolding allow refill
allow_started b now limit h = ground arith

abbrev IsTable : Table → Type 0
IsTable t = (length t ≤ 4096) × All IsStarted t

make_room-IsTable : (table : Table) (key : Bytes) → IsTable table → IsTable (make_room table key)
unfolding make_room
make_room-IsTable table key v =
    elim (Bool-cases (not (member key table) && leb 4096 (length table))) [
      | inl e ↦
          let ev = evict_oldest-Evicts table v.1 (ground arith) in
          rw (e, ev.erased)
            (omega (arith, length-erase ev.key table, v.0), erase-All IsStarted ev.key table v.1)
      | inr e ↦ rw e v
    ]

make_room_space :
    (table : Table) (key : Bytes)
    → IsTable table
    → (member key (make_room table key) ≡ true) ⊎ (length (make_room table key) < 4096)
unfolding make_room
make_room_space table key v = elim (Bool-cases (member key table)) [
  | inl e ↦ inl (rw (e, e))
  | inr e ↦ elim (Bool-cases (leb 4096 (length table))) [
    | inl full ↦
        inr (rw (e, full) (omega (arith, v.0, length-evict_oldest table v.1 (ground arith))))
    | inr space ↦ inr (rw (e, space) (ground arith))
  ]
]

-- A charged table keeps the limit: a new key takes an evicted one's place.
pub charge-IsTable :
    (table : Table) (key : Bytes) (now limit : ℕ)
    → 0 < now
    → IsTable table
    → IsTable (charge table key now limit).0
unfolding charge
charge-IsTable table key now limit h v =
    let room = make_room table key in
    let b = (allow (bucket_at key room) now limit).0 in
    (
      elim (make_room_space table key v) [
        | inl old ↦
            omega (arith, length-insert-member key b room old, (make_room-IsTable table key v).0)
        | inr space ↦ omega (arith, length-insert key b room)
      ],
      insert-All IsStarted key b room (λ j. allow_started (bucket_at key room) now limit h)
          (make_room-IsTable table key v).1,
    )

begin_install-IsBounded :
    (c : Crypto) (s : Server) (source h : Bytes) (p : Pending)
    → lookup h s.pending ≡ some p
    → IsBounded s
    → IsBounded (begin_install c s source h p).0
unfolding begin_install
begin_install-IsBounded c s source h p found v =
    let there = lookup-keep_if (is_kept p source) h p s.pending (λ j. ground arith) found in
    ground (
      arith,
      length-insert-member h (record p { installing = true }) (keep_if (is_kept p source) s.pending)
          (lookup-member h p _ there),
      length-keep_if (is_kept p source) s.pending,
    )

finish-IsBounded :
    (c : Crypto) (s : Server) (source b : Bytes) → IsBounded s → IsBounded (finish c s source b).0
unfolding finish finish_pending
finish-IsBounded c s source b v = elim (Option-cases (lookup (take 48 b) s.pending)) [
  | inl e ↦ rw (e, finish) v
  | inr (p, e) ↦
      rw (e, finish) (ground (arith, begin_install-IsBounded c s source (take 48 b) p e v))
]

-- There is room for one more handshake.
abbrev HasRoom : Server → Type 0
HasRoom s = (length s.pending < 256) × (length s.replay < 19264)

module _ (c : Crypto) (d : Draws) where
  respond-IsBounded :
      (s : Server) (m : Packet) (id : Bytes)
      → HasRoom s
      → IsBounded s
      → IsBounded (respond c d s m id).0
  unfolding respond
  respond-IsBounded s m id room v = elim (Option-cases (answer c d s (take hello_size m.payload))) [
    | inl e ↦ rw (e, respond) v
    | inr (a, e) ↦
        rw (e, respond)
          (record {
            pending_256 = omega (arith, length-insert a.hash (entry_of c d s m id a) s.pending);
            replay_19264 = omega (
              arith,
              length-insert (replay_key c d id m.payload) (m.now + 300000000000) s.replay,
            );
            limits_4096 = v.limits_4096;
            peers_4096 = v.peers_4096;
            limits_started = v.limits_started;
            peers_started = v.peers_started;
          })
  ]

  quota-IsBounded :
      (s : Server) (m : Packet) (id : Bytes)
      → 0 < m.now
      → HasRoom s
      → IsBounded s
      → IsBounded (quota c d s m id).0
  unfolding quota
  quota-IsBounded s m id t room v =
      let table = charge-IsTable s.peer_limits id m.now 4 t (v.peers_4096, v.peers_started) in
      let s' : Server = record s { peer_limits = (charge s.peer_limits id m.now 4).0 } in
      let v' : IsBounded s' = record {
        pending_256 = v.pending_256;
        replay_19264 = v.replay_19264;
        limits_4096 = v.limits_4096;
        peers_4096 = table.0;
        limits_started = v.limits_started;
        peers_started = table.1;
      } in
      ground (arith, v', respond-IsBounded s' m id room v')

  fresh-IsBounded :
      (s : Server) (m : Packet) (id key : Bytes)
      → 0 < m.now
      → IsBounded s
      → IsBounded (fresh c d s m id key).0
  unfolding fresh authenticate
  fresh-IsBounded s m id key t v = ground (arith, quota-IsBounded s m id t)

  identify-IsBounded :
      (s : Server) (m : Packet) → 0 < m.now → IsBounded s → IsBounded (identify c d s m).0
  unfolding identify
  identify-IsBounded s m t v =
      let (id, key) = resolve c s.authorized (take 32 m.payload) (slice 96 128 m.payload) in
      let s' : Server = record s { global = (allow s.global m.now 64).0 } in
      ground (arith, fresh-IsBounded s' m id key t)

  hello-IsBounded :
      (s : Server) (m : Packet) → 0 < m.now → IsBounded s → IsBounded (hello c d s m).0
  unfolding hello
  hello-IsBounded s m t v =
      let table = charge-IsTable s.limits m.source m.now 4 t (v.limits_4096, v.limits_started) in
      let s' : Server = record s { limits = (charge s.limits m.source m.now 4).0 } in
      let v' : IsBounded s' = record {
        pending_256 = v.pending_256;
        replay_19264 = v.replay_19264;
        limits_4096 = table.0;
        peers_4096 = v.peers_4096;
        limits_started = table.1;
        peers_started = v.peers_started;
      } in
      ground (arith, v', identify-IsBounded s' m t v')

  -- No packet, well formed or not, makes a cache outgrow its limit.
  pub handle-IsBounded :
      (s : Server) (source packet : Bytes) (now : ℕ)
      → 0 < now
      → IsBounded s
      → IsBounded (handle c d s source packet now).0
  unfolding handle dispatch
  handle-IsBounded s source packet now t v = elim (Option-cases (parse packet)) [
    | inl e ↦ rw (e, handle) v
    | inr ((kind, b), e) ↦
        let m : Packet = record { source = source; payload = b; whole = packet; now = now } in
        let w = expire-IsBounded s now v in
        rw (e, handle)
          (ground (
            arith,
            finish-IsBounded c (expire s now) source b w,
            hello-IsBounded (expire s now) m t w,
          ))
  ]

pub install_result-IsBounded :
    (s : Server) (cb : Callback) (done : Bool) → IsBounded s → IsBounded (install_result s cb done)
unfolding install_result
install_result-IsBounded s cb done v = elim (Option-cases (lookup cb.hash s.pending)) [
  | inl e ↦ rw (e, install_result) v
  | inr (p, e) ↦
      rw (e, install_result)
        (ground (
          arith,
          length-erase cb.hash s.pending,
          length-insert-member cb.hash (record p { psk = zero_key; accepted = true }) s.pending
              (lookup-member cb.hash p s.pending e),
        ))
]
