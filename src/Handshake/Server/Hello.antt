-- ===== src/Handshake/Server/Hello.antt =====
-- The ClientHello branch of `Handle` in internal/protocol/handshake.go, stage by stage.
-- `Draws` is what the call takes from outside: the encapsulation key parser with `Encapsulate`,
-- the random nonce, and the signature of the identity provider; `none` is an error.
use quantumcat.Base.{
  ℕ, ◌+◌, ◌*◌, ◌/◌, Bytes, bytes_eq, read_be, Bool, false, not, ◌&&◌, ◌||◌, ◌==◌, ltb, leb,
  if◌then◌else◌, Option, none, some, [], ◌∷◌, length, take, drop, slice, find, count_if,
}
use quantumcat.Base.Int.{ℤ, sub_ℕ, to_i64, pos_part, neg_part}
use quantumcat.Base.Assoc.{lookup, insert, member, bytes_key}
use quantumcat.Crypto.{Crypto}
use quantumcat.Wire.{
  frame, join, peer_id, verify, transcript, client_hello, server_hello, client_context,
  server_context, hello_size,
}
use quantumcat.Handshake.{derive, proof, server_finished, ◌>>=◌}
use quantumcat.Handshake.Limits.{Bucket, Table, allow, evict_oldest, zero_bucket, second}
use quantumcat.Handshake.Server.{Server, Pending, Reply, silence, reply_with, resolve, zero_key}

pub record Draws : Type 0 where
  pub encapsulate : Bytes → Option (Bytes × Bytes)
  pub nonce : Option Bytes
  pub sign : Bytes → Bytes → Option Bytes

-- One ClientHello as `Handle` sees it: source, payload, whole packet, time.
pub record Packet : Type 0 where
  pub source : Bytes
  pub payload : Bytes
  pub whole : Bytes
  pub now : ℕ

-- Seconds from Go's zero time to the Unix epoch.
abbrev pub epoch : ℕ
epoch = 62135596800

unfoldable pub unix : ℕ → ℤ
unix now = sub_ℕ (now / second) epoch

-- Not `stamp < now.Unix()-120 || stamp > now.Unix()+120`. Clocks are taken to be far from the ends
-- of int64.
unfoldable pub timely : ℤ → ℕ → Bool
unfolding unix
timely stamp now =
    let t = unix now in
    not (
      ltb (pos_part stamp + neg_part t + 120) (pos_part t + neg_part stamp)
      || ltb (pos_part t + neg_part stamp + 120) (pos_part stamp + neg_part t))

abbrev pub bucket_at : Bytes → Table → Bucket
bucket_at key table = elim (lookup key table) [ none ↦ zero_bucket | some b ↦ b ]

-- Evict if the key is new and the table is full.
unfoldable pub make_room : Table → Bytes → Table
make_room table key =
    if not (member key table) && leb 4096 (length table) then evict_oldest table else table

-- Make room and charge the key's bucket; used for sources and for peers.
unfoldable pub charge : Table → Bytes → ℕ → ℕ → Table × Bool
charge table key now limit =
    let (b, granted) = allow (bucket_at key (make_room table key)) now limit in
    (insert key b (make_room table key), granted)

pub record Answer : Type 0 where
  pub hash : Bytes
  pub psk : Bytes
  pub hk : Bytes
  pub packet : Bytes

abbrev pub is_owned : Bytes → Bytes × Pending → Bool
is_owned id (h, p) = bytes_eq p.peer id

module _ (c : Crypto) (d : Draws) where
  -- The response and its secrets, from the unsigned hello on; `none` where a step fails.
  unfoldable pub answer : Server → Bytes → Option Answer
  answer s hello = do
    (ss, ct) ← d.encapsulate (drop 200 hello)
    nonce ← d.nonce
    let sid = peer_id c s.public
    let tb = (transcript c hello sid s.keys nonce ct).0
    let hash = (transcript c hello sid s.keys nonce ct).1
    (psk, hk) ← derive c ss hash
    sig ← d.sign server_context tb
    some (record {
      hash = hash;
      psk = psk;
      hk = hk;
      packet = frame server_hello (
          join (
            sid
            ∷ s.keys.wg
            ∷ s.keys.disco
            ∷ nonce
            ∷ ct
            ∷ sig
            ∷ proof c hk server_finished hash
            ∷ []));
    })

  abbrev pub replay_key : Bytes → Bytes → Bytes
  replay_key id b = c.sha384 (join (id ∷ slice 96 128 b ∷ []))

  -- The new entry of `s.pending`; it lives for 30 seconds.
  abbrev pub entry_of : Server → Packet → Bytes → Answer → Pending
  entry_of s m id a = record {
    ident = s.next;
    peer = id;
    keys = record { wg = slice 32 64 m.payload; disco = slice 64 96 m.payload };
    psk = a.psk;
    hash = a.hash;
    hk = a.hk;
    source = m.source;
    expires = m.now + 30 * second;
    accepted = false;
    installing = false;
    hello_hash = c.sha384 m.whole;
    response = a.packet;
  }

  unfoldable pub respond : Server → Packet → Bytes → Server × Reply
  respond s m id = elim (answer s (take hello_size m.payload)) [
    | none ↦ (s, silence)
    | some a ↦ (
      record s {
        pending = insert a.hash (entry_of s m id a) s.pending;
        replay = insert (replay_key id m.payload) (m.now + 300 * second) s.replay;
        next = s.next + 1;
      },
      reply_with a.packet,
    )
  ]

  -- The identity's own quotas, behind the signature.
  unfoldable pub quota : Server → Packet → Bytes → Server × Reply
  quota s m id =
      let (table, granted) = charge s.peer_limits id m.now 4 in
      let s' = record s { peer_limits = table } in
      if not granted
      then (s', silence)
      else if leb 8 (count_if (is_owned id) s.pending)
      then (s', silence)
      else respond s' m id

  unfoldable pub authenticate : Server → Packet → Bytes → Bytes → Server × Reply
  authenticate s m id key =
      let hello = take hello_size m.payload in
      if not (verify c key client_context (frame client_hello hello) (drop hello_size m.payload))
      then (s, silence)
      else quota s m id

  abbrev pub is_repeat : Packet → Bytes × Pending → Bool
  is_repeat m (h, p) = bytes_eq p.source m.source && bytes_eq p.hello_hash (c.sha384 m.whole)

  abbrev pub cached : Option (Bytes × Pending) → Reply
  cached none = silence
  cached (some (h, p)) = reply_with p.response

  -- The replay cache, and the bounds of both caches.
  unfoldable pub fresh : Server → Packet → Bytes → Bytes → Server × Reply
  fresh s m id key =
      if member (replay_key id m.payload) s.replay
      then (s, cached (find (is_repeat m) s.pending))
      else if leb 19264 (length s.replay) || leb 256 (length s.pending)
      then (s, silence)
      else authenticate s m id key

  unfoldable pub identify : Server → Packet → Server × Reply
  identify s m =
      let (id, key) = resolve c s.authorized (take 32 m.payload) (slice 96 128 m.payload) in
      if (length key == 0) || not (bytes_eq (peer_id c key) id)
      then (s, silence)
      else let (global, granted) = allow s.global m.now 64 in
        let s' = record s { global = global } in
        if not granted then (s', silence) else fresh s' m id key

  -- The payload names this source and this server, and has no reserved bytes set.
  unfoldable pub addressed : Server → Bytes → Bytes → Bool
  addressed s source b = not (
      not (bytes_eq source (slice 32 64 b))
      || (bytes_eq (slice 64 96 b) zero_key
          || (not (bytes_eq (slice 128 160 b) (peer_id c s.public))
              || not (bytes_eq (slice 160 192 b) zero_key))))

  unfoldable pub hello : Server → Packet → Server × Reply
  hello s m =
      if not (addressed s m.source m.payload)
      then (s, silence)
      else if not (timely (to_i64 (read_be (slice 192 200 m.payload))) m.now)
      then (s, silence)
      else let (table, granted) = charge s.limits m.source m.now 4 in
        let s' = record s { limits = table } in if not granted then (s', silence) else identify s' m
