-- ===== src/Udp.antt =====
-- internal/proxy/udp_frame.go: datagrams cut into frames of the tunnel's size and put together again.
-- The bit set `seen` is the list of its 64 bits, lowest first, and `chunks` is a list of 64 byte
-- strings, empty where the array has nil. Times are nanoseconds since Go's zero time.
pub mod Header
pub mod Pieces
pub mod Reassembly
pub mod Delivery
pub mod Bounds
pub mod Exchange
mod Tests
use quantumcat.Base.{
  ℕ, zero, suc, ◌+◌, ◌-◌, ◌*◌, ◌/◌, ◌%◌, min, Bytes, ascii, bytes_eq, read_be, put_u16, put_u64,
  Bool, true, false, not, ◌||◌, ◌==◌, ltb, leb, if◌then◌else◌, Option, none, some, List, [], ◌∷◌,
  ◌++◌, length, take, drop, replicate, slice, keep_if,
}
use quantumcat.Base.Assoc.{lookup, insert, erase, number_key}
use quantumcat.Base.Indexed.{get_or, set}

abbrev pub frame_header : ℕ
frame_header = 16

-- min(tailcat.MaxUDPPayload, udpInnerIPLimit-48) with 1232 and 1120.
abbrev pub frame_limit : ℕ
frame_limit = 1072

abbrev pub chunk_size : ℕ
chunk_size = 1056

abbrev pub max_assemblies : ℕ
max_assemblies = 8

-- Two seconds.
abbrev pub assembly_lifetime : ℕ
assembly_lifetime = 2000000000

abbrev pub max_datagram : ℕ
max_datagram = 65507

pub record Assembly : Type 0 where
  pub chunks : List Bytes
  pub size : ℕ
  pub seen : List Bool
  pub remaining : ℕ
  pub expires : ℕ

abbrev pub Decoder : Type 0
Decoder = List (ℕ × Assembly)

abbrev pub is_current : ℕ → ℕ × Assembly → Bool
is_current now (id, p) = ltb now p.expires

-- The number of frames of a datagram.
unfoldable pub frame_count : ℕ → ℕ
frame_count size =
    let count = (size + chunk_size - 1) / chunk_size in if count == 0 then 1 else count

-- The loop that looks for the assembly to drop, with its two variables.
unfoldable pub oldest_assembly : Decoder → ℕ → ℕ → ℕ
oldest_assembly [] oldest expires = oldest
oldest_assembly ((k, a) ∷ rest) oldest expires =
    if (expires == 0) || ltb a.expires expires
    then oldest_assembly rest k a.expires
    else oldest_assembly rest oldest expires

unfoldable pub make_space : Decoder → Decoder
make_space d = if leb max_assemblies (length d) then erase (oldest_assembly d 0 0) d else d

abbrev pub new_assembly : ℕ → ℕ → Assembly
new_assembly size now = record {
  chunks = replicate 64 [];
  size = size;
  seen = replicate 64 false;
  remaining = frame_count size;
  expires = now + assembly_lifetime;
}

-- `copy(data[offset:], src)`.
unfoldable pub copy_at : ℕ → Bytes → Bytes → Bytes
copy_at offset src bytes =
    take offset bytes ++ (take (length bytes - offset) src ++ drop (offset + length src) bytes)

unfoldable pub copy_chunks : List Bytes → ℕ → ℕ → Bytes → Bytes
copy_chunks [] i size bytes = bytes
copy_chunks (chunk ∷ rest) i size bytes =
    copy_chunks rest (suc i) size (copy_at (min (i * chunk_size) size) chunk bytes)

-- A frame's chunk for an assembly that is there; the assembly is a pointer into the map.
unfoldable pub add_chunk : Decoder → ℕ → Assembly → ℕ → ℕ → Bytes → Decoder × Option Bytes
add_chunk d id p size index chunk =
    if not (p.size == size)
    then (d, none)
    else if get_or p.seen index false
    then (d, none)
    else let chunks = set p.chunks index chunk in
      let p' = record p {
        chunks = chunks;
        seen = set p.seen index true;
        remaining = p.remaining - 1;
      } in
      if not (p.remaining - 1 == 0)
      then (insert id p' d, none)
      else (erase id d, some (copy_chunks chunks 0 size (replicate size 0)))

unfoldable pub with_assembly : Decoder → ℕ → ℕ → ℕ → Bytes → ℕ → Decoder × Option Bytes
with_assembly d id size index chunk now = elim (lookup id d) [
  | none ↦
      let p = new_assembly size now in add_chunk (insert id p (make_space d)) id p size index chunk
  | some p ↦ add_chunk d id p size index chunk
]

-- The header's fields are read: the checks of sizes, and a datagram of one frame.
unfoldable pub accept_fields : Decoder → ℕ → ℕ → ℕ → Bytes → ℕ → Decoder × Option Bytes
accept_fields d id size index frame now =
    if ltb max_datagram size
    then (d, none)
    else if leb (frame_count size) index
    then (d, none)
    else if not (length frame == frame_header + min chunk_size (size - index * chunk_size))
    then (d, none)
    else if frame_count size == 1
    then (d, some (drop frame_header frame))
    else with_assembly d id size index (drop frame_header frame) now

unfoldable pub accept : Decoder → Bytes → ℕ → Decoder × Option Bytes
accept all frame now =
    let d = keep_if (is_current now) all in
    if ltb (length frame) frame_header
      || (ltb frame_limit (length frame) || not (bytes_eq (slice 0 4 frame) (ascii "QUD1")))
    then (d, none)
    else accept_fields d (read_be (slice 4 12 frame)) (read_be (slice 12 14 frame))
        (read_be (slice 14 16 frame)) frame now

-- The part of a datagram that its frame of this index carries.
unfoldable pub piece : Bytes → ℕ → Bytes
piece packet index = take chunk_size (drop (index * chunk_size) packet)

unfoldable pub data_frame : ℕ → Bytes → ℕ → Bytes
data_frame id packet index =
    ascii "QUD1"
    ++ (put_u64 id ++ (put_u16 (length packet) ++ (put_u16 index ++ piece packet index)))

-- What the connection says to one frame: the number of bytes written, or `none` for an error.
abbrev pub Connection : Type 0
Connection = ℕ → Bytes → Option ℕ

pub data WriteResult : Type 0 where
  written : ℕ → WriteResult
  too_long : WriteResult
  conn_error : WriteResult
  short_write : WriteResult

-- The frames that reached the connection, in order, and the result; `left` counts the rounds.
unfoldable pub write_frames : ℕ → ℕ → Connection → ℕ → Bytes → List Bytes × WriteResult
write_frames zero index conn id packet = ([], written (length packet))
write_frames (suc left) index conn id packet =
    let frame = data_frame id packet index in
    let later = write_frames left (suc index) conn id packet in
    elim (conn index frame) [
      | none ↦ (frame ∷ [], conn_error)
      | some n ↦
          if not (n == length frame) then (frame ∷ [], short_write) else (frame ∷ later.0, later.1)
    ]

-- The state of `Write` is the last identifier, a uint64.
unfoldable pub write : ℕ → Connection → Bytes → ℕ × List Bytes × WriteResult
write next conn packet =
    if ltb max_datagram (length packet)
    then (next, [], too_long)
    else let id = (next + 1) % 18446744073709551616 in
      let sent = write_frames (frame_count (length packet)) 0 conn id packet in (id, sent.0, sent.1)

-- What the connection gives to one call of its `Read`: a frame, with the time after it, or an error.
pub data Incoming : Type 0 where
  arrived : Bytes → ℕ → Incoming
  failed : Incoming

pub data ReadResult : Type 0 where
  received : Bytes → ReadResult
  read_error : ReadResult
  short_buffer : ReadResult
  -- The call still waits for the connection.
  waiting : ReadResult

-- The buffer of the caller has `limit` bytes; what it does not use of the connection is left over.
unfoldable pub read : Decoder → ℕ → List Incoming → Decoder × ReadResult × List Incoming
read d limit [] = (d, waiting, [])
read d limit (failed ∷ rest) = ([], read_error, rest)
read d limit (arrived frame now ∷ rest) =
    let r = accept d frame now in
    let later = read r.0 limit rest in
    elim r.1 [
      | none ↦ later
      | some packet ↦
          if ltb limit (length packet)
          then (r.0, short_buffer, rest)
          else (r.0, received packet, rest)
    ]
