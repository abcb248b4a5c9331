-- ===== src/Udp/Header.antt =====
-- The frames that `Write` of internal/proxy/udp_frame.go sends pass the checks of `accept`.
use quantumcat.Base.{
  ℕ, ◌+◌, ◌-◌, ◌*◌, min, ◌≤◌, ◌<◌, ◌≡◌, refl, ◌∙◌, Bytes, ascii, bytes_eq, read_be-put_u16,
  read_be-put_u64, put_u16, put_u64, some, length, length-take, length-drop, take_all, drop, slice,
  keep_if, arith,
}
use quantumcat.Udp.{
  Decoder, accept, accept_fields, with_assembly, data_frame, piece, frame_count, is_current,
}

pub length-piece :
    (packet : Bytes) (i : ℕ) → length (piece packet i) ≡ min 1056 (length packet - i * 1056)
unfolding piece
length-piece packet i =
    omega (arith, length-take 1056 (drop (i * 1056) packet), length-drop (i * 1056) packet)

pub length-data_frame :
    (id i : ℕ) (packet : Bytes) → length (data_frame id packet i) ≡ 16 + length (piece packet i)
unfolding data_frame put_u16 put_u64
length-data_frame id i packet = omega arith

id_field : (id i : ℕ) (packet : Bytes) → slice 4 12 (data_frame id packet i) ≡ put_u64 id
unfolding data_frame put_u16 put_u64 slice
id_field id i packet = refl

size_field :
    (id i : ℕ) (packet : Bytes) → slice 12 14 (data_frame id packet i) ≡ put_u16 (length packet)
unfolding data_frame put_u16 put_u64 slice
size_field id i packet = refl

index_field : (id i : ℕ) (packet : Bytes) → slice 14 16 (data_frame id packet i) ≡ put_u16 i
unfolding data_frame put_u16 put_u64 slice
index_field id i packet = refl

magic : (id i : ℕ) (packet : Bytes) → slice 0 4 (data_frame id packet i) ≡ ascii "QUD1"
unfolding data_frame slice
magic id i packet = refl

pub frame_count-le : (size : ℕ) → size ≤ 65507 → frame_count size ≤ 63
unfolding frame_count
frame_count-le size h = ground arith

-- The header reads back.
pub accept-data_frame :
    (all : Decoder) (id i now : ℕ) (packet : Bytes)
    → id < 18446744073709551616
    → length packet ≤ 65507
    → i < frame_count (length packet)
    → accept all (data_frame id packet i) now
      ≡ accept_fields
          (keep_if (is_current now) all)
          id
          (length packet)
          i
          (data_frame id packet i)
          now
unfolding accept
accept-data_frame all id i now packet hid hs hi =
    let small = frame_count-le (length packet) hs in
    rw
      (
        magic id i packet,
        id_field id i packet,
        size_field id i packet,
        index_field id i packet,
        read_be-put_u64 id hid,
        read_be-put_u16 (length packet) (omega arith),
        read_be-put_u16 i (omega arith),
      )
      (unfold bytes_eq in ground (arith, length-data_frame id i packet, length-piece packet i))

payload_of : (id i : ℕ) (packet : Bytes) → drop 16 (data_frame id packet i) ≡ piece packet i
unfolding data_frame put_u16 put_u64
payload_of id i packet = refl

-- A datagram of several frames goes on to its assembly.
pub accept-several :
    (all : Decoder) (id i now : ℕ) (packet : Bytes)
    → id < 18446744073709551616
    → length packet ≤ 65507
    → i < frame_count (length packet)
    → 1 < frame_count (length packet)
    → accept all (data_frame id packet i) now
      ≡ with_assembly (keep_if (is_current now) all) id (length packet) i (piece packet i) now
accept-several all id i now packet hid hs hi several =
    accept-data_frame all id i now packet hid hs hi
    ∙ unfold accept_fields in
      rw (payload_of id i packet)
        (ground (arith, length-data_frame id i packet, length-piece packet i))

-- A datagram of one frame comes out at once.
pub accept_single :
    (all : Decoder) (id now : ℕ) (packet : Bytes)
    → id < 18446744073709551616
    → length packet ≤ 1056
    → accept all (data_frame id packet 0) now ≡ (keep_if (is_current now) all, some packet)
unfolding frame_count
accept_single all id now packet hid hs =
    accept-data_frame all id 0 now packet hid (omega arith) (ground arith)
    ∙ unfold accept_fields in
      rw (payload_of id 0 packet)
        (ground (arith, length-data_frame id 0 packet, length-piece packet 0, whole))
  where
    whole : piece packet 0 ≡ packet
    whole = unfold piece in take_all 1056 packet hs
