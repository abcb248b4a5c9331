-- ===== src/Udp/Bounds.antt =====
-- The limits of internal/proxy/udp_frame.go: what the decoder keeps and what the writer sends.
use quantumcat.Base.{
  ℕ, zero, suc, ◌+◌, ◌-◌, ◌*◌, ◌%◌, min, ◌≤◌, ◌<◌, ◌≡◌, refl, Bytes, ascii, bytes_eq, slice, drop,
  true, false, not, ◌||◌, ◌==◌, ltb, leb, if_cases, Option, List, [], ◌∷◌, length, length-keep_if,
  keep_if, keep_if-All, arith, Option-cases, All, inl, inr,
}
use quantumcat.Base.Assoc.{
  lookup, member, insert, number_key, length-insert, lookup-insert_self, length-insert-member,
  length-erase, length-erase-member, lookup-member, insert-All, erase-All, lookup-All,
}
use quantumcat.Base.Indexed.{get_or}
use quantumcat.Udp.{
  Decoder, Assembly, accept, accept_fields, with_assembly, add_chunk, make_space, oldest_assembly,
  new_assembly, is_current, max_assemblies, max_datagram, frame_limit, frame_header, chunk_size,
  data_frame, frame_count, Connection, WriteResult, written, write_frames, write,
}
use quantumcat.Udp.Header.{length-piece, length-data_frame}

-- No deadline is Go's zero time.
abbrev HasDeadline : ℕ × Assembly → Type 0
HasDeadline (id, p) = 0 < p.expires

-- At most eight incomplete datagrams.
abbrev pub IsBounded : Decoder → Type 0
IsBounded d = (length d ≤ max_assemblies) × All HasDeadline d

member_later :
    (id k : ℕ) (a : Assembly) (d : Decoder) → member id d ≡ true → member id ((k, a) ∷ d) ≡ true
unfolding member
member_later id k a d h = ground arith

-- The assembly that is dropped is one that is there.
member-oldest_assembly :
    (d all : Decoder) (oldest expires : ℕ)
    → All HasDeadline d
    → ((k : ℕ) → member k d ≡ true → member k all ≡ true)
    → (0 < expires → member oldest all ≡ true)
    → 0 < expires + length d
    → member (oldest_assembly d oldest expires) all ≡ true
unfolding oldest_assembly member
member-oldest_assembly [] all oldest expires h within there some_left =
    there (omega (arith, some_left))
member-oldest_assembly ((k, a) ∷ rest) all oldest expires h within there some_left =
    let within' : (j : ℕ) → member j rest ≡ true → member j all ≡ true =
      λ j m. within j (ground arith) in
    let here =
      member-oldest_assembly rest all k a.expires h.1 within' (λ _. within k (ground arith))
        (omega (arith, h.0)) in
    if_cases (λ s. member s all ≡ true) ((expires == 0) || ltb a.expires expires) (λ e. here)
      (λ e.
        member-oldest_assembly rest all oldest expires h.1 within' there
          (let started : 0 < expires = ground arith in omega (arith, started)))

make_space-IsBounded :
    (d : Decoder)
    → IsBounded d
    → (length (make_space d) + 1 ≤ max_assemblies) × All HasDeadline (make_space d)
unfolding make_space
make_space-IsBounded d (few, h) =
    if_cases (λ s. (length s + 1 ≤ max_assemblies) × All HasDeadline s)
      (leb max_assemblies (length d))
      (λ full.
        let dropped = length-erase-member (oldest_assembly d 0 0) d (
          member-oldest_assembly d d 0 0 h (λ k m. m) (λ lt. absurd (omega arith))
            (ground arith)) in
        (omega (arith, dropped), erase-All HasDeadline (oldest_assembly d 0 0) d h))
      (λ e. (ground arith, h))

abbrev KeepsBound : Decoder × Option Bytes → Type 0
KeepsBound r = IsBounded r.0

add_chunk-IsBounded :
    (d : Decoder) (id size index : ℕ) (p : Assembly) (chunk : Bytes)
    → IsBounded d
    → member id d ≡ true
    → 0 < p.expires
    → IsBounded (add_chunk d id p size index chunk).0
unfolding add_chunk
add_chunk-IsBounded d id size index p chunk (few, h) there live =
    if_cases KeepsBound (not (p.size == size)) (λ e. (few, h))
      (λ e.
        if_cases KeepsBound (get_or p.seen index false) (λ e. (few, h))
          (λ e.
            if_cases KeepsBound (not (p.remaining - 1 == 0))
              (λ e. (
                omega (arith, length-insert-member id _ d there),
                insert-All HasDeadline id _ d (λ k. live) h,
              ))
              (λ e. (omega (arith, length-erase id d), erase-All HasDeadline id d h))))

with_assembly-IsBounded :
    (d : Decoder) (id size index now : ℕ) (chunk : Bytes)
    → IsBounded d
    → IsBounded (with_assembly d id size index chunk now).0
unfolding with_assembly
with_assembly-IsBounded d id size index now chunk v = elim (Option-cases (lookup id d)) [
  | inl missing ↦
      rw (with_assembly, missing)
        (let room = make_space-IsBounded d v in
          let p = new_assembly size now in
          let live : 0 < p.expires = omega arith in
          add_chunk-IsBounded (insert id p (make_space d)) id size index p chunk
            (
              omega (arith, length-insert id p (make_space d), room.0),
              insert-All HasDeadline id p (make_space d) (λ k. live) room.1,
            )
            (lookup-member id p _ (lookup-insert_self id p (make_space d))) live)
  | inr (p, found) ↦
      rw (with_assembly, found)
        (add_chunk-IsBounded d id size index p chunk v (lookup-member id p d found)
          (lookup-All HasDeadline id p d v.1 found).1)
]

accept_fields-IsBounded :
    (d : Decoder) (id size index : ℕ) (frame : Bytes) (now : ℕ)
    → IsBounded d
    → IsBounded (accept_fields d id size index frame now).0
unfolding accept_fields
accept_fields-IsBounded d id size index frame now v =
    if_cases KeepsBound (ltb max_datagram size) (λ e. v)
      (λ e.
        if_cases KeepsBound (leb (frame_count size) index) (λ e. v)
          (λ e.
            if_cases KeepsBound
              (not (length frame == frame_header + min chunk_size (size - index * chunk_size)))
              (λ e. v)
              (λ e.
                if_cases KeepsBound (frame_count size == 1) (λ e. v)
                  (λ e. with_assembly-IsBounded d id size index now (drop frame_header frame) v))))

-- Whatever arrives and whenever, an accepted or refused frame leaves at most eight incomplete
-- datagrams, each with a deadline after the zero time, when there were no more before.
pub accept-IsBounded :
    (d : Decoder) (frame : Bytes) (now : ℕ) → IsBounded d → IsBounded (accept d frame now).0
unfolding accept
accept-IsBounded d frame now (few, h) =
    let kept = keep_if (is_current now) d in
    let v : IsBounded kept = (
      omega (arith, length-keep_if (is_current now) d),
      keep_if-All HasDeadline (is_current now) d h,
    ) in
    if_cases KeepsBound
      (ltb (length frame) frame_header
        || (ltb frame_limit (length frame) || not (bytes_eq (slice 0 4 frame) (ascii "QUD1"))))
      (λ e. v) (λ e. accept_fields-IsBounded kept _ _ _ frame now v)

-- The frames of these indices, in order.
unfoldable pub frames_from : ℕ → ℕ → ℕ → Bytes → List Bytes
frames_from zero index id packet = []
frames_from (suc left) index id packet =
    data_frame id packet index ∷ frames_from left (suc index) id packet

write_frames_complete :
    (left index : ℕ) (conn : Connection) (id : ℕ) (packet : Bytes) (n : ℕ)
    → (write_frames left index conn id packet).1 ≡ written n
    → ((write_frames left index conn id packet).0 ≡ frames_from left index id packet)
      × (n ≡ length packet)
unfolding write_frames frames_from
write_frames_complete zero index conn id packet n h = (refl, ground arith)
write_frames_complete (suc left) index conn id packet n h =
    let ih = write_frames_complete left (suc index) conn id packet n in ground (arith, ih)

write_frames_short :
    (left index : ℕ) (conn : Connection) (id : ℕ) (packet : Bytes)
    → All (λ f. length f ≤ frame_limit) (write_frames left index conn id packet).0
unfolding write_frames
write_frames_short zero index conn id packet = tt
write_frames_short (suc left) index conn id packet =
    let short : length (data_frame id packet index) ≤ frame_limit =
      omega (arith, length-data_frame id index packet, length-piece packet index) in
    let later = write_frames_short left (suc index) conn id packet in
    elim (Option-cases (conn index (data_frame id packet index))) [
      | inl failed ↦ rw (write_frames, failed) (short, tt)
      | inr (n, took) ↦
          rw (write_frames, took)
            (if_cases (λ (r : List Bytes × WriteResult). All (λ f. length f ≤ frame_limit) r.0)
              (not (n == length (data_frame id packet index))) (λ e. (short, tt))
              (λ e. (short, later)))
    ]

-- Whatever the connection answers, and wherever the counter of identifiers stands, a write that
-- reports success has the number of the datagram's bytes, the datagram was no longer than 65507 bytes,
-- and all its frames reached the connection, in order, under the next identifier, the counter plus one
-- in 64 bits, which is what the counter is afterwards.
pub write_complete :
    (next : ℕ) (conn : Connection) (packet : Bytes) (n : ℕ)
    → (write next conn packet).2 ≡ written n
    → ((write next conn packet).0 ≡ (next + 1) % 18446744073709551616)
      × (((write next conn packet).1
            ≡ frames_from
                (frame_count (length packet))
                0
                ((next + 1) % 18446744073709551616)
                packet)
          × ((n ≡ length packet) × (length packet ≤ max_datagram)))
unfolding write
write_complete next conn packet n h =
    let id = (next + 1) % 18446744073709551616 in
    let all = write_frames_complete (frame_count (length packet)) 0 conn id packet n in
    if_cases
      (λ (r : ℕ × List Bytes × WriteResult).
        r.2 ≡ written n
        → (r.0 ≡ id)
          × ((r.1 ≡ frames_from (frame_count (length packet)) 0 id packet)
              × ((n ≡ length packet) × (length packet ≤ max_datagram))))
      (ltb max_datagram (length packet)) (λ e wrong. absurd cc)
      (λ e sent. (refl, ((all sent).0, ((all sent).1, ground arith)))) h

-- Whatever the connection answers, no frame of a write is longer than the tunnel carries.
pub write_short :
    (next : ℕ) (conn : Connection) (packet : Bytes)
    → All (λ f. length f ≤ frame_limit) (write next conn packet).1
unfolding write
write_short next conn packet =
    if_cases (λ (r : ℕ × List Bytes × WriteResult). All (λ f. length f ≤ frame_limit) r.1)
      (ltb max_datagram (length packet)) (λ e. tt)
      (λ e.
        write_frames_short (frame_count (length packet)) 0 conn ((next + 1) % 18446744073709551616)
          packet)
