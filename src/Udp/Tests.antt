-- ===== src/Udp/Tests.antt =====
-- Runs of internal/proxy/udp_frame.go, and the theorems at concrete inputs.
use quantumcat.Base.{
  ℕ, ◌≤◌, ◌≡◌, refl, Bytes, none, some, [], ◌∷◌, length, put_u64, replicate, arith,
}
use quantumcat.Base.Assoc.{lookup, number_key}
use quantumcat.Udp.{
  Decoder, accept, frame_count, max_datagram, write_frames, piece, read, received, write, written,
  conn_error, data_frame,
}
use quantumcat.Udp.Exchange.{incoming, datagram_is_read}
use quantumcat.Udp.Bounds.{IsBounded, accept-IsBounded, frames_from, write_complete}
use quantumcat.Udp.Reassembly.{holds}

-- Three frames.
abbrev packet : Bytes
packet = replicate 3000 7

three_frames : frame_count (length packet) ≡ 3
unfolding frame_count
three_frames = refl

-- The last frame comes first.
datagram_is_read_example :
    (d' : Decoder) × ((read [] 4096 (incoming 5 packet ((2, 10) ∷ ((0, 11) ∷ ((1, 12) ∷ []))))
        ≡ (d', received packet, []))
      × (lookup 5 d' ≡ none))
unfolding frame_count lookup holds
datagram_is_read_example =
    datagram_is_read [] 4096 5 packet 2 10 ((0, 11) ∷ ((1, 12) ∷ [])) (omega arith) (omega arith)
      (omega arith) refl
      (
        omega arith,
        (
          refl,
          (
            omega arith,
            (omega arith, (refl, (omega arith, (omega arith, (refl, (omega arith, tt)))))),
          ),
        ),
      )
      refl

-- A frame of another protocol.
accept-IsBounded_example : IsBounded (accept [] (replicate 20 1) 5).0
accept-IsBounded_example = accept-IsBounded [] (replicate 20 1) 5 (omega arith, tt)

abbrev one : ℕ
one = 1

sent : (write 8 (λ i f. some (length f)) (7 ∷ [])).2 ≡ written 1
unfolding write frame_count data_frame write_frames put_u64 piece
sent = refl

write_complete_example :
    ((write 8 (λ i f. some (length f)) (7 ∷ [])).0 ≡ 9)
    × (((write 8 (λ i f. some (length f)) (7 ∷ [])).1 ≡ frames_from 1 0 9 (7 ∷ []))
        × ((one ≡ one) × (1 ≤ max_datagram)))
unfolding frame_count
write_complete_example = write_complete 8 (λ i f. some (length f)) (7 ∷ []) 1 sent

refused : (write 8 (λ i f. none) (7 ∷ [])).2 ≡ conn_error
unfolding write frame_count write_frames
refused = refl
