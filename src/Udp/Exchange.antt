-- ===== src/Udp/Exchange.antt =====
-- internal/proxy/udp_frame.go: `Read` over a connection that brings the frames of `Write` in any order.
use quantumcat.Base.{
  ℕ, zero, suc, ◌+◌, ◌≤◌, ◌<◌, ◌≡◌, Bytes, none, some, List, [], ◌∷◌, ◌++◌, length, replicate,
  arith,
}
use quantumcat.Base.Assoc.{lookup, number_key}
use quantumcat.Udp.{
  Decoder, accept, data_frame, frame_count, assembly_lifetime, Incoming, arrived, received, read,
}
use quantumcat.Udp.Delivery.{feed, Arrives, feed_all}

-- The frames of these indices, each with the time it arrives.
unfoldable pub incoming : ℕ → Bytes → List (ℕ × ℕ) → List Incoming
incoming id packet [] = []
incoming id packet ((i, now) ∷ rest) =
    arrived (data_frame id packet i) now ∷ incoming id packet rest

read-feed :
    (n limit : ℕ) (d : Decoder) (id : ℕ) (packet : Bytes) (arrivals : List (ℕ × ℕ))
    → (feed d id packet arrivals).1 ≡ replicate n none ++ (some packet ∷ [])
    → length packet ≤ limit
    → read d limit (incoming id packet arrivals)
      ≡ ((feed d id packet arrivals).0, received packet, [])
unfolding read feed incoming
read-feed zero limit d id packet [] h room = absurd cc
read-feed (suc n) limit d id packet [] h room = absurd cc
read-feed zero limit d id packet ((i, now) ∷ []) h room =
    let out : (accept d (data_frame id packet i) now).1 ≡ some packet = cc in
    rw (read, out) (ground arith)
read-feed zero limit d id packet ((i, now) ∷ (x ∷ rest)) h room = absurd cc
read-feed (suc n) limit d id packet ((i, now) ∷ rest) h room =
    let ih = read-feed n limit (accept d (data_frame id packet i) now).0 id packet rest in
    let out : (accept d (data_frame id packet i) now).1 ≡ none = cc in
    let later : (feed (accept d (data_frame id packet i) now).0 id packet rest).1
        ≡ replicate n none ++ (some packet ∷ []) =
      cc in
    rw (read, out) (ih later room)

-- A datagram of at most 65507 bytes whose frames all arrive, each once and in any order, within two
-- seconds of the first one, is what a read into a large enough buffer returns, after the last of the
-- frames, whatever else the decoder holds; the decoder then holds nothing of it. The identifier is a
-- uint64 that the decoder does not hold before.
pub datagram_is_read :
    (d : Decoder) (limit id : ℕ) (packet : Bytes) (first now : ℕ) (rest : List (ℕ × ℕ))
    → id < 18446744073709551616
    → length packet ≤ 65507
    → length packet ≤ limit
    → lookup id d ≡ none
    → Arrives (frame_count (length packet)) (now + assembly_lifetime) [] ((first, now) ∷ rest)
    → length rest + 1 ≡ frame_count (length packet)
    → (d' : Decoder) × ((read d limit (incoming id packet ((first, now) ∷ rest))
          ≡ (d', received packet, []))
        × (lookup id d' ≡ none))
datagram_is_read d limit id packet first now rest hid small room unused h n =
    let all = feed_all d id packet first now rest hid small unused h n in
    (
      (feed d id packet ((first, now) ∷ rest)).0,
      (read-feed (length rest) limit d id packet ((first, now) ∷ rest) all.0 room, all.1),
    )
