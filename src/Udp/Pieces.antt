-- ===== src/Udp/Pieces.antt =====
-- The copy loop of `accept` in internal/proxy/udp_frame.go: all pieces in their places give the datagram.
use quantumcat.Base.{
  ℕ, zero, suc, ◌+◌, ◌-◌, ◌*◌, min, ◌≤◌, ◌<◌, ◌≡◌, refl, ap, sym, ◌∙◌, Bytes, List, [], ◌∷◌, ◌++◌,
  append_assoc, append-nil, length, length-append, length-take, length-replicate, take, drop,
  replicate, take_all, drop_all, take-append_left, drop-append_step, arith,
}
use native.Mathlib.Decide.{dec_le}
use native.Mathlib.Nat.{add-zero}
use quantumcat.Base.Indexed.{get_or}
use quantumcat.Udp.{copy_at, copy_chunks, piece, chunk_size}
use quantumcat.Udp.Header.{length-piece}

abbrev pub zeros : ℕ → Bytes
zeros n = replicate n 0

take_none : (n : ℕ) → take {A = ℕ} n [] ≡ []
take_none n = take_all n [] (omega arith)

take-add : (a b : ℕ) (xs : Bytes) → take (a + b) xs ≡ take a xs ++ take b (drop a xs)
take-add zero b xs = ap (λ n. take n xs) (omega arith)
take-add (suc a) b [] = take_none (suc a + b) ∙ sym (take_none b)
take-add (suc a) b (x ∷ xs) =
    let same : suc a + b ≡ suc (a + b) = omega arith in
    ap (λ n. take n (x ∷ xs)) same ∙ ap (◌∷◌ x) (take-add a b xs)

drop-zeros : (k n : ℕ) → drop k (zeros n) ≡ zeros (n - k)
drop-zeros zero n = ap zeros (omega arith)
drop-zeros (suc k) zero = let none_left : 0 ≡ 0 - suc k = omega arith in ap zeros none_left
drop-zeros (suc k) (suc n) = drop-zeros k n ∙ ap zeros (omega arith)

-- The buffer when the first `n` bytes of the datagram are there.
abbrev pub filled : Bytes → ℕ → Bytes
filled packet n = take n packet ++ zeros (length packet - n)

module _ (packet part : Bytes) (n : ℕ) (fits : n + length part ≤ length packet) where
  front : length (take n packet) ≡ n
  front = omega (arith, length-take n packet)

  whole : length (filled packet n) ≡ length packet
  whole = omega (
    arith,
    front,
    length-append (take n packet) (zeros (length packet - n)),
    length-replicate (length packet - n) (let zero_byte : ℕ = 0 in zero_byte),
  )

  back : drop (n + length part) (filled packet n) ≡ zeros (length packet - (n + length part))
  back =
      drop-append_step n (n + length part) (take n packet) _ front (omega arith)
      ∙ drop-zeros (n + length part - n) (length packet - n)
      ∙ ap zeros (omega arith)

  -- The next bytes of the datagram, copied behind the first ones.
  copy_at-filled :
      part ≡ take (length part) (drop n packet)
      → copy_at n part (filled packet n) ≡ filled packet (n + length part)
  unfolding copy_at
  copy_at-filled same = rw (
    take-append_left n (take n packet) (zeros (length packet - n)) front,
    take_all (length (filled packet n) - n) part (omega (arith, whole)),
    back,
    take-add n (length part) packet,
    ← same,
    append_assoc,
  )

take-length : (n : ℕ) (xs : Bytes) → take n xs ≡ take (length (take n xs)) xs
take-length zero xs = refl
take-length (suc n) [] = refl
take-length (suc n) (x ∷ xs) = ap (◌∷◌ x) (take-length n xs)

-- Where the piece of an index stands in the datagram.
abbrev offset : Bytes → ℕ → ℕ
offset packet i = min (i * chunk_size) (length packet)

piece_there :
    (packet : Bytes) (i : ℕ)
    → piece packet i ≡ take (length (piece packet i)) (drop (offset packet i) packet)
piece_there packet i = elim (dec_le (i * 1056) (length packet)) [
  | yes inside ↦
      let there : offset packet i ≡ i * 1056 = omega arith in
      rw there (unfold piece in take-length 1056 (drop (i * 1056) packet))
  | no outside ↦
      let empty : piece packet i ≡ [] =
        unfold piece in rw (drop_all (i * 1056) packet (omega arith)) in
      rw empty
]

offset-suc :
    (packet : Bytes) (i : ℕ) → offset packet i + length (piece packet i) ≡ offset packet (suc i)
offset-suc packet i = omega (arith, length-piece packet i)

copy_piece :
    (packet : Bytes) (i : ℕ)
    → copy_at (offset packet i) (piece packet i) (filled packet (offset packet i))
      ≡ filled packet (offset packet (suc i))
copy_piece packet i =
    copy_at-filled packet (piece packet i) (offset packet i) (omega (arith, length-piece packet i))
      (piece_there packet i)
    ∙ ap (filled packet) (offset-suc packet i)

-- The chunks of an array are the datagram's pieces from an index on.
abbrev pub ArePieces : Bytes → ℕ → List Bytes → Type 0
ArePieces packet i cs = (j : ℕ) → j < length cs → get_or cs j [] ≡ piece packet (i + j)

copy_chunks-filled :
    (packet : Bytes) (cs : List Bytes) (i : ℕ)
    → ArePieces packet i cs
    → copy_chunks cs i (length packet) (filled packet (offset packet i))
      ≡ filled packet (offset packet (i + length cs))
unfolding copy_chunks get_or
copy_chunks-filled packet [] i h = ap (λ n. filled packet (offset packet n)) (omega arith)
copy_chunks-filled packet (c ∷ cs) i h =
    let first : c ≡ piece packet i = h 0 (omega arith) ∙ ap (piece packet) (add-zero i) in
    rw (first, copy_piece packet i)
      (copy_chunks-filled packet cs (suc i)
          (λ j lt. h (suc j) (omega arith) ∙ ap (piece packet) (omega arith))
        ∙ ap (λ n. filled packet (offset packet n)) (omega arith))

-- All sixty-four places of a datagram of admissible size.
pub copy_chunks-whole :
    (packet : Bytes) (cs : List Bytes)
    → length packet ≤ 65507
    → length cs ≡ 64
    → ArePieces packet 0 cs
    → copy_chunks cs 0 (length packet) (zeros (length packet)) ≡ packet
copy_chunks-whole packet cs small n h =
    let nothing : offset packet 0 ≡ 0 = omega arith in
    let untouched : length packet - 0 ≡ length packet = omega arith in
    let start : zeros (length packet) ≡ filled packet (offset packet 0) = rw (nothing, untouched) in
    let all : offset packet (0 + length cs) ≡ length packet = omega arith in
    let none_left : length packet - length packet ≡ 0 = omega arith in
    ap (copy_chunks cs 0 (length packet)) start
    ∙ copy_chunks-filled packet cs 0 h
    ∙ ap (filled packet) all
    ∙ rw (none_left, take_all (length packet) packet (omega arith), append-nil packet)
