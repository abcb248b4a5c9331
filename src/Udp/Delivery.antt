-- ===== src/Udp/Delivery.antt =====
-- internal/proxy/udp_frame.go: what comes out when `accept` gets a datagram's frames one by one.
use quantumcat.Base.{
  ℕ, suc, ◌+◌, ◌-◌, ◌*◌, ◌≤◌, ◌<◌, ◌≡◌, refl, ap, sym, ◌∙◌, Bytes, Bool, true, false, Option, none,
  some, List, [], ◌∷◌, ◌++◌, length, replicate, drop_all, keep_if, arith, Bool-cases, All, inl, inr,
}
use native.Mathlib.Decide.{dec_le}
use quantumcat.Base.Assoc.{
  lookup, insert, erase, number_key, lookup-insert_self, lookup-keep_if, lookup-erase,
}
use quantumcat.Udp.{
  Decoder, Assembly, accept, with_assembly, add_chunk, make_space, data_frame, piece, frame_count,
  is_current, copy_chunks, new_assembly, assembly_lifetime,
}
use quantumcat.Udp.Header.{accept-several, accept_single, frame_count-le}
use quantumcat.Udp.Pieces.{zeros, copy_chunks-whole, ArePieces}
use quantumcat.Udp.Reassembly.{
  holds, chunks_of, bits_of, partial, length-chunks_of, get_or-bits_of, get_or-chunks_of,
  IsDistinct, distinct_all,
}

-- No chunk is missing when as many distinct frames have arrived as there are.
are_pieces :
    (packet : Bytes) (is : List ℕ)
    → length packet ≤ 65507
    → IsDistinct is
    → All (λ i. i < frame_count (length packet)) is
    → All (λ i. i < 64) is
    → length is ≡ frame_count (length packet)
    → ArePieces packet 0 (chunks_of packet is)
are_pieces packet is small d below inside n j lt =
    get_or-chunks_of packet is j inside ∙ elim (Bool-cases (holds j is)) [
      | inl there ↦ let start : 0 + j ≡ j = omega arith in rw (there, start)
      | inr missing ↦
          let start : 0 + j ≡ j = omega arith in rw (missing, start) (sym (nothing missing))
    ]
  where
    nothing : holds j is ≡ false → piece packet j ≡ []
    nothing missing = elim (dec_le (length packet) (j * 1056)) [
      | yes behind ↦ unfold piece in rw (drop_all (j * 1056) packet behind)
      | no before ↦
          let within : j < frame_count (length packet) = unfold frame_count in ground arith in
          absurd
            (let there = distinct_all (frame_count (length packet)) j is d below n within in cc)
    ]

module _ (packet : Bytes) (is : List ℕ) (d : Decoder) (id expires i : ℕ)
    (inside : All (λ i. i < 64) is) where
  add_known :
      holds i is ≡ true
      → add_chunk d id (partial packet is expires) (length packet) i (piece packet i) ≡ (d, none)
  unfolding add_chunk
  add_known there = ground (arith, get_or-bits_of is i inside)

  add_inner :
      holds i is ≡ false
      → length is + 1 < frame_count (length packet)
      → add_chunk d id (partial packet is expires) (length packet) i (piece packet i)
        ≡ (insert id (partial packet (i ∷ is) expires) d, none)
  unfolding add_chunk chunks_of bits_of
  add_inner fresh more =
      let left : frame_count (length packet) - length is - 1
          ≡ frame_count (length packet) - length (i ∷ is) =
        omega arith in
      rw (get_or-bits_of is i inside, fresh) (ground (arith, left))

  add_last :
      holds i is ≡ false
      → length is + 1 ≡ frame_count (length packet)
      → length packet ≤ 65507
      → IsDistinct is
      → i < frame_count (length packet)
      → All (λ j. j < frame_count (length packet)) is
      → add_chunk d id (partial packet is expires) (length packet) i (piece packet i)
        ≡ (erase id d, some packet)
  unfolding add_chunk chunks_of
  add_last fresh all small distinct lt below =
      let none_left : frame_count (length packet) - length is - 1 ≡ 0 = omega arith in
      let few = frame_count-le (length packet) small in
      let whole : copy_chunks (chunks_of packet (i ∷ is)) 0 (length packet) (zeros (length packet))
          ≡ packet =
        copy_chunks-whole packet (chunks_of packet (i ∷ is)) small
          (length-chunks_of packet (i ∷ is))
          (are_pieces packet (i ∷ is) small (fresh, distinct) (lt, below) (omega arith, inside)
            (omega arith)) in
      rw (get_or-bits_of is i inside, fresh) (ground (arith, none_left, whole))

-- Frames of one datagram reach a decoder, each with the time it arrives.
unfoldable pub feed : Decoder → ℕ → Bytes → List (ℕ × ℕ) → Decoder × List (Option Bytes)
feed d id packet [] = (d, [])
feed d id packet ((i, now) ∷ rest) =
    let r = accept d (data_frame id packet i) now in
    let later = feed r.0 id packet rest in (later.0, r.1 ∷ later.1)

-- Every frame is one of the datagram, comes once, and comes in time.
abbrev pub Arrives : ℕ → ℕ → List ℕ → List (ℕ × ℕ) → Type 0
Arrives count expires is [] = Unit {0}
Arrives count expires is ((i, now) ∷ rest) =
    (i < count) × ((holds i is ≡ false) × ((now < expires) × Arrives count expires (i ∷ is) rest))

gone : (id : ℕ) (d : Decoder) → lookup id (erase id d) ≡ none
gone id d = ground (arith, lookup-erase id id d)

module _ (packet : Bytes) (id expires : ℕ) where
  abbrev count : ℕ
  count = frame_count (length packet)

  known :
      (d : Decoder) (is : List ℕ) (now : ℕ)
      → now < expires
      → lookup id d ≡ some (partial packet is expires)
      → lookup id (keep_if (is_current now) d) ≡ some (partial packet is expires)
  known d is now early there =
      lookup-keep_if (is_current now) id (partial packet is expires) d (λ j. ground arith) there

  module _ (hid : id < 18446744073709551616) (small : length packet ≤ 65507)
      (several : 1 < count) where
    accept-known :
        (d : Decoder) (is : List ℕ) (i now : ℕ)
        → i < count
        → now < expires
        → lookup id d ≡ some (partial packet is expires)
        → accept d (data_frame id packet i) now
          ≡ add_chunk
              (keep_if (is_current now) d)
              id
              (partial packet is expires)
              (length packet)
              i
              (piece packet i)
    unfolding with_assembly add_chunk
    accept-known d is i now lt early there =
        accept-several d id i now packet hid small lt several
        ∙ rw (with_assembly, known d is now early there)

    inside : (is : List ℕ) → All (λ i. i < count) is → All (λ i. i < 64) is
    inside [] h = tt
    inside (i ∷ is) h = (omega (arith, frame_count-le (length packet) small), inside is h.1)

    -- The frames that are still to come: nothing until the last one, then the datagram.
    feed-rest :
        (d : Decoder) (is : List ℕ) (rest : List (ℕ × ℕ))
        → lookup id d ≡ some (partial packet is expires)
        → IsDistinct is
        → All (λ i. i < count) is
        → Arrives count expires is rest
        → length is + length rest ≡ count
        → length is < count
        → ((feed d id packet rest).1 ≡ replicate (length rest - 1) none ++ (some packet ∷ []))
          × (lookup id (feed d id packet rest).0 ≡ none)
    unfolding feed
    feed-rest d is [] there distinct below h n more = absurd (omega arith)
    feed-rest d is ((i, now) ∷ []) there distinct below (lt, (fresh, (early, _))) n more =
        let e : accept d (data_frame id packet i) now
            ≡ (erase id (keep_if (is_current now) d), some packet) =
          accept-known d is i now lt early there
          ∙ add_last packet is (keep_if (is_current now) d) id expires i (inside is below) fresh
              (omega arith) small distinct lt below in
        rw e (refl, gone id (keep_if (is_current now) d))
    feed-rest d is ((i, now) ∷ (x ∷ rest)) there distinct below (lt, (fresh, (early, h))) n more =
        let d' = insert id (partial packet (i ∷ is) expires) (keep_if (is_current now) d) in
        let e : accept d (data_frame id packet i) now ≡ (d', none) =
          accept-known d is i now lt early there
          ∙ add_inner packet is (keep_if (is_current now) d) id expires i (inside is below) fresh
              (omega arith) in
        let later =
          feed-rest d' (i ∷ is) (x ∷ rest)
            (lookup-insert_self id (partial packet (i ∷ is) expires) (keep_if (is_current now) d))
            (fresh, distinct) (lt, below) h (omega arith) (omega arith) in
        let shape : suc (suc (length rest)) - 1 ≡ suc (suc (length rest) - 1) = omega arith in
        rw (e, shape) (ap (◌∷◌ none) later.0, later.1)

lookup-keep_if-none :
    (q : ℕ × Assembly → Bool) (id : ℕ) (d : Decoder)
    → lookup id d ≡ none
    → lookup id (keep_if q d) ≡ none
unfolding lookup keep_if
lookup-keep_if-none q id [] h = refl
lookup-keep_if-none q id ((j, p) ∷ d) h = ground (arith, lookup-keep_if-none q id d)

new_assembly-partial :
    (packet : Bytes) (now : ℕ)
    → new_assembly (length packet) now ≡ partial packet [] (now + assembly_lifetime)
unfolding chunks_of bits_of
new_assembly-partial packet now =
    let none_yet : frame_count (length packet) ≡ frame_count (length packet) - 0 = omega arith in
    ap (λ r. record (new_assembly (length packet) now) { remaining = r }) none_yet

open_assembly :
    (d : Decoder) (packet : Bytes) (id i now : ℕ)
    → 1 < frame_count (length packet)
    → add_chunk
        (insert id (new_assembly (length packet) now) d)
        id
        (new_assembly (length packet) now)
        (length packet)
        i
        (piece packet i)
      ≡ (
        insert id
            (partial packet (i ∷ []) (now + assembly_lifetime))
            (insert id (new_assembly (length packet) now) d),
        none,
      )
unfolding holds
open_assembly d packet id i now several =
    ap
      (λ p.
        add_chunk (insert id (new_assembly (length packet) now) d) id p (length packet) i
          (piece packet i))
      (new_assembly-partial packet now)
    ∙ add_inner packet [] (insert id (new_assembly (length packet) now) d) id
        (now + assembly_lifetime) i tt refl (omega (arith, several))

-- The first frame of a datagram opens its assembly.
accept_first :
    (d : Decoder) (packet : Bytes) (id i now : ℕ)
    → id < 18446744073709551616
    → length packet ≤ 65507
    → 1 < frame_count (length packet)
    → i < frame_count (length packet)
    → lookup id d ≡ none
    → (lookup id (accept d (data_frame id packet i) now).0
        ≡ some (partial packet (i ∷ []) (now + assembly_lifetime)))
      × ((accept d (data_frame id packet i) now).1 ≡ none)
unfolding with_assembly add_chunk
accept_first d packet id i now hid small several lt unused =
    let kept = keep_if (is_current now) d in
    let e : accept d (data_frame id packet i) now ≡ (
      insert id (partial packet (i ∷ []) (now + assembly_lifetime))
          (insert id (new_assembly (length packet) now) (make_space kept)),
      none,
    ) =
      accept-several d id i now packet hid small lt several
      ∙ rw (with_assembly, lookup-keep_if-none (is_current now) id d unused)
          (open_assembly (make_space kept) packet id i now several) in
    rw e (lookup-insert_self id (partial packet (i ∷ []) (now + assembly_lifetime)) _, refl)

single : (size : ℕ) → frame_count size ≡ 1 → size ≤ 1056
unfolding frame_count
single size h = ground arith

-- Nothing comes out before the last frame, and then the datagram.
pub feed_all :
    (d : Decoder) (id : ℕ) (packet : Bytes) (first now : ℕ) (rest : List (ℕ × ℕ))
    → id < 18446744073709551616
    → length packet ≤ 65507
    → lookup id d ≡ none
    → Arrives (frame_count (length packet)) (now + assembly_lifetime) [] ((first, now) ∷ rest)
    → length rest + 1 ≡ frame_count (length packet)
    → ((feed d id packet ((first, now) ∷ rest)).1
        ≡ replicate (length rest) none ++ (some packet ∷ []))
      × (lookup id (feed d id packet ((first, now) ∷ rest)).0 ≡ none)
unfolding feed holds
feed_all d id packet first now [] hid small unused (lt, h) n =
    let zeroth : first ≡ 0 = omega arith in
    let short : length packet ≤ 1056 = single (length packet) (sym n) in
    rw (zeroth, accept_single d id now packet hid short)
      (refl, lookup-keep_if-none (is_current now) id d unused)
feed_all d id packet first now (x ∷ rest) hid small unused (lt, (fresh, (early, h))) n =
    let opened = accept_first d packet id first now hid small (omega arith) lt unused in
    let later =
      feed-rest packet id (now + assembly_lifetime) hid small (omega arith)
        (accept d (data_frame id packet first) now).0 (first ∷ []) (x ∷ rest) opened.0 (refl, tt)
        (lt, tt) h (omega arith) (omega arith) in
    let shape : suc (length rest) - 1 ≡ length rest = omega arith in
    rw opened.1 (ap (◌∷◌ none) (later.0 ∙ rw shape), later.1)
