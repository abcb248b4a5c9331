-- ===== src/Wire/Framing.antt =====
-- `frame` and `parse` of internal/protocol/wire.go are inverse to one another.
use quantumcat.Base.{
  ℕ, ◌+◌, ◌*◌, ◌<◌, ◌≤◌, ◌≡◌, inl, inr, refl, ap, Bytes, ascii, bytes_eq, bytes_eq_iff, put_u16,
  read_be, read_be-put_u16, true, false, none, some, [], ◌∷◌, length, slice, All, arith, Bool-cases,
  Option-cases,
}
use quantumcat.Wire.{frame, parse, valid_frame, payload_size, byte_at, version}

-- Every payload that has a size is short enough for the length field.
pub payload_size-le : (kind n : ℕ) → payload_size kind ≡ some n → n ≤ 6395
unfolding payload_size
payload_size-le kind n h = ground arith

valid_frame-frame :
    (kind : ℕ) (payload : Bytes)
    → payload_size kind ≡ some (length payload)
    → valid_frame (frame kind payload) ≡ true
unfolding valid_frame frame slice put_u16 bytes_eq byte_at
valid_frame-frame kind payload h =
    ground (arith, payload_size-le kind (length payload) h, read_be-put_u16 (length payload))

-- A payload of the size that its type prescribes comes back from its frame.
pub parse-frame :
    (kind : ℕ) (payload : Bytes)
    → payload_size kind ≡ some (length payload)
    → parse (frame kind payload) ≡ some (kind, payload)
unfolding parse
parse-frame kind payload h =
    rw (valid_frame-frame kind payload h) (unfold frame put_u16 byte_at in refl)

abbrev pub IsByte : ℕ → Type 0
IsByte b = b < 256

-- The checks of `valid_frame`, read off the eight bytes of a header.
header_fields :
    (a b c d v k h l : ℕ) (rest : Bytes)
    → valid_frame (a ∷ b ∷ c ∷ d ∷ v ∷ k ∷ h ∷ l ∷ rest) ≡ true
    → (a ∷ b ∷ c ∷ d ∷ [] ≡ ascii "QCAT")
      × (v ≡ version)
      × (h * 256 + l ≡ length rest)
      × (payload_size k ≡ some (length rest))
unfolding valid_frame slice read_be byte_at
header_fields a b c d v k h l rest e = elim (Option-cases (payload_size k)) [
  | inl none_ ↦ ground (arith, bytes_eq_iff (a ∷ b ∷ c ∷ d ∷ []) (ascii "QCAT"))
  | inr (n, some_) ↦ ground (arith, bytes_eq_iff (a ∷ b ∷ c ∷ d ∷ []) (ascii "QCAT"))
]

short_frame : (b : Bytes) → length b < 8 → valid_frame b ≡ false
unfolding valid_frame
short_frame b h = ground arith

length_bytes : (h l : ℕ) → h < 256 → l < 256 → put_u16 (h * 256 + l) ≡ h ∷ l ∷ []
unfolding put_u16
length_bytes h l p q = ground arith

parse_short : (b : Bytes) → length b < 8 → parse b ≡ none
unfolding parse
parse_short b h = rw (short_frame b h)

module _ (a b c d v k h l : ℕ) (rest : Bytes) where
  whole_frame :
      h < 256
      → l < 256
      → valid_frame (a ∷ b ∷ c ∷ d ∷ v ∷ k ∷ h ∷ l ∷ rest) ≡ true
      → a ∷ b ∷ c ∷ d ∷ v ∷ k ∷ h ∷ l ∷ rest ≡ frame k rest
  unfolding frame
  whole_frame p q good =
      let f = header_fields a b c d v k h l rest good in
      cc (f.0, f.1, ap put_u16 f.2, length_bytes h l p q)

-- Whatever `parse` accepts is the frame of what it returns, at the size its type prescribes.
pub frame-parse :
    (b payload : Bytes) (kind : ℕ)
    → All IsByte b
    → parse b ≡ some (kind, payload)
    → (b ≡ frame kind payload) × (payload_size kind ≡ some (length payload))
frame-parse (a ∷ b ∷ c ∷ d ∷ v ∷ k ∷ h ∷ l ∷ rest) payload kind bytes e =
    elim (Bool-cases (valid_frame (a ∷ b ∷ c ∷ d ∷ v ∷ k ∷ h ∷ l ∷ rest))) [
      | inl good ↦
          unfold parse byte_at in
          (
            cc (whole_frame a b c d v k h l rest (omega arith) (omega arith) good, good),
            cc ((header_fields a b c d v k h l rest good).3, good),
          )
      | inr bad ↦ unfold parse in cc
    ]
frame-parse b payload kind bytes e = cc (parse_short b (omega arith))
