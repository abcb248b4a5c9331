-- ===== src/Udp/Reassembly.antt =====
-- What `accept` of internal/proxy/udp_frame.go makes of the frames that `Write` sends, in any order.
use quantumcat.Base.{
  ℕ, zero, suc, ◌+◌, ◌-◌, ◌≤◌, ◌<◌, ◌≡◌, inl, inr, refl, ap, ◌∙◌, Bytes, Bool, true, false, not,
  ◌==◌, if◌then◌else◌, List, [], ◌∷◌, length, replicate, keep_if, arith, Bool-cases, All,
}
use quantumcat.Base.Assoc.{number_key}
use quantumcat.Base.Indexed.{get_or, set, length-set, get_or-set, get_or-replicate}
use quantumcat.Udp.{Assembly, piece, frame_count}

-- Whether an index is among those that arrived.
unfoldable pub holds : ℕ → List ℕ → Bool
holds i [] = false
holds i (j ∷ js) = if j == i then true else holds i js

-- The arrays of an assembly when the frames of these indices have arrived, the last one first.
unfoldable pub chunks_of : Bytes → List ℕ → List Bytes
chunks_of packet [] = replicate 64 []
chunks_of packet (i ∷ is) = set (chunks_of packet is) i (piece packet i)

unfoldable pub bits_of : List ℕ → List Bool
bits_of [] = replicate 64 false
bits_of (i ∷ is) = set (bits_of is) i true

abbrev pub partial : Bytes → List ℕ → ℕ → Assembly
partial packet is expires = record {
  chunks = chunks_of packet is;
  size = length packet;
  seen = bits_of is;
  remaining = frame_count (length packet) - length is;
  expires = expires;
}

pub length-chunks_of : (packet : Bytes) (is : List ℕ) → length (chunks_of packet is) ≡ 64
unfolding chunks_of
length-chunks_of packet [] = refl
length-chunks_of packet (i ∷ is) =
    length-set (chunks_of packet is) i (piece packet i) ∙ length-chunks_of packet is

length-bits_of : (is : List ℕ) → length (bits_of is) ≡ 64
unfolding bits_of
length-bits_of [] = refl
length-bits_of (i ∷ is) = length-set (bits_of is) i true ∙ length-bits_of is

-- A bit is set exactly for what arrived.
pub get_or-bits_of :
    (is : List ℕ) (j : ℕ) → All (λ i. i < 64) is → get_or (bits_of is) j false ≡ holds j is
unfolding bits_of holds
get_or-bits_of [] j h = get_or-replicate 64 j false
get_or-bits_of (i ∷ is) j h = ground (
  arith,
  get_or-set (bits_of is) i j true false (omega (arith, length-bits_of is, h.0)),
  get_or-bits_of is j h.1,
)

pub get_or-chunks_of :
    (packet : Bytes) (is : List ℕ) (j : ℕ)
    → All (λ i. i < 64) is
    → get_or (chunks_of packet is) j [] ≡ (if holds j is then piece packet j else [])
unfolding chunks_of holds
get_or-chunks_of packet [] j h = get_or-replicate 64 j []
get_or-chunks_of packet (i ∷ is) j h = elim (Bool-cases (i == j)) [
  | inl e ↦
      let same : i ≡ j = ground arith in
      get_or-set (chunks_of packet is) i j (piece packet i) []
        (omega (arith, length-chunks_of packet is, h.0))
      ∙ rw e (ap (piece packet) same)
  | inr e ↦
      get_or-set (chunks_of packet is) i j (piece packet i) []
        (omega (arith, length-chunks_of packet is, h.0))
      ∙ rw e (get_or-chunks_of packet is j h.1)
]

abbrev pub IsDistinct : List ℕ → Type 0
IsDistinct [] = Unit {0}
IsDistinct (i ∷ is) = (holds i is ≡ false) × IsDistinct is

without : ℕ → List ℕ → List ℕ
without n = keep_if (λ i. not (i == n))

holds-without : (n i : ℕ) (is : List ℕ) → holds i is ≡ false → holds i (without n is) ≡ false
unfolding without keep_if holds
holds-without n i [] h = refl
holds-without n i (j ∷ js) h = ground (arith, holds-without n i js)

without-IsDistinct : (n : ℕ) (is : List ℕ) → IsDistinct is → IsDistinct (without n is)
unfolding without keep_if
without-IsDistinct n [] h = tt
without-IsDistinct n (j ∷ js) h = elim (Bool-cases (not (j == n))) [
  | inl e ↦ rw (e, keep_if) (holds-without n j js h.0, without-IsDistinct n js h.1)
  | inr e ↦ rw (e, keep_if) (without-IsDistinct n js h.1)
]

without-below : (n : ℕ) (is : List ℕ) → All (λ i. i < suc n) is → All (λ i. i < n) (without n is)
unfolding without keep_if
without-below n [] h = tt
without-below n (j ∷ js) h = elim (Bool-cases (not (j == n))) [
  | inl e ↦ rw (e, keep_if) (ground arith, without-below n js h.1)
  | inr e ↦ rw (e, keep_if) (without-below n js h.1)
]

without_absent : (n : ℕ) (is : List ℕ) → holds n is ≡ false → length (without n is) ≡ length is
unfolding without keep_if holds
without_absent n [] h = refl
without_absent n (j ∷ js) h = ground (arith, without_absent n js)

length-without : (n : ℕ) (is : List ℕ) → IsDistinct is → length is ≤ length (without n is) + 1
unfolding without keep_if
length-without n [] h = omega arith
length-without n (j ∷ js) h = elim (Bool-cases (j == n)) [
  | inl e ↦
      let same : j ≡ n = ground arith in
      let gone : length (without n js) ≡ length js = without_absent n js (rw (← same) h.0) in
      rw (e, keep_if) (omega (arith, gone))
  | inr e ↦
      let ih : length js ≤ length (without n js) + 1 = length-without n js h.1 in
      rw (e, keep_if) (omega (arith, ih))
]

-- Distinct numbers below a bound are no more than the bound.
distinct_le : (n : ℕ) (is : List ℕ) → IsDistinct is → All (λ i. i < n) is → length is ≤ n
distinct_le zero [] d h = omega arith
distinct_le zero (j ∷ js) d h = absurd (omega arith)
distinct_le (suc n) is d h = omega (
  arith,
  length-without n is d,
  distinct_le n (without n is) (without-IsDistinct n is d) (without-below n is h),
)

-- So as many as the bound are all of them.
pub distinct_all :
    (n j : ℕ) (is : List ℕ)
    → IsDistinct is
    → All (λ i. i < n) is
    → length is ≡ n
    → j < n
    → holds j is ≡ true
distinct_all n j is d h e lt = elim (Bool-cases (holds j is)) [
  | inl there ↦ there
  | inr missing ↦ absurd (omega (arith, distinct_le n (j ∷ is) (missing, d) (lt, h)))
]
