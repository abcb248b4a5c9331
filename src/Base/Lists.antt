-- ===== src/Base/Lists.antt =====
-- Lists measured and indexed by native numbers, under the library's names.
use Prim.Native.Nat.{ℕ, zero, suc, ◌+◌, ◌-◌, ◌≤◌, min}
use mathlib.Core.Path.{◌≡◌, refl, ap, sym, ◌∙◌}
use mathlib.Core.Bool.{Bool, true, false}
use mathlib.Core.List.{List, [], ◌∷◌, ◌++◌, append_assoc}
use mathlib.Core.Option.{Option, none, some}
use native.Mathlib.Omega.{arith}
use quantumcat.Base.Tests.{if◌then◌else◌}

module _ {ℓ} {A : Type ℓ} where
  abbrev pub length : List A → ℕ
  length [] = 0
  length (x ∷ xs) = suc (length xs)

  abbrev pub take : ℕ → List A → List A
  take zero xs = []
  take (suc n) [] = []
  take (suc n) (x ∷ xs) = x ∷ take n xs

  abbrev pub drop : ℕ → List A → List A
  drop zero xs = xs
  drop (suc n) [] = []
  drop (suc n) (x ∷ xs) = drop n xs

  abbrev pub replicate : ℕ → A → List A
  replicate zero a = []
  replicate (suc n) a = a ∷ replicate n a

  -- Go's `b[i:j]`, where the bounds hold.
  unfoldable pub slice : ℕ → ℕ → List A → List A
  slice i j xs = take (j - i) (drop i xs)

  -- The elements that pass a Boolean test.
  unfoldable pub keep_if : (A → Bool) → List A → List A
  keep_if p [] = []
  keep_if p (x ∷ xs) = if p x then x ∷ keep_if p xs else keep_if p xs

  unfoldable pub any : (A → Bool) → List A → Bool
  any p [] = false
  any p (x ∷ xs) = if p x then true else any p xs

  unfoldable pub find : (A → Bool) → List A → Option A
  find p [] = none
  find p (x ∷ xs) = if p x then some x else find p xs

  unfoldable pub count_if : (A → Bool) → List A → ℕ
  count_if p [] = 0
  count_if p (x ∷ xs) = if p x then suc (count_if p xs) else count_if p xs

  abbrev pub All {κ} : (A → Type κ) → List A → Type κ
  All P [] = Unit {κ}
  All P (x ∷ xs) = P x × All P xs

module _ {ℓ} {A : Type ℓ} where
  pub length-append : (xs ys : List A) → length (xs ++ ys) ≡ length xs + length ys
  length-append [] ys = omega arith
  length-append (x ∷ xs) ys = omega (arith, length-append xs ys)

  pub length-replicate : (n : ℕ) (a : A) → length (replicate n a) ≡ n
  length-replicate zero a = refl
  length-replicate (suc n) a = ap suc (length-replicate n a)

  pub length-take : (n : ℕ) (xs : List A) → length (take n xs) ≡ min n (length xs)
  length-take zero xs = omega arith
  length-take (suc n) [] = omega arith
  length-take (suc n) (x ∷ xs) = omega (arith, length-take n xs)

  pub length-drop : (n : ℕ) (xs : List A) → length (drop n xs) ≡ length xs - n
  length-drop zero xs = omega arith
  length-drop (suc n) [] = omega arith
  length-drop (suc n) (x ∷ xs) = omega (arith, length-drop n xs)

  pub take-append-drop : (n : ℕ) (xs : List A) → take n xs ++ drop n xs ≡ xs
  take-append-drop zero xs = refl
  take-append-drop (suc n) [] = refl
  take-append-drop (suc n) (x ∷ xs) = rw (take-append-drop n xs)

  pub take_all : (n : ℕ) (xs : List A) → length xs ≤ n → take n xs ≡ xs
  take_all zero [] h = refl
  take_all zero (x ∷ xs) h = absurd (omega arith)
  take_all (suc n) [] h = refl
  take_all (suc n) (x ∷ xs) h = ap (◌∷◌ x) (take_all n xs (omega arith))

  pub drop_all : (n : ℕ) (xs : List A) → length xs ≤ n → drop n xs ≡ []
  drop_all zero [] h = refl
  drop_all zero (x ∷ xs) h = absurd (omega arith)
  drop_all (suc n) [] h = refl
  drop_all (suc n) (x ∷ xs) h = drop_all n xs (omega arith)

  pub take-append_left : (n : ℕ) (xs ys : List A) → length xs ≡ n → take n (xs ++ ys) ≡ xs
  take-append_left zero [] ys h = refl
  take-append_left zero (x ∷ xs) ys h = absurd (omega arith)
  take-append_left (suc n) [] ys h = absurd (omega arith)
  take-append_left (suc n) (x ∷ xs) ys h = ap (◌∷◌ x) (take-append_left n xs ys (omega arith))

  pub drop-append_left : (n : ℕ) (xs ys : List A) → length xs ≡ n → drop n (xs ++ ys) ≡ ys
  drop-append_left zero [] ys h = refl
  drop-append_left zero (x ∷ xs) ys h = absurd (omega arith)
  drop-append_left (suc n) [] ys h = absurd (omega arith)
  drop-append_left (suc n) (x ∷ xs) ys h = drop-append_left n xs ys (omega arith)

  pub drop-append_step :
      (n i : ℕ) (xs ys : List A) → length xs ≡ n → n ≤ i → drop i (xs ++ ys) ≡ drop (i - n) ys
  drop-append_step zero i [] ys h k = ap (λ m. drop m ys) (omega arith)
  drop-append_step zero i (x ∷ xs) ys h k = absurd (omega arith)
  drop-append_step (suc n) i [] ys h k = absurd (omega arith)
  drop-append_step (suc n) zero (x ∷ xs) ys h k = absurd (omega arith)
  drop-append_step (suc n) (suc i) (x ∷ xs) ys h k =
      drop-append_step n i xs ys (omega arith) (omega arith) ∙ ap (λ m. drop m ys) (omega arith)

  -- A slice that starts behind the first part of a concatenation.
  pub slice-append_step :
      (n i j : ℕ) (xs ys : List A)
      → length xs ≡ n
      → n ≤ i
      → slice i j (xs ++ ys) ≡ slice (i - n) (j - n) ys
  unfolding slice
  slice-append_step n i j xs ys h k =
      rw (drop-append_step n i xs ys h k) (ap (λ m. take m (drop (i - n) ys)) (omega arith))

  -- A slice that is the first part of a concatenation.
  pub slice-append_head : (j : ℕ) (xs ys : List A) → length xs ≡ j → slice 0 j (xs ++ ys) ≡ xs
  unfolding slice
  slice-append_head j xs ys h = take-append_left (j - 0) xs ys (omega arith)

  pub length-slice : (i j : ℕ) (xs : List A) → i ≤ j → j ≤ length xs → length (slice i j xs) ≡ j - i
  unfolding slice
  length-slice i j xs h k = omega (arith, length-take (j - i) (drop i xs), length-drop i xs)

  pub length-keep_if : (p : A → Bool) (xs : List A) → length (keep_if p xs) ≤ length xs
  unfolding keep_if
  length-keep_if p [] = omega arith
  length-keep_if p (x ∷ xs) = ground (arith, length-keep_if p xs)

  pub count_if-keep_if : (p q : A → Bool) (xs : List A) → count_if p (keep_if q xs) ≤ count_if p xs
  unfolding keep_if count_if
  count_if-keep_if p q [] = omega arith
  count_if-keep_if p q (x ∷ xs) = ground (arith, count_if-keep_if p q xs)

  pub keep_if-All {κ} :
      (P : A → Type κ) (p : A → Bool) (xs : List A) → All P xs → All P (keep_if p xs)
  unfolding keep_if
  keep_if-All P p [] h = tt
  keep_if-All P p (x ∷ xs) h =
      let rest = keep_if-All P p xs h.1 in
      elim (p x) as (λ b. All P (if b then x ∷ keep_if p xs else keep_if p xs)) [
        | true ↦ (h.0, rest)
        | false ↦ rest
      ]

  -- An element at some place of a list.
  abbrev pub Listed : A → List A → Type ℓ
  Listed e all = (a : List A) × ((b : List A) × (all ≡ a ++ (e ∷ b)))

  pub All-Listed : (all seen rest : List A) → all ≡ seen ++ rest → All (λ e. Listed e all) rest
  All-Listed all seen [] h = tt
  All-Listed all seen (e ∷ rest) h = (
    (seen, (rest, h)),
    All-Listed all (seen ++ (e ∷ [])) rest (h ∙ sym (append_assoc seen (e ∷ []) rest)),
  )
