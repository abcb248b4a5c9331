-- ===== src/Flows/Life/Subsequence.antt =====
-- Lists that are others with elements left out.
use quantumcat.Base.{subst, List, [], ◌∷◌, ◌++◌, append-nil, drop}

-- The first list is the second without some of its elements.
pub data IsSubsequence {ℓ} {A : Type ℓ} : List A → List A → Type ℓ where
  empty : IsSubsequence [] []
  keep : {xs ys : List A} (a : A) → IsSubsequence xs ys → IsSubsequence (a ∷ xs) (a ∷ ys)
  skip : {xs ys : List A} (a : A) → IsSubsequence xs ys → IsSubsequence xs (a ∷ ys)

module _ {ℓ} {A : Type ℓ} where
  pub keep_last :
      {xs ys : List A} (a : A)
      → IsSubsequence xs ys
      → IsSubsequence (xs ++ (a ∷ [])) (ys ++ (a ∷ []))
  keep_last a empty = keep a empty
  keep_last a (keep b h) = keep b (keep_last a h)
  keep_last a (skip b h) = skip b (keep_last a h)

  pub skip_last : {xs ys : List A} (a : A) → IsSubsequence xs ys → IsSubsequence xs (ys ++ (a ∷ []))
  skip_last a empty = skip a empty
  skip_last a (keep b h) = keep b (skip_last a h)
  skip_last a (skip b h) = skip b (skip_last a h)

  -- A subsequence of a subsequence.
  pub part_of :
      {ys zs : List A}
      → IsSubsequence ys zs
      → (xs : List A) → IsSubsequence xs ys
      → IsSubsequence xs zs
  part_of empty xs h = h
  part_of (skip a g) xs h = skip a (part_of g xs h)
  part_of (keep a g) xs (skip b h) = skip a (part_of g xs h)
  part_of (keep a g) (b ∷ xs) (keep c h) = keep a (part_of g xs h)

  pub whole : (xs : List A) → IsSubsequence xs xs
  whole [] = empty
  whole (a ∷ xs) = keep a (whole xs)

  pub nothing : (xs : List A) → IsSubsequence [] xs
  nothing [] = empty
  nothing (a ∷ xs) = skip a (nothing xs)

  pub after :
      (front : List A) {xs ys : List A}
      → IsSubsequence xs ys
      → IsSubsequence (front ++ xs) (front ++ ys)
  after [] h = h
  after (a ∷ front) h = keep a (after front h)

  pub before_same :
      {xs ys : List A} → IsSubsequence xs ys → (t : List A) → IsSubsequence (xs ++ t) (ys ++ t)
  before_same empty t = whole t
  before_same (keep a h) t = keep a (before_same h t)
  before_same (skip a h) t = skip a (before_same h t)

  pub shorter : (xs : List A) → IsSubsequence (drop 1 xs) xs
  shorter [] = empty
  shorter (a ∷ xs) = skip a (whole xs)

  pub front : (xs ys : List A) → IsSubsequence xs (xs ++ ys)
  front xs ys = subst (λ l. IsSubsequence l (xs ++ ys)) (append-nil xs) (after xs (nothing ys))
