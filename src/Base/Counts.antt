-- ===== src/Base/Counts.antt =====
-- How many entries of a map pass a test, across writes, removals and filters.
use mathlib.Core.Path.{◌≡◌, refl}
use mathlib.Core.Logic.{inl, inr}
use mathlib.Core.Bool.{Bool, true, false}
use mathlib.Core.Option.{some}
use mathlib.Core.List.{List, [], ◌∷◌}
use Prim.Native.Nat.{◌+◌, ◌≤◌}
use native.Mathlib.Omega.{arith}
use quantumcat.Base.Tests.{if◌then◌else◌, Bool-cases}
use quantumcat.Base.Lists.{All, count_if, keep_if}
use quantumcat.Base.Assoc.{Eq, insert, erase, lookup}

module _ {ℓ} {A : Type ℓ} where
  pub count_if-le :
      (p q : A → Bool) (xs : List A)
      → All (λ x. p x ≡ true → q x ≡ true) xs
      → count_if p xs ≤ count_if q xs
  unfolding count_if
  count_if-le p q [] h = omega arith
  count_if-le p q (x ∷ xs) h = ground (arith, h.0, count_if-le p q xs h.1)

  pub count_if_none : (p : A → Bool) (xs : List A) → All (λ x. p x ≡ false) xs → count_if p xs ≡ 0
  unfolding count_if
  count_if_none p [] h = refl
  count_if_none p (x ∷ xs) h = ground (arith, h.0, count_if_none p xs h.1)

  pub All-keep_if : (q : A → Bool) (xs : List A) → All (λ x. q x ≡ true) (keep_if q xs)
  unfolding keep_if
  All-keep_if q [] = tt
  All-keep_if q (x ∷ xs) = let rest = All-keep_if q xs in keep_first (q x) refl rest
    where
      keep_first :
          (b : Bool)
          → q x ≡ b
          → All (λ y. q y ≡ true) (keep_if q xs)
          → All (λ y. q y ≡ true) (if b then x ∷ keep_if q xs else keep_if q xs)
      keep_first true e r = (e, r)
      keep_first false e r = r

  pub All-map {κ μ} :
      (P : A → Type κ) (Q : A → Type μ) (xs : List A) → ((x : A) → P x → Q x) → All P xs → All Q xs
  All-map P Q [] f h = tt
  All-map P Q (x ∷ xs) f h = (f x h.0, All-map P Q xs f h.1)

  -- Two predicates that hold of all give a third.
  pub All-both {κ μ ν} :
      (P : A → Type κ) (Q : A → Type ν) (R : A → Type μ) (xs : List A)
      → ((x : A) → P x → Q x → R x)
      → All P xs
      → All Q xs
      → All R xs
  All-both P Q R [] f h g = tt
  All-both P Q R (x ∷ xs) f h g = (f x h.0 g.0, All-both P Q R xs f h.1 g.1)

module _ {ℓ κ} {K : Type ℓ} {V : Type κ} ⦃e : Eq K⦄ (q : K × V → Bool) where
  pub count-insert :
      (k : K) (v : V) (m : List (K × V)) → count_if q (insert k v m) ≤ count_if q m + 1
  unfolding count_if insert
  count-insert k v [] = ground arith
  count-insert k v ((j, w) ∷ m) = ground (arith, count-insert k v m)

  pub count-insert_no :
      (k : K) (v : V) (m : List (K × V))
      → ((j : K) → q (j, v) ≡ false)
      → count_if q (insert k v m) ≤ count_if q m
  unfolding count_if insert
  count-insert_no k v [] h = ground (arith, h k)
  count-insert_no k v ((j, w) ∷ m) h = ground (arith, h j, count-insert_no k v m h)

  -- A write that does not change what the test says of the entry.
  pub count-insert_same :
      (k : K) (v u : V) (m : List (K × V))
      → lookup k m ≡ some u
      → ((j : K) → q (j, v) ≡ q (j, u))
      → count_if q (insert k v m) ≡ count_if q m
  unfolding count_if insert lookup
  count-insert_same k v u [] h s = cc
  count-insert_same k v u ((j, w) ∷ m) h s = ground (arith, s j, count-insert_same k v u m)

  pub count-erase : (k : K) (m : List (K × V)) → count_if q (erase k m) ≤ count_if q m
  unfolding count_if erase
  count-erase k [] = omega arith
  count-erase k ((j, w) ∷ m) = ground (arith, count-erase k m)

  count_zero : (m : List (K × V)) → count_if q m ≡ 0 → All (λ x. q x ≡ false) m
  unfolding count_if
  count_zero [] h = tt
  count_zero ((j, w) ∷ m) h = (ground arith, count_zero m (ground arith))

  count-lookup :
      (k : K) (u : V) (m : List (K × V))
      → lookup k m ≡ some u
      → ((j : K) → q (j, u) ≡ true)
      → 1 ≤ count_if q m
  unfolding count_if lookup
  count-lookup k u [] h t = cc
  count-lookup k u ((j, w) ∷ m) h t = ground (arith, t j, count-lookup k u m)

  -- A write to the one entry that passes the test.
  pub insert-All_only {μ} :
      (P : K × V → Type μ) (k : K) (v u : V) (m : List (K × V))
      → count_if q m ≤ 1
      → lookup k m ≡ some u
      → ((j : K) → q (j, u) ≡ true)
      → ((j : K) → P (j, v))
      → All (λ x. q x ≡ false → P x) m
      → All P (insert k v m)
  unfolding count_if insert lookup
  insert-All_only P k v u [] n found t p h = (p k, tt)
  insert-All_only P k v u ((j, w) ∷ m) n found t p h = elim (Bool-cases (e.beq j k)) [
    | inl hit ↦
        let same : w ≡ u = ground arith in
        rw hit (
          p j,
          All-both (λ x. q x ≡ false) (λ x. q x ≡ false → P x) P m (λ x f g. g f)
              (count_zero m (ground (arith, t j))) h.1,
        )
    | inr miss ↦
        let deeper : lookup k m ≡ some u = ground arith in
        rw miss (
          h.0 (ground (arith, count-lookup k u m deeper t)),
          insert-All_only P k v u m (ground arith) deeper t p h.1,
        )
  ]
