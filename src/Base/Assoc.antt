-- ===== src/Base/Assoc.antt =====
-- Go's maps as association lists: a lookup takes the first entry of a key, and a write replaces it.
use mathlib.Core.Path.{◌≡◌, refl, subst}
use mathlib.Core.Logic.{◌↔◌, inl, inr}
use mathlib.Core.Bool.{Bool, true, false}
use mathlib.Core.Option.{Option, none, some}
use mathlib.Core.List.{List, [], ◌∷◌}
use Prim.Native.Nat.{ℕ, ◌+◌, ◌≤◌}
use native.Mathlib.Omega.{arith}
use quantumcat.Base.Tests.{◌==◌, ==_iff, if◌then◌else◌, Bool-cases}
use quantumcat.Base.Lists.{length, All, keep_if}
use quantumcat.Base.Octets.{Bytes, bytes_eq, bytes_eq_iff}

-- Keys that the program compares with `==`.
pub record Eq {ℓ} (K : Type ℓ) : Type ℓ where
  pub beq : K → K → Bool
  pub beq_iff : (j k : K) → (beq j k ≡ true) ↔ (j ≡ k)

instance abbrev pub bytes_key : Eq Bytes
bytes_key = record { beq = bytes_eq; beq_iff = bytes_eq_iff }

instance abbrev pub number_key : Eq ℕ
number_key = record { beq = ◌==◌; beq_iff = ==_iff }

module _ {ℓ κ} {K : Type ℓ} {V : Type κ} ⦃e : Eq K⦄ where
  unfoldable pub lookup : K → List (K × V) → Option V
  lookup k [] = none
  lookup k ((j, v) ∷ m) = if e.beq j k then some v else lookup k m

  unfoldable pub insert : K → V → List (K × V) → List (K × V)
  insert k v [] = (k, v) ∷ []
  insert k v ((j, w) ∷ m) = if e.beq j k then (j, v) ∷ m else (j, w) ∷ insert k v m

  unfoldable pub erase : K → List (K × V) → List (K × V)
  erase k [] = []
  erase k ((j, v) ∷ m) = if e.beq j k then erase k m else (j, v) ∷ erase k m

  unfoldable pub member : K → List (K × V) → Bool
  member k [] = false
  member k ((j, v) ∷ m) = if e.beq j k then true else member k m

  pub length-insert : (k : K) (v : V) (m : List (K × V)) → length (insert k v m) ≤ length m + 1
  unfolding insert
  length-insert k v [] = omega arith
  length-insert k v ((j, w) ∷ m) = ground (arith, length-insert k v m)

  -- A write to a key that is there does not grow the map.
  pub length-insert-member :
      (k : K) (v : V) (m : List (K × V)) → member k m ≡ true → length (insert k v m) ≡ length m
  unfolding insert member
  length-insert-member k v [] h = cc
  length-insert-member k v ((j, w) ∷ m) h = ground (arith, length-insert-member k v m)

  pub length-erase : (k : K) (m : List (K × V)) → length (erase k m) ≤ length m
  unfolding erase
  length-erase k [] = omega arith
  length-erase k ((j, v) ∷ m) = ground (arith, length-erase k m)

  -- Removing a key that is there makes room.
  pub length-erase-member :
      (k : K) (m : List (K × V)) → member k m ≡ true → length (erase k m) + 1 ≤ length m
  unfolding erase member
  length-erase-member k [] h = cc
  length-erase-member k ((j, v) ∷ m) h = ground (arith, length-erase k m, length-erase-member k m)

  pub lookup-insert :
      (k j : K) (v : V) (m : List (K × V))
      → lookup j (insert k v m) ≡ (if e.beq k j then some v else lookup j m)
  unfolding lookup insert
  lookup-insert k j v [] = refl
  lookup-insert k j v ((i, w) ∷ m) =
      ground (arith, e.beq_iff k j, e.beq_iff i k, e.beq_iff i j, lookup-insert k j v m)

  pub lookup-insert_self : (k : K) (v : V) (m : List (K × V)) → lookup k (insert k v m) ≡ some v
  lookup-insert_self k v m = rw (lookup-insert k k v m, (e.beq_iff k k).1 refl)

  pub lookup-erase :
      (k j : K) (m : List (K × V)) → lookup j (erase k m) ≡ (if e.beq k j then none else lookup j m)
  unfolding lookup erase
  lookup-erase k j [] = ground arith
  lookup-erase k j ((i, w) ∷ m) =
      ground (arith, e.beq_iff k j, e.beq_iff i k, e.beq_iff i j, lookup-erase k j m)

  pub insert-All {μ} :
      (P : K × V → Type μ) (k : K) (v : V) (m : List (K × V))
      → ((j : K) → P (j, v))
      → All P m
      → All P (insert k v m)
  unfolding insert
  insert-All P k v [] p h = (p k, tt)
  insert-All P k v ((j, w) ∷ m) p h =
      let rest = insert-All P k v m p h.1 in
      elim (e.beq j k) as (λ b. All P (if b then (j, v) ∷ m else (j, w) ∷ insert k v m)) [
        | true ↦ (p j, h.1)
        | false ↦ (h.0, rest)
      ]

  pub erase-All {μ} : (P : K × V → Type μ) (k : K) (m : List (K × V)) → All P m → All P (erase k m)
  unfolding erase
  erase-All P k [] h = tt
  erase-All P k ((j, w) ∷ m) h =
      let rest = erase-All P k m h.1 in
      elim (e.beq j k) as (λ b. All P (if b then erase k m else (j, w) ∷ erase k m)) [
        | true ↦ rest
        | false ↦ (h.0, rest)
      ]

  pub lookup-member : (k : K) (v : V) (m : List (K × V)) → lookup k m ≡ some v → member k m ≡ true
  unfolding lookup member
  lookup-member k v [] h = cc
  lookup-member k v ((j, w) ∷ m) h = ground (arith, lookup-member k v m)

  -- An entry that a filter keeps under every key is still found.
  pub lookup-keep_if :
      (q : K × V → Bool) (k : K) (v : V) (m : List (K × V))
      → ((j : K) → q (j, v) ≡ true)
      → lookup k m ≡ some v
      → lookup k (keep_if q m) ≡ some v
  unfolding lookup keep_if
  lookup-keep_if q k v [] p h = cc
  lookup-keep_if q k v ((j, w) ∷ m) p h = ground (arith, p j, lookup-keep_if q k v m p)

  pub lookup-All {μ} :
      (P : K × V → Type μ) (k : K) (v : V) (m : List (K × V))
      → All P m
      → lookup k m ≡ some v
      → (j : K) × P (j, v)
  unfolding lookup
  lookup-All P k v [] h found = cc
  lookup-All P k v ((j, w) ∷ m) h found = elim (Bool-cases (e.beq j k)) [
    | inl hit ↦ let same : w ≡ v = ground arith in (j, subst (λ x. P (j, x)) same h.0)
    | inr miss ↦ lookup-All P k v m h.1 (ground arith)
  ]
