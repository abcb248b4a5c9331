-- ===== src/Base/Octets.antt =====
-- Byte strings as lists of numbers, Go's big-endian integers, and equality of byte strings.
use Prim.Native.Nat.{ℕ, ◌+◌, ◌*◌, ◌/◌, ◌%◌, ◌<◌}
use Prim.Native.Char.{code}
use Prim.Native.String.{String}
use mathlib.Core.Path.{◌≡◌, refl}
use mathlib.Core.Logic.{◌↔◌}
use mathlib.Core.Bool.{Bool, true, false}
use mathlib.Core.List.{List, [], ◌∷◌, ◌++◌}
use native.Mathlib.Omega.{arith}
use quantumcat.Base.Tests.{◌==◌, if◌then◌else◌}
use quantumcat.Base.Lists.{length}

abbrev pub Bytes : Type 0
Bytes = List ℕ

-- The bytes of an ASCII text.
abbrev pub ascii : String → Bytes
ascii String.[] = []
ascii (String.◌∷◌ c s) = code c ∷ ascii s

unfoldable pub bytes_eq : Bytes → Bytes → Bool
bytes_eq [] [] = true
bytes_eq [] (y ∷ ys) = false
bytes_eq (x ∷ xs) [] = false
bytes_eq (x ∷ xs) (y ∷ ys) = if x == y then bytes_eq xs ys else false

pub bytes_eq→eq : (a b : Bytes) → bytes_eq a b ≡ true → a ≡ b
unfolding bytes_eq
bytes_eq→eq [] [] h = refl
bytes_eq→eq [] (y ∷ ys) h = cc
bytes_eq→eq (x ∷ xs) [] h = cc
bytes_eq→eq (x ∷ xs) (y ∷ ys) h = ground (arith, bytes_eq→eq xs ys)

pub bytes_eq_self : (a : Bytes) → bytes_eq a a ≡ true
unfolding bytes_eq
bytes_eq_self [] = refl
bytes_eq_self (x ∷ xs) = ground (arith, bytes_eq_self xs)

pub bytes_eq_iff : (a b : Bytes) → (bytes_eq a b ≡ true) ↔ (a ≡ b)
bytes_eq_iff a b = (bytes_eq→eq a b, λ e. rw e (bytes_eq_self b))

-- binary.BigEndian.PutUint16, PutUint32 and PutUint64.
unfoldable pub put_u16 : ℕ → Bytes
put_u16 n = n / 256 % 256 ∷ n % 256 ∷ []

unfoldable pub put_u32 : ℕ → Bytes
unfolding put_u16
put_u32 n = put_u16 (n / 65536) ++ put_u16 n

unfoldable pub put_u64 : ℕ → Bytes
unfolding put_u32
put_u64 n = put_u32 (n / 4294967296) ++ put_u32 n

-- binary.BigEndian.Uint16, Uint32 and Uint64 of a slice of the right length.
read_acc : ℕ → Bytes → ℕ
read_acc acc [] = acc
read_acc acc (b ∷ bs) = read_acc (acc * 256 + b) bs

unfoldable pub read_be : Bytes → ℕ
unfolding read_acc
read_be bs = read_acc 0 bs

pub read_be-put_u16 : (n : ℕ) → n < 65536 → read_be (put_u16 n) ≡ n
unfolding read_be put_u16
read_be-put_u16 n h = omega arith

pub read_be-put_u32 : (n : ℕ) → n < 4294967296 → read_be (put_u32 n) ≡ n
unfolding read_be put_u32
read_be-put_u32 n h = omega arith

halves :
    (hi lo : ℕ)
    → read_be (put_u32 hi ++ put_u32 lo) ≡ hi % 4294967296 * 4294967296 + lo % 4294967296
unfolding read_be put_u32
halves hi lo = omega arith

pub read_be-put_u64 : (n : ℕ) → n < 18446744073709551616 → read_be (put_u64 n) ≡ n
unfolding put_u64
read_be-put_u64 n h = omega (arith, halves (n / 4294967296) n)

pub length-put_u16 : (n : ℕ) → length (put_u16 n) ≡ 2
unfolding put_u16
length-put_u16 n = refl

pub length-put_u32 : (n : ℕ) → length (put_u32 n) ≡ 4
unfolding put_u32
length-put_u32 n = refl

pub length-put_u64 : (n : ℕ) → length (put_u64 n) ≡ 8
unfolding put_u64
length-put_u64 n = refl
