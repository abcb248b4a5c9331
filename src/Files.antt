-- ===== src/Files.antt =====
-- The operating system's files, as the packages trust, config and control use them: Go's os and
-- path/filepath, which are not part of the repository. A state of the file system is of an unknown
-- type; what a theorem relies on is a record of laws.
pub mod Laws
use quantumcat.Base.{
  ℕ, Bytes, ascii, bytes_eq, bytes_eq_iff, Bool, true, false, ◌&&◌, ◌≡◌, ◌⊎◌, inl, inr, refl,
  Option, none, some, List, [], ◌∷◌, ◌++◌,
}

-- An absolute clean path, its last element first; the root is the empty list. `filepath.Join` with one
-- element is `◌∷◌`, and `filepath.Dir` is `parent`.
abbrev pub FilePath : Type 0
FilePath = List Bytes

abbrev pub parent : FilePath → FilePath
parent [] = []
parent (name ∷ path) = path

-- What the source reads of an os.FileInfo. `inode` is what os.SameFile compares.
pub record Info : Type 0 where
  pub is_symlink : Bool
  pub is_dir : Bool
  pub is_regular : Bool
  pub is_socket : Bool
  pub is_sticky : Bool
  pub perm : ℕ
  pub uid : ℕ
  pub inode : ℕ

-- An error for which os.IsNotExist holds, or another one.
pub data Refusal : Type 0 where
  missing : Refusal
  refused : Refusal

pub data Result {ℓ} (T : Type ℓ) : Type ℓ where
  err : Refusal → Result T
  ok : T → Result T

infixl 5 ◌>>=◌ ◌>>◌
abbrev pub ◌>>=◌ {ℓ ℓ'} : {T : Type ℓ} {U : Type ℓ'} → Result T → (T → Result U) → Result U
err why >>= next = err why
ok x >>= next = next x

-- For a call whose result is an error only.
abbrev pub ◌>>◌ {ℓ} : {U : Type ℓ} → Result (Unit {0}) → Result U → Result U
first >> next = first >>= λ done. next

pub Result-cases {ℓ} :
    {A : Type ℓ} (r : Result A) → ((a : A) × (r ≡ ok a)) ⊎ ((e : Refusal) × (r ≡ err e))
Result-cases (ok a) = inl (a, refl)
Result-cases (err e) = inr (e, refl)

-- A call that the rest succeeds after has succeeded.
pub >>=-eq-ok {ℓ ℓ'} :
    {T : Type ℓ} {U : Type ℓ'} (call : Result T) (next : T → Result U) {y : U}
    → (call >>= next) ≡ ok y
    → (x : T) × ((call ≡ ok x) × (next x ≡ ok y))
>>=-eq-ok (err why) next h = cc
>>=-eq-ok (ok x) next h = (x, (refl, h))

abbrev pub refuse_if : Bool → Result (Unit {0})
refuse_if true = err refused
refuse_if false = ok tt

pub refuse_if-eq-ok {ℓ} :
    {B : Type ℓ} (b : Bool) (k : Result B) {a : B}
    → (refuse_if b >> k) ≡ ok a
    → (b ≡ false) × (k ≡ ok a)
refuse_if-eq-ok true k h = cc
refuse_if-eq-ok false k h = (refl, h)

-- A directory's entry.
pub record Entry : Type 0 where
  pub name : Bytes
  pub entry_dir : Bool
  pub entry_socket : Bool

pub record Os : Type 1 where
  pub State : Type 0
  -- os.Geteuid
  pub euid : ℕ
  -- os.Lstat and os.Stat; the second follows symbolic links, like `eval_symlinks` and `open`.
  pub lstat : State → FilePath → Result Info
  pub stat : State → FilePath → Result Info
  pub eval_symlinks : State → FilePath → Result FilePath
  -- os.Open with the file's Stat, and the bytes of the file; their number is its size.
  pub open_file : State → FilePath → Result (Info × Bytes)
  pub read_dir : State → FilePath → Result (List Entry)
  -- The calls that change the state; the flag says that there was no error.
  pub mkdir_all : State → FilePath → State × Bool
  pub create : State → FilePath → Option State
  pub write_sync : State → FilePath → Bytes → State × Bool
  pub close_file : State → FilePath → State × Bool
  pub remove_file : State → FilePath → State
  pub rename : State → FilePath → FilePath → State × Bool
