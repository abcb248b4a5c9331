-- ===== src/Config/Tests/Memory.antt =====
-- A file system for the tests: a list of files without symbolic links or missing directories, where a
-- file appears when it is written.
use quantumcat.Base.{
  Bytes, bytes_eq, bytes_eq_iff, Bool, true, false, ◌&&◌, if◌then◌else◌, Option-cases, inl, inr,
  ◌≡◌, ◌↔◌, refl, ap, subst, Option, none, some, List, [], ◌∷◌, arith,
}
use quantumcat.Base.Assoc.{Eq, lookup, erase, lookup-erase}
use quantumcat.Files.{FilePath, Info, Result, ok, err, missing, Entry, Os}
use quantumcat.Files.Laws.{IsCreated, IsLawful}

unfoldable pub path_eq : FilePath → FilePath → Bool
path_eq [] [] = true
path_eq [] (b ∷ q) = false
path_eq (a ∷ p) [] = false
path_eq (a ∷ p) (b ∷ q) = bytes_eq a b && path_eq p q

pub path_eq_iff : (p q : FilePath) → (path_eq p q ≡ true) ↔ (p ≡ q)
unfolding path_eq
path_eq_iff [] [] = (λ h. refl, λ h. refl)
path_eq_iff [] (b ∷ q) = (λ h. absurd cc, λ h. absurd cc)
path_eq_iff (a ∷ p) [] = (λ h. absurd cc, λ h. absurd cc)
path_eq_iff (a ∷ p) (b ∷ q) = (
  λ h. ground (arith, bytes_eq_iff a b, path_eq_iff p q),
  λ h. ground (arith, bytes_eq_iff a b, path_eq_iff p q),
)

instance abbrev pub path_key : Eq FilePath
path_key = record { beq = path_eq; beq_iff = path_eq_iff }

abbrev pub Disk : Type 0
Disk = List (FilePath × (Info × Bytes))

unfoldable pub children : FilePath → Disk → List Entry
children d [] = []
children d (([], f) ∷ rest) = children d rest
children d ((name ∷ q, (i, body)) ∷ rest) =
    let later = children d rest in
    if path_eq q d
    then record { name = name; entry_dir = i.is_dir; entry_socket = i.is_socket } ∷ later
    else later

abbrev pub file_info : Info
file_info = record {
  is_symlink = false;
  is_dir = false;
  is_regular = true;
  is_socket = false;
  is_sticky = false;
  perm = 384;
  uid = 501;
  inode = 7;
}

abbrev pub dir_info : Info
dir_info = record file_info { is_dir = true; is_regular = false; perm = 448 }

abbrev pub or_missing {ℓ} : {A : Type ℓ} → Option A → Result A
or_missing none = err missing
or_missing (some a) = ok a

unfoldable pub lstat_disk : Disk → FilePath → Result Info
lstat_disk d p = elim (lookup p d) [ none ↦ err missing | some f ↦ ok f.0 ]

abbrev pub memory : Os
memory = record {
  State = Disk;
  euid = 501;
  lstat = lstat_disk;
  stat = lstat_disk;
  eval_symlinks = λ s p. ok p;
  open_file = λ s p. or_missing (lookup p s);
  read_dir = λ s p. ok (children p s);
  mkdir_all = λ s p. (s, true);
  create = λ s p. elim (lookup p s) [ none ↦ some s | some f ↦ none ];
  write_sync = λ s p body. ((p, (file_info, body)) ∷ s, true);
  close_file = λ s p. (s, true);
  remove_file = λ s p. erase p s;
  rename = λ s p q. (erase p s, true);
}

-- A path that has no file yet does not hide another one.
lookup-new :
    (s : Disk) (p q : FilePath) (f g : Info × Bytes)
    → lookup p s ≡ none
    → lookup q s ≡ some g
    → lookup q ((p, f) ∷ s) ≡ some g
unfolding lookup
lookup-new s p q f g free there = ground (arith, path_eq_iff p q)

module _ (s : Disk) (name : Bytes) (dir : FilePath) (body : Bytes)
    (free : lookup (name ∷ dir) s ≡ none) where
  abbrev grown : Disk
  grown = (name ∷ dir, (file_info, body)) ∷ s

  lstat_grown : (q : FilePath) (i : Info) → lstat_disk s q ≡ ok i → lstat_disk grown q ≡ ok i
  unfolding lstat_disk
  lstat_grown q i h = elim (Option-cases (lookup q s)) [
    | inl none_there ↦ absurd (ground arith)
    | inr (f, there) ↦
        rw (lstat_disk, lookup-new s (name ∷ dir) q (file_info, body) f free there) (ground arith)
  ]

  open_grown :
      (q : FilePath) (f : Info × Bytes)
      → or_missing (lookup q s) ≡ ok f
      → or_missing (lookup q grown) ≡ ok f
  open_grown q f h = elim (Option-cases (lookup q s)) [
    | inl none_there ↦ absurd (ground arith)
    | inr (g, there) ↦
        rw (lookup-new s (name ∷ dir) q (file_info, body) g free there) (ground arith)
  ]

  here : lookup (name ∷ dir) grown ≡ some (file_info, body)
  unfolding lookup
  here = ground (arith, path_eq_iff (name ∷ dir) (name ∷ dir))

  lstat_here : lstat_disk grown (name ∷ dir) ≡ ok file_info
  unfolding lstat_disk
  lstat_here = ap (λ o. elim o [ none ↦ err missing | some f ↦ ok f.0 ]) here

  listed_grown :
      (entries : List Entry)
      → children dir s ≡ entries
      → children dir grown
        ≡ record { name = name; entry_dir = false; entry_socket = false } ∷ entries
  unfolding children
  listed_grown entries h = ground (arith, path_eq_iff dir dir)

  created_lem : IsCreated memory s name dir body grown
  created_lem = record {
    extends = record {
      lstat_stays = lstat_grown;
      stat_stays = lstat_grown;
      eval_stays = λ p q h. h;
      open_stays = open_grown;
    };
    info = file_info;
    there = lstat_here;
    opened = rw here;
    regular = refl;
    no_symlink = refl;
    no_dir = refl;
    owner = refl;
    closed_to_others = refl;
    not_writable = refl;
    listed = λ entries h.
        let same : children dir s ≡ entries = cc in
        (
          [],
          (
            entries,
            (
              record { name = name; entry_dir = false; entry_socket = false },
              (refl, (refl, (refl, ap ok (listed_grown entries same)))),
            ),
          ),
        );
  }

IsCreated-case :
    (s t : Disk) (name : Bytes) (dir : FilePath) (body : Bytes)
    → memory.create s (name ∷ dir) ≡ some t
    → IsCreated memory s name dir body ((name ∷ dir, (file_info, body)) ∷ t)
IsCreated-case s t name dir body made = elim (Option-cases (lookup (name ∷ dir) s)) [
  | inl free ↦
      let same : s ≡ t = ground arith in
      subst (λ u. IsCreated memory s name dir body ((name ∷ dir, (file_info, body)) ∷ u)) same
        (created_lem s name dir body free)
  | inr (f, taken) ↦ absurd (ground arith)
]

pub memory-IsLawful : IsLawful memory
unfolding lstat_disk
memory-IsLawful = record {
  stat_plain = λ s p i h plain. h;
  mkdir_there = λ s p i h d. refl;
  created = λ s t name dir body made written closed. IsCreated-case s t name dir body made;
  renamed = λ s p q free h. ground (arith, lookup-erase p p s, path_eq_iff p p);
}
