-- ===== src/Files/Laws.antt =====
-- What the store relies on of the operating system: documented behaviour of Go's os package on a file
-- system that nothing else changes meanwhile.
use Prim.Native.Nat.{bit_and}
use quantumcat.Base.{Bytes, true, false, ◌≡◌, some, List, ◌∷◌, ◌++◌}
use quantumcat.Files.{FilePath, Info, ok, err, missing, Entry, Os}

module _ (os : Os) where
  -- What was there is still there and the same.
  pub record Extends (s t : os.State) : Type 0 where
    pub lstat_stays : (p : FilePath) (i : Info) → os.lstat s p ≡ ok i → os.lstat t p ≡ ok i
    pub stat_stays : (p : FilePath) (i : Info) → os.stat s p ≡ ok i → os.stat t p ≡ ok i
    pub eval_stays : (p q : FilePath) → os.eval_symlinks s p ≡ ok q → os.eval_symlinks t p ≡ ok q
    pub open_stays :
        (p : FilePath) (f : Info × Bytes) → os.open_file s p ≡ ok f → os.open_file t p ≡ ok f

  -- A file of mode 0600 was made in a directory: it is read back, and it is one entry more.
  pub record IsCreated (s : os.State) (name : Bytes) (dir : FilePath) (body : Bytes) (t : os.State)
      : Type 0 where
    pub extends : Extends s t
    pub info : Info
    pub there : os.lstat t (name ∷ dir) ≡ ok info
    pub opened : os.open_file t (name ∷ dir) ≡ ok (info, body)
    pub regular : info.is_regular ≡ true
    pub no_symlink : info.is_symlink ≡ false
    pub no_dir : info.is_dir ≡ false
    pub owner : info.uid ≡ os.euid
    pub closed_to_others : bit_and info.perm 63 ≡ 0
    pub not_writable : bit_and info.perm 18 ≡ 0
    pub listed :
        (entries : List Entry)
        → os.read_dir s dir ≡ ok entries
        → (a : List Entry) × ((b : List Entry) × ((e : Entry) × ((entries ≡ a ++ b)
                × ((e.name ≡ name)
                    × ((e.entry_dir ≡ false) × (os.read_dir t dir ≡ ok (a ++ (e ∷ b))))))))

  pub record IsLawful : Type 0 where
    -- Stat of what is no symbolic link is its Lstat.
    pub stat_plain :
        (s : os.State) (p : FilePath) (i : Info)
        → os.lstat s p ≡ ok i
        → i.is_symlink ≡ false
        → os.stat s p ≡ ok i
    -- MkdirAll does nothing for a directory that is there.
    pub mkdir_there :
        (s : os.State) (p : FilePath) (i : Info)
        → os.stat s p ≡ ok i
        → i.is_dir ≡ true
        → os.mkdir_all s p ≡ (s, true)
    -- A file that is made with O_EXCL, written and closed without an error.
    pub created :
        (s t : os.State) (name : Bytes) (dir : FilePath) (body : Bytes)
        → os.create s (name ∷ dir) ≡ some t
        → (os.write_sync t (name ∷ dir) body).1 ≡ true
        → (os.close_file (os.write_sync t (name ∷ dir) body).0 (name ∷ dir)).1 ≡ true
        → IsCreated s name dir body
            (os.close_file (os.write_sync t (name ∷ dir) body).0 (name ∷ dir)).0
    -- A file that was renamed to a path where nothing was is no longer at its old path.
    pub renamed :
        (s : os.State) (p q : FilePath)
        → os.lstat s q ≡ err missing
        → (os.rename s p q).1 ≡ true
        → os.lstat (os.rename s p q).0 p ≡ err missing
