-- ===== src/Trust/Sound.antt =====
-- internal/trust/path.go: what an accepted path is.
use quantumcat.Base.{Bool, true, false, ◌≡◌, arith, inl, inr}
use quantumcat.Files.{FilePath, Info, Result-cases, ok, Os}
use quantumcat.Trust.{is_shared, owned, trust_path}

module _ (os : Os) where
  -- A file or directory that nobody but root and the user may replace.
  pub record IsTrusted (s : os.State) (path : FilePath) (directory : Bool) : Type 0 where
    pub info : Info
    pub there : os.lstat s path ≡ ok info
    pub no_symlink : info.is_symlink ≡ false
    pub kind : info.is_dir ≡ directory
    pub owner : owned os info ≡ true
    pub private : is_shared info ≡ false

  pub trust_path-IsTrusted :
      (s : os.State) (path : FilePath) (directory : Bool)
      → trust_path os s path directory ≡ ok tt
      → IsTrusted s path directory
  unfolding trust_path
  trust_path-IsTrusted s path directory h = elim (Result-cases (os.lstat s path)) [
    | inl (i, e) ↦ record {
      info = i;
      there = e;
      no_symlink = ground arith;
      kind = ground arith;
      owner = ground arith;
      private = ground arith;
    }
    | inr (e, bad) ↦ absurd (ground arith)
  ]
