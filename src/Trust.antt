-- ===== src/Trust.antt =====
-- internal/trust/path.go: which files and directories may decide what is trusted.
pub mod Sound
use Prim.Native.Nat.{bit_and}
use quantumcat.Base.{
  ℕ, Bytes, Bool, true, false, not, ◌&&◌, ◌||◌, ◌==◌, if◌then◌else◌, List, [], ◌∷◌,
}
use quantumcat.Files.{FilePath, parent, Info, Result, ok, err, refused, refuse_if, ◌>>=◌, ◌>>◌, Os}

-- `info.Mode().Perm()&0022 != 0`: the group or others may write.
unfoldable pub is_shared : Info → Bool
is_shared i = not (bit_and i.perm 18 == 0)

-- `!=` on bool.
abbrev differ : Bool → Bool → Bool
differ a b = if a then not b else b

module _ (os : Os) where
  unfoldable pub owned : Info → Bool
  owned i = (i.uid == 0) || (i.uid == os.euid)

  unfoldable pub trust_path : os.State → FilePath → Bool → Result (Unit {0})
  trust_path s path directory = do
    i ← os.lstat s path
    refuse_if (i.is_symlink || (differ i.is_dir directory || (not directory && not i.is_regular)))
    refuse_if (not (owned i))
    refuse_if (is_shared i)

  unfoldable pub trust_ancestor : os.State → FilePath → Result (Unit {0})
  trust_ancestor s path = do
    i ← os.stat s path
    refuse_if (not (owned i))
    refuse_if (is_shared i && not i.is_sticky)

  -- The loop up to the root, which is its own parent.
  unfoldable pub trust_chain : os.State → FilePath → Result (Unit {0})
  trust_chain s [] = trust_ancestor s []
  trust_chain s (name ∷ path) = trust_ancestor s (name ∷ path) >> trust_chain s path

  unfoldable pub trust_ancestors : os.State → FilePath → Result (Unit {0})
  trust_ancestors s path = do resolved ← os.eval_symlinks s path; trust_chain s (parent resolved)
