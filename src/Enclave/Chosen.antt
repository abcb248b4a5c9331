-- ===== src/Enclave/Chosen.antt =====
-- Which program is started as the Secure Enclave helper.
use Prim.Native.Nat.{bit_and}
use quantumcat.Base.{Bytes, ascii, true, false, not, ◌==◌, ◌≡◌, refl, sym, ◌∙◌, subst}
use quantumcat.Files.{FilePath, Info, ok, ◌>>=◌, >>=-eq-ok, refuse_if-eq-ok, Os}
use quantumcat.Trust.{trust_path, trust_ancestors}
use quantumcat.Trust.Sound.{IsTrusted, trust_path-IsTrusted}
use quantumcat.Enclave.{
  Place, is_abs, configured, candidate, helper_path, trusted_helper, chosen_helper,
}

module _ (os : Os) (place : Place) where
  -- A trusted regular file that may be executed, below trusted directories.
  pub record IsTrustedProgram (s : os.State) (path : FilePath) : Type 0 where
    pub file : IsTrusted os s path false
    pub info : Info
    pub there : os.stat s path ≡ ok info
    pub executable : (bit_and info.perm 73 == 0) ≡ false
    pub below : trust_ancestors os s path ≡ ok tt

  trusted_helper-IsTrustedProgram :
      (s : os.State) (path : FilePath)
      → trusted_helper os place s path ≡ ok tt
      → IsTrustedProgram s path
  unfolding trusted_helper
  trusted_helper-IsTrustedProgram s path h =
      let (u, (trusted, rest)) = >>=-eq-ok (trust_path os s path false) _ h in
      let (info, (there, rest')) = >>=-eq-ok (os.stat s path) _ rest in
      let (executable, below) = refuse_if-eq-ok (bit_and info.perm 73 == 0) _ rest' in
      record {
        file = trust_path-IsTrusted os s path false trusted;
        info = info;
        there = there;
        executable = executable;
        below = below;
      }

  root_candidate :
      (os.euid == 0) ≡ true
      → candidate os place ≡ (place.executable >>= λ exe. ok (place.beside exe (ascii "qcat-se")))
  unfolding candidate configured
  root_candidate root = rw (root) refl

  root_path :
      (text : Bytes)
      → (os.euid == 0) ≡ true
      → helper_path os place ≡ ok text
      → (exe : Bytes) × ((place.executable ≡ ok exe) × (text ≡ place.beside exe (ascii "qcat-se")))
  unfolding helper_path
  root_path text root h =
      let (path, (found, rest)) = >>=-eq-ok (candidate os place) _ h in
      let (_, last) = refuse_if-eq-ok (not (is_abs path)) _ rest in
      let same : path ≡ text = cc in
      let (exe, (is, made)) = >>=-eq-ok place.executable _ (sym (root_candidate root) ∙ found) in
      (exe, (is, cc))

  -- The helper that is started is a regular file, no symbolic link, owned by root or the user, not
  -- writable by others, with a permission to execute it, and each directory above it is trusted.
  pub chosen_helper-IsTrustedProgram :
      (s : os.State) (path : FilePath)
      → chosen_helper os place s ≡ ok path
      → IsTrustedProgram s path
  unfolding chosen_helper
  chosen_helper-IsTrustedProgram s path h =
      let (text, (found, rest)) = >>=-eq-ok (helper_path os place) _ h in
      let (u, (trusted, last)) =
        >>=-eq-ok (trusted_helper os place s (place.resolve text)) _ rest in
      let same : place.resolve text ≡ path = cc in
      subst (IsTrustedProgram s) same
        (trusted_helper-IsTrustedProgram s (place.resolve text) trusted)

  -- Root starts the program beside its own, whatever the environment says.
  pub chosen_by_root :
      (s : os.State) (path : FilePath)
      → (os.euid == 0) ≡ true
      → chosen_helper os place s ≡ ok path
      → (exe : Bytes) × ((place.executable ≡ ok exe)
          × (path ≡ place.resolve (place.beside exe (ascii "qcat-se"))))
  unfolding chosen_helper
  chosen_by_root s path root h =
      let (text, (found, rest)) = >>=-eq-ok (helper_path os place) _ h in
      let (u, (trusted, last)) =
        >>=-eq-ok (trusted_helper os place s (place.resolve text)) _ rest in
      let (exe, (is, same)) = root_path text root found in (exe, (is, cc))
