-- ===== src/Config/Created.antt =====
-- internal/config/config.go: a descriptor that was just written is accepted.
use quantumcat.Base.{
  ◌+◌, ◌≤◌, Bytes, bytes_eq, bytes_eq_self, true, false, not, ◌||◌, ltb, ◌≡◌, refl, ap, ◌∙◌, Option,
  some, [], ◌∷◌, ◌++◌, length, take_all, arith,
}
use quantumcat.Files.{FilePath, Info, ok, Entry, Os}
use quantumcat.Files.Laws.{IsCreated}
use quantumcat.Trust.{is_shared, owned, trust_path}
use quantumcat.Config.{max_file, limited, Peer, Libraries, valid_peer, read_file, check_opened}
use quantumcat.Config.Entries.{skipped}
use quantumcat.Config.Store.{suffix, extension, load_peer}

extension-append : (name : Bytes) → extension (name ++ suffix) ≡ suffix
unfolding extension
extension-append [] = refl
extension-append (b ∷ name) = rw (extension, extension-append name)

pub not_skipped :
    (e : Entry) (name : Bytes) → e.name ≡ name ++ suffix → e.entry_dir ≡ false → skipped e ≡ false
unfolding skipped
not_skipped e name h d =
    let same : extension e.name ≡ suffix = ap extension h ∙ extension-append name in
    let equal : bytes_eq (extension e.name) suffix ≡ true =
      ap (λ x. bytes_eq x suffix) same ∙ bytes_eq_self suffix in
    ground arith

module _ (os : Os) where
  trust_plain :
      (s : os.State) (p : FilePath) (i : Info)
      → os.lstat s p ≡ ok i
      → i.is_symlink ≡ false
      → i.is_dir ≡ false
      → i.is_regular ≡ true
      → owned os i ≡ true
      → is_shared i ≡ false
      → trust_path os s p false ≡ ok tt
  unfolding trust_path
  trust_plain s p i there link d regular own shared = rw there (ground arith)

  module _ (s t : os.State) (name : Bytes) (dir : FilePath) (body : Bytes)
      (c : IsCreated os s name dir body t) where
    own : owned os c.info ≡ true
    unfolding owned
    own = ground (arith, c.owner)

    unshared : is_shared c.info ≡ false
    unfolding is_shared
    unshared = ground (arith, c.not_writable)

    trusted : trust_path os t (name ∷ dir) false ≡ ok tt
    trusted = trust_plain t (name ∷ dir) c.info c.there c.no_symlink c.no_dir c.regular own unshared

    opened_ok : check_opened os t (name ∷ dir) c.info ≡ ok tt
    unfolding check_opened
    opened_ok = rw (own, unshared, trusted, c.there) (ground arith)

    read_created :
        (decode : Bytes → Option Peer) (p : Peer)
        → length body ≤ max_file
        → decode body ≡ some p
        → read_file os decode t (name ∷ dir) false true ≡ ok p
    unfolding read_file
    read_created decode p small good =
        let all : limited body ≡ body =
          unfold limited in take_all (max_file + 1) body (omega arith) in
        let plain : (not (c.info).is_regular || ltb max_file (length body)) ≡ false =
          ground (arith, c.regular) in
        rw (c.opened, plain, opened_ok, all, good)

    pub load_created :
        (lib : Libraries) (top : FilePath) (p : Peer)
        → length body ≤ max_file
        → lib.decode_peer body ≡ some p
        → valid_peer lib p ≡ true
        → load_peer os lib top t (name ∷ dir) ≡ ok p
    unfolding load_peer
    load_created lib top p small good valid =
        rw (trusted, read_created lib.decode_peer p small good, valid)
