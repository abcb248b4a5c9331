-- ===== src/Config/Extends.antt =====
-- internal/config/config.go and internal/trust/path.go: what was accepted is accepted when the file
-- system has only got more files.
use quantumcat.Base.{
  Bytes, Bool, true, false, not, ◌||◌, ◌≡◌, Bool-cases, inl, inr, ltb, length, Option, List, [],
  ◌∷◌, ◌∙◌, sym, ap,
}
use quantumcat.Files.{FilePath, parent, Info, ok, >>=-eq-ok, refuse_if-eq-ok, Entry, Os}
use quantumcat.Files.Laws.{Extends}
use quantumcat.Trust.{is_shared, owned, trust_path, trust_ancestor, trust_chain, trust_ancestors}
use quantumcat.Config.{Peer, Libraries, read_file, check_opened, max_file}
use quantumcat.Config.Entries.{skipped, load_skipped, load_taken-inv, load_taken_ok}
use quantumcat.Config.Store.{peers_dir, check_store, check_peers, load_peer, load_entries}

module _ (os : Os) (s t : os.State) (more : Extends os s t) where
  trust_path-Extends :
      (p : FilePath) (d : Bool) → trust_path os s p d ≡ ok tt → trust_path os t p d ≡ ok tt
  unfolding trust_path
  trust_path-Extends p d h =
      let first = >>=-eq-ok (os.lstat s p) _ h in
      rw (more.lstat_stays p first.0 first.1.0) first.1.1

  trust_ancestor-Extends :
      (p : FilePath) → trust_ancestor os s p ≡ ok tt → trust_ancestor os t p ≡ ok tt
  unfolding trust_ancestor
  trust_ancestor-Extends p h =
      let first = >>=-eq-ok (os.stat s p) _ h in rw (more.stat_stays p first.0 first.1.0) first.1.1

  trust_chain-Extends : (p : FilePath) → trust_chain os s p ≡ ok tt → trust_chain os t p ≡ ok tt
  unfolding trust_chain
  trust_chain-Extends [] h = trust_ancestor-Extends [] h
  trust_chain-Extends (name ∷ p) h =
      let first = >>=-eq-ok (trust_ancestor os s (name ∷ p)) _ h in
      rw (trust_ancestor-Extends (name ∷ p) first.1.0) (trust_chain-Extends p first.1.1)

  trust_ancestors-Extends :
      (p : FilePath) → trust_ancestors os s p ≡ ok tt → trust_ancestors os t p ≡ ok tt
  unfolding trust_ancestors
  trust_ancestors-Extends p h =
      let first = >>=-eq-ok (os.eval_symlinks s p) _ h in
      rw (more.eval_stays p first.0 first.1.0) (trust_chain-Extends (parent first.0) first.1.1)

  check_opened-Extends :
      (p : FilePath) (i : Info) → check_opened os s p i ≡ ok tt → check_opened os t p i ≡ ok tt
  unfolding check_opened
  check_opened-Extends p i h =
      let first = refuse_if-eq-ok (not (owned os i)) _ h in
      let second = refuse_if-eq-ok (is_shared i) _ first.1 in
      let third = >>=-eq-ok (trust_path os s p false) _ second.1 in
      let fourth = >>=-eq-ok (os.lstat s p) _ third.1.1 in
      rw
        (
          first.0,
          second.0,
          trust_path-Extends p false third.1.0,
          more.lstat_stays p fourth.0 fourth.1.0,
        )
        fourth.1.1

  read_file-Extends :
      (decode : Bytes → Option Peer) (path : FilePath) (p : Peer)
      → read_file os decode s path false true ≡ ok p
      → read_file os decode t path false true ≡ ok p
  unfolding read_file
  read_file-Extends decode path p h =
      let first = >>=-eq-ok (os.open_file s path) _ h in
      let f = first.0 in
      let second =
        refuse_if-eq-ok (not (f.0).is_regular || ltb max_file (length f.1)) _ first.1.1 in
      let third = >>=-eq-ok (check_opened os s path f.0) _ second.1 in
      rw (more.open_stays path f first.1.0, second.0, check_opened-Extends path f.0 third.1.0)
        third.1.1

  module _ (lib : Libraries) (dir : FilePath) where
    check_store-Extends : check_store os lib dir s ≡ ok tt → check_store os lib dir t ≡ ok tt
    unfolding check_store
    check_store-Extends h =
        let first = >>=-eq-ok (trust_path os s dir true) _ h in
        rw (trust_path-Extends dir true first.1.0) (trust_ancestors-Extends dir first.1.1)

    pub check_peers-Extends : check_peers os lib dir s ≡ ok tt → check_peers os lib dir t ≡ ok tt
    unfolding check_peers
    check_peers-Extends h =
        let first = >>=-eq-ok (check_store os lib dir s) _ h in
        rw (check_store-Extends first.1.0) (trust_path-Extends (peers_dir dir) true first.1.1)

    pub load_peer-Extends :
        (path : FilePath) (p : Peer)
        → load_peer os lib dir s path ≡ ok p
        → load_peer os lib dir t path ≡ ok p
    unfolding load_peer
    load_peer-Extends path p h =
        let first = >>=-eq-ok (trust_path os s path false) _ h in
        let second = >>=-eq-ok (read_file os lib.decode_peer s path false true) _ first.1.1 in
        rw
          (
            trust_path-Extends path false first.1.0,
            read_file-Extends lib.decode_peer path second.0 second.1.0,
          )
          second.1.1

    pub load_entries-Extends :
        (entries : List Entry) (ps : List Peer)
        → load_entries os lib dir s entries ≡ ok ps
        → load_entries os lib dir t entries ≡ ok ps
    unfolding load_entries
    load_entries-Extends [] ps h = h
    load_entries-Extends (e ∷ rest) ps h = elim (Bool-cases (skipped e)) [
      | inl passed ↦
          load_skipped os lib dir t e rest passed
          ∙ load_entries-Extends rest ps (sym (load_skipped os lib dir s e rest passed) ∙ h)
      | inr used ↦
          let (p, (later, (first, (second, joined)))) =
            load_taken-inv os lib dir s e rest ps used h in
          load_taken_ok os lib dir t e rest p later used
            (load_peer-Extends (e.name ∷ peers_dir dir) p first)
            (load_entries-Extends rest later second)
          ∙ ap ok joined
    ]
