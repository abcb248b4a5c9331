-- ===== src/Config/Pairing.antt =====
-- internal/config/config.go: what `Add` and `Remove` do to the peers of a store.
use quantumcat.Base.{
  ◌≤◌, Bytes, bytes_eq, bytes_eq_iff, true, false, not, ◌≡◌, ◌≢◌, ap, sym, subst, ◌∙◌, Bool-cases,
  Option-cases, not_eq_false, inl, inr, some, List, [], ◌∷◌, ◌++◌, any, All, length, arith,
}
use quantumcat.Files.{
  FilePath, Result-cases, Refusal, ok, err, missing, refused, >>=-eq-ok, refuse_if-eq-ok, Entry, Os,
}
use quantumcat.Files.Laws.{IsCreated, IsLawful}
use quantumcat.Trust.{trust_path}
use quantumcat.Trust.Sound.{trust_path-IsTrusted}
use quantumcat.Config.{
  max_file, check_name, Peer, Libraries, valid_peer, read_file, write_new, write_file,
}
use quantumcat.Config.Created.{not_skipped, load_created}
use quantumcat.Config.Entries.{load_inserted}
use quantumcat.Config.Extends.{check_peers-Extends, load_entries-Extends}
use quantumcat.Config.Store.{
  suffix, peers_dir, peer_path, check_store, check_peers, load_peer, load_entries, read_peers,
  peers, peer, import_peer, add, move_aside, remove, revoked_path,
}

-- JSON gives back what was written of a valid descriptor, and a valid one is not too large for a file.
pub record IsCodec (lib : Libraries) : Type 0 where
  pub round_trip :
      (p : Peer) → valid_peer lib p ≡ true → lib.decode_peer (lib.encode_peer p) ≡ some p
  pub size : (p : Peer) → valid_peer lib p ≡ true → length (lib.encode_peer p) ≤ max_file

renamed_valid :
    (lib : Libraries) (p : Peer) (name : Bytes)
    → valid_peer lib p ≡ true
    → check_name name ≡ true
    → valid_peer lib (record p { name = name }) ≡ true
unfolding valid_peer
renamed_valid lib p name h n = ground arith

distinct_keys :
    (ps : List Peer) (key : Bytes)
    → any (λ (q : Peer). bytes_eq q.public_key key) ps ≡ false
    → All (λ (q : Peer). q.public_key ≢ key) ps
unfolding any
distinct_keys [] key h = tt
distinct_keys (q ∷ ps) key h = ground (arith, bytes_eq_iff q.public_key key, distinct_keys ps key)

module _ (os : Os) (lib : Libraries) (dir : FilePath) where
  import_peer-inv :
      (s : os.State) (path : FilePath) (p : Peer) (ps : List Peer)
      → import_peer os lib dir s path ≡ ok p
      → peers os lib dir s ≡ ok ps
      → (read_file os lib.decode_peer s path false false ≡ ok p)
        × ((valid_peer lib p ≡ true)
            × (any (λ (q : Peer). bytes_eq q.public_key p.public_key) ps ≡ false))
  unfolding import_peer
  import_peer-inv s path p ps h listed =
      let first = >>=-eq-ok (check_store os lib dir s) _ h in
      let second = >>=-eq-ok (read_file os lib.decode_peer s path false false) _ first.1.1 in
      let third = refuse_if-eq-ok (not (valid_peer lib second.0)) _ second.1.1 in
      let fourth = >>=-eq-ok (peers os lib dir s) _ third.1 in
      let fifth =
        refuse_if-eq-ok (any (λ (q : Peer). bytes_eq q.public_key (second.0).public_key) fourth.0)
          (ok second.0) fourth.1.1 in
      let same : second.0 ≡ p = let e = fifth.1 in cc in
      let all : fourth.0 ≡ ps = let e = sym fourth.1.0 ∙ listed in cc in
      (
        second.1.0 ∙ ap ok same,
        rw (← same, ← all) (not_eq_false (valid_peer lib second.0) third.0, fifth.0),
      )

  -- A successful `WriteNew` in a directory that is there.
  write_new-inv :
      (s t : os.State) (name : Bytes) (d : FilePath) (body : Bytes)
      → IsLawful os
      → os.mkdir_all s d ≡ (s, true)
      → write_new os s (name ∷ d) body ≡ (t, ok tt)
      → IsCreated os s name d body t
  unfolding write_new write_file
  write_new-inv s t name d body laws there h = elim (Option-cases (os.create s (name ∷ d))) [
    | inl failed ↦ absurd (ground (arith, there))
    | inr (u, made) ↦
        let written : (os.write_sync u (name ∷ d) body).1 ≡ true = ground (arith, there) in
        let closed : (os.close_file (os.write_sync u (name ∷ d) body).0 (name ∷ d)).1 ≡ true =
          ground (arith, there) in
        let state : (os.close_file (os.write_sync u (name ∷ d) body).0 (name ∷ d)).0 ≡ t =
          ground (arith, there) in
        subst (IsCreated os s name d body) state (laws.created s u name d body made written closed)
  ]

  directory_there :
      (s : os.State) (d : FilePath)
      → IsLawful os
      → trust_path os s d true ≡ ok tt
      → os.mkdir_all s d ≡ (s, true)
  directory_there s d laws h =
      let safe = trust_path-IsTrusted os s d true h in
      laws.mkdir_there s d safe.info (laws.stat_plain s d safe.info safe.there safe.no_symlink)
        safe.kind

  -- The store and its directory of peers are there.
  directories :
      (s : os.State)
      → IsLawful os
      → check_peers os lib dir s ≡ ok tt
      → (os.mkdir_all s dir ≡ (s, true)) × (os.mkdir_all s (peers_dir dir) ≡ (s, true))
  unfolding check_peers check_store
  directories s laws h =
      let first = >>=-eq-ok (check_store os lib dir s) _ h in
      let top = >>=-eq-ok (trust_path os s dir true) _ first.1.0 in
      (directory_there s dir laws top.1.0, directory_there s (peers_dir dir) laws first.1.1)

  add-inv :
      (s t : os.State) (name : Bytes) (path : FilePath) (ps : List Peer)
      → IsLawful os
      → check_peers os lib dir s ≡ ok tt
      → peers os lib dir s ≡ ok ps
      → add os lib dir s name path ≡ (t, ok tt)
      → (p : Peer) × ((read_file os lib.decode_peer s path false false ≡ ok p)
          × ((check_name name ≡ true)
              × ((valid_peer lib p ≡ true)
                  × ((any (λ (q : Peer). bytes_eq q.public_key p.public_key) ps ≡ false)
                      × IsCreated os s
                          (name ++ suffix)
                          (peers_dir dir)
                          (lib.encode_peer (record p { name = name }))
                          t))))
  unfolding add
  add-inv s t name path ps laws safe listed h =
      let there = directories s laws safe in
      let named : check_name name ≡ true = elim (Bool-cases (check_name name)) [
        | inl e ↦ e
        | inr e ↦ absurd (ground arith)
      ] in
      elim (Result-cases (import_peer os lib dir s path)) [
        | inl (p, imported) ↦
            let fine = import_peer-inv s path p ps imported listed in
            let made : write_new os s (peer_path dir name)
                  (lib.encode_peer (record p { name = name }))
                ≡ (t, ok tt) =
              ground (arith, there.0) in
            (
              p,
              (
                fine.0,
                (
                  named,
                  (
                    fine.1.0,
                    (
                      fine.1.1,
                      write_new-inv s t (name ++ suffix) (peers_dir dir) _ laws there.1 made,
                    ),
                  ),
                ),
              ),
            )
        | inr (e, bad) ↦ absurd (ground (arith, there.0))
      ]

  -- Directories that are accepted and listed give the peers.
  peers_of :
      (s : os.State) (entries : List Entry)
      → check_peers os lib dir s ≡ ok tt
      → os.read_dir s (peers_dir dir) ≡ ok entries
      → peers os lib dir s ≡ load_entries os lib dir s entries
  unfolding peers read_peers
  peers_of s entries safe found = rw (peers, safe, read_peers, found)

  -- When the store lists its peers and a descriptor is added under a name: afterwards the store lists
  -- the same peers and one more, the descriptor that was read from the file, under that name, whose public
  -- key none of the others has. The store's directories are there, the operating system is lawful, and JSON gives back what
  -- was written.
  pub add_lists :
      (s t : os.State) (name : Bytes) (path : FilePath) (ps : List Peer) (entries : List Entry)
      → IsLawful os
      → IsCodec lib
      → check_peers os lib dir s ≡ ok tt
      → os.read_dir s (peers_dir dir) ≡ ok entries
      → peers os lib dir s ≡ ok ps
      → add os lib dir s name path ≡ (t, ok tt)
      → (before : List Peer) × ((after : List Peer) × ((p : Peer) × ((read_file os lib.decode_peer s
                  path false false
                ≡ ok p)
              × ((ps ≡ before ++ after)
                  × ((peers os lib dir t ≡ ok (before ++ (record p { name = name } ∷ after)))
                      × All (λ (q : Peer). q.public_key ≢ p.public_key) ps)))))
  add_lists s t name path ps entries laws codec safe found listed h =
      let (p, (read, (named, (valid, (fresh, c))))) = add-inv s t name path ps laws safe listed h in
      let p' : Peer = record p { name = name } in
      let good : valid_peer lib p' ≡ true = renamed_valid lib p name valid named in
      let (a, (b, (e, (split, (called, (file, now)))))) = c.listed entries found in
      let loaded : load_entries os lib dir s entries ≡ ok ps =
        sym (peers_of s entries safe found) ∙ listed in
      let stays : load_entries os lib dir t (a ++ b) ≡ ok ps =
        ap (load_entries os lib dir t) (sym split)
        ∙ load_entries-Extends os s t c.extends lib dir entries ps loaded in
      let new : load_peer os lib dir t (e.name ∷ peers_dir dir) ≡ ok p' =
        ap (λ n. load_peer os lib dir t (n ∷ peers_dir dir)) called
        ∙ load_created os s t (name ++ suffix) (peers_dir dir) (lib.encode_peer p') c lib dir p'
            (codec.size p' good) (codec.round_trip p' good) good in
      let (before, (after, (parts, all))) =
        load_inserted os lib dir t a b e p' ps (not_skipped e name called file) new stays in
      let lists : peers os lib dir t ≡ ok (before ++ (p' ∷ after)) =
        peers_of t (a ++ (e ∷ b)) (check_peers-Extends os s t c.extends lib dir safe) now ∙ all in
      (before, (after, (p, (read, (parts, (lists, distinct_keys ps p.public_key fresh))))))

  import_duplicate :
      (s : os.State) (path : FilePath) (p : Peer) (ps : List Peer)
      → check_peers os lib dir s ≡ ok tt
      → peers os lib dir s ≡ ok ps
      → read_file os lib.decode_peer s path false false ≡ ok p
      → any (λ (q : Peer). bytes_eq q.public_key p.public_key) ps ≡ true
      → import_peer os lib dir s path ≡ err refused
  unfolding import_peer check_peers
  import_duplicate s path p ps safe listed read twice =
      let first = >>=-eq-ok (check_store os lib dir s) _ safe in
      rw (first.1.0, read) (ground (arith, listed, twice))

  -- A descriptor whose public key a listed peer has is refused, under whatever name, and nothing is
  -- written. The store's directories are there and the operating system is lawful.
  pub add_duplicate :
      (s : os.State) (name : Bytes) (path : FilePath) (p : Peer) (ps : List Peer)
      → IsLawful os
      → check_peers os lib dir s ≡ ok tt
      → peers os lib dir s ≡ ok ps
      → read_file os lib.decode_peer s path false false ≡ ok p
      → any (λ (q : Peer). bytes_eq q.public_key p.public_key) ps ≡ true
      → add os lib dir s name path ≡ (s, err refused)
  unfolding add
  add_duplicate s name path p ps laws safe listed read twice =
      ground
        (arith, (directories s laws safe).0, import_duplicate s path p ps safe listed read twice)

  peer_gone :
      (t : os.State) (name : Bytes)
      → os.lstat t (peer_path dir name) ≡ err missing
      → (e : Refusal) × (peer os lib dir t name ≡ err e)
  unfolding peer load_peer trust_path
  peer_gone t name gone = elim (Result-cases (peer os lib dir t name)) [
    | inr (e, bad) ↦ (e, bad)
    | inl (p, found) ↦
        let first = refuse_if-eq-ok (not (check_name name)) _ found in
        let second = >>=-eq-ok (check_peers os lib dir t) _ first.1 in
        let third = >>=-eq-ok (trust_path os t (peer_path dir name) false) _ second.1.1 in
        let fourth = >>=-eq-ok (os.lstat t (peer_path dir name)) _ third.1.0 in
        let there = fourth.1.0 in absurd cc
  ]

  -- A peer that was removed cannot be loaded any more.
  pub remove_forgets :
      (s t : os.State) (name : Bytes)
      → IsLawful os
      → remove os lib dir s name ≡ (t, ok tt)
      → (e : Refusal) × (peer os lib dir t name ≡ err e)
  unfolding remove move_aside
  remove_forgets s t name laws h = elim (Result-cases (peer os lib dir s name)) [
    | inr (e, bad) ↦ absurd (ground arith)
    | inl (p, there) ↦ elim (Result-cases (os.lstat s (revoked_path os lib dir name))) [
      | inl (i, taken) ↦ absurd (ground arith)
      | inr (refused, bad) ↦ absurd (ground arith)
      | inr (missing, free) ↦
          let moved : (os.rename s (peer_path dir name) (revoked_path os lib dir name)).1 ≡ true =
            ground arith in
          let state : (os.rename s (peer_path dir name) (revoked_path os lib dir name)).0 ≡ t =
            ground arith in
          peer_gone t name (
            ap (λ u. os.lstat u (peer_path dir name)) (sym state)
            ∙ laws.renamed s (peer_path dir name) (revoked_path os lib dir name) free moved)
    ]
  ]
