-- ===== src/Config/Entries.antt =====
-- internal/config/config.go: the loop of `Peers` over the directory's entries.
use quantumcat.Base.{
  bytes_eq, Bool, true, false, not, ◌||◌, ◌≡◌, refl, ap, sym, ◌∙◌, Bool-cases, inl, inr, List, [],
  ◌∷◌, ◌++◌,
}
use quantumcat.Files.{FilePath, ok, ◌>>=◌, >>=-eq-ok, Entry, Os}
use quantumcat.Config.{Peer, Libraries}
use quantumcat.Config.Store.{suffix, extension, peers_dir, load_peer, load_entries}

-- The loop passes an entry over.
unfoldable pub skipped : Entry → Bool
skipped e = e.entry_dir || not (bytes_eq (extension e.name) suffix)

module _ (os : Os) (lib : Libraries) (dir : FilePath) (s : os.State) where
  pub load_skipped :
      (e : Entry) (rest : List Entry)
      → skipped e ≡ true
      → load_entries os lib dir s (e ∷ rest) ≡ load_entries os lib dir s rest
  unfolding load_entries skipped
  load_skipped e rest h = rw (load_entries, h)

  pub load_taken :
      (e : Entry) (rest : List Entry)
      → skipped e ≡ false
      → load_entries os lib dir s (e ∷ rest) ≡ (
          load_peer os lib dir s (e.name ∷ peers_dir dir) >>= λ p.
          load_entries os lib dir s rest >>= λ ps. ok (p ∷ ps))
  unfolding load_entries skipped
  load_taken e rest h = rw (load_entries, h)

  -- The first descriptor and the rest.
  pub load_taken-inv :
      (e : Entry) (rest : List Entry) (ps : List Peer)
      → skipped e ≡ false
      → load_entries os lib dir s (e ∷ rest) ≡ ok ps
      → (p : Peer) × ((later : List Peer) × ((load_peer os lib dir s (e.name ∷ peers_dir dir)
              ≡ ok p)
            × ((load_entries os lib dir s rest ≡ ok later) × (p ∷ later ≡ ps))))
  load_taken-inv e rest ps taken h =
      let first =
        >>=-eq-ok (load_peer os lib dir s (e.name ∷ peers_dir dir)) _
          (sym (load_taken e rest taken) ∙ h) in
      let second = >>=-eq-ok (load_entries os lib dir s rest) _ first.1.1 in
      (first.0, (second.0, (first.1.0, (second.1.0, let eq = second.1.1 in cc))))

  pub load_taken_ok :
      (e : Entry) (rest : List Entry) (p : Peer) (later : List Peer)
      → skipped e ≡ false
      → load_peer os lib dir s (e.name ∷ peers_dir dir) ≡ ok p
      → load_entries os lib dir s rest ≡ ok later
      → load_entries os lib dir s (e ∷ rest) ≡ ok (p ∷ later)
  load_taken_ok e rest p later taken first second = load_taken e rest taken ∙ rw (first, second)

  -- One entry more gives one descriptor more, in its place.
  pub load_inserted :
      (a b : List Entry) (e : Entry) (p : Peer) (ps : List Peer)
      → skipped e ≡ false
      → load_peer os lib dir s (e.name ∷ peers_dir dir) ≡ ok p
      → load_entries os lib dir s (a ++ b) ≡ ok ps
      → (before : List Peer) × ((after : List Peer) × ((ps ≡ before ++ after)
            × (load_entries os lib dir s (a ++ (e ∷ b)) ≡ ok (before ++ (p ∷ after)))))
  load_inserted [] b e p ps taken there h = ([], (ps, (refl, load_taken_ok e b p ps taken there h)))
  load_inserted (x ∷ a) b e p ps taken there h = elim (Bool-cases (skipped x)) [
    | inl passed ↦
        let (before, (after, (split, now))) =
          load_inserted a b e p ps taken there (sym (load_skipped x (a ++ b) passed) ∙ h) in
        (before, (after, (split, load_skipped x (a ++ (e ∷ b)) passed ∙ now)))
    | inr used ↦
        let (q, (later, (first, (second, joined)))) = load_taken-inv x (a ++ b) ps used h in
        let (before, (after, (split, now))) = load_inserted a b e p later taken there second in
        (
          q ∷ before,
          (
            after,
            (
              sym joined ∙ ap (◌∷◌ q) split,
              load_taken_ok x (a ++ (e ∷ b)) q (before ++ (p ∷ after)) used first now,
            ),
          ),
        )
  ]
