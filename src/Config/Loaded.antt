-- ===== src/Config/Loaded.antt =====
-- internal/config/config.go: what a descriptor that the store gives out has passed.
use Prim.Native.Nat.{bit_and}
use quantumcat.Base.{
  ℕ, ◌≤◌, Bytes, Bool, true, false, not, ◌&&◌, ◌||◌, ◌==◌, ltb, ◌≡◌, Option, none, some, List, [],
  ◌∷◌, All, length, arith, inl, inr, Bool-cases, not_eq_false, ◌∙◌, subst, sym, ap, ◌⊎◌,
}
use quantumcat.Files.{
  FilePath, Info, Result-cases, ok, missing, refused, refuse_if, >>=-eq-ok, refuse_if-eq-ok, Entry,
  Os,
}
use quantumcat.Trust.{is_shared, owned, trust_path}
use quantumcat.Trust.Sound.{IsTrusted, trust_path-IsTrusted}
use quantumcat.Config.{
  max_file, limited, Peer, Libraries, valid_peer, read_file, check_opened, or_refuse,
}
use quantumcat.Config.Entries.{skipped, load_skipped, load_taken-inv}
use quantumcat.Config.Store.{peers_dir, load_peer, load_entries, read_peers, peers, check_peers}

decoded : {A : Type 0} (o : Option A) {a : A} → or_refuse o ≡ ok a → o ≡ some a
decoded none h = cc
decoded (some b) h = cc

inode_eq : (a b : ℕ) → refuse_if (not (a == b)) ≡ ok tt → a ≡ b
inode_eq a b h = ground arith

is_small :
    (regular : Bool) (size : ℕ)
    → (not regular || ltb max_file size) ≡ false
    → (regular ≡ true) × (size ≤ max_file)
is_small regular size h = (ground arith, ground arith)

module _ (os : Os) (lib : Libraries) where
  -- A descriptor of a file of the store: the file is trusted, the file that was opened is the one at
  -- the path and trusted too, it is not too large, and it holds the valid descriptor.
  pub record Authorized (s : os.State) (path : FilePath) (p : Peer) : Type 0 where
    pub file : IsTrusted os s path false
    pub opened : Info
    pub body : Bytes
    pub reads : os.open_file s path ≡ ok (opened, body)
    pub owner : owned os opened ≡ true
    pub private : is_shared opened ≡ false
    pub same : opened.inode ≡ file.info.inode
    pub regular : opened.is_regular ≡ true
    pub small : length body ≤ max_file
    pub decodes : lib.decode_peer (limited body) ≡ some p
    pub valid : valid_peer lib p ≡ true

  load_peer-inv :
      (dir : FilePath) (s : os.State) (path : FilePath) (p : Peer)
      → load_peer os lib dir s path ≡ ok p
      → (trust_path os s path false ≡ ok tt)
        × ((read_file os lib.decode_peer s path false true ≡ ok p) × (valid_peer lib p ≡ true))
  unfolding load_peer
  load_peer-inv dir s path p h =
      let first = >>=-eq-ok (trust_path os s path false) _ h in
      let second = >>=-eq-ok (read_file os lib.decode_peer s path false true) _ first.1.1 in
      let third = refuse_if-eq-ok (not (valid_peer lib second.0)) (ok second.0) second.1.1 in
      let same : second.0 ≡ p = let e = third.1 in cc in
      (
        first.1.0,
        (second.1.0 ∙ third.1, rw (← same) (not_eq_false (valid_peer lib second.0) third.0)),
      )

  check_opened-inv :
      (s : os.State) (path : FilePath) (opened : Info)
      → check_opened os s path opened ≡ ok tt
      → (owned os opened ≡ true)
        × ((is_shared opened ≡ false)
            × ((current : Info) × ((os.lstat s path ≡ ok current)
                  × (opened.inode ≡ current.inode))))
  unfolding check_opened
  check_opened-inv s path opened h =
      let first = refuse_if-eq-ok (not (owned os opened)) _ h in
      let second = refuse_if-eq-ok (is_shared opened) _ first.1 in
      let third = >>=-eq-ok (trust_path os s path false) _ second.1 in
      let fourth = >>=-eq-ok (os.lstat s path) _ third.1.1 in
      (
        not_eq_false (owned os opened) first.0,
        (second.0, (fourth.0, (fourth.1.0, inode_eq opened.inode fourth.0.inode fourth.1.1))),
      )

  read_file-inv :
      (s : os.State) (path : FilePath) (p : Peer)
      → read_file os lib.decode_peer s path false true ≡ ok p
      → (opened : Info) × ((body : Bytes) × ((os.open_file s path ≡ ok (opened, body))
            × ((opened.is_regular ≡ true)
                × ((length body ≤ max_file)
                    × ((check_opened os s path opened ≡ ok tt)
                        × (lib.decode_peer (limited body) ≡ some p))))))
  unfolding read_file
  read_file-inv s path p h =
      let first = >>=-eq-ok (os.open_file s path) _ h in
      let (opened, body) = first.0 in
      let second =
        refuse_if-eq-ok (not opened.is_regular || ltb max_file (length body)) _ first.1.1 in
      let third = refuse_if-eq-ok (false && not (bit_and opened.perm 63 == 0)) _ second.1 in
      let fourth = >>=-eq-ok (check_opened os s path opened) _ third.1 in
      let small = is_small opened.is_regular (length body) second.0 in
      (
        opened,
        (
          body,
          (
            first.1.0,
            (small.0, (small.1, (fourth.1.0, decoded (lib.decode_peer (limited body)) fourth.1.1))),
          ),
        ),
      )

  load_peer-Authorized :
      (dir : FilePath) (s : os.State) (path : FilePath) (p : Peer)
      → load_peer os lib dir s path ≡ ok p
      → Authorized s path p
  load_peer-Authorized dir s path p h =
      let (trusted, (read, valid)) = load_peer-inv dir s path p h in
      let (opened, (body, (reads, (regular, (small, (checked, decodes)))))) =
        read_file-inv s path p read in
      let safe = check_opened-inv s path opened checked in
      let file = trust_path-IsTrusted os s path false trusted in
      let same_info : safe.1.1.0 ≡ file.info = let e = sym safe.1.1.1.0 ∙ file.there in cc in
      record {
        file = file;
        opened = opened;
        body = body;
        reads = reads;
        owner = safe.0;
        private = safe.1.0;
        same = safe.1.1.1.1 ∙ ap (λ (i : Info). i.inode) same_info;
        regular = regular;
        small = small;
        decodes = decodes;
        valid = valid;
      }

  load_entries-Authorized :
      (dir : FilePath) (s : os.State) (entries : List Entry) (ps : List Peer)
      → load_entries os lib dir s entries ≡ ok ps
      → All (λ p. (path : FilePath) × Authorized s path p) ps
  unfolding load_entries
  load_entries-Authorized dir s [] ps h =
      let none_there : [] ≡ ps = cc in
      subst (All (λ p. (path : FilePath) × Authorized s path p)) none_there tt
  load_entries-Authorized dir s (e ∷ rest) ps h = elim (Bool-cases (skipped e)) [
    | inl passed ↦
        load_entries-Authorized dir s rest ps (sym (load_skipped os lib dir s e rest passed) ∙ h)
    | inr used ↦
        let (p, (later, (first, (second, joined)))) =
          load_taken-inv os lib dir s e rest ps used h in
        subst (All (λ p. (path : FilePath) × Authorized s path p)) joined (
          (e.name ∷ peers_dir dir, load_peer-Authorized dir s (e.name ∷ peers_dir dir) p first),
          load_entries-Authorized dir s rest later second,
        )
  ]

  -- A list of peers is that of the directory, or the directory is not there.
  pub peers-inv :
      (dir : FilePath) (s : os.State) (ps : List Peer)
      → peers os lib dir s ≡ ok ps
      → ((entries : List Entry) × ((check_peers os lib dir s ≡ ok tt)
            × ((os.read_dir s (peers_dir dir) ≡ ok entries)
                × (load_entries os lib dir s entries ≡ ok ps))))
        ⊎ (ps ≡ [])
  unfolding peers read_peers
  peers-inv dir s ps h = elim (Result-cases (check_peers os lib dir s)) [
    | inl (_, e) ↦ elim (Result-cases (os.read_dir s (peers_dir dir))) [
      | inl (entries, there) ↦ inl (entries, (e, (there, ground arith)))
      | inr (missing, there) ↦ inr (ground arith)
      | inr (refused, there) ↦ absurd (ground arith)
    ]
    | inr (missing, e) ↦ inr (ground arith)
    | inr (refused, e) ↦ absurd (ground arith)
  ]

  -- Every descriptor that the store lists is valid and held by a file that is trusted: no symbolic
  -- link, owned by root or the user, and not writable by others, the file opened being that one.
  pub peers-Authorized :
      (dir : FilePath) (s : os.State) (ps : List Peer)
      → peers os lib dir s ≡ ok ps
      → All (λ p. (path : FilePath) × Authorized s path p) ps
  peers-Authorized dir s ps h = elim (peers-inv dir s ps h) [
    | inl (entries, (_, (_, loaded))) ↦ load_entries-Authorized dir s entries ps loaded
    | inr empty ↦ subst (All (λ p. (path : FilePath) × Authorized s path p)) (sym empty) tt
  ]
