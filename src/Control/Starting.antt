-- ===== src/Control/Starting.antt =====
-- What holds when a command has started to listen.
use Prim.Native.Nat.{bit_and}
use quantumcat.Base.{
  Bytes, ascii, Bool-cases, true, false, not, ◌||◌, ◌==◌, ◌≡◌, ◌⊎◌, inl, inr, refl, sym, ◌∙◌, ◌∷◌,
  ◌++◌, arith,
}
use quantumcat.Files.{FilePath, Info, Result, Result-cases, ok, err, missing, refused, Os}
use quantumcat.Control.{
  sock, Listening, restrict, open_socket, replace_socket, claim_path, in_directory, start_peer,
}

module _ (os : Os) (net : Listening os) where
  abbrev run_dir : FilePath → FilePath
  run_dir dir = ascii "run" ∷ dir

  abbrev socket_path : FilePath → Bytes → FilePath
  socket_path dir name = (name ++ sock) ∷ run_dir dir

  -- The path was free, or held a socket on which nobody answered and that was removed.
  abbrev Claimed : os.State → FilePath → os.State → Type 0
  Claimed s path u =
      ((os.lstat s path ≡ err missing) × (u ≡ s))
      ⊎ ((i : Info) × ((os.lstat s path ≡ ok i)
            × ((i.is_socket ≡ true)
                × ((net.answered s path ≡ false) × (u ≡ os.remove_file s path)))))

  -- From the first state it listened at the path, and then the socket got the mode 0600.
  abbrev Opened : os.State → FilePath → os.State → Type 0
  Opened u path t =
      (v : os.State) × ((net.listen u path ≡ (v, true)) × (net.chmod v path 384 ≡ (t, true)))

  pub record IsListening (s : os.State) (dir : FilePath) (name : Bytes) (t : os.State)
      : Type 0 where
    pub directory : Info
    pub made : os.State
    pub makes : os.mkdir_all s (run_dir dir) ≡ (made, true)
    pub there : os.lstat made (run_dir dir) ≡ ok directory
    pub is_directory : directory.is_dir ≡ true
    pub private : bit_and directory.perm 63 ≡ 0
    pub claimed : os.State
    pub free : Claimed made (socket_path dir name) claimed
    pub opened : Opened claimed (socket_path dir name) t

  restrict-inv :
      (s t : os.State) (path : FilePath)
      → restrict os net s path ≡ (t, ok tt)
      → net.chmod s path 384 ≡ (t, true)
  unfolding restrict
  restrict-inv s t path h = elim (Bool-cases (net.chmod s path 384).1) [
    | inl done ↦ let state : (net.chmod s path 384).0 ≡ t = ground arith in cc
    | inr f ↦ absurd (ground arith)
  ]

  open_socket-Opened :
      (s t : os.State) (path : FilePath) → open_socket os net s path ≡ (t, ok tt) → Opened s path t
  unfolding open_socket
  open_socket-Opened s t path h = elim (Bool-cases (net.listen s path).1) [
    | inl listens ↦
        let same : open_socket os net s path ≡ restrict os net (net.listen s path).0 path =
          rw (open_socket, listens) refl in
        ((net.listen s path).0, (cc, restrict-inv _ t path (sym same ∙ h)))
    | inr f ↦ absurd (ground arith)
  ]

  replace_socket-inv :
      (s t : os.State) (path : FilePath) (i : Info)
      → replace_socket os net s path i ≡ (t, ok tt)
      → ((i.is_socket ≡ true) × (net.answered s path ≡ false))
        × Opened (os.remove_file s path) path t
  unfolding replace_socket
  replace_socket-inv s t path i h = elim (Bool-cases (not i.is_socket || net.answered s path)) [
    | inl bad ↦ absurd (ground arith)
    | inr good ↦ elim (Bool-cases (net.removes s path)) [
      | inl gone ↦
          let same : replace_socket os net s path i
              ≡ open_socket os net (os.remove_file s path) path =
            rw (replace_socket, good, gone) refl in
          ((ground arith, ground arith), open_socket-Opened _ t path (sym same ∙ h))
      | inr f ↦ absurd (ground arith)
    ]
  ]

  claim_path-inv :
      (s t : os.State) (path : FilePath) (r : Result Info)
      → os.lstat s path ≡ r
      → claim_path os net s path r ≡ (t, ok tt)
      → (u : os.State) × (Claimed s path u × Opened u path t)
  unfolding claim_path
  claim_path-inv s t path (ok i) e h =
      let ((socket, dead), done) = replace_socket-inv s t path i h in
      (os.remove_file s path, (inr (i, (e, (socket, (dead, refl)))), done))
  claim_path-inv s t path (err missing) e h = (s, (inl (e, refl), open_socket-Opened s t path h))
  claim_path-inv s t path (err refused) e h = absurd (ground arith)

  -- A command that has started to listen: it made its runtime directory, which gives group and others
  -- no permission; its socket's path was free, or held a socket on which nobody answered and which was
  -- removed; then it listened there, and last it set the socket's mode to 0600.
  pub start_peer-IsListening :
      (s t : os.State) (dir : FilePath) (name : Bytes)
      → start_peer os net s dir name ≡ (t, ok tt)
      → IsListening s dir name t
  unfolding start_peer in_directory
  start_peer-IsListening s t dir name h =
      let u = (os.mkdir_all s (run_dir dir)).0 in
      elim (Bool-cases (os.mkdir_all s (run_dir dir)).1) [
        | inr f ↦ absurd (ground arith)
        | inl works ↦ elim (Result-cases (os.lstat u (run_dir dir))) [
          | inr (e, bad) ↦ absurd (ground arith)
          | inl (i, there) ↦ elim (Bool-cases (not i.is_dir || not (bit_and i.perm 63 == 0))) [
            | inl bad ↦ absurd (
                let fails : start_peer os net s dir name ≡ (u, err refused) =
                  rw (start_peer, works, there, in_directory, bad) refl in
                ground arith)
            | inr good ↦
                let same : start_peer os net s dir name
                    ≡ claim_path os net u (socket_path dir name)
                        (os.lstat u (socket_path dir name)) =
                  rw (start_peer, works, there, in_directory, good) refl in
                let (v, (free, done)) =
                  claim_path-inv u t (socket_path dir name) _ refl (sym same ∙ h) in
                record {
                  directory = i;
                  made = u;
                  makes = cc;
                  there = there;
                  is_directory = ground arith;
                  private = ground arith;
                  claimed = v;
                  free = free;
                  opened = done;
                }
          ]
        ]
      ]
