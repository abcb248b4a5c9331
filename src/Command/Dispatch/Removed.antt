-- ===== src/Command/Dispatch/Removed.antt =====
-- cmd/qcat/main.go: the removal of a peer, with the client commands after it.
use quantumcat.Base.{
  Bytes, ascii, bytes_eq, Bool-cases, Option-cases, false, some, List, [], ◌∷◌, ◌≡◌, inl, inr, refl,
  ap,
}
use quantumcat.Files.{FilePath, Result, ok, err, Refusal, Os}
use quantumcat.Files.Laws.{IsLawful}
use quantumcat.Config.{Libraries}
use quantumcat.Config.Store.{peer, remove}
use quantumcat.Config.Pairing.{remove_forgets}
use quantumcat.Command.{Command, Flags, Site, flags_allowed, udp_plan, with_name, run_client}
use quantumcat.Command.Dispatch.{Output, quiet, peers_command}

-- A peer that the store does not give: the command stops before it holds anything.
run_client-unpaired :
    (site : Site) (os : Os) (lib : Libraries) (s : os.State) (dir : FilePath) (c : Command)
    (args : List Bytes) (flags : Flags) (name : Bytes) (more : List Bytes) (e : Refusal)
    → site.parse_flags c args ≡ some (flags, name ∷ more)
    → peer os lib dir s name ≡ err e
    → run_client site os lib s dir c args [] ≡ ([], false)
unfolding run_client with_name
run_client-unpaired site os lib s dir c args flags name more e parsed unpaired =
    elim (Bool-cases (flags_allowed c flags)) [
      | inr f ↦ rw (run_client, with_name, parsed, f) refl
      | inl t ↦ elim (Option-cases (udp_plan site flags.udp more)) [
        | inl u ↦ rw (run_client, with_name, parsed, t, u) refl
        | inr (plan, u) ↦ rw (run_client, with_name, parsed, t, u, unpaired) refl
      ]
    ]

quiet-eq-ok :
    {S : Type 0} (r : S × Result (Unit {0})) (t : S) (out : Output)
    → quiet r ≡ (t, ok out)
    → r ≡ (t, ok tt)
quiet-eq-ok (s, ok u) t out h = let state : s ≡ t = ap (λ x. x.0) h in cc
quiet-eq-ok (s, err e) t out h = absurd cc

-- After the removal of a peer by the command peer has succeeded, the commands forward, socks,
-- connect and up for its name fail before they acquire or call anything. The operating system is
-- lawful, and the arguments parse to flags and the name.
pub removed_unreachable :
    (site : Site) (os : Os) (lib : Libraries) (s t : os.State) (dir : FilePath)
    (to_path : Bytes → FilePath) (name : Bytes) (out : Output) (c : Command) (args : List Bytes)
    (flags : Flags) (more : List Bytes)
    → IsLawful os
    → peers_command os lib dir to_path s (ascii "remove" ∷ name ∷ []) ≡ (t, ok out)
    → site.parse_flags c args ≡ some (flags, name ∷ more)
    → run_client site os lib t dir c args [] ≡ ([], false)
unfolding peers_command bytes_eq
removed_unreachable site os lib s t dir to_path name out c args flags more laws removed parsed =
    let gone =
      remove_forgets os lib dir s t name laws
        (quiet-eq-ok (remove os lib dir s name) t out removed) in
    run_client-unpaired site os lib t dir c args flags name more gone.0 parsed gone.1
