-- ===== src/Command/Local.antt =====
-- cmd/qcat/main.go: which peer and which addresses a client command reaches.
use quantumcat.Base.{Bytes, Bool, Bool-cases, true, some, List, [], ◌∷◌, All, ◌≡◌, inl, inr, subst}
use quantumcat.Files.{FilePath, Os}
use quantumcat.Config.{Libraries}
use quantumcat.Command.{
  Command, Flags, Resource, Call, Effect, acquire, release, call, Trace, Site, Run, hold, obtain,
  perform, run_client,
}
use quantumcat.Command.Parts.{Allowed, Kept, run_client-Q}

abbrev pub Acquires : (Resource → Type 0) → Effect → Type 0
Acquires P (acquire r good) = P r
Acquires P (release r) = P r
Acquires P (call c good) = Unit

module _ (P : Resource → Type 0) where
  abbrev pub Keeps : Run → Type 0
  Keeps body = (h : Trace) → All (Acquires P) h → All (Acquires P) (body h).0

  hold-Keeps : (r : Resource) (body : Run) → P r → Keeps body → Keeps (hold r body)
  unfolding hold
  hold-Keeps r body ok all h before = (ok, all (acquire r true ∷ h) (ok, before))

  obtain-Keeps :
      (site : Site) (r : Resource) (body : Run) → P r → Keeps body → Keeps (obtain site r body)
  unfolding obtain
  obtain-Keeps site r body ok all h before = elim (Bool-cases (site.acquires h r)) [
    | inl t ↦ rw (obtain, t) (hold-Keeps r body ok all h before)
    | inr f ↦ rw (obtain, f) (ok, before)
  ]

  perform-Keeps : (site : Site) (c : Call) (body : Run) → Keeps body → Keeps (perform site c body)
  unfolding perform
  perform-Keeps site c body all h before = elim (Bool-cases (site.calls h c)) [
    | inl t ↦ rw (perform, t) (all (call c true ∷ h) (tt, before))
    | inr f ↦ rw (perform, f) (tt, before)
  ]

  pub Keeps-Kept : (site : Site) → Kept site P Keeps
  Keeps-Kept site = record {
    failing = λ h before. before;
    returning = λ h before. before;
    holding = hold-Keeps;
    obtaining = obtain-Keeps site;
    performing = perform-Keeps site;
  }

-- Whatever a command forward, socks, connect or up acquires or tries to acquire: a transport client
-- is for the public key and the endpoint of the descriptor that the store gives for the name, a
-- control socket is for this name, the address of a TCP listener splits into a loopback host and a
-- port, a UDP listener is at 127.0.0.1, and the connection of connect goes to a port from 2 on. The
-- arguments parse to flags and the name.
pub run_client-Allowed :
    (site : Site) (os : Os) (lib : Libraries) (s : os.State) (dir : FilePath) (c : Command)
    (args : List Bytes) (flags : Flags) (name : Bytes) (more : List Bytes) (h : Trace) (good : Bool)
    → site.parse_flags c args ≡ some (flags, name ∷ more)
    → run_client site os lib s dir c args [] ≡ (h, good)
    → All (Acquires (Allowed site os lib s dir name)) h
run_client-Allowed site os lib s dir c args flags name more h good parsed ran =
    subst (λ x. All (Acquires (Allowed site os lib s dir name)) x.0) ran
      (run_client-Q site os lib s dir name (Keeps (Allowed site os lib s dir name))
        (Keeps-Kept (Allowed site os lib s dir name) site) c args flags more parsed [] tt)
