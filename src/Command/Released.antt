-- ===== src/Command/Released.antt =====
-- cmd/qcat/main.go: what a client command holds on its way.
use quantumcat.Base.{
  ℕ, Bytes, Bool, Bool-cases, true, false, leb, Option, none, some, List, [], ◌∷◌, ◌≡◌, inl, inr,
  subst,
}
use quantumcat.Files.{FilePath, Os}
use quantumcat.Config.{Libraries}
use quantumcat.Command.{
  Command, Flags, Resource, Call, acquire, release, call, Trace, Site, Run, hold, obtain, perform,
  local_connection, copy, dial_target, carry_local, accept_local, run_client,
}
use quantumcat.Command.Parts.{Allowed, Kept, run_client-Q}

-- What is held after a trace, the newest first. Only the newest of what is held can be released.
pub data Held : Trace → List Resource → Type 0 where
  held_none : Held [] []
  held_more :
      {h : Trace} {rs : List Resource}
      → (r : Resource) → Held h rs
      → Held (acquire r true ∷ h) (r ∷ rs)
  held_same :
      {h : Trace} {rs : List Resource} → (r : Resource) → Held h rs → Held (acquire r false ∷ h) rs
  held_less :
      {h : Trace} {rs : List Resource} → (r : Resource) → Held h (r ∷ rs) → Held (release r ∷ h) rs
  held_call :
      {h : Trace} {rs : List Resource} → (c : Call) (b : Bool) → Held h rs → Held (call c b ∷ h) rs

-- A run that holds at its end what was held at its start.
abbrev pub Balanced : Run → Type 0
Balanced body = (h : Trace) (rs : List Resource) → Held h rs → Held (body h).0 rs

hold-Balanced : (r : Resource) (body : Run) → Balanced body → Balanced (hold r body)
unfolding hold
hold-Balanced r body all h rs before =
    held_less r (all (acquire r true ∷ h) (r ∷ rs) (held_more r before))

obtain-Balanced :
    (site : Site) (r : Resource) (body : Run) → Balanced body → Balanced (obtain site r body)
unfolding obtain
obtain-Balanced site r body all h rs before = elim (Bool-cases (site.acquires h r)) [
  | inl t ↦ rw (obtain, t) (hold-Balanced r body all h rs before)
  | inr f ↦ rw (obtain, f) (held_same r before)
]

perform-Balanced :
    (site : Site) (c : Call) (body : Run) → Balanced body → Balanced (perform site c body)
unfolding perform
perform-Balanced site c body all h rs before = elim (Bool-cases (site.calls h c)) [
  | inl t ↦ rw (perform, t) (all (call c true ∷ h) rs (held_call c true before))
  | inr f ↦ rw (perform, f) (held_call c false before)
]

pub Balanced-Kept : (site : Site) (P : Resource → Type 0) → Kept site P Balanced
Balanced-Kept site P = record {
  failing = λ h rs before. before;
  returning = λ h rs before. before;
  holding = λ r body ok. hold-Balanced r body;
  obtaining = λ r body ok. obtain-Balanced site r body;
  performing = perform-Balanced site;
}

carry_local-Balanced :
    (site : Site) (n : ℕ) (target : Option Bytes) → Balanced (carry_local site n target)
unfolding carry_local
carry_local-Balanced site n none =
    hold-Balanced _ _
      (obtain-Balanced site _ _ (perform-Balanced site copy _ (λ h rs before. before)))
carry_local-Balanced site n (some t) = hold-Balanced _ _ (
    obtain-Balanced site _ _ (
      perform-Balanced site (dial_target t) _
        (perform-Balanced site copy _ (λ h rs before. before))))

accept_local-Balanced :
    (site : Site) (busy n : ℕ) (target : Option Bytes) → Balanced (accept_local site busy n target)
unfolding accept_local
accept_local-Balanced site busy n target = elim (Bool-cases (leb 128 busy)) [
  | inl t ↦ rw (t) (hold-Balanced (local_connection n) (λ h. (h, true)) (λ h rs before. before))
  | inr f ↦ rw (f) (carry_local-Balanced site n target)
]

-- A command forward, socks, connect or up holds nothing itself at its end, whatever succeeded or failed
-- on its way: what it acquired it released, each time the newest of what it held. The connections that
-- its listener accepts are held apart from that, each by its own goroutine, which the command does not
-- wait for: whatever it starts with and however many others there are, the local connection and the one
-- through the tunnel are both released at its end. The arguments parse to flags and a name.
pub run_client-Held :
    (site : Site) (os : Os) (lib : Libraries) (s : os.State) (dir : FilePath) (c : Command)
    (args : List Bytes) (flags : Flags) (name : Bytes) (more : List Bytes) (h : Trace) (good : Bool)
    → site.parse_flags c args ≡ some (flags, name ∷ more)
    → run_client site os lib s dir c args [] ≡ (h, good)
    → Held h []
      × ((before : Trace) (busy n : ℕ) (target : Option Bytes)
          → Held before []
          → Held (accept_local site busy n target before).0 [])
run_client-Held site os lib s dir c args flags name more h good parsed ran = (
  subst (λ x. Held x.0 []) ran
      (run_client-Q site os lib s dir name Balanced
        (Balanced-Kept site (Allowed site os lib s dir name)) c args flags more parsed [] []
        held_none),
  λ before busy n target none_held. accept_local-Balanced site busy n target before [] none_held,
)
