-- ===== src/Command/Mosh/Contained.antt =====
-- cmd/qcat/mosh.go: what the command mosh reaches, and what it holds on its way.
use quantumcat.Base.{
  ℕ, ◌≤◌, Bytes, bytes_eq, Bool-cases, Option-cases, true, false, not, ◌&&◌, ◌||◌, Bool, ◌⊎◌, some,
  List, [], All, ◌≡◌, inl, inr, refl, subst, arith,
}
use quantumcat.Base.Int.{pos_part}
use quantumcat.Files.{FilePath, Result-cases, ok, Os}
use quantumcat.Config.{Libraries, Peer}
use quantumcat.Config.Store.{peer}
use quantumcat.Mosh.{MoshSession, parse_mosh_connect, mosh_args, valid_destination}
use quantumcat.Mosh.Session.{parse_mosh_connect-IsAnnouncement}
use quantumcat.Mosh.Bootstrap.{
  Strings, Bootstrap, announces, fails_with, bounded_writes, mosh_diagnostic, bootstrap_mosh,
}
use quantumcat.Command.{Run, Trace, ping}
use quantumcat.Command.Parts.{Allowed, Kept}
use quantumcat.Command.Released.{Held, held_none, Balanced, Balanced-Kept}
use quantumcat.Command.Local.{Acquires, Keeps, Keeps-Kept}
use quantumcat.Command.Mosh.{
  MoshFlags, MoshSite, bad_ports, ssh_host, ssh_args, forwarded_port, run_session, start_session,
  run_mosh_connected, run_mosh_peer, run_mosh_paired, run_mosh_named, run_mosh,
}

announced_port :
    (str : Strings) (out log : List Bytes) (expected : ℕ) (session : MoshSession)
    → bootstrap_mosh str true out log expected ≡ announces session
    → (1 ≤ session.port) × (session.port ≤ 65535)
unfolding bootstrap_mosh
announced_port str out log expected session h =
    let wrote = bounded_writes [] out in
    elim (Bool-cases (wrote.1 && (bounded_writes [] log).1)) [
      | inr f ↦ absurd (
          let bad : bootstrap_mosh str true out log expected
              ≡ fails_with (mosh_diagnostic str (bounded_writes [] log).0) =
            rw (bootstrap_mosh, f) refl in
          cc)
      | inl t ↦ elim (Option-cases (parse_mosh_connect wrote.0 expected)) [
        | inl u ↦ absurd (
            let bad : bootstrap_mosh str true out log expected
                ≡ fails_with (mosh_diagnostic str (bounded_writes [] log).0) =
              rw (bootstrap_mosh, t, u) refl in
            cc)
        | inr (found, u) ↦
            let is : bootstrap_mosh str true out log expected ≡ announces found =
              rw (bootstrap_mosh, t, u) refl in
            let same : found ≡ session = cc in
            let (line, (only, a)) = parse_mosh_connect-IsAnnouncement wrote.0 expected found u in
            subst (λ (x : MoshSession). (1 ≤ x.port) × (x.port ≤ 65535)) same
              (a.positive, a.bounded)
      ]
    ]

forwarded_port-bounds :
    (flags : MoshFlags) (session : MoshSession)
    → bad_ports flags ≡ false
    → (1 ≤ session.port) × (session.port ≤ 65535)
    → (1 ≤ forwarded_port flags session) × (forwarded_port flags session ≤ 65535)
unfolding bad_ports
forwarded_port-bounds flags session good range = (ground arith, ground arith)

Bootstrap-cases :
    (b : Bootstrap)
    → ((s : MoshSession) × (b ≡ announces s)) ⊎ ((shown : Bytes) × (b ≡ fails_with shown))
Bootstrap-cases (announces s) = inl (s, refl)
Bootstrap-cases (fails_with shown) = inr (shown, refl)

module _ {ℓ} (ms : MoshSite) (os : Os) (lib : Libraries) (s : os.State) (dir : FilePath)
    (name : Bytes) (Q : Run → Type ℓ)
    (kept : Kept ms.site (Allowed ms.site os lib s dir name) Q) where
  run_session-Q :
      (flags : MoshFlags) (session : MoshSession)
      → bad_ports flags ≡ false
      → (1 ≤ session.port) × (session.port ≤ 65535)
      → Q (run_session ms flags session)
  unfolding run_session
  run_session-Q flags session good range =
      kept.holding _ _ (forwarded_port-bounds flags session good range)
        (kept.performing _ _ kept.returning)

  start_session-Q :
      (flags : MoshFlags) (command : List Bytes)
      → bad_ports flags ≡ false
      → Q (start_session ms flags name command)
  unfolding start_session
  start_session-Q flags command good =
      let out = ms.ssh_output (ssh_args ms flags name command) in
      elim (Bootstrap-cases (bootstrap_mosh ms.str true out.0 out.1 (pos_part flags.server_port))) [
        | inl (session, t) ↦
            rw (start_session, t)
              (run_session-Q flags session good
                (announced_port ms.str out.0 out.1 (pos_part flags.server_port) session t))
        | inr (shown, t) ↦ rw (start_session, t) kept.failing
      ]

  run_mosh_peer-Q :
      (flags : MoshFlags) (command : List Bytes) (p : Peer)
      → bad_ports flags ≡ false
      → peer os lib dir s name ≡ ok p
      → Q (run_mosh_peer ms flags name command p)
  unfolding run_mosh_peer run_mosh_connected
  run_mosh_peer-Q flags command p good found = elim (Bool-cases (bytes_eq p.endpoint [])) [
    | inl t ↦ rw (run_mosh_peer, t) kept.failing
    | inr f ↦
        rw (run_mosh_peer, f)
          (kept.obtaining _ _ tt (
            kept.obtaining _ _ tt (
              kept.obtaining _ _ (p, (found, (refl, refl)))
                (kept.performing ping _ (
                  kept.obtaining _ _ refl (
                    kept.holding _ _ tt
                      (kept.performing _ _ (start_session-Q flags command good))))))))
  ]

  run_mosh_named-Q :
      (flags : MoshFlags) (command : List Bytes)
      → Q (run_mosh_named ms os lib s dir flags name command)
  unfolding run_mosh_named run_mosh_paired
  run_mosh_named-Q flags command =
      elim (Bool-cases
        (not (valid_destination (ssh_host flags name) flags.server) || bad_ports flags)) [
          | inl t ↦ rw (run_mosh_named, t) kept.failing
          | inr f ↦
              let good : bad_ports flags ≡ false = ground arith in
              rw (run_mosh_named, f)
                (kept.performing _ _ (
                  kept.performing _ _ (elim (Result-cases (peer os lib dir s name)) [
                    | inl (p, found) ↦
                        rw (run_mosh_paired, found) (run_mosh_peer-Q flags command p good found)
                    | inr (e, t) ↦ rw (run_mosh_paired, t) kept.failing
                  ])))
        ]

  run_mosh-Q :
      (args rest command : List Bytes) (flags : MoshFlags)
      → ms.parse_mosh_flags args ≡ some (flags, rest)
      → mosh_args rest ≡ some (name, command)
      → Q (run_mosh ms os lib s dir args)
  unfolding run_mosh
  run_mosh-Q args rest command flags parsed split =
      rw (run_mosh, parsed, split) (run_mosh_named-Q flags command)

-- The command mosh holds nothing at its end, whatever succeeded or failed on its way: what it
-- acquired it released, each time the newest of what it held. A transport client of it is for the
-- public key and the endpoint of the descriptor that the store gives for the name, a control socket
-- for this name, and it forwards datagrams to a port from 1 to 65535 only. The arguments parse to
-- flags, the name and the command behind it.
pub run_mosh-Contained :
    (ms : MoshSite) (os : Os) (lib : Libraries) (s : os.State) (dir : FilePath)
    (args rest command : List Bytes) (flags : MoshFlags) (name : Bytes) (h : Trace) (good : Bool)
    → ms.parse_mosh_flags args ≡ some (flags, rest)
    → mosh_args rest ≡ some (name, command)
    → run_mosh ms os lib s dir args [] ≡ (h, good)
    → Held h [] × All (Acquires (Allowed ms.site os lib s dir name)) h
run_mosh-Contained ms os lib s dir args rest command flags name h good parsed split ran =
    let P = Allowed ms.site os lib s dir name in
    (
      subst (λ x. Held x.0 []) ran
          (run_mosh-Q ms os lib s dir name Balanced (Balanced-Kept ms.site P) args rest command
            flags parsed split [] [] held_none),
      subst (λ x. All (Acquires P) x.0) ran
          (run_mosh-Q ms os lib s dir name (Keeps P) (Keeps-Kept P ms.site) args rest command flags
            parsed split [] tt),
    )
