-- ===== src/Command/Parts.antt =====
-- cmd/qcat/main.go: the parts of a client command, for a property of runs that each way to build a run
-- keeps.
use quantumcat.Base.{
  ℕ, ◌≤◌, Bytes, ascii, bytes_eq, Bool, Bool-cases, Option-cases, true, false, ◌==◌, ltb, Option,
  none, some, List, [], ◌∷◌, ◌≡◌, inl, inr, refl, ap, sym, subst, arith,
}
use quantumcat.Base.Int.{ℤ}
use quantumcat.Files.{FilePath, Result-cases, ok, Os}
use quantumcat.Config.{Libraries, Peer}
use quantumcat.Config.Store.{peer}
use quantumcat.Socks.{validate_target}
use quantumcat.Services.{cut, udp_forward_spec}
use quantumcat.Command.{
  Command, forward, socks, connect, up, is_connect, Flags, Resource, identity_key, transport_client,
  tunnel_device, renewal, control_socket, listener, udp_listener, tunnel_connection,
  local_connection, mosh_listener, forwarding, Call, configure, ping, route, resolve,
  forward_udp_flows, copy, accept_loop, Site, Run, fail, hold, obtain, perform, finally,
  forward_udp, listen_on, forward_tcp, connect_port, by_command, serve_command, runtime_name,
  run_connected, set_up, with_peer, udp_plan, flags_allowed, with_name, run_client,
}

-- What a command about the peer of this name may hold: the client is for the key and the endpoint of
-- the paired peer, the control socket for the peer's name, a listener at a loopback address, and the
-- connection to a port from 2 on; forwarding of a Mosh session is to a port.
abbrev pub Allowed : Site → (os : Os) → Libraries → os.State → FilePath → Bytes → Resource → Type 0
Allowed site os lib s dir name identity_key = Unit
Allowed site os lib s dir name (transport_client k e) =
    (p : Peer) × ((peer os lib dir s name ≡ ok p) × ((k ≡ p.public_key) × (e ≡ p.endpoint)))
Allowed site os lib s dir name tunnel_device = Unit
Allowed site os lib s dir name (renewal reports) = Unit
Allowed site os lib s dir name (control_socket n about) = about ≡ name
Allowed site os lib s dir name (listener addr) =
    (host : Bytes) × ((port : Bytes) × ((site.net.split_host_port addr ≡ some (host, port))
        × (site.is_loopback host ≡ true)))
Allowed site os lib s dir name (udp_listener addr) =
    (port : ℕ) × (addr ≡ site.net.join_host_port (ascii "127.0.0.1") port)
Allowed site os lib s dir name (tunnel_connection n) = 2 ≤ n
Allowed site os lib s dir name (local_connection n) = Unit
Allowed site os lib s dir name (mosh_listener n) = Unit
Allowed site os lib s dir name (forwarding n) = (1 ≤ n) × (n ≤ 65535)

-- A property of runs that the ways to build one keep.
pub record Kept {ℓ} (site : Site) (P : Resource → Type 0) (Q : Run → Type ℓ) : Type ℓ where
  pub failing : Q fail
  pub returning : Q (λ h. (h, true))
  pub holding : (r : Resource) (body : Run) → P r → Q body → Q (hold r body)
  pub obtaining : (r : Resource) (body : Run) → P r → Q body → Q (obtain site r body)
  pub performing : (c : Call) (body : Run) → Q body → Q (perform site c body)

module _ {ℓ} (site : Site) (os : Os) (lib : Libraries) (s : os.State) (dir : FilePath)
    (name : Bytes) (Q : Run → Type ℓ) (kept : Kept site (Allowed site os lib s dir name) Q) where
  finally-Q : (c : Call) → Q (finally site c)
  finally-Q c = kept.performing c (λ h. (h, true)) kept.returning

  forward_udp-Q :
      (addr : Bytes) (port n : ℕ) (idle : ℤ)
      → addr ≡ site.net.join_host_port (ascii "127.0.0.1") n
      → Q (forward_udp site addr port idle)
  unfolding forward_udp
  forward_udp-Q addr port n idle here =
      kept.performing (resolve addr) _
        (kept.obtaining (udp_listener addr) _ (n, here) (finally-Q (forward_udp_flows port idle)))

  listen_on-Q : (addr : Bytes) (target : Option Bytes) → Q (listen_on site addr target)
  unfolding listen_on
  listen_on-Q addr target = elim (Option-cases (site.net.split_host_port addr)) [
    | inl t ↦ rw (listen_on, t) kept.failing
    | inr ((host, port), t) ↦ elim (Bool-cases (site.is_loopback host)) [
      | inl is ↦
          rw (listen_on, t, is)
            (kept.obtaining (listener addr) _ (host, (port, (t, is)))
              (finally-Q (accept_loop target)))
      | inr f ↦ rw (listen_on, t, f) kept.failing
    ]
  ]

  forward_tcp-Q : (spec : Bytes) → Q (forward_tcp site spec)
  unfolding forward_tcp
  forward_tcp-Q spec = elim (Option-cases (cut 58 spec)) [
    | inl t ↦ rw (forward_tcp, t) kept.failing
    | inr ((port, remote), t) ↦ elim (Bool-cases (validate_target site.net remote)) [
      | inl is ↦ elim (Option-cases (site.net.parse_port port)) [
        | inl u ↦ rw (forward_tcp, t, is, u) kept.failing
        | inr (n, u) ↦
            rw (forward_tcp, t, is, u)
              (listen_on-Q (site.net.join_host_port (ascii "127.0.0.1") n) (some remote))
      ]
      | inr f ↦ rw (forward_tcp, t, f) kept.failing
    ]
  ]

  connect_port-Q : (text : Bytes) → Q (connect_port site text)
  unfolding connect_port
  connect_port-Q text = elim (Option-cases (site.net.parse_port text)) [
    | inl t ↦ rw (connect_port, t) kept.failing
    | inr (port, t) ↦ elim (Bool-cases (ltb port 2)) [
      | inl is ↦ rw (connect_port, t, is) kept.failing
      | inr f ↦
          rw (connect_port, t, f)
            (kept.obtaining (tunnel_connection port) _ (ground arith) (finally-Q copy))
    ]
  ]

  by_command-Q :
      (c : Command) (flags : Flags) (p : Peer) (more : List Bytes)
      → Q (by_command site lib c flags p more)
  unfolding by_command
  by_command-Q up flags p more = elim (Option-cases (lib.parse_addr p.endpoint)) [
    | inl t ↦ rw (by_command, t) kept.failing
    | inr (e, t) ↦ rw (by_command, t) (finally-Q route)
  ]
  by_command-Q connect flags p [] = kept.failing
  by_command-Q connect flags p (port ∷ []) = connect_port-Q port
  by_command-Q connect flags p (port ∷ other ∷ rest) = kept.failing
  by_command-Q forward flags p [] = kept.failing
  by_command-Q forward flags p (spec ∷ []) = forward_tcp-Q spec
  by_command-Q forward flags p (spec ∷ other ∷ rest) = kept.failing
  by_command-Q socks flags p [] = listen_on-Q flags.listen none
  by_command-Q socks flags p (other ∷ rest) = kept.failing

  -- The plan of --udp listens at 127.0.0.1.
  abbrev IsPlan : Option (Bytes × ℕ) → Type 0
  IsPlan none = Unit
  IsPlan (some (addr, port)) = (n : ℕ) × (addr ≡ site.net.join_host_port (ascii "127.0.0.1") n)

  serve_command-Q :
      (c : Command) (flags : Flags) (udp : Option (Bytes × ℕ)) (p : Peer) (more : List Bytes)
      → IsPlan udp
      → Q (serve_command site lib c flags udp p more)
  unfolding serve_command
  serve_command-Q c flags none p more planned = by_command-Q c flags p more
  serve_command-Q c flags (some (addr, port)) p more planned =
      forward_udp-Q addr port planned.0 flags.udp_idle planned.1

  run_connected-Q :
      (c : Command) (flags : Flags) (udp : Option (Bytes × ℕ)) (p : Peer) (more : List Bytes)
      → IsPlan udp
      → Q (run_connected site lib c flags udp name p more)
  unfolding run_connected
  run_connected-Q c flags udp p more planned =
      let body = serve_command-Q c flags udp p more planned in
      kept.performing ping _ (elim (Bool-cases (is_connect c)) [
        | inl t ↦ rw (t) (kept.holding (renewal false) _ tt body)
        | inr f ↦ rw (f) (
            kept.holding (renewal true) _ tt
              (kept.obtaining (control_socket (runtime_name site c udp name) name) _ refl body))
      ])

  set_up-Q : (c : Command) (more : List Bytes) (next : Run) → Q next → Q (set_up site c more next)
  unfolding set_up
  set_up-Q forward more next is = is
  set_up-Q socks more next is = is
  set_up-Q connect more next is = is
  set_up-Q up [] next is = kept.obtaining tunnel_device _ tt (kept.performing configure next is)
  set_up-Q up (other ∷ rest) next is = kept.failing

  with_peer-Q :
      (c : Command) (flags : Flags) (udp : Option (Bytes × ℕ)) (more : List Bytes) (p : Peer)
      → IsPlan udp
      → peer os lib dir s name ≡ ok p
      → Q (with_peer site lib c flags udp name more p)
  unfolding with_peer
  with_peer-Q c flags udp more p planned found = elim (Bool-cases (bytes_eq p.endpoint [])) [
    | inl t ↦ rw (t) kept.failing
    | inr f ↦ rw (f) (
        kept.obtaining identity_key _ tt (
          kept.obtaining (transport_client p.public_key p.endpoint) _ (p, (found, (refl, refl)))
            (set_up-Q c more _ (run_connected-Q c flags udp p more planned))))
  ]

  udp_forward_spec-IsPlan :
      (spec : Bytes) (plan : Bytes × ℕ)
      → udp_forward_spec site.net spec ≡ some plan
      → IsPlan (some plan)
  unfolding udp_forward_spec
  udp_forward_spec-IsPlan spec plan h = elim (Option-cases (cut 58 spec)) [
    | inl t ↦
        absurd
          (let bad : udp_forward_spec site.net spec ≡ none = rw (udp_forward_spec, t) refl in cc)
    | inr ((l, r), t) ↦ elim (Option-cases (site.net.parse_port l)) [
      | inl u ↦
          absurd (
            let bad : udp_forward_spec site.net spec ≡ none = rw (udp_forward_spec, t, u) refl in
            cc)
      | inr (n, u) ↦ elim (Option-cases (site.net.parse_port r)) [
        | inl v ↦ absurd (
            let bad : udp_forward_spec site.net spec ≡ none = rw (udp_forward_spec, t, u, v) refl in
            cc)
        | inr (m, v) ↦ elim (Bool-cases (m == 0)) [
          | inl z ↦ absurd (
              let bad : udp_forward_spec site.net spec ≡ none =
                rw (udp_forward_spec, t, u, v, z) refl in
              cc)
          | inr z ↦
              let is : udp_forward_spec site.net spec
                  ≡ some (site.net.join_host_port (ascii "127.0.0.1") n, m) =
                rw (udp_forward_spec, t, u, v, z) refl in
              let same : (site.net.join_host_port (ascii "127.0.0.1") n, m) ≡ plan = cc in
              (n, ap (λ x. x.0) (sym same))
        ]
      ]
    ]
  ]

  udp_plan-IsPlan :
      (udp : Bool) (more : List Bytes) (plan : Option (Bytes × ℕ))
      → udp_plan site udp more ≡ some plan
      → IsPlan plan
  unfolding udp_plan
  udp_plan-IsPlan false more none h = tt
  udp_plan-IsPlan false more (some plan) h = absurd cc
  udp_plan-IsPlan true [] plan h = absurd cc
  udp_plan-IsPlan true (spec ∷ []) plan h = elim (Option-cases (udp_forward_spec site.net spec)) [
    | inl t ↦ absurd (let bad : udp_plan site true (spec ∷ []) ≡ none = rw (udp_plan, t) refl in cc)
    | inr (made, t) ↦
        let is : udp_plan site true (spec ∷ []) ≡ some (some made) = rw (udp_plan, t) refl in
        let same : some made ≡ plan = cc in subst IsPlan same (udp_forward_spec-IsPlan spec made t)
  ]
  udp_plan-IsPlan true (spec ∷ other ∷ rest) plan h = absurd cc

  with_name-Q :
      (c : Command) (flags : Flags) (more : List Bytes)
      → Q (with_name site os lib s dir c flags name more)
  unfolding with_name
  with_name-Q c flags more = elim (Bool-cases (flags_allowed c flags)) [
    | inl t ↦ elim (Option-cases (udp_plan site flags.udp more)) [
      | inl u ↦ rw (with_name, t, u) kept.failing
      | inr (plan, u) ↦ elim (Result-cases (peer os lib dir s name)) [
        | inl (p, found) ↦
            rw (with_name, t, u, found)
              (with_peer-Q c flags plan more p (udp_plan-IsPlan flags.udp more plan u) found)
        | inr (why, e) ↦ rw (with_name, t, u, e) kept.failing
      ]
    ]
    | inr f ↦ rw (with_name, f) kept.failing
  ]

  -- A command whose first argument behind the flags is this name.
  pub run_client-Q :
      (c : Command) (args : List Bytes) (flags : Flags) (more : List Bytes)
      → site.parse_flags c args ≡ some (flags, name ∷ more)
      → Q (run_client site os lib s dir c args)
  unfolding run_client
  run_client-Q c args flags more parsed = rw (run_client, parsed) (with_name-Q c flags more)
