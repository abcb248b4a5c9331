-- ===== src/Command.antt =====
-- cmd/qcat/main.go and udp.go: the commands forward, socks, connect and up. What they do is a trace of
-- effects; what surrounds them decides from the trace whether an effect succeeds.
mod Parts
pub mod Released
pub mod Local
pub mod Dispatch
pub mod Mosh
mod Tests
use quantumcat.Base.{
  ℕ, Bytes, ascii, bytes_eq, Bool, true, false, not, ◌&&◌, ltb, leb, if◌then◌else◌, Option, none,
  some, List, [], ◌∷◌, ◌++◌,
}
use quantumcat.Base.Int.{ℤ, pos, ltb_ℤ}
use quantumcat.Files.{FilePath, Result, ok, err, Os}
use quantumcat.Config.{Libraries, Peer, Endpoint}
use quantumcat.Config.Store.{peer}
use quantumcat.Socks.{Net, validate_target}
use quantumcat.Services.{cut, udp_forward_spec}

pub data Command : Type 0 where
  forward : Command
  socks : Command
  connect : Command
  up : Command

abbrev pub command_name : Command → Bytes
command_name forward = ascii "forward"
command_name socks = ascii "socks"
command_name connect = ascii "connect"
command_name up = ascii "up"

abbrev pub is_forward : Command → Bool
is_forward forward = true
is_forward socks = false
is_forward connect = false
is_forward up = false

abbrev pub is_connect : Command → Bool
is_connect connect = true
is_connect forward = false
is_connect socks = false
is_connect up = false

pub record Flags : Type 0 where
  pub listen : Bytes
  pub udp : Bool
  pub udp_idle : ℤ

-- --udp is for forward only, and the idle time is positive.
abbrev pub flags_allowed : Command → Flags → Bool
flags_allowed c flags = not (flags.udp && not (is_forward c)) && ltb_ℤ (pos 0) flags.udp_idle

-- What a command holds until it returns: the identity, the transport's client for a public key and an
-- endpoint, the tunnel's device, the goroutine of Maintain (with whether it reports errors), the
-- control socket for a peer, listeners by their address, and connections. The command mosh listens at a
-- port of 127.0.0.1, and has a goroutine of ForwardUDP to a port of the tunnel.
pub data Resource : Type 0 where
  identity_key : Resource
  transport_client : Bytes → Bytes → Resource
  tunnel_device : Resource
  renewal : Bool → Resource
  control_socket : Bytes → Bytes → Resource
  listener : Bytes → Resource
  udp_listener : Bytes → Resource
  tunnel_connection : ℕ → Resource
  local_connection : ℕ → Resource
  mosh_listener : ℕ → Resource
  forwarding : ℕ → Resource

-- The calls that hold nothing: the device's configuration, the first packet of the client, the route to
-- the peer, the UDP address, ForwardUDP, the copies between connections, the loop on the listener, and
-- the request to the peer's SOCKS service. The command mosh looks up programs, runs ssh with arguments,
-- and mosh-client with a port and an environment.
pub data Call : Type 0 where
  configure : Call
  ping : Call
  route : Call
  resolve : Bytes → Call
  forward_udp_flows : ℕ → ℤ → Call
  copy : Call
  accept_loop : Option Bytes → Call
  dial_target : Bytes → Call
  look_path : Bytes → Call
  run_ssh : List Bytes → Call
  run_mosh_client : ℕ → List Bytes → Call

pub data Effect : Type 0 where
  acquire : Resource → Bool → Effect
  release : Resource → Effect
  call : Call → Bool → Effect

-- The newest effect first.
abbrev pub Trace : Type 0
Trace = List Effect

pub record Site : Type 0 where
  pub net : Net
  -- net.ParseIP gives an address, and its IsLoopback holds.
  pub is_loopback : Bytes → Bool
  -- Go's flag package: the flags and the arguments behind them.
  pub parse_flags : Command → List Bytes → Option (Flags × List Bytes)
  pub acquires : Trace → Resource → Bool
  pub calls : Trace → Call → Bool

-- A part of a command: what it adds to the trace, and whether it returns without an error.
abbrev pub Run : Type 0
Run = Trace → Trace × Bool

abbrev pub fail : Run
fail h = (h, false)

-- A resource that cannot fail, and its deferred release.
unfoldable pub hold : Resource → Run → Run
hold r body h = let (h', good) = body (acquire r true ∷ h) in (release r ∷ h', good)

module _ (site : Site) where
  unfoldable pub obtain : Resource → Run → Run
  obtain r body h = if site.acquires h r then hold r body h else (acquire r false ∷ h, false)

  unfoldable pub perform : Call → Run → Run
  perform c body h = if site.calls h c then body (call c true ∷ h) else (call c false ∷ h, false)

  abbrev pub finally : Call → Run
  finally c = perform c (λ h. (h, true))

  unfoldable pub forward_udp : Bytes → ℕ → ℤ → Run
  forward_udp addr port idle =
      perform (resolve addr) (obtain (udp_listener addr) (finally (forward_udp_flows port idle)))

  -- Only a loopback address is listened on.
  unfoldable pub listen_on : Bytes → Option Bytes → Run
  listen_on addr target = elim (site.net.split_host_port addr) [
    | none ↦ fail
    | some (host, port) ↦
        if site.is_loopback host
        then obtain (listener addr) (finally (accept_loop target))
        else fail
  ]

  -- `LOCALPORT:HOST:PORT`.
  unfoldable pub forward_tcp : Bytes → Run
  forward_tcp spec = elim (cut 58 spec) [
    | none ↦ fail
    | some (port, remote) ↦
        if validate_target site.net remote
        then elim (site.net.parse_port port) [
          | none ↦ fail
          | some n ↦ listen_on (site.net.join_host_port (ascii "127.0.0.1") n) (some remote)
        ]
        else fail
  ]

  unfoldable pub connect_port : Bytes → Run
  connect_port text = elim (site.net.parse_port text) [
    | none ↦ fail
    | some port ↦ if ltb port 2 then fail else obtain (tunnel_connection port) (finally copy)
  ]

  -- A connection that the loop on the listener accepted, by its number: it is carried to the SOCKS
  -- service of the peer, with a request where the command has a target.
  unfoldable pub carry_local : ℕ → Option Bytes → Run
  carry_local n target = hold (local_connection n) (
      obtain (tunnel_connection 1)
        (elim target [ none ↦ finally copy | some t ↦ perform (dial_target t) (finally copy) ]))

  -- The loop on the listener has accepted a connection while `busy` goroutines have a slot.
  unfoldable pub accept_local : ℕ → ℕ → Option Bytes → Run
  accept_local busy n target =
      if leb 128 busy then hold (local_connection n) (λ h. (h, true)) else carry_local n target

  -- The commands without --udp, with the arguments behind the peer.
  unfoldable pub by_command : Libraries → Command → Flags → Peer → List Bytes → Run
  by_command lib up flags p more = elim (lib.parse_addr p.endpoint) [
    | none ↦ fail
    | some e ↦ finally route
  ]
  by_command lib connect flags p [] = fail
  by_command lib connect flags p (port ∷ []) = connect_port port
  by_command lib connect flags p (port ∷ other ∷ rest) = fail
  by_command lib forward flags p [] = fail
  by_command lib forward flags p (spec ∷ []) = forward_tcp spec
  by_command lib forward flags p (spec ∷ other ∷ rest) = fail
  by_command lib socks flags p [] = listen_on flags.listen none
  by_command lib socks flags p (other ∷ rest) = fail

  -- What follows the control socket; `udp` is the UDP address to listen on and the port.
  unfoldable pub serve_command :
      Libraries → Command → Flags → Option (Bytes × ℕ) → Peer → List Bytes → Run
  serve_command lib c flags udp p more = elim udp [
    | none ↦ by_command lib c flags p more
    | some (addr, port) ↦ forward_udp addr port flags.udp_idle
  ]

  -- The name of the command's control socket.
  unfoldable pub runtime_name : Command → Option (Bytes × ℕ) → Bytes → Bytes
  runtime_name c none name = command_name c ++ (ascii "-" ++ name)
  runtime_name c (some (addr, port)) name = elim (site.net.split_host_port addr) [
    | none ↦ ascii "forward-udp-" ++ (ascii "-" ++ name)
    | some (host, text) ↦ ascii "forward-udp-" ++ (text ++ (ascii "-" ++ name))
  ]

  -- The command connect has no control socket, and its renewal is silent.
  unfoldable pub run_connected :
      Libraries → Command → Flags → Option (Bytes × ℕ) → Bytes → Peer → List Bytes → Run
  run_connected lib c flags udp name p more =
      let body = serve_command lib c flags udp p more in
      perform ping (
        hold (renewal (not (is_connect c))) (
          if is_connect c
          then body
          else obtain (control_socket (runtime_name c udp name) name) body))

  -- The command up opens the tunnel's device first.
  unfoldable pub set_up : Command → List Bytes → Run → Run
  set_up forward more next = next
  set_up socks more next = next
  set_up connect more next = next
  set_up up [] next = obtain tunnel_device (perform configure next)
  set_up up (other ∷ rest) next = fail

  unfoldable pub with_peer :
      Libraries → Command → Flags → Option (Bytes × ℕ) → Bytes → List Bytes → Peer → Run
  with_peer lib c flags udp name more p =
      if bytes_eq p.endpoint []
      then fail
      else obtain identity_key (
          obtain (transport_client p.public_key p.endpoint)
            (set_up c more (run_connected lib c flags udp name p more)))

  -- The UDP address and port of --udp, `none` where the arguments are wrong.
  unfoldable pub udp_plan : Bool → List Bytes → Option (Option (Bytes × ℕ))
  udp_plan false more = some none
  udp_plan true [] = none
  udp_plan true (spec ∷ []) = elim (udp_forward_spec site.net spec) [
    | none ↦ none
    | some plan ↦ some (some plan)
  ]
  udp_plan true (spec ∷ other ∷ rest) = none

  module _ (os : Os) (lib : Libraries) (s : os.State) (dir : FilePath) where
    unfoldable pub with_name : Command → Flags → Bytes → List Bytes → Run
    with_name c flags name more =
        if flags_allowed c flags
        then elim (udp_plan flags.udp more) [
          | none ↦ fail
          | some udp ↦ elim (peer os lib dir s name) [
            | err why ↦ fail
            | ok p ↦ with_peer lib c flags udp name more p
          ]
        ]
        else fail

    unfoldable pub run_client : Command → List Bytes → Run
    run_client c args = elim (site.parse_flags c args) [
      | none ↦ fail
      | some (flags, []) ↦ fail
      | some (flags, name ∷ more) ↦ with_name c flags name more
    ]
