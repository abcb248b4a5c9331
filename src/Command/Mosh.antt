-- ===== src/Command/Mosh.antt =====
-- cmd/qcat/mosh.go: the command mosh. It holds its resources the way the other commands do.
pub mod Contained
use quantumcat.Base.{
  ℕ, Bytes, ascii, bytes_eq, Bool, true, false, not, ◌&&◌, ◌||◌, ◌==◌, if◌then◌else◌, Option, none,
  some, List, [], ◌∷◌, ◌++◌,
}
use quantumcat.Base.Int.{ℤ, pos, pos_part, ltb_ℤ}
use quantumcat.Files.{FilePath, Result, ok, err, Os}
use quantumcat.Config.{Libraries, Peer}
use quantumcat.Config.Store.{peer}
use quantumcat.Mosh.{
  MoshSession, mosh_server_command, mosh_environment, mosh_args, valid_destination,
}
use quantumcat.Mosh.Bootstrap.{Strings, announces, fails_with, bootstrap_mosh}
use quantumcat.Command.{
  Site, Run, fail, identity_key, transport_client, renewal, control_socket, mosh_listener,
  forwarding, ping, look_path, run_ssh, run_mosh_client, hold, obtain, perform, finally,
}

pub record MoshFlags : Type 0 where
  pub host : Bytes
  pub server : Bytes
  pub server_port : ℤ
  pub tunnel_port : ℤ
  pub local_port : ℤ

-- Besides what surrounds every command: the library strings, the flags, the decimal numbers, the port
-- that a listener gets for the one it asks for, what ssh writes to its output and its error output, and
-- the environment.
pub record MoshSite : Type 0 where
  pub site : Site
  pub str : Strings
  pub parse_mosh_flags : List Bytes → Option (MoshFlags × List Bytes)
  pub itoa : ℕ → Bytes
  pub bound_port : ℕ → ℕ
  pub ssh_output : List Bytes → List Bytes × List Bytes
  pub environment : List Bytes

abbrev pub bad_flag : ℤ → Bool
bad_flag port = ltb_ℤ port (pos 0) || ltb_ℤ (pos 65535) port

unfoldable pub bad_ports : MoshFlags → Bool
bad_ports flags =
    bad_flag flags.server_port || (bad_flag flags.tunnel_port || bad_flag flags.local_port)

-- The peer's name, where no host is given.
abbrev pub ssh_host : MoshFlags → Bytes → Bytes
ssh_host flags name = if bytes_eq flags.host [] then name else flags.host

abbrev pub ssh_args : MoshSite → MoshFlags → Bytes → List Bytes → List Bytes
ssh_args ms flags name command =
    ascii "-n"
    ∷ ascii "-T"
    ∷ ascii "--"
    ∷ ssh_host flags name
    ∷ mosh_server_command ms.itoa flags.server (pos_part flags.server_port) command
    ∷ []

-- The port of the session, where no tunnel port is given.
abbrev pub forwarded_port : MoshFlags → MoshSession → ℕ
forwarded_port flags session =
    if pos_part flags.tunnel_port == 0 then session.port else pos_part flags.tunnel_port

unfoldable pub run_session : MoshSite → MoshFlags → MoshSession → Run
run_session ms flags session = hold (forwarding (forwarded_port flags session)) (
    finally ms.site (
      run_mosh_client (ms.bound_port (pos_part flags.local_port))
        (mosh_environment ms.environment session.key)))

-- ssh has ended well: its output gives the session.
unfoldable pub start_session : MoshSite → MoshFlags → Bytes → List Bytes → Run
start_session ms flags name command =
    let out = ms.ssh_output (ssh_args ms flags name command) in
    elim (bootstrap_mosh ms.str true out.0 out.1 (pos_part flags.server_port)) [
      | fails_with shown ↦ fail
      | announces session ↦ run_session ms flags session
    ]

unfoldable pub mosh_control : MoshSite → MoshFlags → Bytes → Bytes
mosh_control ms flags name =
    ascii "mosh-" ++ (ms.itoa (ms.bound_port (pos_part flags.local_port)) ++ (ascii "-" ++ name))

-- The renewal is silent.
unfoldable pub run_mosh_connected : MoshSite → MoshFlags → Bytes → List Bytes → Run
run_mosh_connected ms flags name command = perform ms.site ping (
    obtain ms.site (control_socket (mosh_control ms flags name) name) (
      hold (renewal false) (
        perform ms.site (run_ssh (ssh_args ms flags name command))
          (start_session ms flags name command))))

unfoldable pub run_mosh_peer : MoshSite → MoshFlags → Bytes → List Bytes → Peer → Run
run_mosh_peer ms flags name command p =
    if bytes_eq p.endpoint []
    then fail
    else obtain ms.site (mosh_listener (ms.bound_port (pos_part flags.local_port))) (
        obtain ms.site identity_key (
          obtain ms.site (transport_client p.public_key p.endpoint)
            (run_mosh_connected ms flags name command)))

module _ (ms : MoshSite) (os : Os) (lib : Libraries) (s : os.State) (dir : FilePath) where
  unfoldable pub run_mosh_paired : MoshFlags → Bytes → List Bytes → Run
  run_mosh_paired flags name command = elim (peer os lib dir s name) [
    | err why ↦ fail
    | ok p ↦ run_mosh_peer ms flags name command p
  ]

  unfoldable pub run_mosh_named : MoshFlags → Bytes → List Bytes → Run
  run_mosh_named flags name command =
      if not (valid_destination (ssh_host flags name) flags.server) || bad_ports flags
      then fail
      else perform ms.site (look_path (ascii "ssh"))
          (perform ms.site (look_path (ascii "mosh-client")) (run_mosh_paired flags name command))

  unfoldable pub run_mosh : List Bytes → Run
  run_mosh args = elim (ms.parse_mosh_flags args) [
    | none ↦ fail
    | some (flags, rest) ↦ elim (mosh_args rest) [
      | none ↦ fail
      | some (name, command) ↦ run_mosh_named flags name command
    ]
  ]
