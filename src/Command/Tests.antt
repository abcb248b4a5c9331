-- ===== src/Command/Tests.antt =====
-- Commands on concrete inputs.
use quantumcat.Base.{
  ℕ, Bytes, ascii, bytes_eq, Bool, true, false, Option, none, some, List, [], ◌∷◌, All, any,
  keep_if, replicate, ◌≡◌, refl,
}
use quantumcat.Base.Int.{pos}
use quantumcat.Base.Assoc.{lookup, erase}
use quantumcat.Crypto.{Crypto}
use quantumcat.Wire.{peer_id, id_string}
use quantumcat.Files.{FilePath, ok}
use quantumcat.Trust.{trust_path, trust_ancestors, trust_chain, trust_ancestor, owned, is_shared}
use quantumcat.Config.{
  Peer, Libraries, valid_peer, valid_endpoint, read_file, check_opened, limited, check_name,
  are_words, is_alnum,
}
use quantumcat.Config.Store.{
  check_store, load_peer, peers_dir, peer_path, check_peers, peer, move_aside, remove,
}
use quantumcat.Config.Tests.Memory.{
  Disk, file_info, dir_info, memory, memory-IsLawful, lstat_disk, path_eq,
}
use quantumcat.Socks.{Net}
use quantumcat.Services.{cut}
use quantumcat.Command.{
  socks, up, Flags, Resource, identity_key, transport_client, tunnel_device, renewal,
  control_socket, listener, udp_listener, tunnel_connection, local_connection, mosh_listener,
  forwarding, ping, accept_loop, dial_target, look_path, run_ssh, run_mosh_client, acquire, release,
  call, Trace, Site, hold, obtain, perform, listen_on, carry_local, accept_local, by_command,
  serve_command, runtime_name, run_connected, set_up, with_peer, udp_plan, with_name, run_client,
}
use quantumcat.Mosh.{
  mosh_server_command, has_prefix, split_lines, trim_return, is_digit, is_key_char, are_all,
  decimal, valid_fields, connect_fields, strip, match_connect, bad_port, announced, read_session,
  parse_mosh_connect, bounded_write, mosh_environment, mosh_args, valid_destination,
}
use quantumcat.Mosh.Bootstrap.{bounded_writes, bootstrap_mosh}
use quantumcat.Command.Dispatch.{done, parsed, queries, run_down, run_command, run, peers_command}
use quantumcat.Command.Dispatch.Removed.{removed_unreachable}
use quantumcat.Command.Mosh.{
  MoshSite, bad_ports, run_session, start_session, mosh_control, run_mosh_connected, run_mosh_peer,
  run_mosh_paired, run_mosh_named, run_mosh,
}
use quantumcat.Command.Mosh.Contained.{run_mosh-Contained}
use quantumcat.Command.Released.{Held, run_client-Held}
use quantumcat.Command.Local.{Acquires, run_client-Allowed}
use quantumcat.Command.Parts.{Allowed}

abbrev plain_crypto : Crypto
plain_crypto = record {
  sha512_256 = λ m. [];
  sha384 = λ m. [];
  hmac384 = λ k m. [];
  hkdf_extract = λ ss salt. none;
  hkdf_expand = λ prk info n. none;
  mldsa_verify = λ key label msg sig. true;
  base32_encode = λ b. [];
  base32_decode = λ b. none;
}

abbrev home : Peer
home = record {
  version = 1;
  name = ascii "home";
  id = ascii "qpeer:";
  public_key = replicate 2592 1;
  endpoint = ascii "tc";
}

-- Every file holds the same descriptor.
abbrev one_peer : Libraries
one_peer = record {
  crypto = plain_crypto;
  parse_addr = λ a. some (record { has_psk = false; has_server = true; has_disco = true });
  encode_peer = λ p. [];
  decode_peer = λ b. some home;
}

abbrev store : FilePath
store = ascii "qcat" ∷ []

abbrev store_disk : Disk
store_disk =
    ([], (dir_info, []))
    ∷ ((store, (dir_info, []))
        ∷ ((peers_dir store, (dir_info, []))
            ∷ ((peer_path store (ascii "home"), (file_info, [])) ∷ [])))

-- Hosts and ports of one character; the flags are not written.
abbrev short_net : Net
short_net = record {
  ip_string = λ b. b;
  join_host_port = λ h p. h;
  split_host_port = λ t. some (t, ascii "80");
  parse_port = λ p. some 80;
}

abbrev some_flags : Flags
some_flags = record { listen = ascii "127.0.0.1"; udp = false; udp_idle = pos 120 }

-- Everything succeeds but the tunnel's device.
abbrev no_device : Resource → Bool
no_device tunnel_device = false
no_device identity_key = true
no_device (transport_client k e) = true
no_device (renewal reports) = true
no_device (control_socket n about) = true
no_device (listener addr) = true
no_device (udp_listener addr) = true
no_device (tunnel_connection n) = true
no_device (local_connection n) = true
no_device (mosh_listener n) = true
no_device (forwarding n) = true

abbrev here : Site
here = record {
  net = short_net;
  is_loopback = λ host. bytes_eq host (ascii "127.0.0.1");
  parse_flags = λ c args. some (some_flags, args);
  acquires = λ h r. no_device r;
  calls = λ h c. true;
}

abbrev home_client : Resource
home_client = transport_client home.public_key home.endpoint

abbrev socks_control : Resource
socks_control = control_socket (ascii "socks-home") (ascii "home")

abbrev socks_history : Trace
socks_history =
    release identity_key
    ∷ release home_client
    ∷ release (renewal true)
    ∷ release socks_control
    ∷ release (listener (ascii "127.0.0.1"))
    ∷ call (accept_loop none) true
    ∷ acquire (listener (ascii "127.0.0.1")) true
    ∷ acquire socks_control true
    ∷ acquire (renewal true) true
    ∷ call ping true
    ∷ acquire home_client true
    ∷ acquire identity_key true
    ∷ []

serves_socks :
    run_client here memory one_peer store_disk store socks (ascii "home" ∷ []) []
    ≡ (socks_history, true)
unfolding run_client with_name udp_plan with_peer set_up run_connected runtime_name serve_command
    by_command listen_on obtain hold perform peer load_peer read_file check_opened check_peers
    check_store trust_path trust_ancestors trust_chain trust_ancestor owned is_shared lookup
    lstat_disk path_eq bytes_eq limited valid_peer valid_endpoint check_name are_words is_alnum
    peer_id id_string
serves_socks = refl

abbrev up_history : Trace
up_history =
    release identity_key
    ∷ release home_client
    ∷ acquire tunnel_device false
    ∷ acquire home_client true
    ∷ acquire identity_key true
    ∷ []

goes_up :
    run_client here memory one_peer store_disk store up (ascii "home" ∷ []) [] ≡ (up_history, false)
unfolding run_client with_name udp_plan with_peer set_up obtain hold perform peer load_peer
    read_file check_opened check_peers check_store trust_path trust_ancestors trust_chain
    trust_ancestor owned is_shared lookup lstat_disk path_eq bytes_eq limited valid_peer
    valid_endpoint check_name are_words is_alnum peer_id id_string
goes_up = refl

run_client-Held_example :
    Held socks_history []
    × ((before : Trace) (busy n : ℕ) (target : Option Bytes)
        → Held before []
        → Held (accept_local here busy n target before).0 [])
run_client-Held_example =
    run_client-Held here memory one_peer store_disk store socks (ascii "home" ∷ []) some_flags
      (ascii "home") [] socks_history true refl serves_socks

run_client-Allowed_example :
    All (Acquires (Allowed here memory one_peer store_disk store (ascii "home"))) socks_history
run_client-Allowed_example =
    run_client-Allowed here memory one_peer store_disk store socks (ascii "home" ∷ []) some_flags
      (ascii "home") [] socks_history true refl serves_socks

-- A connection of the command forward, whose target the peer refuses.
carries : carry_local (record here { calls = λ h c. false }) 7 (some (ascii "db:80")) [] ≡ (
  release (local_connection 7)
      ∷ release (tunnel_connection 1)
      ∷ call (dial_target (ascii "db:80")) false
      ∷ acquire (tunnel_connection 1) true
      ∷ acquire (local_connection 7) true
      ∷ [],
  false,
)
unfolding carry_local obtain hold perform
carries = refl

abbrev left : Disk
left = ([], (dir_info, [])) ∷ ((store, (dir_info, [])) ∷ ((peers_dir store, (dir_info, [])) ∷ []))

home_removed :
    peers_command memory one_peer store
      (λ b. b ∷ [])
      store_disk
      (ascii "remove" ∷ ascii "home" ∷ [])
    ≡ (left, ok done)
unfolding peers_command remove move_aside erase peer load_peer read_file check_opened check_peers
    check_store trust_path trust_ancestors trust_chain trust_ancestor owned is_shared lookup
    lstat_disk path_eq bytes_eq limited valid_peer valid_endpoint check_name are_words is_alnum
    peer_id id_string
home_removed = refl

removed_unreachable_example :
    run_client here memory one_peer left store socks (ascii "home" ∷ []) [] ≡ ([], false)
removed_unreachable_example =
    removed_unreachable here memory one_peer store_disk left store (λ b. b ∷ []) (ascii "home") done
      socks (ascii "home" ∷ []) some_flags [] memory-IsLawful home_removed refl

abbrev mosh_here : MoshSite
mosh_here = record {
  site = here;
  str = record { trim = λ t. t; repair = λ t. t };
  parse_mosh_flags = λ args. some (
    record { host = []; server = []; server_port = pos 0; tunnel_port = pos 0; local_port = pos 0 },
    args,
  );
  itoa = λ n. ascii "60002";
  bound_port = λ asked. 60002;
  ssh_output = λ args. (ascii "MOSH CONNECT 60001 abcdefghijklmnopqrstuv" ∷ [], []);
  environment = [];
}

abbrev home_ssh : List Bytes
home_ssh =
    ascii "-n"
    ∷ ascii "-T"
    ∷ ascii "--"
    ∷ ascii "home"
    ∷ mosh_server_command (λ n. ascii "60002") [] 0 []
    ∷ []

abbrev mosh_socket : Resource
mosh_socket = control_socket (ascii "mosh-60002-home") (ascii "home")

abbrev mosh_history : Trace
mosh_history =
    release (mosh_listener 60002)
    ∷ release identity_key
    ∷ release home_client
    ∷ release mosh_socket
    ∷ release (renewal false)
    ∷ release (forwarding 60001)
    ∷ call (run_mosh_client 60002 (ascii "MOSH_KEY=abcdefghijklmnopqrstuv" ∷ [])) true
    ∷ acquire (forwarding 60001) true
    ∷ call (run_ssh home_ssh) true
    ∷ acquire (renewal false) true
    ∷ acquire mosh_socket true
    ∷ call ping true
    ∷ acquire home_client true
    ∷ acquire identity_key true
    ∷ acquire (mosh_listener 60002) true
    ∷ call (look_path (ascii "mosh-client")) true
    ∷ call (look_path (ascii "ssh")) true
    ∷ []

runs_mosh :
    run_mosh mosh_here memory one_peer store_disk store (ascii "home" ∷ []) []
    ≡ (mosh_history, true)
unfolding run_mosh run_mosh_named bad_ports run_mosh_paired run_mosh_peer run_mosh_connected
    mosh_control start_session run_session mosh_args valid_destination mosh_environment any keep_if
    has_prefix bootstrap_mosh bounded_writes bounded_write parse_mosh_connect read_session
    split_lines trim_return match_connect strip connect_fields valid_fields announced bad_port
    are_all is_digit is_key_char decimal cut obtain hold perform peer load_peer read_file
    check_opened check_peers check_store trust_path trust_ancestors trust_chain trust_ancestor owned
    is_shared lookup lstat_disk path_eq bytes_eq limited valid_peer valid_endpoint check_name
    are_words is_alnum peer_id id_string
runs_mosh = refl

run_mosh-Contained_example :
    Held mosh_history []
    × All (Acquires (Allowed here memory one_peer store_disk store (ascii "home"))) mosh_history
unfolding mosh_args
run_mosh-Contained_example =
    run_mosh-Contained mosh_here memory one_peer store_disk store (ascii "home" ∷ [])
      (ascii "home" ∷ []) []
      (record {
        host = [];
        server = [];
        server_port = pos 0;
        tunnel_port = pos 0;
        local_port = pos 0;
      })
      (ascii "home") mosh_history true refl refl runs_mosh

stops_one :
    run (parsed store (ascii "down" ∷ ascii "home" ∷ []))
    ≡ queries store (ascii "home") (ascii "stop")
unfolding run run_command run_down bytes_eq
stops_one = refl
