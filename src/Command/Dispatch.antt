-- ===== src/Command/Dispatch.antt =====
-- cmd/qcat/main.go: which command runs, and the commands identity and peer.
pub mod Removed
use quantumcat.Base.{
  Bytes, ascii, bytes_eq, Bool, true, false, not, ◌||◌, if◌then◌else◌, Option, none, some, List, [],
  ◌∷◌,
}
use quantumcat.Files.{FilePath, Result, ok, err, refused, Os}
use quantumcat.Wire.{peer_id, id_string}
use quantumcat.Config.{Libraries, Peer, peer_version}
use quantumcat.Config.Store.{IdentityFile, Keys, peer, peers, add, remove, init, load_identity}
use quantumcat.Command.{Command, forward, socks, connect, up}

-- Go's flag package on the arguments of qcat: --help, an error, or the directory of the store and the
-- arguments behind the flags.
pub data Parsed : Type 0 where
  asks_help : Parsed
  wrong : Parsed
  parsed : FilePath → List Bytes → Parsed

-- What is run. A query has the runtime's or the peer's name, or an empty one, and what it asks for.
pub data Invocation : Type 0 where
  shows_help : Invocation
  shows_version : Invocation
  manages_identity : FilePath → List Bytes → Invocation
  manages_peers : FilePath → List Bytes → Invocation
  serves : FilePath → List Bytes → Invocation
  starts_mosh : FilePath → List Bytes → Invocation
  runs_client : Command → FilePath → List Bytes → Invocation
  queries : FilePath → Bytes → Bytes → Invocation
  shows_helper : Invocation
  fails : Invocation

unfoldable pub run_down : FilePath → List Bytes → Invocation
run_down dir [] = queries dir [] (ascii "stop")
run_down dir (name ∷ []) = queries dir name (ascii "stop")
run_down dir (name ∷ other ∷ rest) = fails

-- A command without arguments.
unfoldable pub run_alone : Invocation → List Bytes → Invocation
run_alone i [] = i
run_alone i (other ∷ rest) = fails

unfoldable pub run_command : FilePath → Bytes → List Bytes → Invocation
run_command dir name args =
    let is = bytes_eq name in
    if is (ascii "help")
    then shows_help
    else if is (ascii "version")
    then run_alone shows_version args
    else if is (ascii "identity")
    then manages_identity dir args
    else if is (ascii "peer")
    then manages_peers dir args
    else if is (ascii "serve")
    then serves dir args
    else if is (ascii "mosh")
    then starts_mosh dir args
    else if is (ascii "forward")
    then runs_client forward dir args
    else if is (ascii "socks")
    then runs_client socks dir args
    else if is (ascii "connect")
    then runs_client connect dir args
    else if is (ascii "up")
    then runs_client up dir args
    else if is (ascii "status")
    then run_alone (queries dir [] (ascii "status")) args
    else if is (ascii "down")
    then run_down dir args
    else if is (ascii "debug")
    then shows_helper
    else fails

unfoldable pub run : Parsed → Invocation
run asks_help = shows_help
run wrong = fails
run (parsed dir []) = shows_help
run (parsed dir (name ∷ args)) = run_command dir name args

-- What a command prints: nothing, one descriptor, or several.
pub data Output : Type 0 where
  done : Output
  one : Peer → Output
  several : List Peer → Output

abbrev pub printed {ℓ} : {A : Type ℓ} → (A → Output) → Result A → Result Output
printed out (ok a) = ok (out a)
printed out (err e) = err e

-- A call that changes the state and has nothing to show.
abbrev pub quiet : {S : Type 0} → S × Result (Unit {0}) → S × Result Output
quiet r = (r.0, printed (λ u. done) r.1)

module _ (os : Os) (lib : Libraries) (dir : FilePath) where
  -- The arguments' number and the first one choose.
  unfoldable pub peers_command :
      (Bytes → FilePath) → os.State → List Bytes → os.State × Result Output
  peers_command to_path s [] = (s, err refused)
  peers_command to_path s (verb ∷ []) =
      if bytes_eq verb (ascii "list")
      then (s, printed several (peers os lib dir s))
      else (s, err refused)
  peers_command to_path s (verb ∷ name ∷ []) =
      if bytes_eq verb (ascii "remove")
      then quiet (remove os lib dir s name)
      else if bytes_eq verb (ascii "show")
      then (s, printed one (peer os lib dir s name))
      else (s, err refused)
  peers_command to_path s (verb ∷ name ∷ file ∷ []) =
      if bytes_eq verb (ascii "add")
      then quiet (add os lib dir s name (to_path file))
      else (s, err refused)
  peers_command to_path s (verb ∷ name ∷ file ∷ other ∷ rest) = (s, err refused)

  -- The keys that are generated, the decoder of identity.json, the providers' loading with the public
  -- key, and Go's flag package on --name and --provider.
  pub record Providers : Type 0 where
    pub keys : Keys os lib dir
    pub decode : Bytes → Option IdentityFile
    pub load : Bytes → Bytes → Option Bytes
    pub init_flags : List Bytes → Option (Bytes × Bytes × List Bytes)

  -- The identity's descriptor has no endpoint.
  unfoldable pub show_identity : Providers → os.State → Result Output
  show_identity ps s = elim (load_identity os lib dir ps.decode ps.load s) [
    | err e ↦ err e
    | ok (key, file) ↦ ok (
        one (record {
          version = peer_version;
          name = file.device;
          id = id_string lib.crypto (peer_id lib.crypto key);
          public_key = key;
          endpoint = [];
        }))
  ]

  unfoldable pub init_identity :
      Providers → os.State → Option (Bytes × Bytes × List Bytes) → os.State × Result Output
  init_identity ps s none = (s, err refused)
  init_identity ps s (some (name, kind, other ∷ rest)) = (s, err refused)
  init_identity ps s (some (name, kind, [])) =
      let (t, r) = init os lib dir ps.keys s name kind in
      elim r [ err e ↦ (t, err e) | ok u ↦ (t, show_identity ps t) ]

  unfoldable pub identity_command : Providers → os.State → List Bytes → os.State × Result Output
  identity_command ps s [] = (s, err refused)
  identity_command ps s (verb ∷ rest) =
      if bytes_eq verb (ascii "init") then init_identity ps s (ps.init_flags rest) else elim rest [
        | [] ↦ if bytes_eq verb (ascii "show") then (s, show_identity ps s) else (s, err refused)
        | other ∷ more ↦ (s, err refused)
      ]
