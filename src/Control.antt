-- ===== src/Control.antt =====
-- internal/control/control.go: a running command listens on a socket in the store's directory `run`, and
-- status and down ask it. JSON and the sockets are parameters.
pub mod Targets
pub mod Starting
mod Tests
use Prim.Native.Nat.{bit_and}
use quantumcat.Base.{
  ℕ, Bytes, ascii, bytes_eq, Bool, true, false, not, ◌&&◌, ◌||◌, ◌==◌, if◌then◌else◌, Option, none,
  some, List, [], ◌∷◌, ◌++◌, take, any,
}
use quantumcat.Base.Assoc.{insert, bytes_key}
use quantumcat.Files.{FilePath, Info, Result, Refusal, ok, err, missing, refused, Entry, Os}

-- strings.TrimSuffix where strings.HasSuffix holds.
unfoldable pub strip_suffix : Bytes → Bytes → Option Bytes
strip_suffix suffix [] = if bytes_eq [] suffix then some [] else none
strip_suffix suffix (b ∷ rest) =
    let shorter = strip_suffix suffix rest in
    if bytes_eq (b ∷ rest) suffix
    then some []
    else elim shorter [ none ↦ none | some front ↦ some (b ∷ front) ]

abbrev pub sock : Bytes
sock = ascii ".sock"

abbrev pub is_empty : Bytes → Bool
is_empty [] = true
is_empty (b ∷ rest) = false

-- What a request comes back with: nobody is there, another error, or bytes.
pub data Reply : Type 0 where
  gone : Reply
  failed : Reply
  replied : Bytes → Reply

pub data Dialed : Type 0 where
  absent : Dialed
  unreachable : Dialed
  connected : Dialed

pub record Json : Type 0 where
  pub encode_command : Bytes → Bytes
  pub decode_command : Bytes → Option Bytes
  pub decode_info : Bytes → Option Bytes
  pub encode_info : Bytes → Bytes
  pub encode_stopping : Bytes → Bytes
  pub encode_unknown : Bytes
  pub is_valid : Bytes → Bool

-- The requests so far, the last one first, each with the socket's file name and the command.
abbrev pub History : Type 0
History = List (Bytes × Bytes)

-- What a socket does when it is dialed, and what comes back for the bytes that are written, which may
-- depend on every request before.
pub record Sockets : Type 0 where
  -- net.DialTimeout: os.ErrNotExist or ECONNREFUSED, another error, or a connection.
  pub dial : History → Bytes → Dialed
  pub converse : History → Bytes → Bytes → Option Bytes

abbrev pub max_reply : ℕ
max_reply = 1048576

unfoldable pub limited_reply : Bytes → Bytes
limited_reply b = take max_reply b

unfoldable pub name_refused : Bytes → Bool
name_refused name =
    any (λ b. (b == 47) || (b == 92)) name
    || (bytes_eq name (ascii ".") || bytes_eq name (ascii ".."))

-- A runtime of exactly this name is there.
unfoldable pub runtime_target : Bytes → List Entry → Bool
runtime_target name entries =
    not (is_empty name) && any (λ e. bytes_eq e.name (name ++ sock) && e.entry_socket) entries

-- What a directory entry gives: nothing, an error, or an answer under a name.
pub data Found : Type 0 where
  skipped : Found
  fails : Found
  answers : Bytes → Bytes → Found

abbrev pub Answers : Type 0
Answers = List (Bytes × Bytes)

module _ (json : Json) (sockets : Sockets) where
  unfoldable pub converse_with : History → Bytes → Bytes → Dialed → Reply
  converse_with h socket command absent = gone
  converse_with h socket command unreachable = failed
  converse_with h socket command connected =
      elim (sockets.converse h socket (json.encode_command command)) [
        | none ↦ failed
        | some b ↦ replied (limited_reply b)
      ]

  unfoldable pub request : History → Bytes → Bytes → History × Reply
  request h socket command =
      ((socket, command) ∷ h, converse_with h socket command (sockets.dial h socket))

  unfoldable pub judge : Bytes → Reply → Found
  judge n gone = skipped
  judge n failed = fails
  judge n (replied b) = if json.is_valid b then answers n b else fails

  unfoldable pub ask : History → Bytes → Bytes → Bytes → History × Found
  ask h socket n command = let (after, reply) = request h socket command in (after, judge n reply)

  -- The answer to info says that the command is about this peer.
  unfoldable pub names_peer : Bytes → Reply → Bool
  names_peer name gone = false
  names_peer name failed = false
  names_peer name (replied b) = elim (json.decode_info b) [
    | none ↦ false
    | some peer ↦ bytes_eq peer name
  ]

  unfoldable pub ask_peer : History → Bytes → Bytes → Bytes → Bytes → History × Found
  ask_peer h socket n name command =
      let (after, reply) = request h socket (ascii "info") in
      if names_peer name reply then ask after socket n command else (after, skipped)

  unfoldable pub query_socket : Bytes → Bool → Bytes → History → Bytes → Bytes → History × Found
  query_socket name exact command h socket n =
      if not (is_empty name) && not (bytes_eq n name)
      then (if exact then (h, skipped) else ask_peer h socket n name command)
      else ask h socket n command

  unfoldable pub query_entry : Bytes → Bool → Bytes → History → Entry → History × Found
  query_entry name exact command h e = elim (strip_suffix sock e.name) [
    | none ↦ (h, skipped)
    | some n ↦
        if not e.entry_socket then (h, skipped) else query_socket name exact command h e.name n
  ]

  unfoldable pub query_entries :
      Bytes → Bool → Bytes → List Entry → History → Answers → History × Result Answers
  query_entries name exact command [] h out = (h, ok out)
  query_entries name exact command (e ∷ rest) h out =
      let (after, found) = query_entry name exact command h e in
      elim found [
        | skipped ↦ query_entries name exact command rest after out
        | fails ↦ (after, err refused)
        | answers n b ↦ query_entries name exact command rest after (insert n b out)
      ]

  -- An empty name asks every runtime; without the directory there is none.
  unfoldable pub query_listing :
      Bytes → Bytes → Result (List Entry) → History → History × Result Answers
  query_listing name command (ok entries) h =
      query_entries name (runtime_target name entries) command entries h []
  query_listing name command (err missing) h = (h, ok [])
  query_listing name command (err refused) h = (h, err refused)

  unfoldable pub query :
      (os : Os) → os.State → FilePath → Bytes → Bytes → History → History × Result Answers
  query os s dir name command h =
      if not (is_empty name) && name_refused name
      then (h, err refused)
      else query_listing name command (os.read_dir s (ascii "run" ∷ dir)) h

-- The other end: what it writes for a request, and whether it calls stop.
unfoldable pub handle : Json → Bytes → Bytes → Bytes → Bytes → Bytes × Bool
handle json peer name status command =
    if bytes_eq command (ascii "info")
    then (json.encode_info peer, false)
    else if bytes_eq command (ascii "status")
    then (status, false)
    else if bytes_eq command (ascii "stop")
    then (json.encode_stopping name, true)
    else (json.encode_unknown, false)

-- A connection: at most 128 bytes are read, and what does not decode is not answered.
unfoldable pub serve_connection : Json → Bytes → Bytes → Bytes → Bytes → Bytes × Bool
serve_connection json peer name status input = elim (json.decode_command (take 128 input)) [
  | none ↦ ([], false)
  | some command ↦ handle json peer name status command
]

-- What a starting command asks of its socket: whether somebody answers there, whether removing a stale
-- one works, listening, and setting the mode of the socket.
pub record Listening (os : Os) : Type 0 where
  pub answered : os.State → FilePath → Bool
  pub removes : os.State → FilePath → Bool
  pub listen : os.State → FilePath → os.State × Bool
  pub chmod : os.State → FilePath → ℕ → os.State × Bool
  pub close_listener : os.State → FilePath → os.State

module _ (os : Os) (net : Listening os) where
  -- The mode is 0600.
  unfoldable pub restrict : os.State → FilePath → os.State × Result (Unit {0})
  restrict s path =
      let (t, done) = net.chmod s path 384 in
      if done then (t, ok tt) else (net.close_listener t path, err refused)

  unfoldable pub open_socket : os.State → FilePath → os.State × Result (Unit {0})
  open_socket s path =
      let (t, listens) = net.listen s path in if listens then restrict t path else (t, err refused)

  -- A socket that nobody answers on is removed.
  unfoldable pub replace_socket : os.State → FilePath → Info → os.State × Result (Unit {0})
  replace_socket s path i =
      if not i.is_socket || net.answered s path
      then (s, err refused)
      else if net.removes s path
      then open_socket (os.remove_file s path) path
      else (s, err refused)

  unfoldable pub claim_path : os.State → FilePath → Result Info → os.State × Result (Unit {0})
  claim_path s path (ok i) = replace_socket s path i
  claim_path s path (err missing) = open_socket s path
  claim_path s path (err refused) = (s, err refused)

  unfoldable pub in_directory :
      os.State → FilePath → FilePath → Result Info → os.State × Result (Unit {0})
  in_directory s dir path (err e) = (s, err e)
  in_directory s dir path (ok i) =
      if not i.is_dir || not (bit_and i.perm 63 == 0)
      then (s, err refused)
      else claim_path s path (os.lstat s path)

  unfoldable pub start_peer : os.State → FilePath → Bytes → os.State × Result (Unit {0})
  start_peer s dir name =
      let (t, made) = os.mkdir_all s (ascii "run" ∷ dir) in
      if made
      then in_directory t (ascii "run" ∷ dir) ((name ++ sock) ∷ ascii "run" ∷ dir)
          (os.lstat t (ascii "run" ∷ dir))
      else (t, err refused)
