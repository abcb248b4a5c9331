-- ===== src/Control/Tests.antt =====
-- Queries and a start on concrete inputs.
use quantumcat.Base.{
  Bytes, ascii, bytes_eq, Bool, true, false, if◌then◌else◌, none, some, List, [], ◌∷◌, any, All,
  ◌≡◌, refl,
}
use quantumcat.Base.Assoc.{insert}
use quantumcat.Files.{Info, ok, err, missing, refused, Entry, Os}
use quantumcat.Control.{
  strip_suffix, Json, History, Sockets, absent, connected, name_refused, runtime_target,
  limited_reply, converse_with, request, judge, ask, names_peer, ask_peer, query_socket,
  query_entry, query_entries, query_listing, query, handle, serve_connection, Listening, restrict,
  open_socket, claim_path, in_directory, start_peer,
}
use quantumcat.Control.Targets.{Targeted, query-Targeted}
use quantumcat.Control.Starting.{IsListening, start_peer-IsListening}

abbrev toy_json : Json
toy_json = record {
  encode_command = λ c. c;
  decode_command = λ b. some b;
  decode_info = λ b. some b;
  encode_info = λ peer. peer;
  encode_stopping = λ name. name;
  encode_unknown = ascii "?";
  is_valid = λ b. true;
}

-- Every runtime is about the peer `p`, but nobody listens on `old.sock`.
abbrev toy_sockets : Sockets
toy_sockets = record {
  dial = λ h socket. if bytes_eq socket (ascii "old.sock") then absent else connected;
  converse =
      λ h socket text. some (serve_connection toy_json (ascii "p") (ascii "n") (ascii "up") text).0;
}

abbrev socket_entry : Bytes → Entry
socket_entry name = record { name = name; entry_dir = false; entry_socket = true }

abbrev toy_entries : List Entry
toy_entries =
    socket_entry (ascii "old.sock")
    ∷ socket_entry (ascii "a.sock")
    ∷ socket_entry (ascii "b.txt")
    ∷ []

abbrev run_info : Info
run_info = record {
  is_symlink = false;
  is_dir = true;
  is_regular = false;
  is_socket = false;
  is_sticky = false;
  perm = 448;
  uid = 501;
  inode = 3;
}

-- A directory with the entries; the state counts what has changed.
abbrev toy_os : Os
toy_os = record {
  State = List Bool;
  euid = 501;
  lstat = λ s p. elim p [
    | [] ↦ ok run_info
    | name ∷ rest ↦ if bytes_eq name (ascii "run") then ok run_info else err missing
  ];
  stat = λ s p. err refused;
  eval_symlinks = λ s p. ok p;
  open_file = λ s p. err refused;
  read_dir = λ s p. ok toy_entries;
  mkdir_all = λ s p. (s, true);
  create = λ s p. none;
  write_sync = λ s p b. (s, false);
  close_file = λ s p. (s, false);
  remove_file = λ s p. s;
  rename = λ s p q. (s, false);
}

abbrev toy_sent : History
toy_sent =
    (ascii "a.sock", ascii "stop")
    ∷ (ascii "a.sock", ascii "info")
    ∷ (ascii "old.sock", ascii "info")
    ∷ []

stops_peer :
    query toy_json toy_sockets toy_os [] [] (ascii "p") (ascii "stop") []
    ≡ (toy_sent, ok ((ascii "a", ascii "n") ∷ []))
unfolding query name_refused query_listing query_entries query_entry query_socket ask_peer ask
    request converse_with judge names_peer strip_suffix runtime_target limited_reply
    serve_connection handle bytes_eq any insert
stops_peer = refl

query-Targeted_example :
    All (Targeted toy_json toy_sockets (ascii "p") toy_entries (ascii "stop")) toy_sent
query-Targeted_example =
    query-Targeted toy_json toy_sockets toy_os [] [] (ascii "p") (ascii "stop") toy_entries toy_sent
      (ok ((ascii "a", ascii "n") ∷ [])) refl stops_peer

stops_runtime :
    query toy_json toy_sockets toy_os [] [] (ascii "a") (ascii "stop") []
    ≡ ((ascii "a.sock", ascii "stop") ∷ [], ok ((ascii "a", ascii "n") ∷ []))
unfolding query name_refused query_listing query_entries query_entry query_socket ask_peer ask
    request converse_with judge names_peer strip_suffix runtime_target limited_reply
    serve_connection handle bytes_eq any insert
stops_runtime = refl

refuses_path :
    query toy_json toy_sockets toy_os [] [] (ascii "../x") (ascii "stop") [] ≡ ([], err refused)
unfolding query name_refused any
refuses_path = refl

abbrev toy_listening : Listening toy_os
toy_listening = record {
  answered = λ s p. false;
  removes = λ s p. true;
  listen = λ s p. (true ∷ s, true);
  chmod = λ s p mode. (false ∷ s, true);
  close_listener = λ s p. [];
}

starts : start_peer toy_os toy_listening [] [] (ascii "up-p") ≡ (false ∷ true ∷ [], ok tt)
unfolding start_peer in_directory claim_path open_socket restrict bytes_eq
starts = refl

start_peer-IsListening_example :
    IsListening toy_os toy_listening [] [] (ascii "up-p") (false ∷ true ∷ [])
start_peer-IsListening_example =
    start_peer-IsListening toy_os toy_listening [] (false ∷ true ∷ []) [] (ascii "up-p") starts
