-- ===== src/Enclave/Tests.antt =====
-- The Secure Enclave helper and its identity on concrete inputs.
use quantumcat.Base.{
  Bytes, ascii, put_u32, read_be, Bool, true, false, ◌==◌, if◌then◌else◌, ◌≡◌, refl, none, some,
  List, [], ◌∷◌, ◌++◌, length, take, drop,
}
use quantumcat.Files.{FilePath, Info, Result, ok, err, refused, Os}
use quantumcat.Trust.{is_shared, owned, trust_path, trust_ancestor, trust_chain, trust_ancestors}
use quantumcat.Enclave.{
  Place, is_abs, configured, candidate, helper_path, trusted_helper, chosen_helper, Machine, Helper,
  Context, request, content, read_reply, read_answer, send_request, after_call, call, close,
  load_reference, helper_key, helper_sign,
}
use quantumcat.Enclave.Identity.{Identity, drop_exited, settle_sign, sign_with, sign_ready, sign}
use quantumcat.Enclave.Identity.History.{Event, signs, passes}
use quantumcat.Enclave.Identity.Recovery.{signs_again}

-- A helper that has the key 9 9 9, refuses messages that begin with 13, and signs others with 7.
abbrev toy_answer : Bytes → Bytes
toy_answer [] = []
toy_answer (op ∷ payload) =
    if op == 3
    then 0 ∷ 9 ∷ 9 ∷ 9 ∷ []
    else if op == 4
    then (if read_be (take 1 (drop 2 payload)) == 13 then 1 ∷ ascii "no" else 0 ∷ 7 ∷ [])
    else 0 ∷ []

abbrev toy_frame : Bytes → Bytes
toy_frame body = put_u32 (length body) ++ body

-- The world is what the helper has written and nobody has read.
abbrev toy_machine : Machine
toy_machine = record {
  World = Bytes;
  write = λ w p b. (w ++ toy_frame (toy_answer (drop 4 b)), true);
  read = λ w p n. (drop n w, take n w);
  exited = λ w p. false;
  kill = λ w p. [];
  close_in = λ w p. w;
  close_out = λ w p. [];
}

abbrev toy_helper : Helper
toy_helper = record { process = 1; closed = false }

abbrev toy_open : Bytes → Bytes × Result Helper
toy_open w = ([], ok toy_helper)

abbrev live : Context toy_machine
live w = false

abbrev toy_identity : Identity
toy_identity = record {
  helper = some toy_helper;
  ref = 5 ∷ [];
  public = 9 ∷ 9 ∷ 9 ∷ [];
  closed = false;
}

abbrev refused_message : Bytes
refused_message = 13 ∷ []

abbrev accepted_message : Bytes
accepted_message = 14 ∷ []

abbrev toy_label : Bytes
toy_label = 65 ∷ []

sign_refused :
    sign toy_machine toy_open live toy_label refused_message toy_identity []
    ≡ ([], (record toy_identity { helper = none }, err refused))
unfolding sign drop_exited sign_ready sign_with settle_sign helper_sign call send_request after_call
    read_answer read_reply content request close put_u32 read_be
sign_refused = refl

toy_loads : load_reference toy_machine live toy_helper (5 ∷ []) [] ≡ ([], ok [])
unfolding load_reference call send_request after_call read_answer read_reply content request put_u32
    read_be
toy_loads = refl

toy_gives : helper_key toy_machine live toy_helper [] ≡ ([], ok (9 ∷ 9 ∷ 9 ∷ []))
unfolding helper_key call send_request after_call read_answer read_reply content request put_u32
    read_be
toy_gives = refl

toy_signs :
    helper_sign toy_machine live toy_helper toy_label accepted_message [] ≡ ([], ok (7 ∷ []))
unfolding helper_sign call send_request after_call read_answer read_reply content request put_u32
    read_be
toy_signs = refl

signs_again_example :
    sign toy_machine toy_open live toy_label accepted_message
      (record toy_identity { helper = none })
      []
    ≡ ([], (toy_identity, ok (7 ∷ [])))
signs_again_example =
    signs_again toy_machine toy_open live live toy_label refused_message accepted_message
      toy_identity (record toy_identity { helper = none }) toy_helper refused [] (7 ∷ []) [] [] []
      [] [] [] [] refl refl sign_refused refl refl toy_loads toy_gives toy_signs

-- A failed signature, a broken pipe, and another signature.
abbrev past : List (Event toy_machine toy_open)
past =
    signs live toy_label refused_message
    ∷ passes (λ w. 1 ∷ [])
    ∷ signs live toy_label accepted_message
    ∷ []

toy_call : call toy_machine live toy_helper 3 [] [] ≡ ([], ok (9 ∷ 9 ∷ 9 ∷ []))
unfolding call send_request after_call read_answer read_reply content request put_u32 read_be
toy_call = refl

-- The user's own program everywhere.
abbrev program_info : Info
program_info = record {
  is_symlink = false;
  is_dir = false;
  is_regular = true;
  is_socket = false;
  is_sticky = false;
  perm = 493;
  uid = 501;
  inode = 3;
}

abbrev toy_os : Os
toy_os = record {
  State = Bool;
  euid = 501;
  lstat = λ s p. ok program_info;
  stat = λ s p. ok program_info;
  eval_symlinks = λ s p. ok p;
  open_file = λ s p. err refused;
  read_dir = λ s p. err refused;
  mkdir_all = λ s p. (s, false);
  create = λ s p. none;
  write_sync = λ s p b. (s, false);
  close_file = λ s p. (s, false);
  remove_file = λ s p. s;
  rename = λ s p q. (s, false);
}

abbrev toy_place : Place
toy_place = record {
  getenv = λ name. [];
  executable = ok (ascii "/bin/qcat");
  beside = λ exe name. ascii "/bin/" ++ name;
  resolve = λ text. drop 5 text ∷ ascii "bin" ∷ [];
}

abbrev toy_program : FilePath
toy_program = ascii "qcat-se" ∷ ascii "bin" ∷ []

chooses_toy : chosen_helper toy_os toy_place true ≡ ok toy_program
unfolding chosen_helper helper_path candidate configured is_abs trusted_helper trust_path
    trust_ancestors trust_chain trust_ancestor owned is_shared
chooses_toy = refl
