-- ===== src/Handshake/Tests.antt =====
-- Runs of internal/protocol/handshake.go with toy primitives of the right sizes, and the theorems at
-- concrete inputs.
use quantumcat.Base.{
  ℕ, ◌*◌, ◌+◌, ◌-◌, ◌≤◌, ◌≡◌, ◌⊎◌, refl, ap, subst, Bytes, replicate, length-replicate, bytes_eq,
  true, false, Option, none, some, List, [], ◌∷◌, length, arith, any,
}
use quantumcat.Base.Assoc.{lookup, bytes_key}
use quantumcat.Crypto.{Crypto, HasSizes}
use quantumcat.Wire.{
  Keys, Peers, frame, parse, join, peer_id, verify, transcript, lookup_peer, server_hello,
  server_context,
}
use quantumcat.Handshake.{derive, proof, server_finished}
use quantumcat.Handshake.Limits.{Bucket, Table, zero_bucket, second}
use quantumcat.Handshake.Limits.Rate.{grants, grants_rate}
use quantumcat.Handshake.Server.{Server, Pending, expire, silence}
use quantumcat.Handshake.Server.Hello.{Draws, Answer, answer}
use quantumcat.Handshake.Server.Life.{
  Event, receives, reports, expires, closes, run, new_life, new_server,
}
use quantumcat.Handshake.Server.Life.Once.{IsGood, run-IsGood}
use quantumcat.Handshake.Server.Handle.{handle}
use quantumcat.Handshake.Server.Steps.{Step, handle-Step, packet_of}
use quantumcat.Handshake.Client.{Client, complete, accepted}
use quantumcat.Handshake.Client.Soundness.{Outcome, complete-Outcome}
use quantumcat.Handshake.Client.Agreement.{IsLinked, IsReady}

sized : (n b : ℕ) → length (replicate n b) ≡ n
sized n b = length-replicate n b

pair_inj :
    (a b x y : Bytes)
    → ◌≡◌ {A = Option (Bytes × Bytes)} (some (a, b)) (some (x, y))
    → (a ≡ x) × (b ≡ y)
pair_inj a b x y e = (ground arith, ground arith)

some_inj : (a b : Bytes) → some a ≡ some b → a ≡ b
some_inj a b e = cc

abbrev pub toy : Crypto
toy = record {
  sha512_256 = λ m. replicate 32 7;
  sha384 = λ m. replicate 48 9;
  hmac384 = λ k m. replicate 48 5;
  hkdf_extract = λ ss salt. some [];
  hkdf_expand = λ prk info n. some (replicate n 3);
  mldsa_verify = λ key label msg sig. true;
  base32_encode = λ b. b;
  base32_decode = λ b. some b;
}

toy-HasSizes : HasSizes toy
toy-HasSizes = record {
  sha512_256_size = λ m. sized 32 7;
  sha384_size = λ m. sized 48 9;
  hmac384_size = λ k m. sized 48 5;
}

abbrev signature : Bytes
signature = replicate 4627 0

abbrev pub draws : Draws
draws = record {
  encapsulate = λ kp. some (1 ∷ [], replicate 1568 0);
  nonce = some (replicate 32 2);
  sign = λ label msg. some signature;
}

abbrev pub server_keys : Keys
server_keys = record { wg = replicate 32 4; disco = replicate 32 6 }

abbrev pub toy_peers : Peers
toy_peers = some ((replicate 32 7, 1 ∷ []) ∷ [])

abbrev pub fresh_server : Server
fresh_server = new_server (replicate 2592 0) server_keys toy_peers

abbrev pub toy_client : Client
toy_client = record {
  kem = record { public = none; decapsulate = λ ct. some (1 ∷ []) };
  live = true;
  hello = [];
  server = replicate 32 7;
  server_public = replicate 2592 0;
  keys = server_keys;
  ack = [];
}

signature_verifies :
    (msg : Bytes) → verify toy (replicate 2592 0) server_context msg signature ≡ true
unfolding verify
signature_verifies msg = refl

pub toy-IsLinked : IsLinked toy draws fresh_server toy_client
toy-IsLinked = record {
  sizes = toy-HasSizes;
  alive = refl;
  pinned = refl;
  named = unfold peer_id in refl;
  same_keys = refl;
  wg_32 = sized 32 4;
  disco_32 = sized 32 6;
  nonce_32 = λ n e. subst (λ x. length x ≡ 32) (some_inj (replicate 32 2) n e) (sized 32 2);
  sealing = λ ss ct e. (
    subst (λ x. length x ≡ 1568) (pair_inj (1 ∷ []) (replicate 1568 0) ss ct e).1 (sized 1568 0),
    ap some (pair_inj (1 ∷ []) (replicate 1568 0) ss ct e).0,
  );
  signing = λ msg sig e.
      subst (λ x. verify toy (replicate 2592 0) server_context msg x ≡ true)
        (some_inj signature sig e) (signature_verifies msg);
}

abbrev pub toy_answer : Answer
toy_answer = record {
  hash = replicate 48 9;
  psk = replicate 32 3;
  hk = replicate 32 3;
  packet = frame server_hello (
      join (
        peer_id toy (replicate 2592 0)
        ∷ server_keys.wg
        ∷ server_keys.disco
        ∷ replicate 32 2
        ∷ replicate 1568 0
        ∷ signature
        ∷ proof toy (replicate 32 3) server_finished (replicate 48 9)
        ∷ []));
}

pub toy_answers : answer toy draws fresh_server [] ≡ some toy_answer
unfolding answer derive transcript
toy_answers = refl

abbrev pub toy_entry : Pending
toy_entry = record {
  ident = 0;
  peer = replicate 32 7;
  keys = record { wg = replicate 32 1; disco = replicate 32 8 };
  psk = replicate 32 3;
  hash = replicate 48 9;
  hk = replicate 32 3;
  source = replicate 32 1;
  expires = 99;
  accepted = false;
  installing = false;
  hello_hash = [];
  response = [];
}

abbrev pub ready_server : Server
ready_server = record fresh_server { pending = (replicate 48 9, toy_entry) ∷ [] }

pub toy-IsReady : IsReady toy ready_server (replicate 32 1) toy_answer toy_entry
unfolding lookup bytes_eq lookup_peer any
toy-IsReady = record {
  hash_48 = sized 48 9;
  found = refl;
  from = refl;
  key = refl;
  psk = refl;
  authorized = omega arith;
  open_ = refl;
  idle = refl;
  alone = refl;
}

-- A server that gets garbage, a report for nothing, and time.
abbrev history : List Event
history = receives draws [] (1 ∷ 2 ∷ []) 5 ∷ reports 0 true ∷ expires 9 ∷ closes ∷ []

run-IsGood_example : IsGood (run toy (new_life [] server_keys toy_peers) history)
run-IsGood_example = run-IsGood toy [] server_keys toy_peers history (omega arith)

complete-Outcome_example :
    Outcome toy toy_client toy_answer.packet (complete toy toy_client toy_answer.packet)
complete-Outcome_example = complete-Outcome toy toy_client toy_answer.packet

grants_rate_example :
    (grants zero_bucket 4 (5 ∷ 5 ∷ 6 ∷ 1000000005 ∷ [])).1 * second
    ≤ 4 * second + (1000000005 - 5) * 4
grants_rate_example =
    grants_rate 5 4 1000000005 (5 ∷ 6 ∷ 1000000005 ∷ []) (omega arith) (omega arith) (omega arith)

abbrev used_bucket : Bucket
used_bucket = record { start = 7; tokens = 12 }

abbrev two_buckets : Table
two_buckets = (1 ∷ [], used_bucket) ∷ (2 ∷ [], record { start = 3; tokens = 0 }) ∷ []

handle-Step_example :
    (handle toy draws fresh_server [] (1 ∷ 2 ∷ []) 5 ≡ (fresh_server, silence))
    ⊎ ((kind : ℕ) × (b : Bytes) × (parse (1 ∷ 2 ∷ []) ≡ some (kind, b))
        × Step toy draws
            (expire fresh_server 5)
            (packet_of toy draws [] (1 ∷ 2 ∷ []) b 5)
            (handle toy draws fresh_server [] (1 ∷ 2 ∷ []) 5).0
            (handle toy draws fresh_server [] (1 ∷ 2 ∷ []) 5).1)
handle-Step_example = handle-Step toy draws fresh_server [] (1 ∷ 2 ∷ []) 5
