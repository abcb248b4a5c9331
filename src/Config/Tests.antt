-- ===== src/Config/Tests.antt =====
-- Runs of internal/config/config.go, and the theorems at concrete inputs.
pub mod Memory
use quantumcat.Base.{
  ℕ, ◌+◌, ◌≤◌, Bytes, ascii, bytes_eq, bytes_eq_iff, bytes_eq_self, ◌≢◌, Bool, true, false, not,
  ◌&&◌, ◌==◌, ltb, leb, ◌≡◌, refl, ap, sym, ◌∙◌, if◌then◌else◌, Option, none, some, List, [], ◌∷◌,
  ◌++◌, any, All, length, length-append, length-replicate, replicate, take, drop, take-append_left,
  drop-append_left, arith,
}
use quantumcat.Base.Assoc.{lookup, erase}
use quantumcat.Crypto.{Crypto}
use quantumcat.Wire.{peer_id, id_string}
use quantumcat.Files.{FilePath, Info, Result, Refusal, ok, err, refused, Entry, Os}
use quantumcat.Trust.{trust_path, trust_ancestors, trust_chain, trust_ancestor, owned, is_shared}
use quantumcat.Config.{
  Peer, Libraries, Endpoint, valid_peer, valid_endpoint, write_new, write_file, read_file,
  check_opened, limited, check_name, are_words, is_alnum, max_file,
}
use quantumcat.Config.Store.{
  suffix, import_peer, peer, move_aside, check_store, read_peers, load_entries, load_peer,
  extension, peers_dir, peer_path, check_peers, peers, add, remove,
}
use quantumcat.Config.Pairing.{IsCodec, add_lists, add_duplicate, remove_forgets}
use quantumcat.Config.Loaded.{Authorized, peers-Authorized}
use quantumcat.Config.Tests.Memory.{
  Disk, file_info, dir_info, memory, memory-IsLawful, lstat_disk, path_eq, children,
}

-- Primitives of constant value: every identity is the same.
abbrev plain : Crypto
plain = record {
  sha512_256 = λ m. [];
  sha384 = λ m. [];
  hmac384 = λ k m. [];
  hkdf_extract = λ ss salt. none;
  hkdf_expand = λ prk info n. none;
  mldsa_verify = λ key label msg sig. true;
  base32_encode = λ b. [];
  base32_decode = λ b. none;
}

-- A descriptor without an endpoint is its key, then its name.
decode : Bytes → Option Peer
decode b =
    if leb 2592 (length b)
    then some (record {
      version = 1;
      name = drop 2592 b;
      id = ascii "qpeer:";
      public_key = take 2592 b;
      endpoint = [];
    })
    else none

abbrev lib : Libraries
lib = record {
  crypto = plain;
  parse_addr = λ a. none;
  encode_peer = λ p. p.public_key ++ p.name;
  decode_peer = decode;
}

short_name : (name : Bytes) → check_name name ≡ true → length name ≤ 64
unfolding check_name
short_name [] h = omega arith
short_name (b ∷ rest) h = ground arith

valid_parts :
    (p : Peer)
    → valid_peer lib p ≡ true
    → (p.version ≡ 1)
      × ((check_name p.name ≡ true)
          × ((length p.public_key ≡ 2592) × ((p.id ≡ ascii "qpeer:") × (p.endpoint ≡ []))))
unfolding valid_peer valid_endpoint peer_id id_string
valid_parts p h =
    let ids = bytes_eq_iff p.id (ascii "qpeer:") in
    let ends = bytes_eq_iff p.endpoint [] in
    (ground arith, (ground arith, (ground arith, (ground (arith, ids), ground (arith, ends)))))

codec : IsCodec lib
unfolding decode
codec = record {
  round_trip = λ p h.
      let (one, (named, (size, (same, bare)))) = valid_parts p h in
      let room : leb 2592 (length (p.public_key ++ p.name)) ≡ true =
        ground (arith, length-append p.public_key p.name) in
      rw
        (
          decode,
          room,
          take-append_left 2592 p.public_key p.name size,
          drop-append_left 2592 p.public_key p.name size,
        )
        cc;
  size = λ p h.
      let (one, (named, (size, rest))) = valid_parts p h in
      omega (arith, size, length-append p.public_key p.name, short_name p.name named);
}

abbrev dir : FilePath
dir = ascii "qcat" ∷ []

abbrev alice : Peer
alice = record {
  version = 1;
  name = ascii "alice";
  id = ascii "qpeer:";
  public_key = replicate 2592 1;
  endpoint = [];
}

abbrev bob : Peer
bob = record alice { name = ascii "bob"; public_key = replicate 2592 2 }

abbrev descriptor : FilePath
descriptor = ascii "bob.txt" ∷ []

-- A store with one peer, and a descriptor outside.
abbrev disk : Disk
disk =
    ([], (dir_info, []))
    ∷ ((dir, (dir_info, []))
        ∷ ((peers_dir dir, (dir_info, []))
            ∷ ((peer_path dir (ascii "alice"), (file_info, lib.encode_peer alice))
                ∷ ((descriptor, (file_info, lib.encode_peer bob)) ∷ []))))

store_there : check_peers memory lib dir disk ≡ ok tt
unfolding check_peers check_store trust_path trust_ancestors trust_chain trust_ancestor owned
    is_shared lookup lstat_disk path_eq bytes_eq
store_there = refl

alice_listed : peers memory lib dir disk ≡ ok (alice ∷ [])
unfolding peers read_peers load_entries load_peer read_file check_opened check_peers check_store
    trust_path trust_ancestors trust_chain trust_ancestor owned is_shared lookup lstat_disk path_eq
    bytes_eq children extension limited decode valid_peer valid_endpoint check_name are_words
    is_alnum peer_id id_string
alice_listed = refl

abbrev after : Disk
after = (peer_path dir (ascii "robert"), (file_info, replicate 2592 2 ++ ascii "robert")) ∷ disk

bob_added : add memory lib dir disk (ascii "robert") descriptor ≡ (after, ok tt)
unfolding add import_peer write_new write_file peers any read_peers load_entries load_peer read_file
    check_opened check_peers check_store trust_path trust_ancestors trust_chain trust_ancestor owned
    is_shared lookup lstat_disk path_eq bytes_eq children extension limited decode valid_peer
    valid_endpoint check_name are_words is_alnum peer_id id_string
bob_added = refl

abbrev entries : List Entry
entries = record { name = ascii "alice.qpeer"; entry_dir = false; entry_socket = false } ∷ []

entries_there : memory.read_dir disk (peers_dir dir) ≡ ok entries
unfolding children path_eq bytes_eq
entries_there = refl

add_lists_example :
    (before : List Peer) × ((later : List Peer) × ((p : Peer) × ((read_file memory lib.decode_peer
              disk descriptor false false
            ≡ ok p)
          × ((alice ∷ [] ≡ before ++ later)
              × ((peers memory lib dir after
                    ≡ ok (before ++ (record p { name = ascii "robert" } ∷ later)))
                  × All (λ (q : Peer). q.public_key ≢ p.public_key) (alice ∷ []))))))
add_lists_example =
    add_lists memory lib dir disk after (ascii "robert") descriptor (alice ∷ []) entries
      memory-IsLawful codec store_there entries_there alice_listed bob_added

-- Alice's own descriptor again.
abbrev copied : Disk
copied = (ascii "copy" ∷ [], (file_info, lib.encode_peer alice)) ∷ disk

copied_store : check_peers memory lib dir copied ≡ ok tt
unfolding check_peers check_store trust_path trust_ancestors trust_chain trust_ancestor owned
    is_shared lookup lstat_disk path_eq bytes_eq
copied_store = refl

listing_after : peers memory lib dir copied ≡ ok (alice ∷ [])
unfolding peers read_peers load_entries load_peer read_file check_opened check_peers check_store
    trust_path trust_ancestors trust_chain trust_ancestor owned is_shared lookup lstat_disk path_eq
    bytes_eq children extension limited decode valid_peer valid_endpoint check_name are_words
    is_alnum peer_id id_string
listing_after = refl

copy_read : read_file memory lib.decode_peer copied (ascii "copy" ∷ []) false false ≡ ok alice
unfolding read_file lookup path_eq bytes_eq limited decode
copy_read = refl

same_key : any (λ (q : Peer). bytes_eq q.public_key alice.public_key) (alice ∷ []) ≡ true
unfolding any bytes_eq
same_key = refl

add_duplicate_example :
    add memory lib dir copied (ascii "eve") (ascii "copy" ∷ []) ≡ (copied, err refused)
add_duplicate_example =
    add_duplicate memory lib dir copied (ascii "eve") (ascii "copy" ∷ []) alice (alice ∷ [])
      memory-IsLawful copied_store listing_after copy_read same_key

abbrev left : Disk
left =
    ([], (dir_info, []))
    ∷ ((dir, (dir_info, []))
        ∷ ((peers_dir dir, (dir_info, [])) ∷ ((descriptor, (file_info, lib.encode_peer bob)) ∷ [])))

alice_removed : remove memory lib dir disk (ascii "alice") ≡ (left, ok tt)
unfolding remove peer move_aside erase load_peer read_file check_opened check_peers check_store
    trust_path trust_ancestors trust_chain trust_ancestor owned is_shared lookup lstat_disk path_eq
    bytes_eq limited decode valid_peer valid_endpoint check_name are_words is_alnum peer_id
    id_string
alice_removed = refl

peers-Authorized_example :
    All (λ p. (path : FilePath) × Authorized memory lib disk path p) (alice ∷ [])
peers-Authorized_example = peers-Authorized memory lib dir disk (alice ∷ []) alice_listed
