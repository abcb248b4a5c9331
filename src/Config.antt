-- ===== src/Config.antt =====
-- internal/config/config.go and permissions.go: peer descriptors, and how files of the store are read
-- and written. encoding/json and tailcat.ParseAddr are parameters.
pub mod Store
pub mod Loaded
mod Entries
mod Created
mod Extends
pub mod Pairing
pub mod Tests
use Prim.Native.Nat.{bit_and}
use quantumcat.Base.{
  ℕ, ◌+◌, Bytes, ascii, bytes_eq, Bool, true, false, not, ◌&&◌, ◌||◌, ◌==◌, ltb, leb, if◌then◌else◌,
  Option, none, some, List, [], ◌∷◌, ◌++◌, length, take,
}
use quantumcat.Crypto.{Crypto}
use quantumcat.Wire.{peer_id, id_string, public_key_size}
use quantumcat.Files.{FilePath, parent, Info, Result, ok, err, refused, refuse_if, ◌>>=◌, ◌>>◌, Os}
use quantumcat.Trust.{is_shared, owned, trust_path}

abbrev pub max_file : ℕ
max_file = 131072

abbrev pub identity_version : ℕ
identity_version = 3

abbrev pub peer_version : ℕ
peer_version = 1

unfoldable pub is_alnum : ℕ → Bool
is_alnum b = (leb 48 b && leb b 57) || ((leb 65 b && leb b 90) || (leb 97 b && leb b 122))

unfoldable pub are_words : Bytes → Bool
are_words [] = true
are_words (b ∷ rest) = (is_alnum b || ((b == 45) || (b == 95))) && are_words rest

-- The regular expression `^[a-zA-Z0-9][a-zA-Z0-9_-]{0,63}$`.
unfoldable pub check_name : Bytes → Bool
check_name [] = false
check_name (b ∷ rest) = is_alnum b && (leb (length rest) 63 && are_words rest)

-- What `Validate` asks of a parsed endpoint.
pub record Endpoint : Type 0 where
  pub has_psk : Bool
  pub has_server : Bool
  pub has_disco : Bool

pub record Peer : Type 0 where
  pub version : ℕ
  pub name : Bytes
  pub id : Bytes
  pub public_key : Bytes
  pub endpoint : Bytes

-- The libraries around the store: the peer identities' hash, tailcat.ParseAddr, and JSON. Decoding is
-- strict: an unknown field and anything behind the value are errors.
pub record Libraries : Type 0 where
  pub crypto : Crypto
  pub parse_addr : Bytes → Option Endpoint
  pub encode_peer : Peer → Bytes
  pub decode_peer : Bytes → Option Peer

unfoldable pub valid_endpoint : Libraries → Bytes → Bool
valid_endpoint lib endpoint =
    if bytes_eq endpoint [] then true else elim (lib.parse_addr endpoint) [
      | none ↦ false
      | some a ↦ not a.has_psk && (a.has_server && a.has_disco)
    ]

unfoldable pub valid_peer : Libraries → Peer → Bool
valid_peer lib p =
    (p.version == peer_version)
    && (check_name p.name
        && ((length p.public_key == public_key_size)
            && (bytes_eq p.id (id_string lib.crypto (peer_id lib.crypto p.public_key))
                && valid_endpoint lib p.endpoint)))

-- `io.LimitReader`: what the decoder sees of a file.
unfoldable pub limited : Bytes → Bytes
limited body = take (max_file + 1) body

-- A decoding error is an error.
abbrev pub or_refuse {ℓ} : {A : Type ℓ} → Option A → Result A
or_refuse none = err refused
or_refuse (some a) = ok a

module _ (os : Os) where
  -- The checks of a file that holds a secret or an authorization. `opened` is the file that was opened.
  unfoldable pub check_opened : os.State → FilePath → Info → Result (Unit {0})
  check_opened s path opened = do
    refuse_if (not (owned os opened))
    refuse_if (is_shared opened)
    trust_path os s path false
    current ← os.lstat s path
    refuse_if (not (opened.inode == current.inode))

  unfoldable pub read_file {ℓ} :
      {A : Type ℓ} → (Bytes → Option A) → os.State → FilePath → Bool → Bool → Result A
  read_file decode s path secret authorization = do
    (opened, body) ← os.open_file s path
    refuse_if (not opened.is_regular || ltb max_file (length body))
    refuse_if (secret && not (bit_and opened.perm 63 == 0))
    if secret || authorization then check_opened s path opened else ok tt
    or_refuse (decode (limited body))

  -- `WriteNew` of a value already encoded; the file is closed, or it is removed after a failed write.
  unfoldable pub write_file : os.State → FilePath → Bytes → os.State × Result (Unit {0})
  write_file s path body = elim (os.create s path) [
    | none ↦ (s, err refused)
    | some s1 ↦
        let w = os.write_sync s1 path body in
        let c = os.close_file w.0 path in
        if not w.1
        then (os.remove_file c.0 path, err refused)
        else (c.0, if c.1 then ok tt else err refused)
  ]

  unfoldable pub write_new : os.State → FilePath → Bytes → os.State × Result (Unit {0})
  write_new s path body =
      let d = os.mkdir_all s (parent path) in
      if not d.1 then (d.0, err refused) else write_file d.0 path body
