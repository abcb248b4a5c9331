-- ===== src/Config/Store.antt =====
-- internal/config/config.go: the operations of `Store`. The directory is an absolute path.
use quantumcat.Base.{
  ℕ, Bytes, ascii, bytes_eq, Bool, true, false, not, ◌||◌, ◌==◌, if◌then◌else◌, any, Option, none,
  some, List, [], ◌∷◌, ◌++◌,
}
use quantumcat.Files.{
  FilePath, Result, ok, err, missing, refused, refuse_if, ◌>>=◌, ◌>>◌, Entry, Os,
}
use quantumcat.Trust.{trust_path, trust_ancestors}
use quantumcat.Config.{
  identity_version, check_name, Peer, Libraries, valid_peer, read_file, write_new,
}

abbrev pub suffix : Bytes
suffix = ascii ".qpeer"

abbrev pub peers_dir : FilePath → FilePath
peers_dir dir = ascii "peers" ∷ dir

abbrev pub peer_path : FilePath → Bytes → FilePath
peer_path dir name = (name ++ suffix) ∷ peers_dir dir

-- `filepath.Ext` of a name: from its last dot on.
unfoldable pub extension : Bytes → Bytes
extension [] = []
extension (b ∷ rest) = elim (extension rest) [
  | [] ↦ if b == 46 then b ∷ rest else []
  | x ∷ xs ↦ x ∷ xs
]

-- What identity.json holds; the node's key is all that makes it usable or not.
pub record IdentityFile : Type 0 where
  pub file_version : ℕ
  pub device : Bytes
  pub provider : Bytes
  pub private : Bytes
  pub node_zero : Bool

module _ (os : Os) (lib : Libraries) (dir : FilePath) where
  unfoldable pub check_store : os.State → Result (Unit {0})
  check_store s = do trust_path os s dir true; trust_ancestors os s dir

  unfoldable pub check_peers : os.State → Result (Unit {0})
  check_peers s = do check_store s; trust_path os s (peers_dir dir) true

  -- One descriptor of the store, by its file.
  unfoldable pub load_peer : os.State → FilePath → Result Peer
  load_peer s path = do
    trust_path os s path false
    p ← read_file os lib.decode_peer s path false true
    refuse_if (not (valid_peer lib p))
    ok p

  unfoldable pub peer : os.State → Bytes → Result Peer
  peer s name = do
    refuse_if (not (check_name name))
    check_peers s
    load_peer s (peer_path dir name)

  -- The loop over the directory's entries.
  unfoldable pub load_entries : os.State → List Entry → Result (List Peer)
  load_entries s [] = ok []
  load_entries s (e ∷ rest) =
      let later = load_entries s rest in
      if e.entry_dir || not (bytes_eq (extension e.name) suffix)
      then later
      else do p ← load_peer s (e.name ∷ peers_dir dir); ps ← later; ok (p ∷ ps)

  unfoldable pub read_peers : os.State → Result (List Peer)
  read_peers s = elim (os.read_dir s (peers_dir dir)) [
    | ok entries ↦ load_entries s entries
    | err missing ↦ ok []
    | err refused ↦ err refused
  ]

  unfoldable pub peers : os.State → Result (List Peer)
  peers s = elim (check_peers s) [
    | ok _ ↦ read_peers s
    | err missing ↦ ok []
    | err refused ↦ err refused
  ]

  -- What a descriptor is checked for before it is paired.
  unfoldable pub import_peer : os.State → FilePath → Result Peer
  import_peer s path = do
    check_store s
    p ← read_file os lib.decode_peer s path false false
    refuse_if (not (valid_peer lib p))
    ps ← peers s
    refuse_if (any (λ q. bytes_eq q.public_key p.public_key) ps)
    ok p

  unfoldable pub add : os.State → Bytes → FilePath → os.State × Result (Unit {0})
  add s name path =
      if not (check_name name)
      then (s, err refused)
      else let d = os.mkdir_all s dir in
        if not d.1 then (d.0, err refused) else elim (import_peer d.0 path) [
          | err e ↦ (d.0, err e)
          | ok p ↦
              write_new os d.0 (peer_path dir name) (lib.encode_peer (record p { name = name }))
        ]

  abbrev pub revoked_path : Bytes → FilePath
  revoked_path name = (name ++ (suffix ++ ascii ".revoked")) ∷ peers_dir dir

  unfoldable pub move_aside : os.State → Bytes → os.State × Result (Unit {0})
  move_aside s name = elim (os.lstat s (revoked_path name)) [
    | err missing ↦
        let r = os.rename s (peer_path dir name) (revoked_path name) in
        (r.0, if r.1 then ok tt else err refused)
    | err refused ↦ (s, err refused)
    | ok _ ↦ (s, err refused)
  ]

  unfoldable pub remove : os.State → Bytes → os.State × Result (Unit {0})
  remove s name = elim (peer s name) [ err e ↦ (s, err e) | ok _ ↦ move_aside s name ]

  -- What `Init` takes from outside: whether this is macOS, a key of each provider, the encoded file.
  pub record Keys : Type 0 where
    pub is_darwin : Bool
    pub software_key : Option Bytes
    pub enclave_key : Option Bytes
    pub node_key : IdentityFile → Bytes

  unfoldable pub provider_kind : Keys → Bytes → Bytes
  provider_kind k kind =
      if not (bytes_eq kind [])
      then kind
      else if k.is_darwin
      then ascii "secure-enclave"
      else ascii "software"

  unfoldable pub generate : Keys → Bytes → Option Bytes
  generate k kind =
      if bytes_eq kind (ascii "software")
      then k.software_key
      else if bytes_eq kind (ascii "secure-enclave")
      then k.enclave_key
      else none

  unfoldable pub init : Keys → os.State → Bytes → Bytes → os.State × Result (Unit {0})
  init k s name kind =
      if not (check_name name)
      then (s, err refused)
      else let d = os.mkdir_all s dir in
        if not d.1 then (d.0, err refused) else elim (check_store d.0) [
          | err e ↦ (d.0, err e)
          | ok _ ↦ elim (generate k (provider_kind k kind)) [
            | none ↦ (d.0, err refused)
            | some private ↦ write_new os d.0 (ascii "identity.json" ∷ dir) (
                k.node_key (record {
                  file_version = identity_version;
                  device = name;
                  provider = provider_kind k kind;
                  private = private;
                  node_zero = false;
                }))
          ]
        ]

  -- `Identity` up to the provider that takes the private key; the decoder and the provider are given.
  unfoldable pub load_identity {ℓ} :
      {A : Type ℓ}
      → (Bytes → Option IdentityFile)
      → (Bytes → Bytes → Option A)
      → os.State
      → Result (A × IdentityFile)
  load_identity decode load s = do
    check_store s
    f ← read_file os decode s (ascii "identity.json" ∷ dir) true false
    refuse_if (not (f.file_version == identity_version))
    refuse_if f.node_zero
    refuse_if (
        not
          (bytes_eq f.provider (ascii "software") || bytes_eq f.provider (ascii "secure-enclave")))
    i ← elim (load f.provider f.private) [ none ↦ err refused | some i ↦ ok i ]
    ok (i, f)
