-- ===== src/Control/Targets.antt =====
-- Which runtimes a query reaches.
use quantumcat.Base.{
  Bytes, ascii, bytes_eq, bytes_eq→eq, Bool, Bool-cases, Option-cases, true, false, not, ◌&&◌, ◌≡◌,
  ◌⊎◌, inl, inr, refl, ap, subst, ◌∙◌, none, some, List, [], ◌∷◌, ◌++◌, All, Listed, All-Listed,
  arith,
}
use quantumcat.Base.Assoc.{insert, bytes_key}
use quantumcat.Files.{FilePath, Result, ok, Entry, Os}
use quantumcat.Control.{
  strip_suffix, sock, is_empty, Json, History, Sockets, name_refused, runtime_target, Found,
  skipped, fails, answers, Answers, request, ask, names_peer, ask_peer, query_socket, query_entry,
  query_entries, query_listing, query,
}

-- Why a request went to the runtime `n` of this socket. Either it asks for the peer, or it is the command
-- of the query, and the runtime is meant: no name was given, or it is this name, or the runtime has told
-- that it is about the peer of this name, while no runtime has exactly this name.
abbrev pub Meant : Json → Sockets → Bytes → Bool → Bytes → Bytes → Type 0
Meant json sockets name exact n socket =
    (is_empty name ≡ true)
    ⊎ ((n ≡ name)
        ⊎ ((exact ≡ false)
            × ((h : History) × (names_peer json sockets name
                    (request json sockets h socket (ascii "info")).1
                  ≡ true))))

pub record Targeted (json : Json) (sockets : Sockets) (name : Bytes) (entries : List Entry)
    (command : Bytes) (r : Bytes × Bytes) : Type 0 where
  pub entry : Entry
  pub n : Bytes
  pub listed : Listed entry entries
  pub file : entry.name ≡ r.0
  pub socket : entry.entry_socket ≡ true
  pub runtime : r.0 ≡ n ++ sock
  pub reason :
      ((r.1 ≡ ascii "info") × (runtime_target name entries ≡ false))
      ⊎ ((r.1 ≡ command) × Meant json sockets name (runtime_target name entries) n r.0)

found_cases :
    (f : Found) → (f ≡ skipped) ⊎ ((f ≡ fails) ⊎ ((n : Bytes) × ((b : Bytes) × (f ≡ answers n b))))
found_cases skipped = inl refl
found_cases fails = inr (inl refl)
found_cases (answers n b) = inr (inr (n, (b, refl)))

strip_suffix-eq : (suffix s n : Bytes) → strip_suffix suffix s ≡ some n → s ≡ n ++ suffix
unfolding strip_suffix
strip_suffix-eq suffix [] n h = elim (Bool-cases (bytes_eq [] suffix)) [
  | inl t ↦
      let here : [] ≡ suffix = bytes_eq→eq [] suffix t in
      let empty : n ≡ [] = ground arith in rw (empty) here
  | inr f ↦ absurd (ground arith)
]
strip_suffix-eq suffix (b ∷ rest) n h = elim (Bool-cases (bytes_eq (b ∷ rest) suffix)) [
  | inl t ↦
      let here : b ∷ rest ≡ suffix = bytes_eq→eq (b ∷ rest) suffix t in
      let empty : n ≡ [] = ground arith in rw (empty) here
  | inr f ↦ elim (Option-cases (strip_suffix suffix rest)) [
    | inl bad ↦
        absurd (
          let nothing : strip_suffix suffix (b ∷ rest) ≡ none = rw (strip_suffix, f, bad) refl in
          cc)
    | inr (front, found) ↦
        let made : strip_suffix suffix (b ∷ rest) ≡ some (b ∷ front) =
          rw (strip_suffix, f, found) refl in
        let same : b ∷ front ≡ n = cc in
        ap (λ l. b ∷ l) (strip_suffix-eq suffix rest front found) ∙ ap (λ l. l ++ suffix) same
  ]
]

module _ (json : Json) (sockets : Sockets) (name : Bytes) (command : Bytes)
    (P : Bytes × Bytes → Type 0) where
  ask_peer-All :
      (h : History) (socket n : Bytes)
      → P (socket, ascii "info")
      → (names_peer json sockets name (request json sockets h socket (ascii "info")).1 ≡ true
          → P (socket, command))
      → All P h
      → All P (ask_peer json sockets h socket n name command).0
  unfolding ask_peer ask request
  ask_peer-All h socket n asks told before =
      elim (Bool-cases
        (names_peer json sockets name (request json sockets h socket (ascii "info")).1)) [
          | inl t ↦ rw (t) (told t, (asks, before))
          | inr f ↦ rw (f) (asks, before)
        ]

  query_socket-All :
      (exact : Bool) (h : History) (socket n : Bytes)
      → (exact ≡ false → P (socket, ascii "info"))
      → (Meant json sockets name exact n socket → P (socket, command))
      → All P h
      → All P (query_socket json sockets name exact command h socket n).0
  unfolding query_socket ask request
  query_socket-All exact h socket n asks meant before = elim (Bool-cases (is_empty name)) [
    | inl t ↦ rw (t) (meant (inl t), before)
    | inr named ↦ elim (Bool-cases (bytes_eq n name)) [
      | inl t ↦ rw (named, t) (meant (inr (inl (bytes_eq→eq n name t))), before)
      | inr other ↦ elim (Bool-cases exact) [
        | inl t ↦ rw (named, other, t) before
        | inr f ↦
            rw (named, other, f)
              (ask_peer-All h socket n (asks f) (λ told. meant (inr (inr (f, (h, told))))) before)
      ]
    ]
  ]

module _ (json : Json) (sockets : Sockets) (name command : Bytes) (entries : List Entry) where
  abbrev Sent : Bytes × Bytes → Type 0
  Sent = Targeted json sockets name entries command

  query_entry-All :
      (h : History) (e : Entry)
      → Listed e entries
      → All Sent h
      → All Sent (query_entry json sockets name (runtime_target name entries) command h e).0
  unfolding query_entry
  query_entry-All h e there before = elim (Option-cases (strip_suffix sock e.name)) [
    | inl t ↦ rw (query_entry, t) before
    | inr (n, found) ↦ elim (Bool-cases e.entry_socket) [
      | inl is ↦
          let named : e.name ≡ n ++ sock = strip_suffix-eq sock e.name n found in
          rw (query_entry, found, is)
            (query_socket-All json sockets name command Sent (runtime_target name entries) h e.name
              n
              (λ open_name. record {
                entry = e;
                n = n;
                listed = there;
                file = refl;
                socket = is;
                runtime = named;
                reason = inl (refl, open_name);
              })
              (λ why. record {
                entry = e;
                n = n;
                listed = there;
                file = refl;
                socket = is;
                runtime = named;
                reason = inr (refl, why);
              })
              before)
      | inr f ↦ rw (query_entry, found, f) before
    ]
  ]

  query_entries-All :
      (rest : List Entry) (h : History) (out : Answers)
      → All (λ e. Listed e entries) rest
      → All Sent h
      → All Sent
          (query_entries json sockets name (runtime_target name entries) command rest h out).0
  unfolding query_entries
  query_entries-All [] h out there before = before
  query_entries-All (e ∷ rest) h out there before =
      let now = query_entry-All h e there.0 before in
      let next = λ (out' : Answers).
        query_entries-All rest
          (query_entry json sockets name (runtime_target name entries) command h e).0 out' there.1
          now in
      elim (found_cases
        (query_entry json sockets name (runtime_target name entries) command h e).1) [
          | inl t ↦ rw (query_entries, t) (next out)
          | inr (inl t) ↦ rw (query_entries, t) now
          | inr (inr (n, (b, t))) ↦ rw (query_entries, t) (next (insert n b out))
        ]

-- Every request of a query goes to a socket of the runtime directory whose name ends in .sock, and
-- it is the command only for a runtime that is meant: no name is given, or it is the runtime's own
-- name, or no runtime has exactly this name and the runtime answered that it is about the peer of
-- this name. Any other request asks a runtime for its peer, while no runtime has exactly the name.
pub query-Targeted :
    (json : Json) (sockets : Sockets) (os : Os) (s : os.State) (dir : FilePath)
    (name command : Bytes) (entries : List Entry) (sent : History) (r : Result Answers)
    → os.read_dir s (ascii "run" ∷ dir) ≡ ok entries
    → query json sockets os s dir name command [] ≡ (sent, r)
    → All (Targeted json sockets name entries command) sent
unfolding query query_listing
query-Targeted json sockets os s dir name command entries sent r there h =
    let all : All (Targeted json sockets name entries command)
        (query json sockets os s dir name command []).0 =
      elim (Bool-cases (not (is_empty name) && name_refused name)) [
        | inl t ↦ rw (query, t) tt
        | inr f ↦
            rw (query, f, there)
              (query_entries-All json sockets name command entries entries [] []
                (All-Listed entries [] entries refl) tt)
      ] in
    subst (λ x. All (Targeted json sockets name entries command) x.0) h all

-- A request of a query for a name that a runtime has.
abbrev pub GoesTo : Bytes → Bytes → Bytes × Bytes → Type 0
GoesTo name command r = (r.0 ≡ name ++ sock) × (r.1 ≡ command)

Targeted-exact :
    (json : Json) (sockets : Sockets) (name command : Bytes) (entries : List Entry)
    (r : Bytes × Bytes)
    → runtime_target name entries ≡ true
    → Targeted json sockets name entries command r
    → GoesTo name command r
unfolding runtime_target
Targeted-exact json sockets name command entries r exact t = elim t.reason [
  | inl (info, other) ↦ absurd cc
  | inr (c, inl empty) ↦ absurd (ground arith)
  | inr (c, inr (inl same)) ↦ (t.runtime ∙ ap (λ n. n ++ sock) same, c)
  | inr (c, inr (inr (other, told))) ↦ absurd cc
]

All-map {ℓ κ μ} :
    {A : Type ℓ} (P : A → Type κ) (Q : A → Type μ) (xs : List A)
    → ((x : A) → P x → Q x)
    → All P xs
    → All Q xs
All-map P Q [] f h = tt
All-map P Q (x ∷ xs) f h = (f x h.0, All-map P Q xs f h.1)

-- Every request of a query for a name that a runtime has goes to that runtime's socket, and it is the
-- command.
pub query-GoesTo :
    (json : Json) (sockets : Sockets) (os : Os) (s : os.State) (dir : FilePath)
    (name command : Bytes) (entries : List Entry) (sent : History) (r : Result Answers)
    → os.read_dir s (ascii "run" ∷ dir) ≡ ok entries
    → runtime_target name entries ≡ true
    → query json sockets os s dir name command [] ≡ (sent, r)
    → All (GoesTo name command) sent
query-GoesTo json sockets os s dir name command entries sent r there exact h =
    All-map (Targeted json sockets name entries command) (GoesTo name command) sent
      (λ x. Targeted-exact json sockets name command entries x exact)
      (query-Targeted json sockets os s dir name command entries sent r there h)
