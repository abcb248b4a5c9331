-- ===== src/Serve/Routes.antt =====
-- Where the connections of a served tunnel lead: only to what the command line names.
use quantumcat.Base.{
  ℕ, ◌≤◌, Bytes, bytes_eq, bytes_eq→eq, Bool, Bool-cases, Option-cases, true, not, ◌||◌, ◌==◌, ltb,
  ◌≡◌, ◌⊎◌, inl, inr, refl, sym, subst, ◌∙◌, none, some, List, [], ◌∷◌, any, All, Listed,
  All-Listed, arith,
}
use quantumcat.Base.Assoc.{lookup, insert, member, number_key, lookup-insert}
use quantumcat.Socks.{Net, validate_target, serve, proxied}
use quantumcat.Socks.Negotiation.{serve_permitted}
use quantumcat.Services.{cut, Targets, service_specs}
use quantumcat.Serve.{
  Published, add_service, add_tcp, serve_tcp, serve_allow, bad_mode, serve_config, leads_to, on_tcp,
  permits, socks_around,
}

module _ (net : Net) (tcp allow : List Bytes) where
  -- An entry PORT=TARGET of the command line, its port at least two.
  pub record IsService (port : ℕ) (target : Bytes) : Type 0 where
    pub entry : Bytes
    pub text : Bytes
    pub named : Listed entry tcp
    pub parts : cut 61 entry ≡ some (text, target)
    pub number : net.parse_port text ≡ some port
    pub unreserved : 2 ≤ port
    pub valid : validate_target net target ≡ true

  -- A target of an entry, or one that is allowed by itself.
  abbrev pub IsNamed : Bytes → Type 0
  IsNamed target = ((port : ℕ) × IsService port target) ⊎ Listed target allow

  record IsConfigured (s : Published) : Type 0 where
    routed :
        (port : ℕ) (target : Bytes) → lookup port s.targets ≡ some target → IsService port target
    named : (target : Bytes) → permits s target ≡ true → IsNamed target

  permits_more :
      (s : Published) (t : Bytes)
      → IsConfigured s
      → IsNamed t
      → (target : Bytes) → any (bytes_eq target) (t ∷ s.allowed) ≡ true
      → IsNamed target
  unfolding any permits
  permits_more s t c n target h = elim (Bool-cases (bytes_eq target t)) [
    | inl same ↦ subst IsNamed (sym (bytes_eq→eq target t same)) n
    | inr other ↦ c.named target (ground arith)
  ]

  add_service-IsConfigured :
      (port : ℕ) (target : Bytes) (s t : Published)
      → (2 ≤ port → validate_target net target ≡ true → IsService port target)
      → add_service net port target s ≡ some t
      → IsConfigured s
      → IsConfigured t
  unfolding add_service permits
  add_service-IsConfigured port target s t service h c =
      elim (Bool-cases (ltb port 2 || not (validate_target net target))) [
        | inl bad ↦ absurd (ground arith)
        | inr good ↦ elim (Bool-cases (member port s.targets)) [
          | inl bad ↦ absurd (ground arith)
          | inr new ↦
              let this : IsService port target = service (ground arith) (ground arith) in
              let made : add_service net port target s
                  ≡ some (record {
                    targets = insert port target s.targets;
                    allowed = target ∷ s.allowed;
                  }) =
                rw (add_service, good, new) refl in
              let same : record {
                targets = insert port target s.targets;
                allowed = target ∷ s.allowed;
              }
                  ≡ t =
                cc in
              subst IsConfigured same (record {
                routed = λ p u there. elim (Bool-cases (port == p)) [
                  | inl t' ↦
                      let here : port ≡ p = ground arith in
                      let found : lookup p (insert port target s.targets) ≡ some target =
                        lookup-insert port p target s.targets ∙ rw (t') refl in
                      let one : target ≡ u = cc in
                      subst (λ k. IsService k u) here (subst (IsService port) one this)
                  | inr f ↦
                      c.routed p u
                        (sym (lookup-insert port p target s.targets ∙ rw (f) refl) ∙ there)
                ];
                named = permits_more s target c (inl (port, this));
              })
        ]
      ]

  add_tcp-IsConfigured :
      (entry : Bytes) (s t : Published)
      → Listed entry tcp
      → add_tcp net entry s ≡ some t
      → IsConfigured s
      → IsConfigured t
  unfolding add_tcp
  add_tcp-IsConfigured entry s t l h c = elim (Option-cases (cut 61 entry)) [
    | inl bad ↦ absurd (let refused : add_tcp net entry s ≡ none = rw (add_tcp, bad) refl in cc)
    | inr ((p, target), parts) ↦ elim (Option-cases (net.parse_port p)) [
      | inl bad ↦
          absurd (let refused : add_tcp net entry s ≡ none = rw (add_tcp, parts, bad) refl in cc)
      | inr (port, number) ↦
          let same : add_tcp net entry s ≡ add_service net port target s =
            rw (add_tcp, parts, number) refl in
          add_service-IsConfigured port target s t
            (λ big valid. record {
              entry = entry;
              text = p;
              named = l;
              parts = parts;
              number = number;
              unreserved = big;
              valid = valid;
            })
            (sym same ∙ h) c
    ]
  ]

  serve_tcp-IsConfigured :
      (rest : List Bytes) (s t : Published)
      → All (λ e. Listed e tcp) rest
      → serve_tcp net rest s ≡ some t
      → IsConfigured s
      → IsConfigured t
  unfolding serve_tcp
  serve_tcp-IsConfigured [] s t l h c = let same : s ≡ t = cc in subst IsConfigured same c
  serve_tcp-IsConfigured (e ∷ rest) s t l h c = elim (Option-cases (add_tcp net e s)) [
    | inl bad ↦
        absurd (let refused : serve_tcp net (e ∷ rest) s ≡ none = rw (serve_tcp, bad) refl in cc)
    | inr (u, added) ↦
        let same : serve_tcp net (e ∷ rest) s ≡ serve_tcp net rest u = rw (serve_tcp, added) refl in
        serve_tcp-IsConfigured rest u t l.1 (sym same ∙ h) (add_tcp-IsConfigured e s u l.0 added c)
  ]

  serve_allow-IsConfigured :
      (rest : List Bytes) (s t : Published)
      → All (λ e. Listed e allow) rest
      → serve_allow net rest s ≡ some t
      → IsConfigured s
      → IsConfigured t
  unfolding serve_allow permits
  serve_allow-IsConfigured [] s t l h c = let same : s ≡ t = cc in subst IsConfigured same c
  serve_allow-IsConfigured (e ∷ rest) s t l h c = elim (Bool-cases (not (validate_target net e))) [
    | inl bad ↦
        absurd
          (let refused : serve_allow net (e ∷ rest) s ≡ none = rw (serve_allow, bad) refl in cc)
    | inr good ↦
        let same : serve_allow net (e ∷ rest) s
            ≡ serve_allow net rest (record s { allowed = e ∷ s.allowed }) =
          rw (serve_allow, good) refl in
        serve_allow-IsConfigured rest _ t l.1 (sym same ∙ h)
          (record { routed = c.routed; named = permits_more s e c (inr l.0) })
  ]

  none_IsConfigured : IsConfigured (record { targets = []; allowed = [] })
  unfolding lookup permits any
  none_IsConfigured = record { routed = λ port target h. absurd cc; named = λ target h. absurd cc }

  serve_config-IsConfigured :
      (udp : List Bytes) (tun : Bool) (s : Published) (u : Targets)
      → serve_config net tcp udp allow tun ≡ some (s, u)
      → IsConfigured s
  unfolding serve_config
  serve_config-IsConfigured udp tun s u h = elim (Option-cases (service_specs net udp [])) [
    | inl bad ↦ absurd (
        let refused : serve_config net tcp udp allow tun ≡ none = rw (serve_config, bad) refl in cc)
    | inr (us, e1) ↦
        elim (Option-cases (serve_tcp net tcp (record { targets = []; allowed = [] }))) [
          | inl bad ↦ absurd (
              let refused : serve_config net tcp udp allow tun ≡ none =
                rw (serve_config, e1, bad) refl in
              cc)
          | inr (a, e2) ↦ elim (Option-cases (serve_allow net allow a)) [
            | inl bad ↦ absurd (
                let refused : serve_config net tcp udp allow tun ≡ none =
                  rw (serve_config, e1, e2, bad) refl in
                cc)
            | inr (b, e3) ↦ elim (Bool-cases (bad_mode tun b us)) [
              | inl bad ↦ absurd (
                  let refused : serve_config net tcp udp allow tun ≡ none =
                    rw (serve_config, e1, e2, e3, bad) refl in
                  cc)
              | inr good ↦
                  let made : serve_config net tcp udp allow tun ≡ some (b, us) =
                    rw (serve_config, e1, e2, e3, good) refl in
                  let same : b ≡ s = cc in
                  subst IsConfigured same (
                    serve_allow-IsConfigured allow a b (All-Listed allow [] allow refl) e3 (
                      serve_tcp-IsConfigured tcp _ a (All-Listed tcp [] tcp refl) e2
                        none_IsConfigured))
            ]
          ]
        ]
  ]

  -- A port of a served tunnel that leads to a target: an entry of the command line names this port,
  -- which is at least two, and this valid target.
  pub on_tcp-IsService :
      (udp : List Bytes) (tun : Bool) (s : Published) (u : Targets) (port : ℕ) (target : Bytes)
      → serve_config net tcp udp allow tun ≡ some (s, u)
      → on_tcp s port ≡ leads_to target
      → IsService port target
  unfolding on_tcp
  on_tcp-IsService udp tun s u port target h r = elim (Option-cases (lookup port s.targets)) [
    | inl bad ↦ absurd (ground arith)
    | inr (t, found) ↦
        let same : t ≡ target = ground arith in
        subst (IsService port) same ((serve_config-IsConfigured udp tun s u h).routed port t found)
  ]

  -- A target that the SOCKS service of a served tunnel copies to, whatever the client sends: an
  -- entry of the command line has it, or it is allowed by the command line.
  pub serve-IsNamed :
      (udp : List Bytes) (tun : Bool) (s : Published) (u : Targets) (connects : Bytes → Bool)
      (writes : Bool) (input target rest : Bytes)
      → serve_config net tcp udp allow tun ≡ some (s, u)
      → (serve (socks_around net s connects writes) input).1 ≡ proxied target rest
      → IsNamed target
  serve-IsNamed udp tun s u connects writes input target rest h p =
      (serve_config-IsConfigured udp tun s u h).named target
        (serve_permitted (socks_around net s connects writes) input target rest p).0
