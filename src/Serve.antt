-- ===== src/Serve.antt =====
-- cmd/qcat/main.go: the services that the serve command is asked for, and where a connection of the
-- tunnel leads. It uses the entries of Services and the checks of Socks.
pub mod Routes
mod Tests
use quantumcat.Base.{
  ℕ, Bytes, bytes_eq, Bool, true, false, not, ◌&&◌, ◌||◌, ◌==◌, ltb, if◌then◌else◌, Option, none,
  some, List, [], ◌∷◌, map, length, any,
}
use quantumcat.Base.Assoc.{lookup, insert, member, number_key}
use quantumcat.Socks.{Net, Surroundings, validate_target}
use quantumcat.Services.{cut, Targets, service_specs}

-- The TCP services and the set of targets that the SOCKS service may reach.
pub record Published : Type 0 where
  pub targets : Targets
  pub allowed : List Bytes

unfoldable pub add_service : Net → ℕ → Bytes → Published → Option Published
add_service net port target s =
    if ltb port 2 || not (validate_target net target)
    then none
    else if member port s.targets
    then none
    else some (record { targets = insert port target s.targets; allowed = target ∷ s.allowed })

unfoldable pub add_tcp : Net → Bytes → Published → Option Published
add_tcp net entry s = elim (cut 61 entry) [
  | none ↦ none
  | some (p, target) ↦ elim (net.parse_port p) [
    | none ↦ none
    | some port ↦ add_service net port target s
  ]
]

unfoldable pub serve_tcp : Net → List Bytes → Published → Option Published
serve_tcp net [] s = some s
serve_tcp net (entry ∷ rest) s = elim (add_tcp net entry s) [
  | none ↦ none
  | some t ↦ serve_tcp net rest t
]

unfoldable pub serve_allow : Net → List Bytes → Published → Option Published
serve_allow net [] s = some s
serve_allow net (target ∷ rest) s =
    let later = serve_allow net rest (record s { allowed = target ∷ s.allowed }) in
    if not (validate_target net target) then none else later

abbrev pub is_empty {ℓ} : {A : Type ℓ} → List A → Bool
is_empty [] = true
is_empty (a ∷ rest) = false

-- Nothing to serve, or a tunnel device beside services.
unfoldable pub bad_mode : Bool → Published → Targets → Bool
bad_mode tun s udp =
    (is_empty s.allowed && (is_empty udp && not tun))
    || (tun && not (is_empty s.allowed && is_empty udp))

-- The command's services, `none` where it ends with an error.
unfoldable pub serve_config :
    Net → List Bytes → List Bytes → List Bytes → Bool → Option (Published × Targets)
serve_config net tcp udp allow tun = elim (service_specs net udp []) [
  | none ↦ none
  | some udp_targets ↦ elim (serve_tcp net tcp (record { targets = []; allowed = [] })) [
    | none ↦ none
    | some s ↦ elim (serve_allow net allow s) [
      | none ↦ none
      | some t ↦ if bad_mode tun t udp_targets then none else some (t, udp_targets)
    ]
  ]
]

-- What a connection to a port of the tunnel gets: the SOCKS service, a target, or nothing.
pub data Route : Type 0 where
  negotiates : Route
  leads_to : Bytes → Route
  unserved : Route

unfoldable pub on_tcp : Published → ℕ → Route
on_tcp s port =
    if port == 1
    then negotiates
    else elim (lookup port s.targets) [ none ↦ unserved | some target ↦ leads_to target ]

-- What the SOCKS service may reach.
unfoldable pub permits : Published → Bytes → Bool
permits s target = any (bytes_eq target) s.allowed

unfoldable pub published_tcp_ports : Targets → List ℕ
published_tcp_ports targets = 1 ∷ map (λ t. t.0) targets

-- What surrounds the SOCKS service of a connection.
abbrev pub socks_around : Net → Published → (Bytes → Bool) → Bool → Surroundings
socks_around net s connects writes = record {
  net = net;
  allowed = permits s;
  connects = connects;
  writes = writes;
}
