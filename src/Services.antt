-- ===== src/Services.antt =====
-- cmd/qcat/udp.go: the specifications of published UDP services, `FIRST:LAST=HOST:PORT`.
pub mod Ranges
pub mod Keeps
mod Tests
use quantumcat.Base.{
  ℕ, zero, suc, ◌+◌, ◌-◌, ◌%◌, ◌≤◌, Bytes, ascii, Bool, true, false, not, ◌||◌, ◌&&◌, ◌==◌, ltb,
  leb, if◌then◌else◌, Option, none, some, List, [], ◌∷◌,
}
use quantumcat.Base.Assoc.{lookup, insert, member, number_key}
use quantumcat.Socks.{Net, validate_target}

-- `strings.Cut` at one byte.
unfoldable pub cut : ℕ → Bytes → Option (Bytes × Bytes)
cut sep [] = none
cut sep (b ∷ rest) =
    let later = cut sep rest in
    if b == sep
    then some ([], rest)
    else elim later [ none ↦ none | some (front, back) ↦ some (b ∷ front, back) ]

abbrev pub Targets : Type 0
Targets = List (ℕ × Bytes)

-- The destination of a port; `base` is the port of the target.
unfoldable pub mapped : Net → Bool → Bytes → Bytes → ℕ → ℕ → ℕ → Bytes
mapped net ranged target host base first port =
    if ranged then net.join_host_port host (base + port - first) else target

-- The loop over the ports from `port` on, `left` of them; a port that is there already is an error.
-- The keys are of sixteen bits.
unfoldable pub add_ports : ℕ → ℕ → (ℕ → Bytes) → Targets → Option Targets
add_ports zero port destination targets = some targets
add_ports (suc left) port destination targets =
    let key = port % 65536 in
    let later = add_ports left (suc port) destination (insert key (destination port) targets) in
    if member key targets then none else later

-- The last port: the first one, or the one behind the colon.
unfoldable pub last_port : Net → Bool → Bytes → ℕ → Option ℕ
last_port net ranged text first = if not ranged then some first else elim (net.parse_port text) [
  | none ↦ none
  | some last ↦ if ltb last first then none else some last
]

-- The ports of an entry are known: the target is checked and its ports are added.
unfoldable pub add_range : Net → Bool → ℕ → ℕ → Bytes → Targets → Option Targets
add_range net ranged first last target targets =
    if not (validate_target net target) then none else elim (net.split_host_port target) [
      | none ↦ none
      | some (host, text) ↦ elim (net.parse_port text) [
        | none ↦ none
        | some base ↦
            if ltb 65535 (base + last - first)
            then none
            else add_ports (last + 1 - first) first (mapped net ranged target host base first)
                targets
      ]
    ]

-- The part of an entry before the destination: its first port, and whether there is a colon.
unfoldable pub port_text : Bytes → Bytes × Bytes × Bool
port_text p = elim (cut 58 p) [ none ↦ (p, [], false) | some (a, b) ↦ (a, b, true) ]

unfoldable pub add_entry : Net → Bytes → Targets → Option Targets
add_entry net entry targets = elim (cut 61 entry) [
  | none ↦ none
  | some (p, target) ↦
      let t = port_text p in
      elim (net.parse_port t.0) [
        | none ↦ none
        | some first ↦ if first == 0 then none else elim (last_port net t.2 t.1 first) [
          | none ↦ none
          | some last ↦ add_range net t.2 first last target targets
        ]
      ]
]

unfoldable pub service_specs : Net → List Bytes → Targets → Option Targets
service_specs net [] targets = some targets
service_specs net (entry ∷ rest) targets = elim (add_entry net entry targets) [
  | none ↦ none
  | some targets' ↦ service_specs net rest targets'
]

-- The local address and the tunnel's port of a forwarded UDP port, `LOCALPORT:TUNNELPORT`.
unfoldable pub udp_forward_spec : Net → Bytes → Option (Bytes × ℕ)
udp_forward_spec net spec = elim (cut 58 spec) [
  | none ↦ none
  | some (l, r) ↦ elim (net.parse_port l) [
    | none ↦ none
    | some local ↦ elim (net.parse_port r) [
      | none ↦ none
      | some remote ↦
          if remote == 0 then none else some (net.join_host_port (ascii "127.0.0.1") local, remote)
    ]
  ]
]
