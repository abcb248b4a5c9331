-- ===== src/Services/Keeps.antt =====
-- cmd/qcat/udp.go: a published port is published once.
use quantumcat.Base.{
  ℕ, zero, suc, ◌+◌, ◌-◌, ◌%◌, ◌≡◌, Bytes, Bool, false, ◌==◌, some, List, [], ◌∷◌, Option-cases,
  Bool-cases, inl, inr, arith,
}
use quantumcat.Base.Assoc.{lookup, insert, member, number_key, lookup-insert, lookup-member}
use quantumcat.Socks.{Net}
use quantumcat.Services.{
  Targets, mapped, add_ports, add_range, last_port, port_text, cut, add_entry, service_specs,
}

add_ports_keeps :
    (left port j : ℕ) (destination : ℕ → Bytes) (d : Bytes) (targets result : Targets)
    → lookup j targets ≡ some d
    → add_ports left port destination targets ≡ some result
    → lookup j result ≡ some d
unfolding add_ports
add_ports_keeps zero port j destination d targets result there h = ground arith
add_ports_keeps (suc left) port j destination d targets result there h =
    let rest = insert (port % 65536) (destination port) targets in
    let found : add_ports left (suc port) destination rest ≡ some result = ground arith in
    let fresh : member (port % 65536) targets ≡ false = ground arith in
    let still : lookup j rest ≡ some d = elim (Bool-cases ((port % 65536) == j)) [
      | inl same ↦
          let e : port % 65536 ≡ j = ground arith in
          let known = lookup-member j d targets there in absurd (ground arith)
      | inr other ↦ rw (lookup-insert (port % 65536) j (destination port) targets, other) there
    ] in
    add_ports_keeps left (suc port) j destination d rest result still found

add_range_keeps :
    (net : Net) (ranged : Bool) (first last j : ℕ) (target d : Bytes) (targets result : Targets)
    → lookup j targets ≡ some d
    → add_range net ranged first last target targets ≡ some result
    → lookup j result ≡ some d
unfolding add_range
add_range_keeps net ranged first last j target d targets result there h =
    elim (Option-cases (net.split_host_port target)) [
      | inl none_there ↦ absurd (ground arith)
      | inr (parts, split) ↦ elim (Option-cases (net.parse_port parts.1)) [
        | inl bad ↦ absurd (ground arith)
        | inr (base, read) ↦
            add_ports_keeps (last + 1 - first) first j (mapped net ranged target parts.0 base first)
              d targets result there (ground arith)
      ]
    ]

add_entry_keeps :
    (net : Net) (j : ℕ) (entry d : Bytes) (targets result : Targets)
    → lookup j targets ≡ some d
    → add_entry net entry targets ≡ some result
    → lookup j result ≡ some d
unfolding add_entry
add_entry_keeps net j entry d targets result there h = elim (Option-cases (cut 61 entry)) [
  | inl bad ↦ absurd (ground arith)
  | inr (e, split) ↦ elim (Option-cases (net.parse_port (port_text e.0).0)) [
    | inl bad ↦ absurd (ground arith)
    | inr (first, read) ↦
        elim (Option-cases (last_port net (port_text e.0).2 (port_text e.0).1 first)) [
          | inl bad ↦ absurd (ground arith)
          | inr (last, end) ↦
              add_range_keeps net (port_text e.0).2 first last j e.1 d targets result there
                (ground arith)
        ]
  ]
]

-- When a list of entries is accepted, a port that was published before leads where it led: no entry
-- takes over the port of an earlier one.
pub service_specs_keep :
    (net : Net) (j : ℕ) (entries : List Bytes) (d : Bytes) (targets result : Targets)
    → lookup j targets ≡ some d
    → service_specs net entries targets ≡ some result
    → lookup j result ≡ some d
unfolding service_specs
service_specs_keep net j [] d targets result there h = ground arith
service_specs_keep net j (entry ∷ rest) d targets result there h =
    elim (Option-cases (add_entry net entry targets)) [
      | inl bad ↦ absurd (ground arith)
      | inr (next, added) ↦
          service_specs_keep net j rest d next result
            (add_entry_keeps net j entry d targets next there added) (ground arith)
    ]
