-- ===== src/Services/Ranges.antt =====
-- cmd/qcat/udp.go: which ports a range publishes, and where they lead.
use quantumcat.Base.{
  ℕ, zero, suc, ◌+◌, ◌-◌, ◌%◌, ◌≤◌, ◌≡◌, ◌∙◌, refl, ap, Bytes, Bool, Bool-cases, true, false,
  Option, ◌&&◌, ltb, leb, if◌then◌else◌, some, Option-cases, inl, inr, arith,
}
use quantumcat.Base.Assoc.{lookup, insert, number_key, lookup-insert}
use quantumcat.Socks.{Net}
use quantumcat.Services.{Targets, mapped, add_ports, add_range}

lookup-add_ports :
    (left port j : ℕ) (destination : ℕ → Bytes) (targets result : Targets)
    → port + left ≤ 65536
    → add_ports left port destination targets ≡ some result
    → lookup j result
      ≡ (if leb port j && ltb j (port + left) then some (destination j) else lookup j targets)
unfolding add_ports
lookup-add_ports zero port j destination targets result small h = ground arith
lookup-add_ports (suc left) port j destination targets result small h =
    let key : port % 65536 ≡ port = omega arith in
    let rest = insert (port % 65536) (destination port) targets in
    let found : add_ports left (suc port) destination rest ≡ some result = ground arith in
    let ih = lookup-add_ports left (suc port) j destination rest result (omega arith) found in
    ih ∙ rw (lookup-insert (port % 65536) j (destination port) targets, key) (ground arith)

-- Where a port leads: to the target, or for a range to the target's host, as far behind the target's
-- port as the port is behind the first.
abbrev pub leads_to : Net → Bool → Bytes → Bytes → ℕ → ℕ → ℕ → Bytes
leads_to net false target host base first port = target
leads_to net true target host base first port = net.join_host_port host (base + (port - first))

mapped-leads_to :
    (net : Net) (ranged : Bool) (target host : Bytes) (base first port : ℕ)
    → first ≤ port
    → mapped net ranged target host base first port
      ≡ leads_to net ranged target host base first port
unfolding mapped
mapped-leads_to net false target host base first port h = refl
mapped-leads_to net true target host base first port h =
    let same : base + port - first ≡ base + (port - first) = omega arith in
    ap (net.join_host_port host) same

same_route :
    (net : Net) (ranged : Bool) (target host : Bytes) (base first last j : ℕ)
    (otherwise : Option Bytes)
    → first ≤ last
    → (if leb first j && ltb j (first + (last + 1 - first))
        then some (mapped net ranged target host base first j)
        else otherwise)
      ≡ (if leb first j && leb j last
          then some (leads_to net ranged target host base first j)
          else otherwise)
same_route net ranged target host base first last j otherwise order =
    elim (Bool-cases (leb first j)) [
      | inr f ↦ rw (f) refl
      | inl t ↦
          let same = mapped-leads_to net ranged target host base first j (ground arith) in
          ground (arith, same)
    ]

-- An entry's ports lead to the destination of the entry, counted from its port, and no other port
-- changes.
abbrev pub Publishes : Net → Bool → ℕ → ℕ → Bytes → Targets → Targets → Type 0
Publishes net ranged first last target targets result =
    (host : Bytes) × ((text : Bytes) × ((base : ℕ) × ((net.split_host_port target
            ≡ some (host, text))
          × ((net.parse_port text ≡ some base)
              × ((base + last - first ≤ 65535)
                  × ((j : ℕ)
                      → lookup j result ≡ (
                          if leb first j && leb j last
                          then some (leads_to net ranged target host base first j)
                          else lookup j targets)))))))

-- When a range of ports up to 65535 is accepted for a target: the last destination port fits in sixteen
-- bits, each port of the range leads to the target, or for a range with a colon to the host of the
-- target at the port as far behind the target's as the port is behind the first, and every other port
-- leads where it led.
pub add_range-Publishes :
    (net : Net) (ranged : Bool) (first last : ℕ) (target : Bytes) (targets result : Targets)
    → first ≤ last
    → last ≤ 65535
    → add_range net ranged first last target targets ≡ some result
    → Publishes net ranged first last target targets result
unfolding add_range
add_range-Publishes net ranged first last target targets result order small h =
    elim (Option-cases (net.split_host_port target)) [
      | inl none_there ↦ absurd (ground arith)
      | inr (parts, split) ↦ elim (Option-cases (net.parse_port parts.1)) [
        | inl bad ↦ absurd (ground arith)
        | inr (base, read) ↦
            let added : add_ports (last + 1 - first) first
                  (mapped net ranged target parts.0 base first) targets
                ≡ some result =
              ground arith in
            (
              parts.0,
              (
                parts.1,
                (
                  base,
                  (
                    split,
                    (
                      read,
                      (
                        ground arith,
                        λ j.
                            lookup-add_ports (last + 1 - first) first j
                              (mapped net ranged target parts.0 base first) targets result
                              (omega arith) added
                            ∙ same_route net ranged target parts.0 base first last j
                                (lookup j targets) order,
                      ),
                    ),
                  ),
                ),
              ),
            )
      ]
    ]
