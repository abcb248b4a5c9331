-- ===== src/Services/Tests.antt =====
-- Runs of cmd/qcat/udp.go, and the theorems at concrete inputs.
use quantumcat.Base.{◌≡◌, refl, Bytes, ascii, length, true, none, some, [], ◌∷◌, arith}
use quantumcat.Base.Assoc.{lookup, insert, member, number_key}
use quantumcat.Socks.{Net, validate_target}
use quantumcat.Services.{
  Targets, mapped, cut, add_ports, add_range, last_port, port_text, add_entry, service_specs,
  udp_forward_spec,
}
use quantumcat.Services.Ranges.{Publishes, add_range-Publishes}
use quantumcat.Services.Keeps.{service_specs_keep}

-- A net whose ports are the lengths of their texts, and whose targets have port 4.
abbrev plain : Net
plain = record {
  ip_string = λ b. b;
  join_host_port = λ h p. p ∷ h;
  split_host_port = λ t. some (t, ascii "port");
  parse_port = λ p. some (length p);
}

abbrev host : Bytes
host = ascii "h"

-- The ports 2 and 3.
abbrev published : Targets
published = (2, 4 ∷ host) ∷ ((3, 5 ∷ host) ∷ [])

two_ports : add_range plain true 2 3 host [] ≡ some published
unfolding add_range validate_target add_ports mapped insert member
two_ports = refl

add_range-Publishes_example : Publishes plain true 2 3 host [] published
add_range-Publishes_example =
    add_range-Publishes plain true 2 3 host [] published (omega arith) (omega arith) two_ports

abbrev both : Targets
both = (2, 4 ∷ host) ∷ ((3, 5 ∷ host) ∷ ((1, host) ∷ []))

accepts_both : service_specs plain (ascii "p=h" ∷ []) published ≡ some both
unfolding service_specs add_entry cut port_text last_port add_range validate_target add_ports mapped
    insert member
accepts_both = refl

service_specs_keep_example : lookup 3 both ≡ some (5 ∷ host)
unfolding lookup
service_specs_keep_example =
    service_specs_keep plain 3 (ascii "p=h" ∷ []) (5 ∷ host) published both refl accepts_both

-- The port 1 is there.
twice : service_specs plain (ascii "p=h" ∷ []) both ≡ none
unfolding service_specs add_entry cut port_text last_port add_range validate_target add_ports mapped
    insert member
twice = refl

forwards_port : udp_forward_spec plain (ascii "ab:c") ≡ some (2 ∷ ascii "127.0.0.1", 1)
unfolding udp_forward_spec cut
forwards_port = refl

refuses_port_zero : udp_forward_spec plain (ascii "ab:") ≡ none
unfolding udp_forward_spec cut
refuses_port_zero = refl
