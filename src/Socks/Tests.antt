-- ===== src/Socks/Tests.antt =====
-- Runs of internal/proxy/socks.go, and the theorems at concrete inputs.
use quantumcat.Base.{
  ◌≡◌, refl, Bytes, bytes_eq, ascii, put_u16, read_be, true, any, some, [], ◌∷◌, ◌++◌, arith,
}
use quantumcat.Base.Indexed.{get_or}
use quantumcat.Socks.{
  Net, Surroundings, closed, proxied, reply, read_full, read_port, read_host, read_name,
  read_address, serve_target, serve_request, serve_methods, serve, dial_target, greeting,
  connect_request, dial,
}
use quantumcat.Socks.Negotiation.{negotiation}

-- A net whose targets are a host alone, at port 80.
abbrev plain : Net
plain = record {
  ip_string = λ b. b;
  join_host_port = λ h p. h;
  split_host_port = λ t. some (t, ascii "80");
  parse_port = λ p. some 80;
}

abbrev host : Bytes
host = ascii "host"

abbrev around : Surroundings
around = record { net = plain; allowed = λ t. bytes_eq t host; connects = λ t. true; writes = true }

negotiation_example :
    (serve around (greeting ++ (connect_request host 80 ++ (9 ∷ [])))
      ≡ ((5 ∷ (0 ∷ [])) ∷ (reply 0 ∷ []), proxied host (9 ∷ [])))
    × (dial plain host true true ((5 ∷ (0 ∷ [])) ++ (reply 0 ++ []))
        ≡ (greeting ∷ (connect_request host 80 ∷ []), some []))
unfolding dial_target bytes_eq
negotiation_example = negotiation around host host (9 ∷ []) [] 80 refl (omega arith) refl refl refl

-- Another host is refused.
refused :
    serve around (greeting ++ connect_request (ascii "other") 80)
    ≡ ((5 ∷ (0 ∷ [])) ∷ (reply 2 ∷ []), closed)
unfolding serve serve_methods serve_request serve_target read_address read_name read_host read_port
    read_full get_or any bytes_eq connect_request put_u16 read_be
refused = refl

served : (serve around (greeting ++ connect_request host 80)).1 ≡ proxied host []
unfolding serve serve_methods serve_request serve_target read_address read_name read_host read_port
    read_full get_or any bytes_eq connect_request put_u16 read_be
served = refl
