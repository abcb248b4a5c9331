-- ===== src/Serve/Tests.antt =====
-- The serve command's services on concrete inputs.
use quantumcat.Base.{
  Bytes, bytes_eq, ascii, length, put_u16, read_be, true, false, any, some, none, List, [], ◌∷◌,
  ◌++◌, ◌≡◌, refl,
}
use quantumcat.Base.Assoc.{lookup, insert, member, number_key}
use quantumcat.Base.Indexed.{get_or}
use quantumcat.Socks.{
  Net, validate_target, read_full, read_port, read_host, read_name, read_address, serve_target,
  serve_request, serve_methods, serve, connect_request, greeting, proxied,
}
use quantumcat.Services.{cut, service_specs}
use quantumcat.Serve.{
  Published, add_service, add_tcp, serve_tcp, serve_allow, bad_mode, serve_config, leads_to,
  unserved, on_tcp, permits, socks_around, published_tcp_ports,
}
use quantumcat.Serve.Routes.{IsService, IsNamed, on_tcp-IsService, serve-IsNamed}

-- A net whose ports are the lengths of their texts, and whose targets are hosts at port 4.
abbrev toy_net : Net
toy_net = record {
  ip_string = λ b. b;
  join_host_port = λ h p. h;
  split_host_port = λ t. some (t, ascii "port");
  parse_port = λ p. some (length p);
}

abbrev toy_entries : List Bytes
toy_entries = ascii "www=web" ∷ []

abbrev toy_allow : List Bytes
toy_allow = ascii "db" ∷ []

abbrev toy_published : Published
toy_published = record { targets = (3, ascii "web") ∷ []; allowed = ascii "db" ∷ ascii "web" ∷ [] }

configures_toy : serve_config toy_net toy_entries [] toy_allow false ≡ some (toy_published, [])
unfolding serve_config service_specs serve_tcp add_tcp cut add_service validate_target member insert
    serve_allow bad_mode
configures_toy = refl

refuses_duplicate : serve_config toy_net (ascii "www=web" ∷ ascii "abc=db" ∷ []) [] [] false ≡ none
unfolding serve_config service_specs serve_tcp add_tcp cut add_service validate_target member insert
    serve_allow bad_mode
refuses_duplicate = refl

refuses_reserved : serve_config toy_net (ascii "w=web" ∷ []) [] [] false ≡ none
unfolding serve_config service_specs serve_tcp add_tcp cut add_service validate_target member insert
    serve_allow bad_mode
refuses_reserved = refl

routes_toy : on_tcp toy_published 3 ≡ leads_to (ascii "web")
unfolding on_tcp lookup
routes_toy = refl

serves_no_other : on_tcp toy_published 4 ≡ unserved
unfolding on_tcp lookup
serves_no_other = refl

publishes_ports : published_tcp_ports toy_published.targets ≡ 1 ∷ 3 ∷ []
unfolding published_tcp_ports
publishes_ports = refl

on_tcp-IsService_example : IsService toy_net toy_entries toy_allow 3 (ascii "web")
on_tcp-IsService_example =
    on_tcp-IsService toy_net toy_entries toy_allow [] false toy_published [] 3 (ascii "web")
      configures_toy routes_toy

serves_toy :
    (serve
      (socks_around toy_net toy_published (λ t. true) true)
      (greeting ++ connect_request (ascii "db") 80)).1
    ≡ proxied (ascii "db") []
unfolding serve serve_methods serve_request serve_target read_address read_name read_host read_port
    read_full get_or any bytes_eq connect_request put_u16 read_be permits
serves_toy = refl

serve-IsNamed_example : IsNamed toy_net toy_entries toy_allow (ascii "db")
serve-IsNamed_example =
    serve-IsNamed toy_net toy_entries toy_allow [] false toy_published [] (λ t. true) true
      (greeting ++ connect_request (ascii "db") 80) (ascii "db") [] configures_toy serves_toy
