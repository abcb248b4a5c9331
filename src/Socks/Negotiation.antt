-- ===== src/Socks/Negotiation.antt =====
-- internal/proxy/socks.go: the two ends of a negotiation, and what a server connects to.
use quantumcat.Base.{
  ℕ, ◌%◌, ◌≤◌, ◌<◌, ◌≡◌, refl, Bytes, put_u16, read_be-put_u16, true, false, ◌==◌, any, some, [],
  ◌∷◌, ◌++◌, length, length-append, take-append_left, drop-append_left, append_assoc, arith,
  Option-cases, inl, inr,
}
use quantumcat.Base.Indexed.{get_or}
use quantumcat.Socks.{
  Net, read_full, read_port, read_ip, read_host, read_name, read_address, proxied, reply,
  Surroundings, serve_target, serve_request, serve_methods, serve, dial_target, greeting,
  connect_request, dial_reply, dial_request, dial, validate_target,
}

read_full_first : (n : ℕ) (a rest : Bytes) → length a ≡ n → read_full n (a ++ rest) ≡ some (a, rest)
unfolding read_full
read_full_first n a rest h =
    rw (take-append_left n a rest h, drop-append_left n a rest h)
      (ground (arith, length-append a rest))

read_port_back :
    (net : Net) (host rest : Bytes) (n : ℕ)
    → n < 65536
    → read_port net host (put_u16 n ++ rest) ≡ some (net.join_host_port host n, rest)
unfolding read_port put_u16
read_port_back net host rest n small =
    rw (read_port, read_full_first 2 (put_u16 n) rest refl, read_be-put_u16 n small)

read_host_back :
    (net : Net) (host rest : Bytes) (n : ℕ)
    → 1 ≤ length host
    → n < 65536
    → read_host net (length host) (host ++ (put_u16 n ++ rest))
      ≡ some (net.join_host_port host n, rest)
unfolding read_host
read_host_back net host rest n some_host small =
    let there : (length host == 0) ≡ false = ground arith in
    rw (read_host, there, read_full_first (length host) host (put_u16 n ++ rest) refl)
      (read_port_back net host rest n small)

-- A name and a port read back.
read_name_back :
    (net : Net) (host rest : Bytes) (n : ℕ)
    → 1 ≤ length host
    → n < 65536
    → read_name net (length host ∷ (host ++ (put_u16 n ++ rest)))
      ≡ some (net.join_host_port host n, rest)
unfolding read_name get_or
read_name_back net host rest n some_host small =
    rw (read_name, read_full_first 1 (length host ∷ []) (host ++ (put_u16 n ++ rest)) refl)
      (read_host_back net host rest n some_host small)

module _ (s : Surroundings) (host rest : Bytes) (n : ℕ) (some_host : 1 ≤ length host)
    (short : length host ≤ 255) (small : n < 65536) where
  request-front :
      connect_request host n ++ rest
      ≡ (5 ∷ (1 ∷ (0 ∷ (3 ∷ [])))) ++ (length host ∷ (host ++ (put_u16 n ++ rest)))
  unfolding connect_request
  request-front =
      let size : length host % 256 ≡ length host = omega arith in
      let port : n % 65536 ≡ n = omega arith in rw (size, port, append_assoc)

  serve_request_ok :
      s.allowed (s.net.join_host_port host n) ≡ true
      → s.connects (s.net.join_host_port host n) ≡ true
      → serve_request s (connect_request host n ++ rest)
        ≡ (reply 0 ∷ [], proxied (s.net.join_host_port host n) rest)
  unfolding serve_request serve_target read_address get_or
  serve_request_ok allowed connects = rw (
    request-front,
    serve_request,
    serve_target,
    read_full_first 4 (5 ∷ (1 ∷ (0 ∷ (3 ∷ [])))) (length host ∷ (host ++ (put_u16 n ++ rest))) refl,
    read_name_back s.net host rest n some_host small,
    allowed,
    connects,
  )

  serve_ok :
      s.allowed (s.net.join_host_port host n) ≡ true
      → s.connects (s.net.join_host_port host n) ≡ true
      → s.writes ≡ true
      → serve s (greeting ++ (connect_request host n ++ rest))
        ≡ ((5 ∷ (0 ∷ [])) ∷ (reply 0 ∷ []), proxied (s.net.join_host_port host n) rest)
  unfolding serve serve_methods get_or any
  serve_ok allowed connects writes = rw (
    serve,
    serve_methods,
    read_full_first 2 (5 ∷ (1 ∷ [])) (0 ∷ (connect_request host n ++ rest)) refl,
    read_full_first 1 (0 ∷ []) (connect_request host n ++ rest) refl,
    serve_request_ok allowed connects,
    writes,
  )

-- The client takes the answers of a server that connected.
dial_ok :
    (net : Net) (target host rest : Bytes) (n : ℕ)
    → dial_target net target ≡ some (host, n)
    → dial net target true true ((5 ∷ (0 ∷ [])) ++ (reply 0 ++ rest))
      ≡ (greeting ∷ (connect_request host n ∷ []), some rest)
unfolding dial dial_request dial_reply read_address read_ip read_port get_or
dial_ok net target host rest n h = rw (
  dial,
  h,
  dial_request,
  dial_reply,
  read_full_first 2 (5 ∷ (0 ∷ [])) (reply 0 ++ rest) refl,
  read_full_first 4 (5 ∷ (0 ∷ (0 ∷ (1 ∷ [])))) ((0 ∷ (0 ∷ (0 ∷ (0 ∷ (0 ∷ (0 ∷ [])))))) ++ rest)
      refl,
  read_full_first 4 (0 ∷ (0 ∷ (0 ∷ (0 ∷ [])))) ((0 ∷ (0 ∷ [])) ++ rest) refl,
  read_full_first 2 (0 ∷ (0 ∷ [])) rest refl,
)

dial_target_fits :
    (net : Net) (target host : Bytes) (n : ℕ)
    → dial_target net target ≡ some (host, n)
    → (1 ≤ length host) × (length host ≤ 255)
unfolding dial_target
dial_target_fits net target host n h = (ground arith, ground arith)

-- For a target that the client accepts, with a port of sixteen bits, that the server permits and that
-- takes a connection: the server, fed what the client writes, connects to the target and leaves what
-- follows on the connection, and the client, fed what the server writes, makes these writes, succeeds
-- and leaves what follows.
pub negotiation :
    (s : Surroundings) (target host rest left : Bytes) (n : ℕ)
    → dial_target s.net target ≡ some (host, n)
    → n < 65536
    → s.allowed (s.net.join_host_port host n) ≡ true
    → s.connects (s.net.join_host_port host n) ≡ true
    → s.writes ≡ true
    → (serve s (greeting ++ (connect_request host n ++ rest))
        ≡ ((5 ∷ (0 ∷ [])) ∷ (reply 0 ∷ []), proxied (s.net.join_host_port host n) rest))
      × (dial s.net target true true ((5 ∷ (0 ∷ [])) ++ (reply 0 ++ left))
          ≡ (greeting ∷ (connect_request host n ∷ []), some left))
negotiation s target host rest left n h small allowed connects writes =
    let fits = dial_target_fits s.net target host n h in
    (
      serve_ok s host rest n fits.0 fits.1 small allowed connects writes,
      dial_ok s.net target host left n h,
    )

-- A target that the client accepts passes the check of targets.
pub dial_target-validate_target :
    (net : Net) (target host : Bytes) (n : ℕ)
    → dial_target net target ≡ some (host, n)
    → validate_target net target ≡ true
unfolding dial_target validate_target
dial_target-validate_target net target host n h = ground arith

abbrev Permitted : Surroundings → Bytes → Type 0
Permitted s target = (s.allowed target ≡ true) × (s.connects target ≡ true)

serve_target-Permitted :
    (s : Surroundings) (kind : ℕ) (input target rest : Bytes)
    → (serve_target s kind input).1 ≡ proxied target rest
    → Permitted s target
unfolding serve_target
serve_target-Permitted s kind input target rest h = (ground arith, ground arith)

serve_request-Permitted :
    (s : Surroundings) (input target rest : Bytes)
    → (serve_request s input).1 ≡ proxied target rest
    → Permitted s target
unfolding serve_request
serve_request-Permitted s input target rest h = elim (Option-cases (read_full 4 input)) [
  | inl missing ↦ absurd (ground arith)
  | inr (r, found) ↦
      let later = serve_target-Permitted s (get_or r.0 3 0) r.1 target rest in
      let same : (serve_target s (get_or r.0 3 0) r.1).1 ≡ proxied target rest = ground arith in
      later same
]

serve_methods-Permitted :
    (s : Surroundings) (count : ℕ) (input target rest : Bytes)
    → (serve_methods s count input).1 ≡ proxied target rest
    → Permitted s target
unfolding serve_methods
serve_methods-Permitted s count input target rest h = elim (Option-cases (read_full count input)) [
  | inl missing ↦ absurd (ground arith)
  | inr (r, found) ↦
      let same : (serve_request s r.1).1 ≡ proxied target rest = ground arith in
      serve_request-Permitted s r.1 target rest same
]

-- Whatever arrives, the server copies to a target only if the target is permitted and took the
-- connection.
pub serve_permitted :
    (s : Surroundings) (input target rest : Bytes)
    → (serve s input).1 ≡ proxied target rest
    → (s.allowed target ≡ true) × (s.connects target ≡ true)
unfolding serve
serve_permitted s input target rest h = elim (Option-cases (read_full 2 input)) [
  | inl missing ↦ absurd (ground arith)
  | inr (r, found) ↦
      let same : (serve_methods s (get_or r.0 1 0) r.1).1 ≡ proxied target rest = ground arith in
      serve_methods-Permitted s (get_or r.0 1 0) r.1 target rest same
]
