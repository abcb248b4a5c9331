-- ===== src/Socks.antt =====
-- internal/proxy/socks.go: the negotiation of a SOCKS5 connection, at the client and at the server. A
-- connection is the bytes that the other end sends, up to its end or its deadline.
pub mod Negotiation
mod Tests
use quantumcat.Base.{
  ℕ, ◌+◌, ◌%◌, Bytes, read_be, put_u16, Bool, true, false, not, ◌||◌, ◌&&◌, ◌==◌, ltb, leb,
  if◌then◌else◌, any, Option, none, some, List, [], ◌∷◌, ◌++◌, length, take, drop,
}
use quantumcat.Base.Indexed.{get_or}

-- Go's net and strconv: the text of an address, JoinHostPort with the decimal port, SplitHostPort, and
-- ParseUint of sixteen bits.
pub record Net : Type 0 where
  pub ip_string : Bytes → Bytes
  pub join_host_port : Bytes → ℕ → Bytes
  pub split_host_port : Bytes → Option (Bytes × Bytes)
  pub parse_port : Bytes → Option ℕ

-- `io.ReadFull` of so many bytes, and what is left.
unfoldable pub read_full : ℕ → Bytes → Option (Bytes × Bytes)
read_full n input = if leb n (length input) then some (take n input, drop n input) else none

unfoldable pub read_port : Net → Bytes → Bytes → Option (Bytes × Bytes)
read_port net host input = elim (read_full 2 input) [
  | none ↦ none
  | some (port, rest) ↦ some (net.join_host_port host (read_be port), rest)
]

unfoldable pub read_ip : Net → ℕ → Bytes → Option (Bytes × Bytes)
read_ip net size input = elim (read_full size input) [
  | none ↦ none
  | some (b, rest) ↦ read_port net (net.ip_string b) rest
]

unfoldable pub read_host : Net → ℕ → Bytes → Option (Bytes × Bytes)
read_host net size input =
    if size == 0
    then none
    else elim (read_full size input) [ none ↦ none | some (b, rest) ↦ read_port net b rest ]

unfoldable pub read_name : Net → Bytes → Option (Bytes × Bytes)
read_name net input = elim (read_full 1 input) [
  | none ↦ none
  | some (n, rest) ↦ read_host net (get_or n 0 0) rest
]

unfoldable pub read_address : Net → ℕ → Bytes → Option (Bytes × Bytes)
read_address net kind input =
    if kind == 1
    then read_ip net 4 input
    else if kind == 4
    then read_ip net 16 input
    else if kind == 3
    then read_name net input
    else none

-- The server ends by closing the connection, or by copying between it and the target.
pub data Outcome : Type 0 where
  closed : Outcome
  proxied : Bytes → Bytes → Outcome

abbrev pub reply : ℕ → Bytes
reply code = 5 ∷ (code ∷ (0 ∷ (1 ∷ (0 ∷ (0 ∷ (0 ∷ (0 ∷ (0 ∷ (0 ∷ [])))))))))

-- What surrounds the server: the permitted targets, the targets that accept a connection, and whether
-- the connection takes the answer to the methods.
pub record Surroundings : Type 0 where
  pub net : Net
  pub allowed : Bytes → Bool
  pub connects : Bytes → Bool
  pub writes : Bool

unfoldable pub serve_target : Surroundings → ℕ → Bytes → List Bytes × Outcome
serve_target s kind input = elim (read_address s.net kind input) [
  | none ↦ (reply 8 ∷ [], closed)
  | some (target, rest) ↦
      if not (s.allowed target)
      then (reply 2 ∷ [], closed)
      else if not (s.connects target)
      then (reply 5 ∷ [], closed)
      else (reply 0 ∷ [], proxied target rest)
]

unfoldable pub serve_request : Surroundings → Bytes → List Bytes × Outcome
serve_request s input = elim (read_full 4 input) [
  | none ↦ ([], closed)
  | some (request, rest) ↦
      if not (get_or request 0 0 == 5)
        || (not (get_or request 1 0 == 1) || not (get_or request 2 0 == 0))
      then (reply 7 ∷ [], closed)
      else serve_target s (get_or request 3 0) rest
]

unfoldable pub serve_methods : Surroundings → ℕ → Bytes → List Bytes × Outcome
serve_methods s count input = elim (read_full count input) [
  | none ↦ ([], closed)
  | some (methods, rest) ↦
      if not (any (λ m. m == 0) methods)
      then ((5 ∷ (255 ∷ [])) ∷ [], closed)
      else if not s.writes
      then ((5 ∷ (0 ∷ [])) ∷ [], closed)
      else let later = serve_request s rest in ((5 ∷ (0 ∷ [])) ∷ later.0, later.1)
]

unfoldable pub serve : Surroundings → Bytes → List Bytes × Outcome
serve s input = elim (read_full 2 input) [
  | none ↦ ([], closed)
  | some (h, rest) ↦
      if not (get_or h 0 0 == 5) || (get_or h 1 0 == 0)
      then ([], closed)
      else serve_methods s (get_or h 1 0) rest
]

-- The host and the port of a target that the client accepts.
unfoldable pub dial_target : Net → Bytes → Option (Bytes × ℕ)
dial_target net target = elim (net.split_host_port target) [
  | none ↦ none
  | some (host, port) ↦ elim (net.parse_port port) [
    | none ↦ none
    | some n ↦
        if (n == 0) || ((length host == 0) || ltb 255 (length host)) then none else some (host, n)
  ]
]

abbrev pub greeting : Bytes
greeting = 5 ∷ (1 ∷ (0 ∷ []))

unfoldable pub connect_request : Bytes → ℕ → Bytes
connect_request host n = 5 ∷ (1 ∷ (0 ∷ (3 ∷ ((length host % 256) ∷ (host ++ put_u16 (n % 65536))))))

-- The answer to the request; the result is what the connection still holds.
unfoldable pub dial_reply : Net → Bytes → Option Bytes
dial_reply net input = elim (read_full 4 input) [
  | none ↦ none
  | some (header, rest) ↦
      if not (get_or header 0 0 == 5)
        || (not (get_or header 1 0 == 0) || not (get_or header 2 0 == 0))
      then none
      else elim (read_address net (get_or header 3 0) rest) [
        | none ↦ none
        | some (address, left) ↦ some left
      ]
]

-- The connection takes the first, and the second, write of the client.
unfoldable pub dial_request : Net → Bytes → ℕ → Bool → Bytes → List Bytes × Option Bytes
dial_request net host n second input = elim (read_full 2 input) [
  | none ↦ ([], none)
  | some (answer, rest) ↦
      if not (get_or answer 0 0 == 5) || not (get_or answer 1 0 == 0)
      then ([], none)
      else if not second
      then (connect_request host n ∷ [], none)
      else (connect_request host n ∷ [], dial_reply net rest)
]

-- `Dial`; a failure closes the connection.
unfoldable pub dial : Net → Bytes → Bool → Bool → Bytes → List Bytes × Option Bytes
dial net target first second input = elim (dial_target net target) [
  | none ↦ ([], none)
  | some (host, n) ↦
      if not first
      then (greeting ∷ [], none)
      else let later = dial_request net host n second input in (greeting ∷ later.0, later.1)
]

unfoldable pub validate_target : Net → Bytes → Bool
validate_target net target = elim (net.split_host_port target) [
  | none ↦ false
  | some (host, port) ↦ elim (net.parse_port port) [
    | none ↦ false
    | some n ↦ not ((n == 0) || (length host == 0))
  ]
]
