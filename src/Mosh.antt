-- ===== src/Mosh.antt =====
-- cmd/qcat/mosh.go: how a Mosh session is started over SSH: the command for the remote shell, and what
-- is read of its output. Running ssh and mosh-client is not modelled.
pub mod Quoting
pub mod Session
pub mod Bootstrap
mod Tests
use quantumcat.Base.{
  ℕ, ◌+◌, ◌*◌, ◌-◌, Bytes, ascii, bytes_eq, Bool, true, false, not, ◌&&◌, ◌||◌, ◌==◌, ltb, leb,
  if◌then◌else◌, Option, none, some, List, [], ◌∷◌, ◌++◌, map, length, keep_if, any,
}
use quantumcat.Services.{cut}
use quantumcat.Config.{is_alnum}

-- strings.HasPrefix, the prefix first.
unfoldable pub has_prefix : Bytes → Bytes → Bool
has_prefix [] s = true
has_prefix (a ∷ p) [] = false
has_prefix (a ∷ p) (b ∷ s) = (a == b) && has_prefix p s

-- strings.Split at line ends, which gives one line at least.
abbrev add_to_line : ℕ → List Bytes → List Bytes
add_to_line b [] = (b ∷ []) ∷ []
add_to_line b (l ∷ ls) = (b ∷ l) ∷ ls

unfoldable pub split_lines : Bytes → List Bytes
split_lines [] = [] ∷ []
split_lines (b ∷ rest) =
    let later = split_lines rest in if b == 10 then [] ∷ later else add_to_line b later

-- strings.TrimSuffix with a carriage return.
unfoldable pub trim_return : Bytes → Bytes
trim_return [] = []
trim_return (b ∷ []) = if b == 13 then [] else b ∷ []
trim_return (b ∷ c ∷ rest) = b ∷ trim_return (c ∷ rest)

unfoldable pub is_digit : ℕ → Bool
is_digit b = leb 48 b && leb b 57

-- The characters of the key: `[A-Za-z0-9/+]`.
unfoldable pub is_key_char : ℕ → Bool
is_key_char b = is_alnum b || ((b == 47) || (b == 43))

unfoldable pub are_all : (ℕ → Bool) → Bytes → Bool
are_all p [] = true
are_all p (b ∷ rest) = p b && are_all p rest

-- The number that decimal digits write, after those that wrote `n`; strconv.Atoi on the five digits at
-- most that the pattern allows.
unfoldable pub decimal : ℕ → Bytes → ℕ
decimal n [] = n
decimal n (d ∷ rest) = decimal (n * 10 + (d - 48)) rest

abbrev pub announcement : Bytes
announcement = ascii "MOSH CONNECT"

-- What the pattern's groups match: `^MOSH CONNECT ([0-9]{1,5}) ([A-Za-z0-9/+]{22})$`.
unfoldable pub valid_fields : Bytes → Bytes → Bool
valid_fields digits key =
    (leb 1 (length digits) && leb (length digits) 5)
    && (are_all is_digit digits && ((length key == 22) && are_all is_key_char key))

unfoldable pub connect_fields : Bytes → Option (Bytes × Bytes)
connect_fields fields = elim (cut 32 fields) [
  | none ↦ none
  | some (digits, key) ↦ if valid_fields digits key then some (digits, key) else none
]

unfoldable pub strip : Bytes → Bytes → Option Bytes
strip [] s = some s
strip (a ∷ p) [] = none
strip (a ∷ p) (b ∷ s) = let rest = strip p s in if a == b then rest else none

unfoldable pub match_connect : Bytes → Option (Bytes × Bytes)
match_connect line = elim (strip (ascii "MOSH CONNECT ") line) [
  | none ↦ none
  | some fields ↦ connect_fields fields
]

pub record MoshSession : Type 0 where
  pub port : ℕ
  pub key : Bytes

unfoldable pub bad_port : ℕ → ℕ → Bool
bad_port expected port =
    (ltb port 1 || ltb 65535 port) || (not (expected == 0) && not (port == expected))

-- A line that announces a session, when there was none before.
unfoldable pub announced : ℕ → Bytes → Option MoshSession
announced expected line = elim (match_connect line) [
  | none ↦ none
  | some (digits, key) ↦
      if bad_port expected (decimal 0 digits)
      then none
      else some (record { port = decimal 0 digits; key = key })
]

-- The loop over the lines; a second announcement is an error.
unfoldable pub read_session : ℕ → List Bytes → Option MoshSession → Option (Option MoshSession)
read_session expected [] session = some session
read_session expected (raw ∷ rest) session =
    let line = trim_return raw in
    let skipped = read_session expected rest session in
    let found : Option (Option MoshSession) = elim (announced expected line) [
      | none ↦ none
      | some s ↦ read_session expected rest (some s)
    ] in
    if not (has_prefix announcement line)
    then skipped
    else elim session [ none ↦ found | some s ↦ none ]

unfoldable pub parse_mosh_connect : Bytes → ℕ → Option MoshSession
parse_mosh_connect output expected = elim (read_session expected (split_lines output) none) [
  | none ↦ none
  | some session ↦ session
]

-- strings.ReplaceAll of each quote by a quote, the quote in double quotes, and a quote.
unfoldable pub escape : Bytes → Bytes
escape [] = []
escape (b ∷ rest) =
    let later = escape rest in if b == 39 then 39 ∷ 34 ∷ 39 ∷ 34 ∷ 39 ∷ later else b ∷ later

unfoldable pub shell_word : Bytes → Bytes
shell_word s = 39 ∷ (escape s ++ (39 ∷ []))

-- strings.Join of the quoted words with spaces.
unfoldable pub quote_words : List Bytes → Bytes
quote_words [] = []
quote_words (w ∷ []) = shell_word w
quote_words (w ∷ v ∷ rest) = shell_word w ++ (32 ∷ quote_words (v ∷ rest))

-- `itoa` is strconv.Itoa.
unfoldable pub server_words : (ℕ → Bytes) → ℕ → List Bytes → List Bytes
server_words itoa port command =
    (ascii "new" ∷ ascii "-i" ∷ ascii "127.0.0.1" ∷ [])
    ++ ((if port == 0 then [] else ascii "-p" ∷ itoa port ∷ [])
        ++ ((ascii "-c" ∷ ascii "256" ∷ ascii "-l" ∷ ascii "LANG=en_US.UTF-8" ∷ [])
            ++ (if length command == 0 then [] else ascii "--" ∷ command)))

-- The script that looks for the server where its path is not given.
unfoldable pub discovery : Bytes → Bytes
discovery args =
    ascii "if command -v mosh-server >/dev/null 2>&1; then exec mosh-server "
    ++ (args
        ++ (ascii
              "; elif [ -x /opt/homebrew/bin/mosh-server ]; then exec /opt/homebrew/bin/mosh-server "
            ++ (args
                ++ (ascii
                      "; elif [ -x /usr/local/bin/mosh-server ]; then exec /usr/local/bin/mosh-server "
                    ++ (args
                        ++ ascii
                            "; else printf '%s\\n' 'mosh-server not found; install Mosh or use --mosh-server PATH' >&2; exit 127; fi")))))

unfoldable pub mosh_server_command : (ℕ → Bytes) → Bytes → ℕ → List Bytes → Bytes
mosh_server_command itoa server port command =
    let args = quote_words (server_words itoa port command) in
    if not (length server == 0)
    then shell_word server ++ (32 ∷ args)
    else ascii "sh -c " ++ shell_word (discovery args)

-- The output that is kept so far, and a write to it.
unfoldable pub bounded_write : Bytes → Bytes → Bytes × Bool
bounded_write kept p =
    if ltb 65536 (length kept + length p) then (kept, false) else (kept ++ p, true)

unfoldable pub mosh_environment : List Bytes → Bytes → List Bytes
mosh_environment env key =
    keep_if (λ entry. not (has_prefix (ascii "MOSH_KEY=") entry)) env
    ++ ((ascii "MOSH_KEY=" ++ key) ∷ [])

-- The peer's name and the command after it, which may follow two dashes.
unfoldable pub mosh_args : List Bytes → Option (Bytes × List Bytes)
mosh_args [] = none
mosh_args (name ∷ []) = some (name, [])
mosh_args (name ∷ first ∷ rest) =
    if bytes_eq first (ascii "--") then some (name, rest) else some (name, first ∷ rest)

-- No SSH option, and no byte that ends a line or a string.
unfoldable pub valid_destination : Bytes → Bytes → Bool
valid_destination host server = not (
    has_prefix (ascii "-") host
    || (any (λ b. (b == 0) || ((b == 13) || (b == 10))) host || any (λ b. b == 0) server))
