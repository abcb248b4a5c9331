-- ===== src/Mosh/Bootstrap.antt =====
-- cmd/qcat/mosh.go: what is kept of ssh's output, and the diagnostic that an error shows of it.
pub mod Redaction
use quantumcat.Base.{
  ℕ, ◌+◌, ◌-◌, Bytes, ascii, Bool, true, false, not, ◌&&◌, ◌||◌, ◌==◌, ltb, leb, if◌then◌else◌,
  Option, none, some, List, [], ◌∷◌, ◌++◌, map, length, take, keep_if,
}
use quantumcat.Mosh.{
  has_prefix, split_lines, is_key_char, MoshSession, parse_mosh_connect, bounded_write,
}

-- strings.Contains, the text that is looked for first.
unfoldable pub contains : Bytes → Bytes → Bool
contains p [] = has_prefix p []
contains p (b ∷ rest) = has_prefix p (b ∷ rest) || contains p rest

unfoldable pub is_control : ℕ → Bool
is_control b = (ltb b 32 && not (b == 9)) || (b == 127)

abbrev pub redacted : Bytes
redacted = ascii "[redacted]"

-- One byte of ReplaceAllString with the pattern `[A-Za-z0-9/+]{22,}={0,2}`. `token` has the characters of
-- the pattern's class that have just been read, and `equals` the number of equal signs that still belong
-- to a token that was replaced. It gives what is written, and both numbers after it.
unfoldable pub redact_byte : ℕ → Bytes → ℕ → Bytes × (ℕ × Bytes)
redact_byte equals token b =
    if is_key_char b
    then ([], (0, token ++ (b ∷ [])))
    else if leb 22 (length token)
    then (if b == 61 then (redacted, (1, [])) else (redacted ++ (b ∷ []), (0, [])))
    else if (b == 61) && ltb 0 equals
    then ([], (equals - 1, []))
    else (token ++ (b ∷ []), (0, []))

unfoldable pub redact_end : Bytes → Bytes
redact_end token = if leb 22 (length token) then redacted else token

unfoldable pub redact_from : ℕ → Bytes → Bytes → Bytes
redact_from equals token [] = redact_end token
redact_from equals token (b ∷ rest) =
    let (out, after) = redact_byte equals token b in out ++ redact_from after.0 after.1 rest

unfoldable pub redact : Bytes → Bytes
redact line = redact_from 0 [] line

-- strings.Join with line ends.
unfoldable pub join_lines : List Bytes → Bytes
join_lines [] = []
join_lines (l ∷ []) = l
join_lines (l ∷ k ∷ rest) = l ++ (10 ∷ join_lines (k ∷ rest))

-- `repair` is what strings.Map makes of bytes that are not UTF-8, and `trim` is strings.TrimSpace. In
-- UTF-8 a control character is one byte, which stands nowhere else.
pub record Strings : Type 0 where
  pub repair : Bytes → Bytes
  pub trim : Bytes → Bytes

unfoldable pub truncate : Bytes → Bytes
truncate s = if ltb 4096 (length s) then take 4096 s ++ (10 ∷ ascii "[truncated]") else s

unfoldable pub diagnostic_lines : Strings → List Bytes → List Bytes
diagnostic_lines str ls =
    map (λ l. redact (keep_if (λ b. not (is_control b)) (str.repair l)))
      (keep_if (λ l. not (contains (ascii "MOSH CONNECT") l)) ls)

unfoldable pub mosh_diagnostic : Strings → Bytes → Bytes
mosh_diagnostic str stderr =
    truncate (str.trim (join_lines (diagnostic_lines str (split_lines stderr))))

-- The writes of one of ssh's outputs; the copying ends with the first that is refused.
unfoldable pub bounded_writes : Bytes → List Bytes → Bytes × Bool
bounded_writes kept [] = (kept, true)
bounded_writes kept (p ∷ rest) =
    let (more, fits) = bounded_write kept p in
    let later = bounded_writes more rest in if fits then later else (more, false)

-- The session, or what the error shows of ssh's output.
pub data Bootstrap : Type 0 where
  announces : MoshSession → Bootstrap
  fails_with : Bytes → Bootstrap

unfoldable pub bootstrap_mosh : Strings → Bool → List Bytes → List Bytes → ℕ → Bootstrap
bootstrap_mosh str exits_well stdout stderr port =
    let out = bounded_writes [] stdout in
    let log = bounded_writes [] stderr in
    if not (exits_well && (out.1 && log.1))
    then fails_with (mosh_diagnostic str log.0)
    else elim (parse_mosh_connect out.0 port) [
      | none ↦ fails_with (mosh_diagnostic str log.0)
      | some s ↦ announces s
    ]
