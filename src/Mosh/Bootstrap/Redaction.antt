-- ===== src/Mosh/Bootstrap/Redaction.antt =====
-- The session's key is not in what an error shows.
use quantumcat.Base.{
  ℕ, ◌+◌, ◌-◌, ◌≤◌, ◌<◌, Bytes, ascii, Bool, Bool-cases, Option-cases, true, false, not, ◌&&◌, ◌==◌,
  ltb, leb, if◌then◌else◌, ◌≡◌, inl, inr, refl, sym, subst, ◌∙◌, List, [], ◌∷◌, ◌++◌, append_assoc,
  append-nil, map, length, take, drop, take-append-drop, keep_if, arith,
}
use quantumcat.Mosh.{is_key_char, are_all, parse_mosh_connect}
use quantumcat.Mosh.Bootstrap.{
  redacted, redact_byte, redact_end, redact_from, redact, join_lines, Strings, truncate,
  diagnostic_lines, mosh_diagnostic, bounded_writes, fails_with, bootstrap_mosh, is_control,
}

-- Fewer than 22 characters of a key in a row, when `k` of them stand before.
hidden : ℕ → Bytes → Bool
hidden k [] = ltb k 22
hidden k (b ∷ rest) = hidden (if is_key_char b then k + 1 else 0) rest && ltb k 22

hidden-low : (k : ℕ) (s : Bytes) → hidden k s ≡ true → k < 22
unfolding hidden
hidden-low k [] h = ground arith
hidden-low k (b ∷ rest) h = ground arith

hidden-token :
    (k : ℕ) (t c : Bytes)
    → hidden k (t ++ c) ≡ true
    → are_all is_key_char t ≡ true
    → k + length t < 22
unfolding hidden are_all
hidden-token k [] c h all = let low = hidden-low k c h in omega arith
hidden-token k (b ∷ t) c h all =
    let key : is_key_char b ≡ true = ground arith in
    let more : are_all is_key_char t ≡ true = ground arith in
    let rest : hidden (k + 1) (t ++ c) ≡ true = ground arith in
    let shorter = hidden-token (k + 1) t c rest more in omega arith

hidden-drop : (k : ℕ) (a s : Bytes) → hidden k (a ++ s) ≡ true → (j : ℕ) × (hidden j s ≡ true)
unfolding hidden
hidden-drop k [] s h = (k, h)
hidden-drop k (b ∷ a) s h = hidden-drop (if is_key_char b then k + 1 else 0) a s (ground arith)

hidden-less : (j k : ℕ) (s : Bytes) → j ≤ k → hidden k s ≡ true → hidden j s ≡ true
unfolding hidden
hidden-less j k [] le h = ground arith
hidden-less j k (b ∷ s) le h = elim (Bool-cases (is_key_char b)) [
  | inl t ↦
      let rest : hidden (j + 1) s ≡ true =
        hidden-less (j + 1) (k + 1) s (omega arith) (ground arith) in
      ground arith
  | inr f ↦ ground arith
]

hidden-take : (k : ℕ) (x y : Bytes) → hidden k (x ++ y) ≡ true → hidden k x ≡ true
unfolding hidden
hidden-take k [] y h = let low = hidden-low k y h in ground arith
hidden-take k (b ∷ x) y h =
    let rest : hidden (if is_key_char b then k + 1 else 0) x ≡ true =
      hidden-take (if is_key_char b then k + 1 else 0) x y (ground arith) in
    ground arith

hidden-break :
    (k : ℕ) (x : Bytes) (b : ℕ) (y : Bytes)
    → hidden k x ≡ true
    → is_key_char b ≡ false
    → hidden 0 y ≡ true
    → hidden k (x ++ (b ∷ y)) ≡ true
unfolding hidden
hidden-break k [] b y h mark after = ground arith
hidden-break k (c ∷ x) b y h mark after =
    let rest : hidden (if is_key_char c then k + 1 else 0) (x ++ (b ∷ y)) ≡ true =
      hidden-break (if is_key_char c then k + 1 else 0) x b y (ground arith) mark after in
    ground arith

hidden_short :
    (k : ℕ) (t : Bytes) → are_all is_key_char t ≡ true → k + length t < 22 → hidden k t ≡ true
unfolding hidden are_all
hidden_short k [] all short = ground arith
hidden_short k (b ∷ t) all short =
    let key : is_key_char b ≡ true = ground arith in
    let rest : hidden (k + 1) t ≡ true = hidden_short (k + 1) t (ground arith) (omega arith) in
    ground arith

are_all-snoc :
    (t : Bytes) (b : ℕ)
    → are_all is_key_char t ≡ true
    → is_key_char b ≡ true
    → are_all is_key_char (t ++ (b ∷ [])) ≡ true
unfolding are_all
are_all-snoc [] b all key = ground arith
are_all-snoc (c ∷ t) b all key = let rest = are_all-snoc t b (ground arith) key in ground arith

hidden-redacted : (y : Bytes) → hidden 0 y ≡ true → hidden 0 (redacted ++ y) ≡ true
unfolding hidden is_key_char quantumcat.Config.is_alnum
hidden-redacted y h = hidden-break 0 (ascii "[redacted") 93 y refl refl h

redact_byte-hidden :
    (equals : ℕ) (token : Bytes) (b : ℕ) (rest : Bytes)
    → are_all is_key_char token ≡ true
    → ((n : ℕ) (t : Bytes) → are_all is_key_char t ≡ true → hidden 0 (redact_from n t rest) ≡ true)
    → hidden 0 (redact_from equals token (b ∷ rest)) ≡ true
unfolding redact_from redact_byte hidden are_all
redact_byte-hidden equals token b rest all later = elim (Bool-cases (is_key_char b)) [
  | inl key ↦ rw (key) (later 0 (token ++ (b ∷ [])) (are_all-snoc token b all key))
  | inr mark ↦ elim (Bool-cases (leb 22 (length token))) [
    | inl long ↦ elim (Bool-cases (b == 61)) [
      | inl equal ↦
          rw (mark, long, equal) (hidden-redacted (redact_from 1 [] rest) (later 1 [] refl))
      | inr other ↦
          rw (mark, long, other)
            (hidden-redacted (b ∷ redact_from 0 [] rest)
              (hidden-break 0 [] b (redact_from 0 [] rest) refl mark (later 0 [] refl)))
    ]
    | inr short ↦ elim (Bool-cases ((b == 61) && ltb 0 equals)) [
      | inl equal ↦ rw (mark, short, equal) (later (equals - 1) [] refl)
      | inr other ↦
          rw (mark, short, other, append_assoc token (b ∷ []) (redact_from 0 [] rest))
            (hidden-break 0 token b (redact_from 0 [] rest)
              (hidden_short 0 token all (ground arith)) mark (later 0 [] refl))
    ]
  ]
]

refl_hidden : hidden 0 [] ≡ true
unfolding hidden
refl_hidden = refl

refl_all : are_all is_key_char [] ≡ true
unfolding are_all
refl_all = refl

truncated_hidden : hidden 0 (ascii "[truncated]") ≡ true
unfolding hidden is_key_char quantumcat.Config.is_alnum
truncated_hidden = refl

failure_shows :
    (str : Strings) (exits_well : Bool) (stdout stderr : List Bytes) (port : ℕ) (shown : Bytes)
    → bootstrap_mosh str exits_well stdout stderr port ≡ fails_with shown
    → mosh_diagnostic str (bounded_writes [] stderr).0 ≡ shown
unfolding bootstrap_mosh
failure_shows str exits_well stdout stderr port shown h =
    elim (Bool-cases
      (not (exits_well && ((bounded_writes [] stdout).1 && (bounded_writes [] stderr).1)))) [
        | inl t ↦ ground arith
        | inr f ↦ elim (Option-cases (parse_mosh_connect (bounded_writes [] stdout).0 port)) [
          | inl n ↦ ground arith
          | inr (s, found) ↦ absurd (ground arith)
        ]
      ]

redact_from-hidden :
    (s : Bytes) (equals : ℕ) (token : Bytes)
    → are_all is_key_char token ≡ true
    → hidden 0 (redact_from equals token s) ≡ true
unfolding redact_from redact_end
redact_from-hidden [] equals token all = elim (Bool-cases (leb 22 (length token))) [
  | inl t ↦
      rw (t) (subst (λ l. hidden 0 l ≡ true) (append-nil redacted) (hidden-redacted [] refl_hidden))
  | inr f ↦ rw (f) (hidden_short 0 token all (ground arith))
]
redact_from-hidden (b ∷ s) equals token all =
    redact_byte-hidden equals token b s all (λ n t. redact_from-hidden s n t)

join_lines-hidden :
    (g : Bytes → Bytes) (ls : List Bytes)
    → ((l : Bytes) → hidden 0 (g l) ≡ true)
    → hidden 0 (join_lines (map g ls)) ≡ true
unfolding join_lines hidden is_key_char quantumcat.Config.is_alnum
join_lines-hidden g [] h = refl
join_lines-hidden g (l ∷ []) h = h l
join_lines-hidden g (l ∷ k ∷ ls) h =
    hidden-break 0 (g l) 10 (join_lines (map g (k ∷ ls))) (h l) refl
      (join_lines-hidden g (k ∷ ls) h)

truncate-hidden : (s : Bytes) → hidden 0 s ≡ true → hidden 0 (truncate s) ≡ true
unfolding truncate is_key_char quantumcat.Config.is_alnum
truncate-hidden s h = elim (Bool-cases (ltb 4096 (length s))) [
  | inl t ↦
      let kept : hidden 0 (take 4096 s) ≡ true =
        hidden-take 0 (take 4096 s) (drop 4096 s)
          (subst (λ l. hidden 0 l ≡ true) (sym (take-append-drop 4096 s)) h) in
      rw (t) (hidden-break 0 (take 4096 s) 10 (ascii "[truncated]") kept refl truncated_hidden)
  | inr f ↦ rw (f) h
]

-- strings.TrimSpace gives a part of the text.
abbrev pub IsTrimming : Strings → Type 0
IsTrimming str = (s : Bytes) → (a : Bytes) × ((b : Bytes) × (s ≡ a ++ (str.trim s ++ b)))

trim-hidden :
    (str : Strings) (s : Bytes) → IsTrimming str → hidden 0 s ≡ true → hidden 0 (str.trim s) ≡ true
trim-hidden str s law h =
    let (a, (b, whole)) = law s in
    let (j, rest) = hidden-drop 0 a (str.trim s ++ b) (subst (λ l. hidden 0 l ≡ true) whole h) in
    hidden-less 0 j (str.trim s) (omega arith) (hidden-take j (str.trim s) b rest)

mosh_diagnostic-hidden :
    (str : Strings) (stderr : Bytes) → IsTrimming str → hidden 0 (mosh_diagnostic str stderr) ≡ true
unfolding mosh_diagnostic diagnostic_lines redact
mosh_diagnostic-hidden str stderr law = truncate-hidden _ (
    trim-hidden str _ law (
      join_lines-hidden (λ l. redact (keep_if (λ b. not (is_control b)) (str.repair l))) _
        (λ l. redact_from-hidden (keep_if (λ b. not (is_control b)) (str.repair l)) 0 [] refl_all)))

-- What the error of a failed start shows of ssh's output has no 22 characters of a session key in a
-- row, whatever ssh wrote, when trimming gives a part of the text.
pub bootstrap_mosh_hides_key :
    (str : Strings) (exits_well : Bool) (stdout stderr : List Bytes) (port : ℕ)
    (shown a token c : Bytes)
    → IsTrimming str
    → bootstrap_mosh str exits_well stdout stderr port ≡ fails_with shown
    → shown ≡ a ++ (token ++ c)
    → are_all is_key_char token ≡ true
    → length token < 22
unfolding bootstrap_mosh
bootstrap_mosh_hides_key str exits_well stdout stderr port shown a token c law h split all =
    let log = mosh_diagnostic-hidden str (bounded_writes [] stderr).0 law in
    let same : mosh_diagnostic str (bounded_writes [] stderr).0 ≡ shown =
      failure_shows str exits_well stdout stderr port shown h in
    let clear : hidden 0 (a ++ (token ++ c)) ≡ true =
      subst (λ l. hidden 0 l ≡ true) (same ∙ split) log in
    let (j, rest) = hidden-drop 0 a (token ++ c) clear in
    let bound = hidden-token j token c rest all in omega arith
