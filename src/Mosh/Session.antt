-- ===== src/Mosh/Session.antt =====
-- Which session the output of the remote command announces.
use quantumcat.Base.{
  ℕ, ◌≤◌, Bytes, ascii, Bool-cases, Option-cases, true, false, ◌==◌, ◌≡◌, ◌⊎◌, inl, inr, refl, sym,
  ap, subst, ◌∙◌, none, some, List, [], ◌∷◌, ◌++◌, map, length, keep_if, arith,
}
use quantumcat.Services.{cut}
use quantumcat.Mosh.{
  has_prefix, split_lines, trim_return, is_digit, is_key_char, are_all, decimal, announcement,
  valid_fields, connect_fields, strip, match_connect, MoshSession, bad_port, announced,
  read_session, parse_mosh_connect,
}

-- A line that gives the session: five digits at most, and 22 characters of a key.
pub record IsAnnouncement (expected : ℕ) (line : Bytes) (s : MoshSession) : Type 0 where
  pub digits : Bytes
  pub reads : line ≡ ascii "MOSH CONNECT " ++ (digits ++ (32 ∷ s.key))
  pub number : are_all is_digit digits ≡ true
  pub short : length digits ≤ 5
  pub value : decimal 0 digits ≡ s.port
  pub secret : are_all is_key_char s.key ≡ true
  pub whole : length s.key ≡ 22
  pub positive : 1 ≤ s.port
  pub bounded : s.port ≤ 65535
  pub asked : (expected ≡ 0) ⊎ (s.port ≡ expected)

strip-eq : (p s r : Bytes) → strip p s ≡ some r → s ≡ p ++ r
unfolding strip
strip-eq [] s r h = ground arith
strip-eq (a ∷ p) [] r h = absurd cc
strip-eq (a ∷ p) (b ∷ s) r h = elim (Bool-cases (a == b)) [
  | inl t ↦
      let here : a ≡ b = ground arith in
      let rest : strip p s ≡ some r = ground arith in
      let later : s ≡ p ++ r = strip-eq p s r rest in rw (here) (ap (λ l. b ∷ l) later)
  | inr f ↦ absurd (ground arith)
]

cut-eq : (sep : ℕ) (s a b : Bytes) → cut sep s ≡ some (a, b) → s ≡ a ++ (sep ∷ b)
unfolding cut
cut-eq sep [] a b h = absurd cc
cut-eq sep (c ∷ s) a b h = elim (Bool-cases (c == sep)) [
  | inl t ↦
      let here : c ≡ sep = ground arith in
      let front : a ≡ [] = ground arith in
      let back : s ≡ b = ground arith in rw (here, front, back) refl
  | inr f ↦ elim (Option-cases (cut sep s)) [
    | inl bad ↦ absurd (ground arith)
    | inr ((x, y), found) ↦
        let later : s ≡ x ++ (sep ∷ y) = cut-eq sep s x y found in
        let front : c ∷ x ≡ a = ground arith in
        let back : y ≡ b = ground arith in
        ap (λ l. c ∷ l) later ∙ (ap (λ l. l ++ (sep ∷ y)) front ∙ ap (λ l. a ++ (sep ∷ l)) back)
  ]
]

connect_fields-eq :
    (fields digits key : Bytes)
    → connect_fields fields ≡ some (digits, key)
    → (fields ≡ digits ++ (32 ∷ key)) × (valid_fields digits key ≡ true)
unfolding connect_fields
connect_fields-eq fields digits key h = elim (Option-cases (cut 32 fields)) [
  | inl bad ↦ absurd (ground arith)
  | inr ((x, y), found) ↦ elim (Bool-cases (valid_fields x y)) [
    | inl good ↦
        let front : x ≡ digits = ground arith in
        let back : y ≡ key = ground arith in rw (← front, ← back) (cut-eq 32 fields x y found, good)
    | inr bad ↦ absurd (ground arith)
  ]
]

match_connect-eq :
    (line digits key : Bytes)
    → match_connect line ≡ some (digits, key)
    → (line ≡ ascii "MOSH CONNECT " ++ (digits ++ (32 ∷ key))) × (valid_fields digits key ≡ true)
unfolding match_connect
match_connect-eq line digits key h = elim (Option-cases (strip (ascii "MOSH CONNECT ") line)) [
  | inl bad ↦
      absurd (let none_found : match_connect line ≡ none = rw (match_connect, bad) refl in cc)
  | inr (fields, found) ↦
      let same : match_connect line ≡ connect_fields fields = rw (match_connect, found) refl in
      let (split, valid) = connect_fields-eq fields digits key (sym same ∙ h) in
      (
        strip-eq (ascii "MOSH CONNECT ") line fields found
            ∙ ap (λ l. ascii "MOSH CONNECT " ++ l) split,
        valid,
      )
]

good_port :
    (expected port : ℕ)
    → bad_port expected port ≡ false
    → (1 ≤ port) × ((port ≤ 65535) × ((expected ≡ 0) ⊎ (port ≡ expected)))
unfolding bad_port
good_port expected port h = elim (Bool-cases (expected == 0)) [
  | inl t ↦ (ground arith, (ground arith, inl (ground arith)))
  | inr f ↦ (ground arith, (ground arith, inr (ground arith)))
]

announced-IsAnnouncement :
    (expected : ℕ) (line : Bytes) (s : MoshSession)
    → announced expected line ≡ some s
    → IsAnnouncement expected line s
unfolding announced valid_fields
announced-IsAnnouncement expected line s h = elim (Option-cases (match_connect line)) [
  | inl bad ↦
      absurd (let none_found : announced expected line ≡ none = rw (announced, bad) refl in cc)
  | inr ((digits, key), found) ↦ elim (Bool-cases (bad_port expected (decimal 0 digits))) [
    | inl bad ↦
        absurd
          (let none_found : announced expected line ≡ none = rw (announced, found, bad) refl in cc)
    | inr fits ↦
        let made : announced expected line ≡ some (record { port = decimal 0 digits; key = key }) =
          rw (announced, found, fits) refl in
        let same : record { port = decimal 0 digits; key = key } ≡ s = cc in
        let (split, valid) = match_connect-eq line digits key found in
        let (low, (high, asked)) = good_port expected (decimal 0 digits) fits in
        subst (IsAnnouncement expected line) same (record {
          digits = digits;
          reads = split;
          number = ground arith;
          short = ground arith;
          value = refl;
          secret = ground arith;
          whole = ground arith;
          positive = low;
          bounded = high;
          asked = asked;
        })
  ]
]

-- The lines that begin like an announcement.
pub candidates : List Bytes → List Bytes
candidates ls = keep_if (has_prefix announcement) (map trim_return ls)

read_session-some :
    (expected : ℕ) (ls : List Bytes) (s t : MoshSession)
    → read_session expected ls (some s) ≡ some (some t)
    → (candidates ls ≡ []) × (s ≡ t)
unfolding read_session candidates keep_if
read_session-some expected [] s t h = (refl, cc)
read_session-some expected (raw ∷ ls) s t h =
    elim (Bool-cases (has_prefix announcement (trim_return raw))) [
      | inl p ↦ absurd (
          let bad : read_session expected (raw ∷ ls) (some s) ≡ none = rw (read_session, p) refl in
          cc)
      | inr p ↦
          let skipped : read_session expected (raw ∷ ls) (some s)
              ≡ read_session expected ls (some s) =
            rw (read_session, p) refl in
          let (empty, same) = read_session-some expected ls s t (sym skipped ∙ h) in
          (rw (p) empty, same)
    ]

read_session-none :
    (expected : ℕ) (ls : List Bytes) (t : MoshSession)
    → read_session expected ls none ≡ some (some t)
    → (line : Bytes) × ((candidates ls ≡ line ∷ []) × IsAnnouncement expected line t)
unfolding read_session candidates keep_if
read_session-none expected [] t h = absurd cc
read_session-none expected (raw ∷ ls) t h =
    elim (Bool-cases (has_prefix announcement (trim_return raw))) [
      | inl p ↦ elim (Option-cases (announced expected (trim_return raw))) [
        | inl bad ↦ absurd (
            let none_found : read_session expected (raw ∷ ls) none ≡ none =
              rw (read_session, p, bad) refl in
            cc)
        | inr (s, found) ↦
            let rest : read_session expected (raw ∷ ls) none ≡ read_session expected ls (some s) =
              rw (read_session, p, found) refl in
            let (empty, same) = read_session-some expected ls s t (sym rest ∙ h) in
            let this : IsAnnouncement expected (trim_return raw) s =
              announced-IsAnnouncement expected (trim_return raw) s found in
            (
              trim_return raw,
              (
                rw (p) (ap (λ l. trim_return raw ∷ l) empty),
                subst (IsAnnouncement expected (trim_return raw)) same this,
              ),
            )
      ]
      | inr p ↦
          let skipped : read_session expected (raw ∷ ls) none ≡ read_session expected ls none =
            rw (read_session, p) refl in
          let (line, (only, this)) = read_session-none expected ls t (sym skipped ∙ h) in
          (line, (rw (p) only, this))
    ]

-- When the output gives a session: exactly one of its lines begins with MOSH CONNECT, and this line
-- has at most five digits, which write the session's port, and the 22 characters of its key; the
-- port is from 1 to 65535, and the one that was asked for unless that is zero.
pub parse_mosh_connect-IsAnnouncement :
    (output : Bytes) (expected : ℕ) (s : MoshSession)
    → parse_mosh_connect output expected ≡ some s
    → (line : Bytes) × ((candidates (split_lines output) ≡ line ∷ [])
        × IsAnnouncement expected line s)
unfolding parse_mosh_connect
parse_mosh_connect-IsAnnouncement output expected s h =
    elim (Option-cases (read_session expected (split_lines output) none)) [
      | inl bad ↦ absurd (
          let none_found : parse_mosh_connect output expected ≡ none =
            rw (parse_mosh_connect, bad) refl in
          cc)
      | inr (session, found) ↦
          let same : parse_mosh_connect output expected ≡ session =
            rw (parse_mosh_connect, found) refl in
          read_session-none expected (split_lines output) s (found ∙ ap some (sym same ∙ h))
    ]
