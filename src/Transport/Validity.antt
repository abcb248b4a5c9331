-- ===== src/Transport/Validity.antt =====
-- internal/transport/transport.go with cmd/qcat/authorization.go: a session after the configured peers
-- were reloaded.
use quantumcat.Base.{
  ℕ, Bytes, bytes_eq, true, false, ◌&&◌, ltb, leb, ◌≡◌, refl, ap, ◌∙◌, Bool-cases, inl, inr, some,
  List, [], ◌∷◌, length, arith,
}
use quantumcat.Crypto.{Crypto}
use quantumcat.Wire.{lookup_peer}
use quantumcat.Reload.{Listing, Authorized}
use quantumcat.Reload.History.{recent_failures, last_listed, reloaded, reloaded_lem}
use quantumcat.Transport.{Session, is_valid}

no_pin : (pinned : Bytes) → (ltb 0 (length pinned) && bytes_eq [] pinned) ≡ false
unfolding bytes_eq
no_pin [] = refl
no_pin (b ∷ rest) = ground arith

-- A session of nobody's is not valid.
nobody : (s : Session) (now : ℕ) → is_valid s (some []) now ≡ false
unfolding is_valid lookup_peer
nobody s now = ground (arith, no_pin s.pinned)

-- After any history of reloads, a session is valid exactly if it is by the peers of the last listing
-- that succeeded, and fewer than three reloads have failed since.
pub is_valid-reloaded :
    (c : Crypto) (initial : Authorized) (history : List Listing) (s : Session) (now : ℕ)
    → is_valid s (some (reloaded c initial history).1) now
      ≡ (ltb (recent_failures history) 3 && is_valid s (some (last_listed c initial history)) now)
is_valid-reloaded c initial history s now = elim (Bool-cases (leb 3 (recent_failures history))) [
  | inl many ↦
      let none_left : (reloaded c initial history).1 ≡ [] =
        (reloaded_lem c initial history).1 ∙ rw many refl in
      let late : ltb (recent_failures history) 3 ≡ false = ground arith in
      ap (λ a. is_valid s (some a) now) none_left ∙ nobody s now ∙ rw late
  | inr few ↦
      let kept : (reloaded c initial history).1 ≡ last_listed c initial history =
        (reloaded_lem c initial history).1 ∙ rw few refl in
      let soon : ltb (recent_failures history) 3 ≡ true = ground arith in
      ap (λ a. is_valid s (some a) now) kept ∙ rw soon
]
