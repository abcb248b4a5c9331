-- ===== src/Reload/Tests.antt =====
-- Runs of cmd/qcat/authorization.go, and the theorems at concrete inputs.
use quantumcat.Base.{bytes_eq, ◌≡◌, refl, List, [], ◌∷◌, replicate}
use quantumcat.Base.Assoc.{insert}
use quantumcat.Wire.{peer_id}
use quantumcat.Handshake.Tests.{toy}
use quantumcat.Config.{Peer}
use quantumcat.Reload.{Listing, listed, unlisted, remember, authorize_from, reload}
use quantumcat.Reload.History.{reloaded}

abbrev someone : Peer
someone = record { version = 1; name = []; id = []; public_key = 4 ∷ []; endpoint = [] }

-- One success, then failures.
abbrev two : List Listing
two = unlisted (1 ∷ []) ∷ (unlisted (1 ∷ []) ∷ (listed (someone ∷ []) ∷ []))

two_failures : (reloaded toy [] two).1 ≡ (replicate 32 7, 4 ∷ []) ∷ []
unfolding reloaded reload authorize_from insert peer_id remember bytes_eq
two_failures = refl

three_failures : (reloaded toy [] (unlisted (2 ∷ []) ∷ two)).1 ≡ []
unfolding reloaded reload authorize_from insert peer_id remember bytes_eq
three_failures = refl
