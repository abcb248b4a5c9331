-- ===== src/Reload/History.antt =====
-- cmd/qcat/authorization.go: what is authorized after any history of reloads.
use quantumcat.Base.{ℕ, ◌+◌, ◌≡◌, refl, leb, if◌then◌else◌, List, [], ◌∷◌, arith}
use quantumcat.Crypto.{Crypto}
use quantumcat.Reload.{
  Listing, listed, unlisted, Authorized, ReloadState, fresh_state, remember, authorize, reload,
}

-- The failures since the last listing; a history has its newest reload first.
unfoldable pub recent_failures : List Listing → ℕ
recent_failures [] = 0
recent_failures (listed ps ∷ older) = 0
recent_failures (unlisted message ∷ older) = recent_failures older + 1

module _ (c : Crypto) (initial : Authorized) where
  -- The peers of the last listing that succeeded.
  unfoldable pub last_listed : List Listing → Authorized
  last_listed [] = initial
  last_listed (listed ps ∷ older) = authorize c ps
  last_listed (unlisted message ∷ older) = last_listed older

  -- The loop of `serve`.
  unfoldable pub reloaded : List Listing → ReloadState × Authorized
  reloaded [] = (fresh_state, initial)
  reloaded (l ∷ older) = let (s, current) = reloaded older in (reload c l s current).0

  pub reloaded_lem :
      (history : List Listing)
      → ((reloaded history).0.failures ≡ recent_failures history)
        × ((reloaded history).1
            ≡ (if leb 3 (recent_failures history) then [] else last_listed history))
  unfolding reloaded recent_failures last_listed reload remember
  reloaded_lem [] = (refl, refl)
  reloaded_lem (listed ps ∷ older) = (ground arith, refl)
  reloaded_lem (unlisted message ∷ older) =
      let ih = reloaded_lem older in (ground (arith, ih), ground (arith, ih))
