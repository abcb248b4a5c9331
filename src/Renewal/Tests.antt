-- ===== src/Renewal/Tests.antt =====
-- Runs of internal/transport/renew.go, and the theorems at concrete inputs.
use quantumcat.Base.{ℕ, ◌*◌, ◌≡◌, refl, Bool, true, false, [], ◌∷◌, any}
use quantumcat.Renewal.{
  Settings, Watch, Round, probed, refreshed, renewed, reported, start, jumped, notice_gap,
  probe_due, probe, attempt, settle, round, watch,
}
use quantumcat.Renewal.Recovery.{succeeds, due, recovers_by_success, Scheduled, due-Scheduled}

-- Renewal each ten seconds, retry after four.
abbrev settings : Settings
settings = record {
  interval = 10000000000;
  retry = 4000000000;
  has_probe = true;
  has_refresh = true;
  has_report = true;
}

-- A round at a time in seconds whose calls end so.
abbrev round_at : ℕ → Bool → Round
round_at t ok = record {
  current = t * 1000000000;
  probe_ok = ok;
  probed_at = t * 1000000000;
  cancelled_early = false;
  skipped_at = t * 1000000000;
  refresh_ok = ok;
  renew_ok = ok;
  verify_ok = ok;
  cancelled_late = false;
  done_at = t * 1000000000;
  settled_at = t * 1000000000;
  ended_at = t * 1000000000;
}

abbrev begun : Watch
begun = start settings 100000000000

-- The renewal at 110 fails; 112 is too early; 114 succeeds after a refresh, with a probe.
three_rounds :
    (watch settings (round_at 110 false ∷ (round_at 112 true ∷ (round_at 114 true ∷ []))) begun).1
    ≡ renewed ∷ (reported ∷ (refreshed ∷ (renewed ∷ (probed ∷ []))))
unfolding watch round settle attempt probe probe_due notice_gap jumped
three_rounds = refl

due-Scheduled_example :
    Scheduled settings (round_at 110 false) (round settings (round_at 110 false) begun)
unfolding due jumped
due-Scheduled_example = due-Scheduled settings (round_at 110 false) begun refl refl refl

-- The clock went back.
abbrev behind : Watch
behind = record begun { recovering = true }

recovers_by_success_example :
    any (succeeds settings) (round_at 90 false ∷ (round_at 120 true ∷ [])) ≡ true
unfolding watch round settle attempt probe probe_due notice_gap jumped
recovers_by_success_example =
    recovers_by_success settings (round_at 90 false ∷ (round_at 120 true ∷ [])) behind refl refl
