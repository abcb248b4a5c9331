-- ===== src/Renewal/Recovery.antt =====
-- internal/transport/renew.go: when the loop renews, when it waits, and how it leaves recovery.
use quantumcat.Base.{
  ℕ, ◌+◌, ◌<◌, ◌≡◌, ◌∙◌, sym, ap, refl, Bool, true, false, not, ◌&&◌, ◌||◌, ltb, if◌then◌else◌,
  if_cases, Bool-cases, List, [], ◌∷◌, any, append-nil, ◌⊎◌, arith, inl, inr,
}
use quantumcat.Renewal.{
  Settings, Watch, Round, Action, probed, refreshed, renewed, reported, Verdict, returned, jumped,
  notice_gap, probe_due, probe, attempt, settle, round, watch, probe_interval,
}

-- All the calls of a renewal in recovery succeed.
unfoldable pub succeeds : Settings → Round → Bool
succeeds c r =
    r.renew_ok && ((not c.has_refresh || r.refresh_ok) && (not c.has_probe || r.verify_ok))

-- A renewal is due at a round: its time has come, the clock jumped, or the due probe fails.
unfoldable pub due : Settings → Round → Watch → Bool
due c r w =
    not (ltb r.current w.next_renew)
    || (jumped w.last r.current
        || (probe_due c r.current (notice_gap r.current w) && not r.probe_ok))

-- The call of the renewal itself.
pub is_renewal : Action → Bool
is_renewal probed = false
is_renewal refreshed = false
is_renewal renewed = true
is_renewal reported = false

recovering-probe :
    (c : Settings) (r : Round) (w : Watch)
    → w.recovering ≡ true
    → ((probe c r (notice_gap r.current w)).0.recovering ≡ true)
unfolding probe probe_due notice_gap
recovering-probe c r w h = ground arith

attempt_ok : (c : Settings) (r : Round) → (attempt c r true).0 ≡ succeeds c r
unfolding attempt succeeds
attempt_ok c r = ground arith

settle_recovers :
    (c : Settings) (r : Round) (w : Watch) (ok : Bool) (actions : List Action)
    → w.recovering ≡ true
    → (settle c r w ok actions).0.recovering ≡ false
    → ok ≡ true
unfolding settle
settle_recovers c r w ok actions h out = ground arith

round_recovers :
    (c : Settings) (r : Round) (w : Watch)
    → w.recovering ≡ true
    → (round c r w).0.recovering ≡ false
    → succeeds c r ≡ true
unfolding round
round_recovers c r w h out =
    let p = probe c r (notice_gap r.current w) in
    let hp = recovering-probe c r w h in
    if_cases (λ (x : Watch × List Action × Verdict). x.0.recovering ≡ false → succeeds c r ≡ true)
      r.cancelled_early (λ e o. absurd cc)
      (λ e.
        if_cases
          (λ (x : Watch × List Action × Verdict). x.0.recovering ≡ false → succeeds c r ≡ true)
          (ltb r.current p.0.next_renew) (λ e o. absurd cc)
          (λ e o.
            sym (attempt_ok c r)
            ∙ ap (λ b. (attempt c r b).0) (sym hp)
            ∙ settle_recovers c r p.0 (attempt c r p.0.recovering).0 _ hp o))
      out

-- A loop in recovery that is no longer in recovery some rounds later had, in one of these rounds, a
-- renewal that succeeded together with the refresh before it and the probe after it, where there are
-- such functions.
pub recovers_by_success :
    (c : Settings) (rs : List Round) (w : Watch)
    → w.recovering ≡ true
    → (watch c rs w).0.recovering ≡ false
    → any (succeeds c) rs ≡ true
unfolding watch any
recovers_by_success c [] w h out = absurd cc
recovers_by_success c (r ∷ rest) w h out =
    let first = round_recovers c r w h in
    let later = recovers_by_success c rest (round c r w).0 in ground (arith, first, later)

-- The recovery and the schedule of renewals are as they were, and no renewal was called.
abbrev pub Rests : Watch → Watch × List Action × Verdict → Type 0
Rests w s =
    (s.0.recovering ≡ w.recovering)
    × ((s.0.next_renew ≡ w.next_renew) × (any is_renewal s.1 ≡ false))

-- A round at which no renewal is due calls none, and leaves the recovery and the time of the next
-- renewal as they were, whether it is cancelled or not.
pub round-Rests : (c : Settings) (r : Round) (w : Watch) → due c r w ≡ false → Rests w (round c r w)
unfolding due round probe notice_gap is_renewal any
round-Rests c r w h = ground arith

-- What a round with a due renewal leaves behind: everything succeeded and the next renewal is an
-- interval away, or the loop is in recovery and the next one is a retry away.
abbrev pub Scheduled : Settings → Round → Watch × List Action × Verdict → Type 0
Scheduled c r s =
    ((s.0.recovering ≡ false)
      × ((s.0.next_renew ≡ r.done_at + c.interval)
          × ((s.0.next_probe ≡ r.settled_at + probe_interval)
              × ((any is_renewal s.1 ≡ true) × (r.renew_ok ≡ true)))))
    ⊎ ((s.0.recovering ≡ true)
        × ((s.0.next_renew ≡ r.done_at + c.retry)
            × ((s.0.last ≡ r.ended_at) × (succeeds c r ≡ false))))

-- A round at which a renewal is due and that is not cancelled calls the renewal with success,
-- leaves recovery and schedules the next renewal and the next probe, or it is in recovery and schedules a retry, and then
-- one of the calls that a renewal in recovery makes failed.
pub due-Scheduled :
    (c : Settings) (r : Round) (w : Watch)
    → due c r w ≡ true
    → r.cancelled_early ≡ false
    → r.cancelled_late ≡ false
    → Scheduled c r (round c r w)
unfolding due round probe notice_gap is_renewal any succeeds attempt settle
due-Scheduled c r w h early late = elim (Bool-cases (round c r w).0.recovering) [
  | inl stays ↦ inr (stays, (ground arith, (ground arith, ground arith)))
  | inr leaves ↦ inl (leaves, (ground arith, (ground arith, (ground arith, ground arith))))
]

-- Rounds before a time, without a jump of the clock.
abbrev pub Quiet : ℕ → ℕ → List Round → Type 0
Quiet last limit [] = Unit {0}
Quiet last limit (r ∷ rest) =
    (jumped last r.current ≡ false) × ((r.current < limit) × Quiet r.skipped_at limit rest)

round_quiet :
    (c : Settings) (r : Round) (w : Watch)
    → w.recovering ≡ true
    → jumped w.last r.current ≡ false
    → r.current < w.next_renew
    → ((round c r w).1 ≡ [])
      × (((round c r w).0.recovering ≡ true)
          × (((round c r w).0.next_renew ≡ w.next_renew)
              × ((round c r w).0.last ≡ (if r.cancelled_early then r.current else r.skipped_at))))
unfolding round probe notice_gap probe_due
round_quiet c r w h still early = (ground arith, (ground arith, (ground arith, ground arith)))

returns :
    (c : Settings) (r : Round) (w : Watch) → r.cancelled_early ≡ true → (round c r w).2 ≡ returned
unfolding round
returns c r w h = ground arith

watch-Quiet :
    (c : Settings) (rest : List Round) (w : Watch) (last limit : ℕ)
    → w.recovering ≡ true
    → w.last ≡ last
    → w.next_renew ≡ limit
    → Quiet last limit rest
    → (watch c rest w).1 ≡ []
unfolding watch
watch-Quiet c [] w last limit h there time quiet = refl
watch-Quiet c (r ∷ rest) w last limit h there time (still, (early, quiet)) =
    let same : jumped w.last r.current ≡ jumped last r.current =
      ap (λ t. jumped t r.current) there in
    let now = round_quiet c r w h (same ∙ still) (omega (arith, time, early)) in
    elim (Bool-cases r.cancelled_early) [
      | inl stops ↦ rw (watch, returns c r w stops) now.0
      | inr runs ↦
          let next : (round c r w).0.last ≡ r.skipped_at = now.1.1.1 ∙ rw runs in
          let later =
            watch-Quiet c rest (round c r w).0 r.skipped_at limit now.1.0 next (now.1.1.0 ∙ time)
              quiet in
          ground (arith, now.0, later)
    ]

-- After a round in which the due renewal fails, and that is not cancelled, the loop calls nothing at
-- all in the rounds before the time of the retry, as long as the clock does not jump.
pub retry_waits :
    (c : Settings) (r : Round) (rest : List Round) (w : Watch)
    → due c r w ≡ true
    → r.cancelled_early ≡ false
    → r.cancelled_late ≡ false
    → r.renew_ok ≡ false
    → Quiet r.ended_at (r.done_at + c.retry) rest
    → (watch c (r ∷ rest) w).1 ≡ (round c r w).1
unfolding watch
retry_waits c r rest w h early late failed quiet = elim (due-Scheduled c r w h early late) [
  | inl (_, (_, (_, (_, wrong)))) ↦ absurd cc
  | inr (stays, (time, (last, _))) ↦
      let nothing =
        watch-Quiet c rest (round c r w).0 r.ended_at (r.done_at + c.retry) stays last time quiet in
      ground (arith, nothing, append-nil (round c r w).1)
]
