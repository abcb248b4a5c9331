-- ===== src/Renewal.antt =====
-- internal/transport/renew.go: the loop `watch` that renews the lease of a connection. A round is what
-- follows one tick. Times are nanoseconds of the wall clock, which may jump in either direction.
pub mod Recovery
mod Tests
use quantumcat.Base.{
  ℕ, ◌+◌, ◌-◌, ◌≤◌, Bool, true, false, not, ◌&&◌, ◌||◌, ltb, if◌then◌else◌, List, [], ◌∷◌, ◌++◌,
}

-- Thirty, and fifteen, seconds.
abbrev pub probe_interval : ℕ
probe_interval = 30000000000

abbrev pub largest_gap : ℕ
largest_gap = 15000000000

-- The arguments of `watch`; `has_probe`, `has_refresh` and `has_report` say which functions are not nil.
pub record Settings : Type 0 where
  pub interval : ℕ
  pub retry : ℕ
  pub has_probe : Bool
  pub has_refresh : Bool
  pub has_report : Bool

-- The variables of the loop.
pub record Watch : Type 0 where
  pub last : ℕ
  pub next_renew : ℕ
  pub next_probe : ℕ
  pub recovering : Bool

-- What a round meets: the readings of the clock, in the order of the code, how the calls it may make
-- end, and whether the context is found cancelled after the probe and after the renewal.
pub record Round : Type 0 where
  pub current : ℕ
  pub probe_ok : Bool
  pub probed_at : ℕ
  pub cancelled_early : Bool
  pub skipped_at : ℕ
  pub refresh_ok : Bool
  pub renew_ok : Bool
  pub verify_ok : Bool
  pub cancelled_late : Bool
  pub done_at : ℕ
  pub settled_at : ℕ
  pub ended_at : ℕ

pub data Action : Type 0 where
  probed : Action
  refreshed : Action
  renewed : Action
  reported : Action

pub data Verdict : Type 0 where
  goes_on : Verdict
  returned : Verdict

abbrev pub start : Settings → ℕ → Watch
start c now = record {
  last = now;
  next_renew = now + c.interval;
  next_probe = now + probe_interval;
  recovering = false;
}

-- The gap since the last reading is too long or negative.
unfoldable pub jumped : ℕ → ℕ → Bool
jumped last current = ltb (last + largest_gap) current || ltb current last

unfoldable pub notice_gap : ℕ → Watch → Watch
notice_gap current w =
    if jumped w.last current
    then record w { last = current; recovering = true; next_renew = current }
    else record w { last = current }

unfoldable pub probe_due : Settings → ℕ → Watch → Bool
probe_due c current w = not w.recovering && (c.has_probe && not (ltb current w.next_probe))

unfoldable pub probe : Settings → Round → Watch → Watch × List Action
probe c r w =
    if not (probe_due c r.current w)
    then (w, [])
    else if r.probe_ok
    then (record w { next_probe = r.probed_at + probe_interval }, probed ∷ [])
    else (
      record w {
        recovering = true;
        next_renew = r.current;
        next_probe = r.probed_at + probe_interval;
      },
      probed ∷ [],
    )

-- The calls of a renewal and whether they all succeed.
unfoldable pub attempt : Settings → Round → Bool → Bool × List Action
attempt c r recovering =
    let refreshing = recovering && c.has_refresh in
    let before = if refreshing then refreshed ∷ [] else [] in
    if refreshing && not r.refresh_ok
    then (false, before)
    else if not r.renew_ok
    then (false, before ++ (renewed ∷ []))
    else if recovering && c.has_probe
    then (r.verify_ok, before ++ (renewed ∷ (probed ∷ [])))
    else (true, before ++ (renewed ∷ []))

-- The end of a round with a renewal.
unfoldable pub settle :
    Settings → Round → Watch → Bool → List Action → Watch × List Action × Verdict
settle c r w ok actions =
    if r.cancelled_late
    then (w, actions, returned)
    else if not ok
    then (
      record w { last = r.ended_at; recovering = true; next_renew = r.done_at + c.retry },
      (if c.has_report then actions ++ (reported ∷ []) else actions),
      goes_on,
    )
    else (
      record w {
        last = r.ended_at;
        recovering = false;
        next_renew = r.done_at + c.interval;
        next_probe = r.settled_at + probe_interval;
      },
      actions,
      goes_on,
    )

unfoldable pub round : Settings → Round → Watch → Watch × List Action × Verdict
round c r w =
    let p = probe c r (notice_gap r.current w) in
    if r.cancelled_early
    then (p.0, p.1, returned)
    else if ltb r.current p.0.next_renew
    then (record (p.0) { last = r.skipped_at }, p.1, goes_on)
    else let a = attempt c r p.0.recovering in settle c r p.0 a.0 (p.1 ++ a.1)

-- The rounds until the loop returns, or until the ticks end; a cancelled wait ends them too.
unfoldable pub watch : Settings → List Round → Watch → Watch × List Action
watch c [] w = (w, [])
watch c (r ∷ rest) w =
    let s = round c r w in
    let later = watch c rest s.0 in
    elim s.2 [ goes_on ↦ (later.0, s.1 ++ later.1) | returned ↦ (s.0, s.1) ]
