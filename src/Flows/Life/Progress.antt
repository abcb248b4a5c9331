-- ===== src/Flows/Life/Progress.antt =====
-- How the flows of a closing ForwardUDP end.
use quantumcat.Base.{
  Bool, ◌<◌, Bytes, bytes_eq_self, Bool-cases, true, false, not, ◌&&◌, ◌||◌, if◌then◌else◌, ◌≡◌,
  ◌⊎◌, inl, inr, refl, sym, ap, subst, ◌∙◌, some, List, [], ◌∷◌, arith,
}
use quantumcat.Base.Assoc.{lookup, erase, bytes_key}
use quantumcat.Flows.Life.{
  Phase, dialing, serving, leaving, Flow, Forward, Moved, set_flow, dials, ends, closes_remote,
  sees_close, lock_is_free, leaves, Move, dialed, ended, closed_by_flow, saw_close, left, of_flow,
  move,
}
use quantumcat.Flows.Life.Ending.{one_if, steps_left, total-erase, set_flow_less, IsClosing, weighs}

-- What a goroutine does by itself once the contexts have ended. A dial returns, the flow's loop sees the
-- end, the connection is closed, the reader sees that, and the flow deletes itself; nothing here waits for
-- a time-out or for the other end of a connection.
pub data Own : Type 0 where
  dial_returns : Bytes → Own
  loop_ends : Bytes → Own
  remote_closes : Bytes → Own
  reader_stops : Bytes → Own
  flow_leaves : Bytes → Own

-- The flag is what the dial gives.
abbrev pub own_move : Own → Bool → Move
own_move (dial_returns source) good = dialed source good
own_move (loop_ends source) good = ended source
own_move (remote_closes source) good = closed_by_flow source
own_move (reader_stops source) good = saw_close source
own_move (flow_leaves source) good = left source

-- Something that a goroutine does by itself lowers the number of steps, whatever its dial gives.
abbrev pub Proceeds : Forward → Type 0
Proceeds s = (o : Own) × ((good : Bool) → steps_left (move (own_move o good) s).0 < steps_left s)

-- The flows end by such moves, whatever the dials give.
pub data AllEnd : Forward → Type 0 where
  no_flows : (s : Forward) → s.flows ≡ [] → AllEnd s
  goes : (s : Forward) (o : Own) → ((good : Bool) → AllEnd (move (own_move o good) s).0) → AllEnd s

-- What a flow's move does, where the flow is there.
moves_flow :
    (source : Bytes) (f : Flow) (s : Forward) (m : Move) (act : Flow → Moved) (t : Forward)
    → lookup source s.flows ≡ some f
    → move m s ≡ of_flow (lookup source s.flows) s act
    → (act f).0 ≡ t
    → steps_left t < steps_left s
    → steps_left (move m s).0 < steps_left s
unfolding of_flow
moves_flow source f s m act t there is to less =
    let found : of_flow (lookup source s.flows) s act ≡ act f = rw (there) refl in
    let here : (move m s).0 ≡ t = ap (λ x. x.0) (is ∙ found) ∙ to in
    subst (λ u. steps_left u < steps_left s) (sym here) less

-- The flow after its dial.
abbrev after_dial : Flow → Bool → Flow
after_dial f true = record f { phase = serving; reader = true }
after_dial f false = record f { phase = leaving }

dials_now :
    (source : Bytes) (f : Flow) (s : Forward) (good : Bool) (p : Phase)
    → p ≡ dialing
    → (dials source good s f p).0 ≡ set_flow source (after_dial f good) s
unfolding dials
dials_now source f s true dialing e = refl
dials_now source f s false dialing e = refl
dials_now source f s good serving e = absurd cc
dials_now source f s good leaving e = absurd cc

ends_now :
    (source : Bytes) (f : Flow) (s : Forward) (p : Phase)
    → p ≡ serving
    → s.cancelled ≡ true
    → (ends source s f p).0 ≡ set_flow source (record f { phase = leaving; over = true }) s
unfolding ends
ends_now source f s dialing e c = absurd cc
ends_now source f s serving e c =
    let stop : (f.over || s.cancelled) ≡ true = ground arith in
    ap
      (λ b.
        let r : Moved =
          if b
          then (set_flow source (record f { phase = leaving; over = true }) s, [])
          else (s, []) in
        r.0)
      stop
ends_now source f s leaving e c = absurd cc

-- A move that is possible sets the flow.
sets_if :
    (source : Bytes) (g : Flow) (s : Forward) (possible : Bool)
    → possible ≡ true
    → (let r : Moved = if possible then (set_flow source g s, []) else (s, []) in r.0)
      ≡ set_flow source g s
sets_if source g s possible t =
    ap (λ b. let r : Moved = if b then (set_flow source g s, []) else (s, []) in r.0) t

closes_now :
    (source : Bytes) (f : Flow) (s : Forward)
    → f.reader ≡ true
    → f.closed ≡ false
    → s.cancelled ≡ true
    → (closes_remote source s f).0 ≡ set_flow source (record f { closed = true }) s
unfolding closes_remote
closes_now source f s r o c =
    sets_if source (record f { closed = true }) s
      (f.reader && (not f.closed && (f.over || s.cancelled))) (ground arith)

sees_now :
    (source : Bytes) (f : Flow) (s : Forward)
    → f.reader ≡ true
    → f.closed ≡ true
    → (sees_close source s f).0 ≡ set_flow source (record f { reader = false; over = true }) s
unfolding sees_close
sees_now source f s r o =
    sets_if source (record f { reader = false; over = true }) s (f.reader && f.closed)
      (ground arith)

leaves_now :
    (source : Bytes) (f : Flow) (s : Forward) (p : Phase)
    → p ≡ leaving
    → f.reader ≡ false
    → lock_is_free s.listener ≡ true
    → (leaves source s f p).0 ≡ record s { flows = erase source s.flows }
unfolding leaves
leaves_now source f s dialing e r k = absurd cc
leaves_now source f s serving e r k = absurd cc
leaves_now source f s leaving e r k =
    let now : (not f.reader && lock_is_free s.listener) ≡ true = ground arith in
    ap
      (λ b.
        let r : Moved = if b then (record s { flows = erase source s.flows }, []) else (s, []) in
        r.0)
      now

stopped_frees : (s : Forward) → IsClosing s → lock_is_free s.listener ≡ true
unfolding lock_is_free
stopped_frees s c = ap lock_is_free c.0

dial_lowers :
    (source : Bytes) (f : Flow) (s : Forward) (good : Bool)
    → IsClosing s
    → lookup source s.flows ≡ some f
    → f.phase ≡ dialing
    → steps_left (set_flow source (after_dial f good) s) < steps_left s
dial_lowers source f s true c there e =
    set_flow_less source f (record f { phase = serving; reader = true }) s there
      (omega (arith, weighs source f s c there dialing e))
dial_lowers source f s false c there e =
    set_flow_less source f (record f { phase = leaving }) s there
      (omega (arith, weighs source f s c there dialing e))

-- A flow that is there goes on by itself.
flow-Proceeds :
    (source : Bytes) (f : Flow) (s : Forward) (p : Phase)
    → IsClosing s
    → lookup source s.flows ≡ some f
    → f.phase ≡ p
    → Proceeds s
unfolding move steps_left
flow-Proceeds source f s dialing c there e = (
  dial_returns source,
  λ good.
      moves_flow source f s (dialed source good) (λ g. dials source good s g g.phase) _ there refl
        (dials_now source f s good f.phase e) (dial_lowers source f s good c there e),
)
flow-Proceeds source f s serving c there e = (
  loop_ends source,
  λ good.
      moves_flow source f s (ended source) (λ g. ends source s g g.phase) _ there refl
        (ends_now source f s f.phase e c.1)
        (set_flow_less source f (record f { phase = leaving; over = true }) s there
          (omega (arith, weighs source f s c there serving e))),
)
flow-Proceeds source f s leaving c there e = elim (Bool-cases f.reader) [
  | inl t ↦ elim (Bool-cases f.closed) [
    | inl shut ↦ (
      reader_stops source,
      λ good.
          moves_flow source f s (saw_close source) (λ g. sees_close source s g) _ there refl
            (sees_now source f s t shut)
            (set_flow_less source f (record f { reader = false; over = true }) s there
              (omega (arith, ap one_if t))),
    )
    | inr open_still ↦ (
      remote_closes source,
      λ good.
          moves_flow source f s (closed_by_flow source) (λ g. closes_remote source s g) _ there refl
            (closes_now source f s t open_still c.1)
            (set_flow_less source f (record f { closed = true }) s there
              (omega (arith, ap (λ b. one_if (not b)) open_still))),
    )
  ]
  | inr t ↦
      let unlocked : lock_is_free s.listener ≡ true = stopped_frees s c in
      (
        flow_leaves source,
        λ good.
            moves_flow source f s (left source) (λ g. leaves source s g g.phase) _ there refl
              (leaves_now source f s f.phase e t unlocked)
              (omega
                (arith, weighs source f s c there leaving e, total-erase source f s.flows there)),
      )
]

pub flows-Proceeds :
    (s : Forward) (flows : List (Bytes × Flow))
    → IsClosing s
    → s.flows ≡ flows
    → (s.flows ≡ []) ⊎ Proceeds s
unfolding lookup
flows-Proceeds s [] c e = inl e
flows-Proceeds s ((source, f) ∷ rest) c e =
    let first : lookup source ((source, f) ∷ rest) ≡ some f = rw (bytes_eq_self source) refl in
    let there : lookup source s.flows ≡ some f = ap (lookup source) e ∙ first in
    inr (flow-Proceeds source f s f.phase c there refl)
