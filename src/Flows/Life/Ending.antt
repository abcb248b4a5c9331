-- ===== src/Flows/Life/Ending.antt =====
-- After the loop of ForwardUDP has returned, the flows end, so that it returns.
use quantumcat.Base.{
  ℕ, ◌+◌, ◌≤◌, ◌<◌, Bytes, bytes_eq, Bool, Bool-cases, Option-cases, true, false, not, ◌&&◌, ◌||◌,
  ltb, ◌≡◌, ◌⊎◌, inl, inr, refl, sym, ap, some, List, [], ◌∷◌, length, arith,
}
use quantumcat.Base.Assoc.{lookup, insert, erase, bytes_key}
use quantumcat.Udp.{max_datagram}
use quantumcat.Flows.Life.{
  Phase, Listener, dialing, serving, leaving, Flow, waits, makes_room, tries_again, stopped,
  Forward, Moved, set_flow, arrives, goes_on, stops, dials, writes, takes, ends, replies,
  reader_ends, closes_remote, sees_close, lock_is_free, leaves, Move, arrival, continuation,
  failure, cancellation, dialed, taken, ended, reply, disconnected, closed_by_flow, saw_close, left,
  of_flow, move,
}

abbrev pub phase_weight : Phase → ℕ
phase_weight dialing = 5
phase_weight serving = 2
phase_weight leaving = 1

abbrev pub one_if : Bool → ℕ
one_if true = 1
one_if false = 0

-- The steps that a flow has left at most.
abbrev pub weight : Flow → ℕ
weight f = phase_weight f.phase + (length f.queue + (one_if f.reader + one_if (not f.closed)))

unfoldable pub total : List (Bytes × Flow) → ℕ
total [] = 0
total ((source, f) ∷ rest) = weight f + total rest

unfoldable pub steps_left : Forward → ℕ
unfolding total
steps_left s = total s.flows

total-insert :
    (source : Bytes) (f g : Flow) (m : List (Bytes × Flow))
    → lookup source m ≡ some f
    → total (insert source g m) + weight f ≡ total m + weight g
unfolding total insert lookup
total-insert source f g [] h = absurd cc
total-insert source f g ((k, e) ∷ m) h = elim (Bool-cases (bytes_eq k source)) [
  | inl t ↦ let same : e ≡ f = ground arith in rw (t, same) (omega arith)
  | inr o ↦
      let later : lookup source m ≡ some f = ground arith in
      let rest = total-insert source f g m later in rw (o) (omega (arith, rest))
]

total-erase_le : (source : Bytes) (m : List (Bytes × Flow)) → total (erase source m) ≤ total m
unfolding total erase
total-erase_le source [] = omega arith
total-erase_le source ((k, e) ∷ m) = elim (Bool-cases (bytes_eq k source)) [
  | inl t ↦ rw (t) (omega (arith, total-erase_le source m))
  | inr o ↦ rw (o) (omega (arith, total-erase_le source m))
]

pub total-erase :
    (source : Bytes) (f : Flow) (m : List (Bytes × Flow))
    → lookup source m ≡ some f
    → total (erase source m) + weight f ≤ total m
unfolding total erase lookup
total-erase source f [] h = absurd cc
total-erase source f ((k, e) ∷ m) h = elim (Bool-cases (bytes_eq k source)) [
  | inl t ↦ let same : e ≡ f = ground arith in rw (t, same) (omega (arith, total-erase_le source m))
  | inr o ↦
      let later : lookup source m ≡ some f = ground arith in
      rw (o) (omega (arith, total-erase source f m later))
]

-- It has returned from its loop, and waits for the flows.
abbrev pub IsClosing : Forward → Type 0
IsClosing s = (s.listener ≡ stopped) × (s.cancelled ≡ true)

abbrev pub Closes : Forward → Forward → Type 0
Closes s t = IsClosing t × ((steps_left t < steps_left s) ⊎ (t ≡ s))

pub set_flow_less :
    (source : Bytes) (f g : Flow) (s : Forward)
    → lookup source s.flows ≡ some f
    → weight g < weight f
    → steps_left (set_flow source g s) < steps_left s
unfolding set_flow steps_left
set_flow_less source f g s there less = omega (arith, total-insert source f g s.flows there)

set_flow-Closes :
    (source : Bytes) (f g : Flow) (s : Forward)
    → IsClosing s
    → lookup source s.flows ≡ some f
    → weight g < weight f
    → Closes s (set_flow source g s)
unfolding set_flow
set_flow-Closes source f g s c there less = (c, inl (set_flow_less source f g s there less))

module _ (source : Bytes) (f : Flow) (s : Forward) (c : IsClosing s)
    (there : lookup source s.flows ≡ some f) where
  rests : Closes s s
  rests = (c, inr refl)

  pub weighs :
      (p : Phase)
      → f.phase ≡ p
      → weight f ≡ phase_weight p + (length f.queue + (one_if f.reader + one_if (not f.closed)))
  weighs p e =
      ap (λ q. phase_weight q + (length f.queue + (one_if f.reader + one_if (not f.closed)))) e

  reader_weight : one_if f.reader ≤ 1
  reader_weight = elim (Bool-cases f.reader) [
    | inl t ↦ rw (t) (omega arith)
    | inr t ↦ rw (t) (omega arith)
  ]

  dials-Closes : (good : Bool) (p : Phase) → f.phase ≡ p → Closes s (dials source good s f p).0
  unfolding dials
  dials-Closes true dialing e =
      set_flow-Closes source f _ s c there (omega (arith, weighs dialing e))
  dials-Closes false dialing e =
      set_flow-Closes source f _ s c there (omega (arith, weighs dialing e))
  dials-Closes good serving e = rests
  dials-Closes good leaving e = rests

  writes-Closes :
      (good : Bool) (queue : List Bytes)
      → f.phase ≡ serving
      → f.queue ≡ queue
      → Closes s (writes source good s f queue).0
  unfolding writes
  writes-Closes good [] e q = rests
  writes-Closes true (p ∷ rest) e q =
      set_flow-Closes source f _ s c there (omega (arith, weighs serving e, ap length q))
  writes-Closes false (p ∷ rest) e q =
      set_flow-Closes source f _ s c there (omega (arith, weighs serving e, ap length q))

  takes-Closes : (good : Bool) (p : Phase) → f.phase ≡ p → Closes s (takes source good s f p).0
  unfolding takes
  takes-Closes good dialing e = rests
  takes-Closes good serving e = writes-Closes good f.queue e refl
  takes-Closes good leaving e = rests

  ends-Closes : (p : Phase) → f.phase ≡ p → Closes s (ends source s f p).0
  unfolding ends
  ends-Closes dialing e = rests
  ends-Closes serving e = elim (Bool-cases (f.over || s.cancelled)) [
    | inl t ↦ rw (t) (set_flow-Closes source f _ s c there (omega (arith, weighs serving e)))
    | inr o ↦ rw (o) rests
  ]
  ends-Closes leaving e = rests

  reader_gone :
      f.reader ≡ true → Closes s (set_flow source (record f { reader = false; over = true }) s)
  reader_gone t = set_flow-Closes source f _ s c there (omega (arith, ap one_if t))

  replies-Closes : (packet : Bytes) (good : Bool) → Closes s (replies source packet good s f).0
  unfolding replies
  replies-Closes packet good =
      elim (Bool-cases (not f.reader || ltb max_datagram (length packet))) [
        | inl t ↦ rw (t) rests
        | inr o ↦ elim (Bool-cases good) [
          | inl g ↦ rw (o, g) rests
          | inr g ↦ rw (o, g) (reader_gone (ground arith))
        ]
      ]

  reader_ends-Closes : Closes s (reader_ends source s f).0
  unfolding reader_ends
  reader_ends-Closes = elim (Bool-cases f.reader) [
    | inl t ↦ rw (reader_ends, t) (reader_gone t)
    | inr o ↦ rw (reader_ends, o) rests
  ]

  closes_remote-Closes : Closes s (closes_remote source s f).0
  unfolding closes_remote
  closes_remote-Closes = elim (Bool-cases (f.reader && (not f.closed && (f.over || s.cancelled)))) [
    | inl t ↦
        let still : not f.closed ≡ true = ground arith in
        rw (closes_remote, t)
          (set_flow-Closes source f _ s c there (omega (arith, ap one_if still)))
    | inr o ↦ rw (closes_remote, o) rests
  ]

  sees_close-Closes : Closes s (sees_close source s f).0
  unfolding sees_close
  sees_close-Closes = elim (Bool-cases (f.reader && f.closed)) [
    | inl t ↦ rw (sees_close, t) (reader_gone (ground arith))
    | inr o ↦ rw (sees_close, o) rests
  ]

  leaves-Closes : (p : Phase) → f.phase ≡ p → Closes s (leaves source s f p).0
  unfolding leaves steps_left
  leaves-Closes dialing e = rests
  leaves-Closes serving e = rests
  leaves-Closes leaving e = elim (Bool-cases (not f.reader && lock_is_free s.listener)) [
    | inl t ↦ rw (t) (c, inl (omega (arith, weighs leaving e, total-erase source f s.flows there)))
    | inr o ↦ rw (o) rests
  ]

of_flow-Closes :
    (source : Bytes) (s : Forward) (act : Flow → Moved)
    → IsClosing s
    → ((f : Flow) → lookup source s.flows ≡ some f → Closes s (act f).0)
    → Closes s (of_flow (lookup source s.flows) s act).0
unfolding of_flow
of_flow-Closes source s act c h = elim (Option-cases (lookup source s.flows)) [
  | inl t ↦ rw (of_flow, t) (c, inr refl)
  | inr (f, t) ↦ rw (of_flow, t) (h f t)
]

arrives-Closes :
    (source packet : Bytes) (s : Forward)
    → IsClosing s
    → (l : Listener) → l ≡ stopped
    → Closes s (arrives source packet s l).0
unfolding arrives
arrives-Closes source packet s c waits e = absurd cc
arrives-Closes source packet s c (makes_room a b) e = absurd cc
arrives-Closes source packet s c (tries_again a b) e = absurd cc
arrives-Closes source packet s c stopped e = (c, inr refl)

goes_on-Closes :
    (s : Forward) → IsClosing s → (l : Listener) → l ≡ stopped → Closes s (goes_on s l).0
unfolding goes_on
goes_on-Closes s c waits e = absurd cc
goes_on-Closes s c (makes_room a b) e = absurd cc
goes_on-Closes s c (tries_again a b) e = absurd cc
goes_on-Closes s c stopped e = (c, inr refl)

stops-Closes : (s : Forward) → IsClosing s → (l : Listener) → l ≡ stopped → Closes s (stops s l).0
unfolding stops
stops-Closes s c waits e = absurd cc
stops-Closes s c (makes_room a b) e = absurd cc
stops-Closes s c (tries_again a b) e = absurd cc
stops-Closes s c stopped e = (c, inr refl)

pub move-Closes : (m : Move) (s : Forward) → IsClosing s → Closes s (move m s).0
unfolding move
move-Closes (arrival source packet) s c = arrives-Closes source packet s c s.listener c.0
move-Closes continuation s c = goes_on-Closes s c s.listener c.0
move-Closes failure s c = stops-Closes s c s.listener c.0
move-Closes cancellation s c = ((c.0, refl), inr (ap (λ b. record s { cancelled = b }) (sym c.1)))
move-Closes (dialed source good) s c =
    of_flow-Closes source s _ c (λ f t. dials-Closes source f s c t good f.phase refl)
move-Closes (taken source good) s c =
    of_flow-Closes source s _ c (λ f t. takes-Closes source f s c t good f.phase refl)
move-Closes (ended source) s c =
    of_flow-Closes source s _ c (λ f t. ends-Closes source f s c t f.phase refl)
move-Closes (reply source packet good) s c =
    of_flow-Closes source s _ c (λ f t. replies-Closes source f s c t packet good)
move-Closes (disconnected source) s c =
    of_flow-Closes source s _ c (λ f t. reader_ends-Closes source f s c t)
move-Closes (closed_by_flow source) s c =
    of_flow-Closes source s _ c (λ f t. closes_remote-Closes source f s c t)
move-Closes (saw_close source) s c =
    of_flow-Closes source s _ c (λ f t. sees_close-Closes source f s c t)
move-Closes (left source) s c =
    of_flow-Closes source s _ c (λ f t. leaves-Closes source f s c t f.phase refl)
