-- ===== src/Flows/Life/Sent.antt =====
-- The moves of ForwardUDP keep the order of each source's datagrams.
use quantumcat.Base.{
  Bytes, bytes_eq, Bool-cases, Option-cases, true, ltb, leb, ◌≡◌, inl, inr, refl, sym, ap, subst,
  ◌∙◌, Option, none, some, List, [], ◌∷◌, ◌++◌, append_assoc, append-nil, length, drop,
}
use quantumcat.Base.Assoc.{lookup, bytes_key}
use quantumcat.Udp.{max_datagram}
use quantumcat.Flows.{max_flows, queue_depth, push}
use quantumcat.Flows.Life.{
  Flow, Listener, waits, makes_room, tries_again, stopped, Forward, Note, reads, sends, delivers,
  Moved, set_flow, arrives_at, arrives, drops_oldest, pushes, goes_on, stops, Move, arrival,
  continuation, failure, cancellation, dialed, taken, ended, reply, disconnected, closed_by_flow,
  saw_close, left, of_flow, move, moves,
}
use quantumcat.Flows.Life.Subsequence.{
  IsSubsequence, part_of, whole, nothing, after, before_same, shorter, front,
}
use quantumcat.Flows.Life.Order.{
  received, sent, queue_in, only_if, in_hand, held, none_sent, none_received, Keeps, quiet, idle,
  held-set_flow, found_here, part_flow, gains, loses,
}
use quantumcat.Flows.Life.Parts.{
  dials-Keeps, takes-Keeps, ends-Keeps, reader_ends-Keeps, closes_remote-Keeps, sees_close-Keeps,
  replies-Keeps, leaves-Keeps,
}

module _ (source : Bytes) where
  -- The datagram joins the queue of a flow that is there, or begins one.
  joins :
      (other packet : Bytes) (s : Forward) (o : Option Flow) (g : Flow)
      → s.listener ≡ waits
      → lookup other s.flows ≡ o
      → g.queue ≡ queue_in o ++ (packet ∷ [])
      → Keeps source s (set_flow other g s, reads other packet ∷ [])
  unfolding set_flow
  joins other packet s o g free there q =
      gains source other packet s (set_flow other g s) (elim (Bool-cases (bytes_eq other source)) [
        | inl t ↦
            let e1 : held source (set_flow other g s) ≡ (queue_in o ++ (packet ∷ [])) ++ [] =
              held-set_flow source other g s.listener s
              ∙ (rw (t) (ap (λ l. g.queue ++ in_hand source l) free ∙ ap (λ l. l ++ []) q)) in
            let e2 : held source s ≡ queue_in o =
              (ap (λ x. queue_in x ++ in_hand source s.listener)
                  (found_here source other o s t there)
                ∙ ap (λ l. queue_in o ++ in_hand source l) free)
              ∙ append-nil (queue_in o) in
            e1
            ∙ (append-nil (queue_in o ++ (packet ∷ []))
                ∙ (rw (t) (ap (λ l. l ++ (packet ∷ [])) (sym e2))))
        | inr n ↦
            let e1 : held source (set_flow other g s) ≡ held source s =
              held-set_flow source other g s.listener s ∙ rw (n) refl in
            let e2 : held source s ≡ held source s ++ only_if (bytes_eq other source) packet =
              rw (n) (sym (append-nil (held source s))) in
            e1 ∙ e2
      ])

  -- The loop keeps the datagram in its hand.
  grasps :
      (other packet : Bytes) (s : Forward)
      → s.listener ≡ waits
      → Keeps source s (record s { listener = makes_room other packet }, reads other packet ∷ [])
  grasps other packet s free =
      gains source other packet s (record s { listener = makes_room other packet })
        (ap (λ l. l ++ only_if (bytes_eq other source) packet)
          (sym (
            ap (λ l. queue_in (lookup source s.flows) ++ in_hand source l) free
            ∙ append-nil (queue_in (lookup source s.flows)))))

  arrives_at-Keeps :
      (other packet : Bytes) (s : Forward) (o : Option Flow)
      → s.listener ≡ waits
      → lookup other s.flows ≡ o
      → Keeps source s (arrives_at other packet s o, reads other packet ∷ [])
  unfolding arrives_at
  arrives_at-Keeps other packet s none free there =
      elim (Bool-cases (leb max_flows (length s.flows))) [
        | inl t ↦ rw (arrives_at, t) (loses source other packet s)
        | inr n ↦ rw (arrives_at, n) (joins other packet s none _ free there refl)
      ]
  arrives_at-Keeps other packet s (some f) free there =
      elim (Bool-cases (ltb (length f.queue) queue_depth)) [
        | inl t ↦ rw (arrives_at, t) (joins other packet s (some f) _ free there refl)
        | inr n ↦ rw (arrives_at, n) (grasps other packet s free)
      ]

  arrives-Keeps :
      (other packet : Bytes) (s : Forward) (l : Listener)
      → s.listener ≡ l
      → Keeps source s (arrives other packet s l)
  unfolding arrives
  arrives-Keeps other packet s waits e = elim (Bool-cases (ltb max_datagram (length packet))) [
    | inl t ↦ rw (arrives, t) (idle source s)
    | inr n ↦ rw (arrives, n) (arrives_at-Keeps other packet s (lookup other s.flows) e refl)
  ]
  arrives-Keeps other packet s (makes_room a b) e = idle source s
  arrives-Keeps other packet s (tries_again a b) e = idle source s
  arrives-Keeps other packet s stopped e = idle source s

  -- The loop's own moves on the flow of what it holds.
  drops_oldest-Keeps :
      (other packet : Bytes) (s : Forward) (o : Option Flow)
      → s.listener ≡ makes_room other packet
      → lookup other s.flows ≡ o
      → Keeps source s (drops_oldest other packet s o, [])
  unfolding drops_oldest
  drops_oldest-Keeps other packet s none e there =
      quiet source s (record s { listener = tries_again other packet }) [] (none_sent source)
        (none_received source)
        (subst
          (λ l.
            IsSubsequence
              (queue_in (lookup source s.flows) ++ only_if (bytes_eq other source) packet)
              (queue_in (lookup source s.flows) ++ in_hand source l))
          (sym e)
          (whole (queue_in (lookup source s.flows) ++ only_if (bytes_eq other source) packet)))
  drops_oldest-Keeps other packet s (some f) e there =
      let hand : in_hand source (tries_again other packet) ≡ in_hand source s.listener =
        ap (in_hand source) (sym e) in
      quiet source s (drops_oldest other packet s (some f)) [] (none_sent source)
        (none_received source)
        (part_flow source other f (record f { queue = drop 1 f.queue }) (tries_again other packet) s
          there
          (λ t.
            subst
              (λ h.
                IsSubsequence (drop 1 f.queue ++ in_hand source (tries_again other packet))
                  (f.queue ++ h))
              hand (before_same (shorter f.queue) (in_hand source (tries_again other packet))))
          (λ n. hand))

  push_part :
      (packet : Bytes) (queue : List Bytes)
      → IsSubsequence (push packet queue) (queue ++ (packet ∷ []))
  unfolding push
  push_part packet queue = elim (Bool-cases (ltb (length queue) queue_depth)) [
    | inl t ↦ rw (push, t) (whole (queue ++ (packet ∷ [])))
    | inr n ↦ rw (push, n) (front queue (packet ∷ []))
  ]

  pushes-Keeps :
      (other packet : Bytes) (s : Forward) (o : Option Flow)
      → s.listener ≡ tries_again other packet
      → lookup other s.flows ≡ o
      → Keeps source s (pushes other packet s o, [])
  unfolding pushes
  pushes-Keeps other packet s none e there =
      quiet source s (record s { listener = waits }) [] (none_sent source) (none_received source)
        (after (queue_in (lookup source s.flows)) (nothing (in_hand source s.listener)))
  pushes-Keeps other packet s (some f) e there =
      quiet source s (pushes other packet s (some f)) [] (none_sent source) (none_received source) (
        part_flow source other f (record f { queue = push packet f.queue }) waits s there
          (λ t.
            let hand : packet ∷ [] ≡ in_hand source s.listener =
              sym (ap (in_hand source) e ∙ rw (t) refl) in
            subst (λ h. IsSubsequence (push packet f.queue ++ []) (f.queue ++ h)) hand
              (subst (λ l. IsSubsequence l (f.queue ++ (packet ∷ [])))
                (sym (append-nil (push packet f.queue))) (push_part packet f.queue)))
          (λ n. sym (ap (in_hand source) e ∙ rw (n) refl)))

  goes_on-Keeps : (s : Forward) (l : Listener) → s.listener ≡ l → Keeps source s (goes_on s l)
  unfolding goes_on
  goes_on-Keeps s waits e = idle source s
  goes_on-Keeps s (makes_room a p) e = drops_oldest-Keeps a p s (lookup a s.flows) e refl
  goes_on-Keeps s (tries_again a p) e = pushes-Keeps a p s (lookup a s.flows) e refl
  goes_on-Keeps s stopped e = idle source s

  stops-Keeps : (s : Forward) (l : Listener) → s.listener ≡ l → Keeps source s (stops s l)
  unfolding stops
  stops-Keeps s waits e =
      quiet source s (record s { listener = stopped; cancelled = true }) [] (none_sent source)
        (none_received source)
        (after (queue_in (lookup source s.flows)) (nothing (in_hand source s.listener)))
  stops-Keeps s (makes_room a p) e = idle source s
  stops-Keeps s (tries_again a p) e = idle source s
  stops-Keeps s stopped e = idle source s

  of_flow-Keeps :
      (other : Bytes) (s : Forward) (act : Flow → Moved)
      → ((f : Flow) → lookup other s.flows ≡ some f → Keeps source s (act f))
      → Keeps source s (of_flow (lookup other s.flows) s act)
  unfolding of_flow
  of_flow-Keeps other s act h = elim (Option-cases (lookup other s.flows)) [
    | inl t ↦ rw (of_flow, t) (idle source s)
    | inr (f, t) ↦ rw (of_flow, t) (h f t)
  ]

  move-Keeps : (m : Move) (s : Forward) → Keeps source s (move m s)
  unfolding move
  move-Keeps (arrival other packet) s = arrives-Keeps other packet s s.listener refl
  move-Keeps continuation s = goes_on-Keeps s s.listener refl
  move-Keeps failure s = stops-Keeps s s.listener refl
  move-Keeps cancellation s =
      quiet source s (record s { cancelled = true }) [] (none_sent source) (none_received source)
        (whole (held source s))
  move-Keeps (dialed other good) s =
      of_flow-Keeps other s _ (λ f t. dials-Keeps source other f s t good f.phase)
  move-Keeps (taken other good) s =
      of_flow-Keeps other s _ (λ f t. takes-Keeps source other f s t good f.phase)
  move-Keeps (ended other) s =
      of_flow-Keeps other s _ (λ f t. ends-Keeps source other f s t f.phase)
  move-Keeps (reply other packet good) s =
      of_flow-Keeps other s _ (λ f t. replies-Keeps source other f s t packet good)
  move-Keeps (disconnected other) s =
      of_flow-Keeps other s _ (λ f t. reader_ends-Keeps source other f s t)
  move-Keeps (closed_by_flow other) s =
      of_flow-Keeps other s _ (λ f t. closes_remote-Keeps source other f s t)
  move-Keeps (saw_close other) s =
      of_flow-Keeps other s _ (λ f t. sees_close-Keeps source other f s t)
  move-Keeps (left other) s =
      of_flow-Keeps other s _ (λ f t. leaves-Keeps source other f s t f.phase)

  sent-append : (xs ys : List Note) → sent source (xs ++ ys) ≡ sent source xs ++ sent source ys
  unfolding sent
  sent-append [] ys = refl
  sent-append (reads s p ∷ xs) ys = sent-append xs ys
  sent-append (sends s p ∷ xs) ys = elim (Bool-cases (bytes_eq s source)) [
    | inl t ↦ rw (t) (ap (λ l. p ∷ l) (sent-append xs ys))
    | inr n ↦ rw (n) (sent-append xs ys)
  ]
  sent-append (delivers s p ∷ xs) ys = sent-append xs ys

  received-append :
      (xs ys : List Note) → received source (xs ++ ys) ≡ received source xs ++ received source ys
  unfolding received
  received-append [] ys = refl
  received-append (reads s p ∷ xs) ys = elim (Bool-cases (bytes_eq s source)) [
    | inl t ↦ rw (t) (ap (λ l. p ∷ l) (received-append xs ys))
    | inr n ↦ rw (n) (received-append xs ys)
  ]
  received-append (sends s p ∷ xs) ys = received-append xs ys
  received-append (delivers s p ∷ xs) ys = received-append xs ys

  moves-Keeps : (ms : List Move) (s : Forward) → Keeps source s (moves ms s)
  unfolding moves
  moves-Keeps [] s before all h = idle source s before all h
  moves-Keeps (m ∷ ms) s before all h =
      let first = (move m s).1 in
      let later = (moves ms (move m s).0).1 in
      let once = move-Keeps m s before all h in
      let twice =
        moves-Keeps ms (move m s).0 (before ++ sent source first) (all ++ received source first)
          once in
      let left_side : (before ++ sent source first) ++ sent source later
          ≡ before ++ sent source (first ++ later) =
        append_assoc before (sent source first) (sent source later)
        ∙ ap (λ l. before ++ l) (sym (sent-append first later)) in
      let right_side : (all ++ received source first) ++ received source later
          ≡ all ++ received source (first ++ later) =
        append_assoc all (received source first) (received source later)
        ∙ ap (λ l. all ++ l) (sym (received-append first later)) in
      subst
        (λ x.
          IsSubsequence
            ((before ++ sent source (first ++ later)) ++ held source (moves ms (move m s).0).0) x)
        right_side
        (subst
          (λ x.
            IsSubsequence (x ++ held source (moves ms (move m s).0).0)
              ((all ++ received source first) ++ received source later))
          left_side twice)

-- Whatever the goroutines of a new forwarder do, and in which order: the datagrams that go into the
-- connections of a source are datagrams that were read from this source, in the order in which they
-- were read, each at most once.
pub sent-IsSubsequence :
    (source : Bytes) (ms : List Move) (s t : Forward) (notes : List Note)
    → s.flows ≡ []
    → s.listener ≡ waits
    → moves ms s ≡ (t, notes)
    → IsSubsequence (sent source notes) (received source notes)
unfolding lookup
sent-IsSubsequence source ms s t notes none_yet free h =
    let start : held source s ≡ [] =
      ap (λ x. queue_in (lookup source x) ++ in_hand source s.listener) none_yet
      ∙ ap (in_hand source) free in
    let kept =
      moves-Keeps source ms s [] [] (subst (λ l. IsSubsequence l []) (sym start) (whole [])) in
    let all : IsSubsequence (sent source (moves ms s).1) (received source (moves ms s).1) =
      part_of kept _ (front (sent source (moves ms s).1) (held source (moves ms s).0)) in
    subst (λ r. IsSubsequence (sent source r.1) (received source r.1)) h all
