-- ===== src/Flows/Life/Parts.antt =====
-- The moves of one flow of ForwardUDP keep the order of each source's datagrams.
use quantumcat.Base.{
  Bytes, bytes_eq, Bool, Bool-cases, true, false, not, ◌&&◌, ◌||◌, ltb, if◌then◌else◌, ◌≡◌, inl,
  inr, refl, sym, subst, ◌∙◌, none, some, List, [], ◌∷◌, length,
}
use quantumcat.Base.Assoc.{lookup, erase, bytes_key, lookup-erase}
use quantumcat.Udp.{max_datagram}
use quantumcat.Flows.Life.{
  Phase, dialing, serving, leaving, Flow, Forward, delivers, set_flow, dials, writes, takes, ends,
  replies, reader_ends, closes_remote, sees_close, lock_is_free, leaves,
}
use quantumcat.Flows.Life.Subsequence.{IsSubsequence, whole, nothing, before_same}
use quantumcat.Flows.Life.Order.{
  received, sent, queue_in, in_hand, held, none_sent, none_received, Keeps, quiet, idle, quiet_flow,
  emits,
}

module _ (source : Bytes) where
  -- Moves of a flow.
  module _ (other : Bytes) (f : Flow) (s : Forward) (there : lookup other s.flows ≡ some f) where
    same_queue : (g : Flow) → g.queue ≡ f.queue → Keeps source s (set_flow other g s, [])
    same_queue g e =
        quiet_flow source other f g s [] (none_sent source) (none_received source) there
          (subst (λ q. IsSubsequence q f.queue) (sym e) (whole f.queue))

    pub dials-Keeps : (good : Bool) (p : Phase) → Keeps source s (dials other good s f p)
    unfolding dials
    dials-Keeps true dialing = same_queue _ refl
    dials-Keeps false dialing = same_queue _ refl
    dials-Keeps good serving = idle source s
    dials-Keeps good leaving = idle source s

    writes-Keeps :
        (good : Bool) (queue : List Bytes)
        → f.queue ≡ queue
        → Keeps source s (writes other good s f queue)
    unfolding writes
    writes-Keeps good [] e = idle source s
    writes-Keeps true (p ∷ rest) e = emits source other p f (record f { queue = rest }) s there e
    writes-Keeps false (p ∷ rest) e =
        emits source other p f (record f { queue = rest; phase = leaving; over = true }) s there e

    pub takes-Keeps : (good : Bool) (p : Phase) → Keeps source s (takes other good s f p)
    unfolding takes
    takes-Keeps good dialing = idle source s
    takes-Keeps good serving = writes-Keeps good f.queue refl
    takes-Keeps good leaving = idle source s

    pub ends-Keeps : (p : Phase) → Keeps source s (ends other s f p)
    unfolding ends
    ends-Keeps dialing = idle source s
    ends-Keeps serving = elim (Bool-cases (f.over || s.cancelled)) [
      | inl t ↦ rw (ends, t) (same_queue _ refl)
      | inr o ↦ rw (ends, o) (idle source s)
    ]
    ends-Keeps leaving = idle source s

    -- A move that leaves the queue as it is, where it is possible.
    same_queue_if :
        (possible : Bool) (g : Flow)
        → g.queue ≡ f.queue
        → Keeps source s (if possible then (set_flow other g s, []) else (s, []))
    same_queue_if true g e = same_queue g e
    same_queue_if false g e = idle source s

    pub reader_ends-Keeps : Keeps source s (reader_ends other s f)
    unfolding reader_ends
    reader_ends-Keeps = same_queue_if f.reader _ refl

    pub closes_remote-Keeps : Keeps source s (closes_remote other s f)
    unfolding closes_remote
    closes_remote-Keeps =
        same_queue_if (f.reader && (not f.closed && (f.over || s.cancelled))) _ refl

    pub sees_close-Keeps : Keeps source s (sees_close other s f)
    unfolding sees_close
    sees_close-Keeps = same_queue_if (f.reader && f.closed) _ refl

    pub replies-Keeps :
        (packet : Bytes) (good : Bool) → Keeps source s (replies other packet good s f)
    unfolding replies sent received
    replies-Keeps packet good =
        elim (Bool-cases (not f.reader || ltb max_datagram (length packet))) [
          | inl t ↦ rw (replies, t) (idle source s)
          | inr o ↦
              rw (replies, o)
                (elim (Bool-cases good) [
                  | inl g ↦ rw (g) (
                      quiet source s s (delivers other packet ∷ []) refl refl
                        (whole (held source s)))
                  | inr g ↦ rw (g) (
                      quiet_flow source other f (record f { reader = false; over = true }) s
                        (delivers other packet ∷ []) refl refl there (whole f.queue))
                ])
        ]

    -- The flow that leaves takes its queue with it.
    erased : IsSubsequence (held source (record s { flows = erase other s.flows })) (held source s)
    erased =
        let q = queue_in (lookup source s.flows) in
        let part : IsSubsequence (queue_in (lookup source (erase other s.flows))) q =
          elim (Bool-cases (bytes_eq other source)) [
            | inl t ↦
                let gone : lookup source (erase other s.flows) ≡ none =
                  lookup-erase other source s.flows ∙ rw (t) refl in
                subst (λ o. IsSubsequence (queue_in o) q) (sym gone) (nothing q)
            | inr n ↦
                let stays : lookup source (erase other s.flows) ≡ lookup source s.flows =
                  lookup-erase other source s.flows ∙ rw (n) refl in
                subst (λ o. IsSubsequence (queue_in o) q) (sym stays) (whole q)
          ] in
        before_same part (in_hand source s.listener)

    pub leaves-Keeps : (p : Phase) → Keeps source s (leaves other s f p)
    unfolding leaves
    leaves-Keeps dialing = idle source s
    leaves-Keeps serving = idle source s
    leaves-Keeps leaving = elim (Bool-cases (not f.reader && lock_is_free s.listener)) [
      | inl t ↦
          rw (leaves, t)
            (quiet source s (record s { flows = erase other s.flows }) [] (none_sent source)
              (none_received source) erased)
      | inr o ↦ rw (leaves, o) (idle source s)
    ]
