-- ===== src/Flows/Tests.antt =====
-- Runs of internal/proxy/udp.go, and the theorems at concrete inputs.
use quantumcat.Base.{◌≡◌, refl, Bytes, bytes_eq, List, [], ◌∷◌, arith}
use quantumcat.Base.Assoc.{lookup, bytes_key, insert}
use quantumcat.Flows.{Flows, datagram, taken, ended, push, enqueue, receive, step, run}
use quantumcat.Base.{true, false}
use quantumcat.Base.Assoc.{erase}
use quantumcat.Flows.Life.{
  leaving, Flow, waits, stopped, Forward, Note, reads, sends, set_flow, arrives_at, arrives,
  drops_oldest, pushes, goes_on, dials, writes, takes, closes_remote, sees_close, lock_is_free,
  leaves, Move, arrival, continuation, dialed, closed_by_flow, saw_close, left, of_flow, move,
  moves,
}
use quantumcat.Flows.Life
use quantumcat.Flows.Life.Subsequence.{IsSubsequence}
use quantumcat.Flows.Life.Order.{received, sent}
use quantumcat.Flows.Life.Sent.{sent-IsSubsequence}
use quantumcat.Flows.Queue.{IsBounded, run-IsBounded}

abbrev source : Bytes
source = 127 ∷ (0 ∷ [])

abbrev packets : List Bytes
packets = (1 ∷ []) ∷ ((2 ∷ []) ∷ ((3 ∷ []) ∷ ((4 ∷ []) ∷ [])))

abbrev opened : Flows
opened = (source, []) ∷ []

-- The flow takes one datagram after the full queue is seen, so the second is dropped as well.
taken_between :
    run (datagram source (4 ∷ []) 1 0 ∷ []) ((source, (1 ∷ []) ∷ ((2 ∷ []) ∷ ((3 ∷ []) ∷ []))) ∷ [])
    ≡ (source, (3 ∷ []) ∷ ((4 ∷ []) ∷ [])) ∷ []
unfolding run step receive enqueue push lookup insert bytes_eq
taken_between = refl

run-IsBounded_example :
    IsBounded (run (datagram source (4 ∷ []) 0 0 ∷ (taken source ∷ (ended source ∷ []))) opened)
run-IsBounded_example =
    run-IsBounded (datagram source (4 ∷ []) 0 0 ∷ (taken source ∷ (ended source ∷ []))) opened
      (omega arith, (omega arith, tt))

-- Four datagrams reach a flow that has not dialed yet, and it sends what is left.
abbrev fresh_forward : Forward
fresh_forward = record { flows = []; listener = waits; cancelled = false }

abbrev a_burst : List Move
a_burst =
    arrival source (1 ∷ [])
    ∷ arrival source (2 ∷ [])
    ∷ arrival source (3 ∷ [])
    ∷ arrival source (4 ∷ [])
    ∷ continuation
    ∷ continuation
    ∷ dialed source true
    ∷ Life.taken source true
    ∷ Life.taken source true
    ∷ Life.taken source false
    ∷ []

abbrev burst_notes : List Note
burst_notes =
    reads source (1 ∷ [])
    ∷ reads source (2 ∷ [])
    ∷ reads source (3 ∷ [])
    ∷ reads source (4 ∷ [])
    ∷ sends source (2 ∷ [])
    ∷ sends source (3 ∷ [])
    ∷ sends source (4 ∷ [])
    ∷ []

abbrev last_flow : Flow
last_flow = record { phase = leaving; queue = []; reader = true; over = true; closed = false }

abbrev after_burst : Forward
after_burst = record { flows = (source, last_flow) ∷ []; listener = waits; cancelled = false }

burst_moves : moves a_burst fresh_forward ≡ (after_burst, burst_notes)
unfolding moves move arrives arrives_at set_flow goes_on drops_oldest pushes push of_flow dials
    takes writes lookup insert bytes_eq
burst_moves = refl

sends_three : sent source burst_notes ≡ (2 ∷ []) ∷ (3 ∷ []) ∷ (4 ∷ []) ∷ []
unfolding sent bytes_eq
sends_three = refl

sent-IsSubsequence_example : IsSubsequence (sent source burst_notes) (received source burst_notes)
sent-IsSubsequence_example =
    sent-IsSubsequence source a_burst fresh_forward after_burst burst_notes refl refl burst_moves

abbrev closing : Forward
closing = record { flows = (source, last_flow) ∷ []; listener = stopped; cancelled = true }

all_ended :
    (moves (closed_by_flow source ∷ saw_close source ∷ left source ∷ []) closing).0.flows ≡ []
unfolding moves move of_flow closes_remote sees_close leaves lock_is_free set_flow lookup insert
    erase bytes_eq
all_ended = refl
