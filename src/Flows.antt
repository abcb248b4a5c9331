-- ===== src/Flows.antt =====
-- internal/proxy/udp.go: the flows of ForwardUDP, one for each local source, with the queue of what is
-- still to be sent. The loop that reads the listener holds a lock; the flows' own goroutines take from
-- the queues and end at any moment, also between two operations on one queue.
pub mod Queue
pub mod Life
pub mod Published
mod Tests
use quantumcat.Base.{
  ℕ, Bytes, ltb, leb, if◌then◌else◌, Option, none, some, List, [], ◌∷◌, ◌++◌, length, drop,
}
use quantumcat.Base.Assoc.{lookup, insert, erase, bytes_key}
use quantumcat.Udp.{max_datagram}

abbrev pub max_flows : ℕ
max_flows = 128

abbrev pub queue_depth : ℕ
queue_depth = 3

-- The key is the source's address and port.
abbrev pub Flows : Type 0
Flows = List (Bytes × List Bytes)

-- The last attempt, where the queue may be full.
unfoldable pub push : Bytes → List Bytes → List Bytes
push packet queue = if ltb (length queue) queue_depth then queue ++ (packet ∷ []) else queue

-- A datagram enters the queue. Where it finds the queue full, the flow takes `before` datagrams until
-- the oldest is dropped, and `after` more until the next attempt.
unfoldable pub enqueue : Bytes → ℕ → ℕ → List Bytes → List Bytes
enqueue packet before after queue =
    if ltb (length queue) queue_depth
    then queue ++ (packet ∷ [])
    else push packet (drop after (drop 1 (drop before queue)))

-- A datagram from the listener.
unfoldable pub receive : Bytes → Bytes → ℕ → ℕ → Flows → Flows
receive source packet before after flows =
    if ltb max_datagram (length packet) then flows else elim (lookup source flows) [
      | none ↦
          if leb max_flows (length flows)
          then flows
          else insert source (enqueue packet before after []) flows
      | some queue ↦ insert source (enqueue packet before after queue) flows
    ]

-- A flow takes the next datagram of its queue.
unfoldable pub take_next : Bytes → Flows → Flows
take_next source flows = elim (lookup source flows) [
  | none ↦ flows
  | some queue ↦ insert source (drop 1 queue) flows
]

pub data Event : Type 0 where
  datagram : Bytes → Bytes → ℕ → ℕ → Event
  taken : Bytes → Event
  ended : Bytes → Event

unfoldable pub step : Event → Flows → Flows
step (datagram source packet before after) flows = receive source packet before after flows
step (taken source) flows = take_next source flows
step (ended source) flows = erase source flows

unfoldable pub run : List Event → Flows → Flows
run [] flows = flows
run (e ∷ rest) flows = run rest (step e flows)
