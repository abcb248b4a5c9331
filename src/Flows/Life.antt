-- ===== src/Flows/Life.antt =====
-- internal/proxy/udp.go: ForwardUDP as a whole, step by step. The loop on the listener, each flow's loop
-- and each flow's reader are goroutines; a move is what one of them does between two points where another
-- can come in. A move that is not possible changes nothing.
pub mod Subsequence
pub mod Order
pub mod Parts
pub mod Sent
pub mod Ending
pub mod Progress
use quantumcat.Base.{
  ℕ, Bytes, Bool, true, false, not, ◌&&◌, ◌||◌, ltb, leb, if◌then◌else◌, Option, none, some, List,
  [], ◌∷◌, ◌++◌, length, drop,
}
use quantumcat.Base.Assoc.{lookup, insert, erase, bytes_key}
use quantumcat.Udp.{max_datagram}
use quantumcat.Flows.{max_flows, queue_depth, push}

-- A flow dials, then serves its queue, then waits for its reader and deletes itself.
pub data Phase : Type 0 where
  dialing : Phase
  serving : Phase
  leaving : Phase

-- `reader` is true while the flow's reader runs, `over` once the flow's own context has ended, and `closed`
-- once the flow has closed its connection.
pub record Flow : Type 0 where
  pub phase : Phase
  pub queue : List Bytes
  pub reader : Bool
  pub over : Bool
  pub closed : Bool

-- The loop waits for a datagram; or it holds the lock, found the queue of the source full, and is about to
-- drop the oldest; or it is about to try again; or it has returned.
pub data Listener : Type 0 where
  waits : Listener
  makes_room : Bytes → Bytes → Listener
  tries_again : Bytes → Bytes → Listener
  stopped : Listener

pub record Forward : Type 0 where
  pub flows : List (Bytes × Flow)
  pub listener : Listener
  pub cancelled : Bool

-- What is seen from outside: a datagram comes from a local source, goes into the connection of a source,
-- or goes back to a local source.
pub data Note : Type 0 where
  reads : Bytes → Bytes → Note
  sends : Bytes → Bytes → Note
  delivers : Bytes → Bytes → Note

abbrev pub Moved : Type 0
Moved = Forward × List Note

unfoldable pub set_flow : Bytes → Flow → Forward → Forward
set_flow source f s = record s { flows = insert source f s.flows }

unfoldable pub arrives_at : Bytes → Bytes → Forward → Option Flow → Forward
arrives_at source packet s none =
    if leb max_flows (length s.flows)
    then s
    else set_flow source
        (record {
          phase = dialing;
          queue = packet ∷ [];
          reader = false;
          over = false;
          closed = false;
        })
        s
arrives_at source packet s (some f) =
    if ltb (length f.queue) queue_depth
    then set_flow source (record f { queue = f.queue ++ (packet ∷ []) }) s
    else record s { listener = makes_room source packet }

unfoldable pub arrives : Bytes → Bytes → Forward → Listener → Moved
arrives source packet s waits =
    if ltb max_datagram (length packet)
    then (s, [])
    else (arrives_at source packet s (lookup source s.flows), reads source packet ∷ [])
arrives source packet s (makes_room a b) = (s, [])
arrives source packet s (tries_again a b) = (s, [])
arrives source packet s stopped = (s, [])

-- The oldest is dropped, if the flow has not taken all of them meanwhile.
unfoldable pub drops_oldest : Bytes → Bytes → Forward → Option Flow → Forward
drops_oldest source packet s none = record s { listener = tries_again source packet }
drops_oldest source packet s (some f) =
    record (set_flow source (record f { queue = drop 1 f.queue }) s) {
      listener = tries_again source packet;
    }

unfoldable pub pushes : Bytes → Bytes → Forward → Option Flow → Forward
pushes source packet s none = record s { listener = waits }
pushes source packet s (some f) =
    record (set_flow source (record f { queue = push packet f.queue }) s) { listener = waits }

-- The loop goes on with the datagram that it holds.
unfoldable pub goes_on : Forward → Listener → Moved
goes_on s waits = (s, [])
goes_on s (makes_room source packet) = (drops_oldest source packet s (lookup source s.flows), [])
goes_on s (tries_again source packet) = (pushes source packet s (lookup source s.flows), [])
goes_on s stopped = (s, [])

-- Reading the listener fails: the loop returns, and that cancels all flows.
unfoldable pub stops : Forward → Listener → Moved
stops s waits = (record s { listener = stopped; cancelled = true }, [])
stops s (makes_room a b) = (s, [])
stops s (tries_again a b) = (s, [])
stops s stopped = (s, [])

-- The caller's dial returns, within ten seconds or when a context has ended, with a connection or not.
unfoldable pub dials : Bytes → Bool → Forward → Flow → Phase → Moved
dials source good s f dialing =
    if good
    then (set_flow source (record f { phase = serving; reader = true }) s, [])
    else (set_flow source (record f { phase = leaving }) s, [])
dials source good s f serving = (s, [])
dials source good s f leaving = (s, [])

-- The flow takes a datagram and writes it; where that fails, it returns, which ends its context.
unfoldable pub writes : Bytes → Bool → Forward → Flow → List Bytes → Moved
writes source good s f [] = (s, [])
writes source good s f (packet ∷ rest) = (
  if good
      then set_flow source (record f { queue = rest }) s
      else set_flow source (record f { queue = rest; phase = leaving; over = true }) s,
  sends source packet ∷ [],
)

unfoldable pub takes : Bytes → Bool → Forward → Flow → Phase → Moved
takes source good s f dialing = (s, [])
takes source good s f serving = writes source good s f f.queue
takes source good s f leaving = (s, [])

-- The flow's loop sees that a context has ended.
unfoldable pub ends : Bytes → Forward → Flow → Phase → Moved
ends source s f dialing = (s, [])
ends source s f serving =
    if f.over || s.cancelled
    then (set_flow source (record f { phase = leaving; over = true }) s, [])
    else (s, [])
ends source s f leaving = (s, [])

-- The reader gets a datagram of the connection; an error when it passes it on ends the reader.
unfoldable pub replies : Bytes → Bytes → Bool → Forward → Flow → Moved
replies source packet good s f =
    if not f.reader || ltb max_datagram (length packet) then (s, []) else (
      if good then s else set_flow source (record f { reader = false; over = true }) s,
      delivers source packet ∷ [],
    )

-- A context has ended: the connection is closed, by what waits for the context or by what the flow
-- deferred.
unfoldable pub closes_remote : Bytes → Forward → Flow → Moved
closes_remote source s f =
    if f.reader && (not f.closed && (f.over || s.cancelled))
    then (set_flow source (record f { closed = true }) s, [])
    else (s, [])

-- The reader finds its connection closed.
unfoldable pub sees_close : Bytes → Forward → Flow → Moved
sees_close source s f =
    if f.reader && f.closed
    then (set_flow source (record f { reader = false; over = true }) s, [])
    else (s, [])

-- Reading the connection fails otherwise: the other end, or it was idle for too long.
unfoldable pub reader_ends : Bytes → Forward → Flow → Moved
reader_ends source s f =
    if f.reader then (set_flow source (record f { reader = false; over = true }) s, []) else (s, [])

-- Whether the loop leaves the lock to others.
unfoldable pub lock_is_free : Listener → Bool
lock_is_free waits = true
lock_is_free (makes_room a b) = false
lock_is_free (tries_again a b) = false
lock_is_free stopped = true

unfoldable pub leaves : Bytes → Forward → Flow → Phase → Moved
leaves source s f dialing = (s, [])
leaves source s f serving = (s, [])
leaves source s f leaving =
    if not f.reader && lock_is_free s.listener
    then (record s { flows = erase source s.flows }, [])
    else (s, [])

pub data Move : Type 0 where
  arrival : Bytes → Bytes → Move
  continuation : Move
  failure : Move
  cancellation : Move
  dialed : Bytes → Bool → Move
  taken : Bytes → Bool → Move
  ended : Bytes → Move
  reply : Bytes → Bytes → Bool → Move
  disconnected : Bytes → Move
  closed_by_flow : Bytes → Move
  saw_close : Bytes → Move
  left : Bytes → Move

-- A move of a flow, where there is one of this source.
unfoldable pub of_flow : Option Flow → Forward → (Flow → Moved) → Moved
of_flow none s act = (s, [])
of_flow (some f) s act = act f

unfoldable pub move : Move → Forward → Moved
move (arrival source packet) s = arrives source packet s s.listener
move continuation s = goes_on s s.listener
move failure s = stops s s.listener
move cancellation s = (record s { cancelled = true }, [])
move (dialed source good) s = of_flow (lookup source s.flows) s (λ f. dials source good s f f.phase)
move (taken source good) s = of_flow (lookup source s.flows) s (λ f. takes source good s f f.phase)
move (ended source) s = of_flow (lookup source s.flows) s (λ f. ends source s f f.phase)
move (reply source packet good) s =
    of_flow (lookup source s.flows) s (λ f. replies source packet good s f)
move (disconnected source) s = of_flow (lookup source s.flows) s (λ f. reader_ends source s f)
move (closed_by_flow source) s = of_flow (lookup source s.flows) s (λ f. closes_remote source s f)
move (saw_close source) s = of_flow (lookup source s.flows) s (λ f. sees_close source s f)
move (left source) s = of_flow (lookup source s.flows) s (λ f. leaves source s f f.phase)

unfoldable pub moves : List Move → Forward → Moved
moves [] s = (s, [])
moves (m ∷ ms) s = let (t, first) = move m s in let (u, later) = moves ms t in (u, first ++ later)
