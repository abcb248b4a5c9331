-- ===== src/Transport/Tests.antt =====
-- Runs of internal/transport/transport.go, and the theorems at concrete inputs.
use quantumcat.Base.{ltb, true, ◌&&◌, ◌≡◌, refl, replicate, some, List, [], ◌∷◌, ◌++◌}
use quantumcat.Wire.{parse, valid_frame}
use quantumcat.Handshake.Client.{ok, err, rejected, complete, accepted}
use quantumcat.Handshake.Client.Agreement.{agreement, finish_of, expected_ack}
use quantumcat.Handshake.Tests.{
  toy, draws, fresh_server, ready_server, toy_client, toy_answer, toy_entry, toy-IsLinked,
  toy_answers, toy-IsReady,
}
use quantumcat.Reload.{listed, unlisted}
use quantumcat.Reload.History.{reloaded, recent_failures, last_listed}
use quantumcat.Transport.{Event, tick, reply, connected, bootstrap, started, Session, is_valid}
use quantumcat.Transport.Confirmed.{Confirmed, bootstrap-Confirmed}
use quantumcat.Transport.Retries.{connects_through}
use quantumcat.Transport.Validity.{is_valid-reloaded}

facts : (complete toy toy_client toy_answer.packet).1 ≡ ok (toy_entry.psk, finish_of toy toy_answer)
facts =
    (agreement toy draws fresh_server ready_server toy_client toy_answer (replicate 32 1) toy_entry
      toy-IsLinked toy_answers toy-IsReady).0

acked : accepted (complete toy toy_client toy_answer.packet).0 (expected_ack toy toy_answer) ≡ true
acked =
    (agreement toy draws fresh_server ready_server toy_client toy_answer (replicate 32 1) toy_entry
      toy-IsLinked toy_answers toy-IsReady).3

-- Garbage and a second pass before the answer comes, and another second before the acknowledgement.
abbrev history : List Event
history =
    (reply (1 ∷ []) true ∷ (tick true ∷ []))
    ++ (reply toy_answer.packet true
        ∷ ((tick true ∷ []) ++ (reply (expected_ack toy toy_answer) true ∷ [])))

garbage : (complete toy toy_client (1 ∷ [])).1 ≡ err rejected
unfolding complete parse valid_frame
garbage = refl

connects_through_example :
    (bootstrap toy (started toy toy_client []) history).0 ≡ connected toy_entry.psk
connects_through_example =
    connects_through toy toy_client [] toy_answer.packet toy_entry.psk (finish_of toy toy_answer)
      (expected_ack toy toy_answer) (reply (1 ∷ []) true ∷ (tick true ∷ [])) (tick true ∷ []) []
      ((rejected, garbage), (refl, tt)) facts (refl, tt) acked

reached : (bootstrap toy (started toy toy_client []) history).0 ≡ connected toy_entry.psk
reached =
    connects_through toy toy_client [] toy_answer.packet toy_entry.psk (finish_of toy toy_answer)
      (expected_ack toy toy_answer) (reply (1 ∷ []) true ∷ (tick true ∷ [])) (tick true ∷ []) []
      ((rejected, garbage), (refl, tt)) facts (refl, tt) acked

bootstrap-Confirmed_example : Confirmed toy toy_client toy_entry.psk history
bootstrap-Confirmed_example =
    bootstrap-Confirmed toy (started toy toy_client []) history toy_entry.psk refl reached

abbrev session : Session
session = record { peer = replicate 32 7; pinned = 1 ∷ []; expires = 100 }

is_valid-reloaded_example :
    is_valid session (some (reloaded toy [] (unlisted [] ∷ (listed [] ∷ []))).1) 5 ≡ (
      ltb (recent_failures (unlisted [] ∷ (listed [] ∷ []))) 3
      && is_valid session (some (last_listed toy [] (unlisted [] ∷ (listed [] ∷ [])))) 5)
is_valid-reloaded_example = is_valid-reloaded toy [] (unlisted [] ∷ (listed [] ∷ [])) session 5
