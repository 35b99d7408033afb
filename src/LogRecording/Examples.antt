-- ===== src/LogRecording/Examples.antt =====
-- Two entries, of which the second is written at the second attempt.
use paws.Base.{
  ℕ, ◌≡◌, refl, Text, text, true, false, if◌then◌else◌, ◌==◌, nat_eq, some, List, [], ◌∷◌, ◌++◌,
  arith, ℕ_discrete,
}
use paws.LogRecording.{
  CapturedRuntimeLog, RuntimeLogBuffer, Disk, complete, partial, whole, piece, clear, active,
  new_buffer, Event, captures, syncs, clears, run, step, capture, sync, enter_session, sync_in,
  write_back, write_entries, pop_persisted,
}
use paws.LogRecording.Bounds.{IsBuffer, run-IsBuffer}
use paws.LogRecording.Persistence.{pending, pending_after, whole_lines}
use paws.LogRecording.Delivery.{all_taken, all_steady, run_delivers}
use paws.LogRecording.Recorded.{new_recorded, pushes, clears as clears_recorded, run_recorded}
use paws.LogRecording.Holding.{IsRecorded, run_recorded-IsRecorded}

abbrev recording : RuntimeLogBuffer
recording = record new_buffer { session_id = some (text "100"); appender = true }

abbrev working : Disk
working = record { session = active (some (text "100")); opens = true; writes = λ n. complete }

abbrev second_fails : Disk
second_fails = record {
  session = active (some (text "100"));
  opens = true;
  writes = λ n. if n == 2 then partial 7 else complete;
}

abbrev events : List Event
events =
    captures 200 (text "a")
    ∷ captures 201 (text "b")
    ∷ syncs second_fails
    ∷ syncs working
    ∷ clears
    ∷ []

abbrev line : ℕ → ℕ → Text → CapturedRuntimeLog
line n t e = record { sequence = n; captured_at = t; entry = e }

recording-IsBuffer : IsBuffer recording
recording-IsBuffer = record {
  ordered = omega arith;
  persisted = omega arith;
  bounded = omega arith;
}

run-IsBuffer_example : IsBuffer (run new_buffer events).0
run-IsBuffer_example =
    run-IsBuffer new_buffer events
      (record { ordered = omega arith; persisted = omega arith; bounded = omega arith })
      (omega arith)

-- The first attempt writes one line and a piece of the other, the second the other.
written :
    (run recording events).1
    ≡ whole (line 1 200 (text "a"))
      ∷ piece (line 2 201 (text "b")) 7
      ∷ whole (line 2 201 (text "b"))
      ∷ []
unfolding run step capture clear sync enter_session sync_in write_back write_entries pop_persisted
    ℕ_discrete
written = refl

run_delivers_example :
    whole_lines (run recording events).1 ++ pending (run recording events).0
    ≡ line 1 200 (text "a") ∷ line 2 201 (text "b") ∷ []
unfolding pending_after all_taken all_steady whole_lines step capture clear sync enter_session
    sync_in write_back write_entries pop_persisted ℕ_discrete
run_delivers_example = run_delivers recording events recording-IsBuffer refl refl (omega arith)

run_recorded-IsRecorded_example : IsRecorded (
    run_recorded new_recorded
      (pushes (active (some (text "100"))) true false (text "a") ∷ clears_recorded ∷ []))
run_recorded-IsRecorded_example =
    run_recorded-IsRecorded new_recorded
      (pushes (active (some (text "100"))) true false (text "a") ∷ clears_recorded ∷ [])
      (record { bounded = omega arith; in_session = λ off. (refl, refl); sourced = refl })
