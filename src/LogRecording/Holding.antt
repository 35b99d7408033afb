-- ===== src/LogRecording/Holding.antt =====
-- What `RecordedLogBuffer` holds after any calls.
use paws.Base.{
  ◌≤◌, ◌≡◌, refl, Text, Bool, true, false, List, [], ◌∷◌, ◌++◌, leb, if◌then◌else◌, length,
  length-append, is_some, arith,
}
use paws.LogRecording.{SessionRead, unreadable, active, session_eq, drop_first}
use paws.LogRecording.Recorded.{
  RecordedLogBuffer, sync_session, write_entry, keep_entry, push, record_control_error,
  clear_control_error, clear_recorded, Call, pushes, syncs_session, records_control_error,
  clears_control_error, clears, step_recorded, run_recorded, source_eq,
}

-- At most 256 entries are held, none without a session; the file is open only in a session; an error
-- has a source exactly where there is an error.
pub record IsRecorded (b : RecordedLogBuffer) : Type 0 where
  pub bounded : length b.entries ≤ 256
  pub in_session : is_some b.session_id ≡ false → (b.entries ≡ []) × (b.appender ≡ false)
  pub sourced : is_some b.last_error ≡ is_some b.last_error_source

sync_session-IsRecorded :
    (session : SessionRead) (opens : Bool) (b : RecordedLogBuffer)
    → IsRecorded b
    → IsRecorded (sync_session session opens b)
unfolding sync_session
sync_session-IsRecorded unreadable opens b i = record {
  bounded = i.bounded;
  in_session = i.in_session;
  sourced = refl;
}
sync_session-IsRecorded (active session) opens b i = record {
  bounded = ground (arith, i.bounded);
  in_session = ground (arith, i.in_session);
  sourced = ground (arith, i.sourced);
}

write_entry-IsRecorded :
    (writes : Bool) (b : RecordedLogBuffer) → IsRecorded b → IsRecorded (write_entry writes b)
write_entry-IsRecorded true b i = record {
  bounded = ground (arith, i.bounded);
  in_session = ground (arith, i.in_session);
  sourced = ground (arith, i.sourced);
}
write_entry-IsRecorded false b i = record {
  bounded = ground (arith, i.bounded);
  in_session = ground (arith, i.in_session);
  sourced = ground (arith, i.sourced);
}

length-keep-le :
    (xs : List Text) (x : Text)
    → length xs ≤ 256
    → length ((if leb 256 (length xs) then drop_first xs else xs) ++ x ∷ []) ≤ 256
length-keep-le [] x h = ground (arith, length-append [] (x ∷ []))
length-keep-le (y ∷ ys) x h =
    ground (arith, length-append ys (x ∷ []), length-append (y ∷ ys) (x ∷ []))

push-IsRecorded :
    (session : SessionRead) (opens writes : Bool) (entry : Text) (b : RecordedLogBuffer)
    → IsRecorded b
    → IsRecorded (push session opens writes entry b)
unfolding push
push-IsRecorded session opens writes entry b i = go (is_some synced.session_id) refl
  where
    synced : RecordedLogBuffer
    synced = sync_session session opens b

    s : IsRecorded synced
    s = sync_session-IsRecorded session opens b i

    w : IsRecorded (write_entry writes synced)
    w = write_entry-IsRecorded writes synced s

    same : (write_entry writes synced).session_id ≡ synced.session_id
    same = ground arith

    go :
        (on : Bool)
        → is_some synced.session_id ≡ on
        → IsRecorded (if on then keep_entry entry (write_entry writes synced) else synced)
    go true on = record {
      bounded = length-keep-le (write_entry writes synced).entries entry w.bounded;
      in_session = λ off. absurd (ground (arith, same));
      sourced = w.sourced;
    }
    go false off = s

step_recorded-IsRecorded :
    (b : RecordedLogBuffer) (c : Call) → IsRecorded b → IsRecorded (step_recorded b c)
unfolding step_recorded record_control_error clear_control_error clear_recorded
step_recorded-IsRecorded b (pushes session opens writes entry) i =
    push-IsRecorded session opens writes entry b i
step_recorded-IsRecorded b (syncs_session session opens) i =
    sync_session-IsRecorded session opens b i
step_recorded-IsRecorded b records_control_error i = record {
  bounded = i.bounded;
  in_session = i.in_session;
  sourced = refl;
}
step_recorded-IsRecorded b clears_control_error i = record {
  bounded = ground (arith, i.bounded);
  in_session = ground (arith, i.in_session);
  sourced = ground (arith, i.sourced);
}
step_recorded-IsRecorded b clears i = record {
  bounded = ground arith;
  in_session = ground (arith, i.in_session);
  sourced = i.sourced;
}

-- Whatever is pushed, whichever sessions start and end and whichever calls of the file system fail,
-- at most 256 entries are held, none outside a session, no file is open outside a session, and an
-- error has a source exactly where there is an error.
pub run_recorded-IsRecorded :
    (b : RecordedLogBuffer) (cs : List Call) → IsRecorded b → IsRecorded (run_recorded b cs)
unfolding run_recorded
run_recorded-IsRecorded b [] i = i
run_recorded-IsRecorded b (c ∷ cs) i =
    run_recorded-IsRecorded (step_recorded b c) cs (step_recorded-IsRecorded b c i)
