-- ===== src/LogRecording/Bounds.antt =====
-- The buffer is in order and within its bounds after any events.
use paws.Base.{
  ℕ, ◌+◌, ◌≤◌, ◌<◌, ◌≡◌, Text, Bool, true, false, Option, none, some, List, [], ◌∷◌, ◌++◌, leb,
  if◌then◌else◌, ◌==◌, length, length-append, is_some, saturating_add64, u64_max, arith, Bool-cases,
  subst, sym, inl, inr,
}
use paws.LogRecording.{
  CapturedRuntimeLog, RuntimeLogBuffer, Write, Disk, clears, clear, SessionRead, unreadable, active,
  session_eq, appender_closed, drop_first, capture, started_at, enter_session, open_appender,
  write_back, sync_in, sync_read, sync, Event, captures, syncs, step, run,
}
use paws.LogRecording.Sequences.{
  Between, Between-lt, drop_first-Between, push-Between, retain_since-Between,
  length-retain_since-le, pop_persisted-Between, length-pop_persisted-le, write_entries-bounds,
}

-- Sequences start at one and rise to the next one, the position of persistence lies below it, and at
-- most 4096 entries are held.
pub record IsBuffer (b : RuntimeLogBuffer) : Type 0 where
  pub ordered : Between 0 b.next_sequence b.entries
  pub persisted : b.persisted_sequence < b.next_sequence
  pub bounded : length b.entries ≤ 4096

room : (cs : List CapturedRuntimeLog) → List CapturedRuntimeLog
room cs = if leb 4096 (length cs) then drop_first cs else cs

room-Between :
    (low high : ℕ) (cs : List CapturedRuntimeLog) → Between low high cs → Between low high (room cs)
unfolding room
room-Between low high cs b = ground (arith, drop_first-Between low high cs b)

length-room-le : (cs : List CapturedRuntimeLog) → length cs ≤ 4096 → length (room cs) < 4096
unfolding room
length-room-le [] h = ground arith
length-room-le (c ∷ cs) h = ground arith

pub capture-IsBuffer :
    (b : RuntimeLogBuffer) (now : ℕ) (entry : Text)
    → IsBuffer b
    → b.next_sequence < u64_max
    → IsBuffer (capture b now entry)
unfolding capture room
capture-IsBuffer b now entry i small =
    let new : CapturedRuntimeLog = record {
      sequence = b.next_sequence;
      captured_at = now;
      entry = entry;
    } in
    let next : saturating_add64 b.next_sequence 1 ≡ b.next_sequence + 1 = omega arith in
    record {
      ordered =
          subst (λ n. Between 0 n (room b.entries ++ new ∷ [])) (sym next)
            (push-Between 0 (room b.entries) new
              (room-Between 0 b.next_sequence b.entries i.ordered));
      persisted = omega (arith, next, i.persisted);
      bounded =
          omega
            (arith, length-append (room b.entries) (new ∷ []), length-room-le b.entries i.bounded);
    }

enter_session-IsBuffer :
    (b : RuntimeLogBuffer) (session : Option Text) → IsBuffer b → IsBuffer (enter_session b session)
unfolding enter_session
enter_session-IsBuffer b session i = elim (Bool-cases (session == b.session_id)) [
  | inl same ↦ rw same i
  | inr new ↦ rw new (record {
    ordered = retain_since-Between (started_at session) 0 b.next_sequence b.entries i.ordered;
    persisted = Between-lt 0 b.next_sequence b.entries i.ordered;
    bounded = omega (arith, length-retain_since-le (started_at session) b.entries, i.bounded);
  })
]

write_back-IsBuffer :
    (b : RuntimeLogBuffer) (writes : ℕ → Write) → IsBuffer b → IsBuffer (write_back b writes).0
unfolding write_back
write_back-IsBuffer b writes i = elim (Bool-cases b.appender) [
  | inl open_ ↦ rw open_ (record {
    ordered = pop_persisted-Between _ 0 b.next_sequence b.entries i.ordered;
    persisted =
        write_entries-bounds writes b.persisted_sequence b.persisted_sequence b.last_error 0
          b.next_sequence b.entries i.ordered i.persisted;
    bounded = omega (arith, length-pop_persisted-le _ b.entries, i.bounded);
  })
  | inr closed ↦ simp closed i
]

pub open_appender-IsBuffer :
    (b : RuntimeLogBuffer) (opens : Bool) → IsBuffer b → IsBuffer (open_appender b opens)
open_appender-IsBuffer b opens i = go b.appender opens
  where
    go :
        (open_ opens : Bool)
        → IsBuffer (
            if open_
            then b
            else if opens
            then record b { appender = true; last_error = none }
            else record b { last_error = some appender_closed })
    go true opens = i
    go false true = record { ordered = i.ordered; persisted = i.persisted; bounded = i.bounded }
    go false false = record { ordered = i.ordered; persisted = i.persisted; bounded = i.bounded }

sync_in-IsBuffer : (b : RuntimeLogBuffer) (disk : Disk) → IsBuffer b → IsBuffer (sync_in b disk).0
unfolding sync_in
sync_in-IsBuffer b disk i = elim (Bool-cases (is_some b.session_id)) [
  | inl on ↦ rw on (
      write_back-IsBuffer (open_appender b disk.opens) disk.writes
        (open_appender-IsBuffer b disk.opens i))
  | inr off ↦ rw off (record {
    ordered = Between-lt 0 b.next_sequence b.entries i.ordered;
    persisted = Between-lt 0 b.next_sequence b.entries i.ordered;
    bounded = omega arith;
  })
]

pub sync-IsBuffer : (b : RuntimeLogBuffer) (disk : Disk) → IsBuffer b → IsBuffer (sync b disk).0
unfolding sync
sync-IsBuffer b disk i = go disk.session
  where
    go : (read_ : SessionRead) → IsBuffer (sync_read b disk read_).0
    go unreadable = record { ordered = i.ordered; persisted = i.persisted; bounded = i.bounded }
    go (active session) =
        sync_in-IsBuffer (enter_session b session) disk (enter_session-IsBuffer b session i)

step-next-le : (b : RuntimeLogBuffer) (e : Event) → (step b e).0.next_sequence ≤ b.next_sequence + 1
unfolding step capture clear sync sync_in enter_session write_back
step-next-le b (captures now entry) = omega arith
step-next-le b (syncs disk) = ground arith
step-next-le b clears = omega arith

pub clear-IsBuffer : (b : RuntimeLogBuffer) → IsBuffer b → IsBuffer (clear b)
unfolding clear
clear-IsBuffer b i = record {
  ordered = Between-lt 0 b.next_sequence b.entries i.ordered;
  persisted = Between-lt 0 b.next_sequence b.entries i.ordered;
  bounded = omega arith;
}

-- From any captures, syncs and clears, also over changes of the session, the sequences in the buffer rise strictly to
-- the next one, the position of persistence lies below it and at most 4096 entries are held, as
-- long as sequences do not reach the greatest `u64`.
pub run-IsBuffer :
    (b : RuntimeLogBuffer) (es : List Event)
    → IsBuffer b
    → b.next_sequence + length es < u64_max
    → IsBuffer (run b es).0
unfolding run
run-IsBuffer b [] i small = i
run-IsBuffer b (e ∷ es) i small =
    run-IsBuffer (step b e).0 es (go e) (omega (arith, step-next-le b e))
  where
    go : (e : Event) → IsBuffer (step b e).0
    go (captures now entry) = unfold step in capture-IsBuffer b now entry i (omega arith)
    go (syncs disk) = unfold step in sync-IsBuffer b disk i
    go clears = unfold step in clear-IsBuffer b i
