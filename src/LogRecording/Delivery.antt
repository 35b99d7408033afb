-- ===== src/LogRecording/Delivery.antt =====
-- A recording session from the captured entries to the lines of the log file.
use paws.Base.{
  subst, is_empty, ℕ, ◌+◌, ◌≤◌, ◌<◌, ◌≡◌, refl, ap, sym, ◌∙◌, Text, Bool, true, ◌&&◌, Option, List,
  [], ◌∷◌, ◌++◌, ltb, ◌==◌, length, is_some, u64_max, arith, Bool-cases, inl, inr,
}
use mathlib.Core.List.{append-nil, append_assoc}
use paws.LogRecording.{
  CapturedRuntimeLog, RuntimeLogBuffer, Write, Line, clears, clear, Disk, SessionRead, unreadable,
  active, session_eq, capture, enter_session, open_appender, Written, write_entries, write_back,
  sync_in, sync_read, sync, Event, captures, syncs, step, run,
}
use paws.LogRecording.Bounds.{
  IsBuffer, open_appender-IsBuffer, capture-IsBuffer, sync-IsBuffer, clear-IsBuffer,
}
use paws.LogRecording.Persistence.{
  pending, pending_after, whole_lines, whole_lines-append, write_entries-splits, pending_after-pop,
  pending_after-push,
}

-- The session is still the one of the buffer, as far as it can be read.
abbrev pub same_session : RuntimeLogBuffer → SessionRead → Bool
same_session b unreadable = true
same_session b (active session) = session == b.session_id

-- The event leaves the session, a capture finds room, and a clear finds nothing pending.
abbrev pub is_steady : RuntimeLogBuffer → Event → Bool
is_steady b (captures now entry) = ltb (length b.entries) 4096
is_steady b (syncs disk) = same_session b disk.session
is_steady b clears = is_empty (pending b)

unfoldable pub all_steady : RuntimeLogBuffer → List Event → Bool
all_steady b [] = true
all_steady b (e ∷ es) = is_steady b e && all_steady (step b e).0 es

-- What the event captures, with its sequence.
abbrev pub taken : RuntimeLogBuffer → Event → List CapturedRuntimeLog
taken b (captures now entry) =
    record { sequence = b.next_sequence; captured_at = now; entry = entry } ∷ []
taken b (syncs disk) = []
taken b clears = []

unfoldable pub all_taken : RuntimeLogBuffer → List Event → List CapturedRuntimeLog
all_taken b [] = []
all_taken b (e ∷ es) = taken b e ++ all_taken (step b e).0 es

-- The lines of a step and what it leaves pending are what was pending and what it captured.
abbrev Delivers : RuntimeLogBuffer → Event → RuntimeLogBuffer × List Line → Type 0
Delivers b e r =
    (whole_lines r.1 ++ pending r.0 ≡ pending b ++ taken b e)
    × (r.0.session_id ≡ b.session_id)
    × (r.0.next_sequence ≤ b.next_sequence + 1)

capture-Delivers :
    (b : RuntimeLogBuffer) (now : ℕ) (entry : Text)
    → IsBuffer b
    → length b.entries < 4096
    → Delivers b (captures now entry) (capture b now entry, [])
unfolding capture whole_lines
capture-Delivers b now entry i room = ground (
  arith,
  pending_after-push b.persisted_sequence b.entries
      (record { sequence = b.next_sequence; captured_at = now; entry = entry }) i.persisted,
)

write_back-splits :
    (b : RuntimeLogBuffer) (writes : ℕ → Write)
    → IsBuffer b
    → whole_lines (write_back b writes).1 ++ pending (write_back b writes).0 ≡ pending b
unfolding write_back whole_lines
write_back-splits b writes i = elim (Bool-cases b.appender) [
  | inl open_ ↦ simp open_ (
      ap (◌++◌ (whole_lines w.lines)) (pending_after-pop w.persisted b.entries)
      ∙ write_entries-splits writes b.persisted_sequence b.persisted_sequence 0 b.next_sequence
          b.last_error b.entries i.ordered (inr refl) (omega arith))
  | inr closed ↦ simp closed refl
]
  where
    w : Written
    w = write_entries writes b.persisted_sequence b.persisted_sequence b.last_error b.entries

open_appender-same :
    (b : RuntimeLogBuffer) (opens : Bool)
    → (pending (open_appender b opens) ≡ pending b)
      × ((open_appender b opens).session_id ≡ b.session_id)
      × ((open_appender b opens).next_sequence ≡ b.next_sequence)
open_appender-same b opens = ground arith

write_back-same :
    (b : RuntimeLogBuffer) (writes : ℕ → Write)
    → ((write_back b writes).0.session_id ≡ b.session_id)
      × ((write_back b writes).0.next_sequence ≡ b.next_sequence)
unfolding write_back
write_back-same b writes = ground arith

sync_in-Delivers :
    (b : RuntimeLogBuffer) (disk : Disk)
    → IsBuffer b
    → is_some b.session_id ≡ true
    → Delivers b (syncs disk) (sync_in b disk)
unfolding sync_in whole_lines
sync_in-Delivers b disk i on =
    let opened = open_appender b disk.opens in
    ground (
      arith,
      open_appender-same b disk.opens,
      write_back-same opened disk.writes,
      write_back-splits opened disk.writes (open_appender-IsBuffer b disk.opens i),
      append-nil (pending b),
    )

enter_same :
    (b : RuntimeLogBuffer) (session : Option Text)
    → session == b.session_id ≡ true
    → enter_session b session ≡ b
unfolding enter_session
enter_same b session same = ground arith

sync-Delivers :
    (b : RuntimeLogBuffer) (disk : Disk)
    → IsBuffer b
    → is_some b.session_id ≡ true
    → same_session b disk.session ≡ true
    → Delivers b (syncs disk) (sync b disk)
unfolding sync whole_lines
sync-Delivers b disk i on same = go disk.session same
  where
    go :
        (read_ : SessionRead)
        → same_session b read_ ≡ true
        → Delivers b (syncs disk) (sync_read b disk read_)
    go unreadable h = ground (arith, append-nil (pending b))
    go (active session) h =
        subst (λ b'. Delivers b (syncs disk) (sync_in b' disk)) (sym (enter_same b session h))
          (sync_in-Delivers b disk i on)

clear-Delivers :
    (b : RuntimeLogBuffer) → is_empty (pending b) ≡ true → Delivers b clears (clear b, [])
unfolding clear whole_lines pending_after
clear-Delivers b h = go (pending b) h
  where
    go :
        (cs : List CapturedRuntimeLog)
        → is_empty cs ≡ true
        → ([] ≡ cs ++ []) × (b.session_id ≡ b.session_id) × (b.next_sequence ≤ b.next_sequence + 1)
    go [] h = (refl, refl, omega arith)
    go (c ∷ cs) h = absurd (ground (arith, h))

step-Delivers :
    (b : RuntimeLogBuffer) (e : Event)
    → IsBuffer b
    → is_some b.session_id ≡ true
    → is_steady b e ≡ true
    → Delivers b e (step b e)
unfolding step
step-Delivers b (captures now entry) i on steady = capture-Delivers b now entry i (ground arith)
step-Delivers b (syncs disk) i on steady = sync-Delivers b disk i on steady
step-Delivers b clears i on steady = clear-Delivers b steady

step-IsBuffer :
    (b : RuntimeLogBuffer) (e : Event)
    → IsBuffer b
    → b.next_sequence < u64_max
    → IsBuffer (step b e).0
unfolding step
step-IsBuffer b (captures now entry) i small = capture-IsBuffer b now entry i small
step-IsBuffer b (syncs disk) i small = sync-IsBuffer b disk i
step-IsBuffer b clears i small = clear-IsBuffer b i

-- Over a recording session the whole line of each captured entry is written to the file once and in
-- the order of capture, across any closed files, unreadable markers and failed writes, which may
-- leave pieces of lines between them: the entries with a whole line and those still pending are, in
-- this order, the entries that were pending and those captured. The session does not change, the
-- 4096 pending entries are not exceeded, the log is cleared only while nothing is pending, and
-- sequences do not reach the greatest `u64`.
pub run_delivers :
    (b : RuntimeLogBuffer) (es : List Event)
    → IsBuffer b
    → is_some b.session_id ≡ true
    → all_steady b es ≡ true
    → b.next_sequence + length es < u64_max
    → whole_lines (run b es).1 ++ pending (run b es).0 ≡ pending b ++ all_taken b es
unfolding run whole_lines all_steady all_taken
run_delivers b [] i on steady small = sym (append-nil (pending b))
run_delivers b (e ∷ es) i on steady small =
    let b' = (step b e).0 in
    let l = whole_lines (step b e).1 in
    let d = step-Delivers b e i on (ground (arith, steady)) in
    let i' = step-IsBuffer b e i (omega arith) in
    let on' : is_some b'.session_id ≡ true = ap is_some d.1 ∙ on in
    let ih = run_delivers b' es i' on' (ground (arith, steady)) (omega (arith, d.2)) in
    ap (λ z. z ++ pending (run b' es).0) (whole_lines-append (step b e).1 (run b' es).1)
    ∙ append_assoc l (whole_lines (run b' es).1) (pending (run b' es).0)
    ∙ ap (◌++◌ l) ih
    ∙ sym (append_assoc l (pending b') (all_taken b' es))
    ∙ ap (λ z. z ++ all_taken b' es) d.0
    ∙ append_assoc (pending b) (taken b e) (all_taken b' es)
