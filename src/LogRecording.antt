-- ===== src/LogRecording.antt =====
-- crates/paws_core/src/log_recording.rs, `RuntimeLogBuffer`: the log entries of the engine, kept in
-- memory and written to the log file of the recording session. What the file system answers to one
-- `sync` is an argument.
pub mod Recorded
pub mod Holding
mod Sequences
pub mod Bounds
pub mod Persistence
pub mod Delivery
mod Examples
use paws.Base.{
  ℕ, ◌+◌, ◌-◌, ◌*◌, ◌^◌, Text, Bool, true, false, not, ◌&&◌, ◌||◌, Option, none, some, List, [],
  ◌∷◌, ◌++◌, Eq, ◌==◌, nat_eq, text_eq, List-discrete, ltb, leb, if◌then◌else◌, length, is_some,
  saturating_add64,
}

abbrev session-discrete : Discrete (Option Text)
session-discrete = hlevel List-discrete

instance abbrev pub session_eq : Eq (Option Text)
session_eq = record { same = session-discrete }

abbrev pub max_in_memory_logs : ℕ
max_in_memory_logs = 256

abbrev pub max_pending_runtime_logs : ℕ
max_pending_runtime_logs = 4096

pub record CapturedRuntimeLog : Type 0 where
  pub sequence : ℕ
  pub captured_at : ℕ
  pub entry : Text

-- The error messages in use, by the call that failed.
pub data LogError : Type 0 where
  session_unreadable appender_closed write_failed control : LogError

-- `appender` tells whether the file is open.
pub record RuntimeLogBuffer : Type 0 where
  pub session_id : Option Text
  pub appender : Bool
  pub entries : List CapturedRuntimeLog
  pub next_sequence : ℕ
  pub persisted_sequence : ℕ
  pub last_error : Option LogError

-- `Default`
abbrev pub new_buffer : RuntimeLogBuffer
new_buffer = record {
  session_id = none;
  appender = false;
  entries = [];
  next_sequence = 1;
  persisted_sequence = 0;
  last_error = none;
}

-- What `active_session_id` reads.
pub data SessionRead : Type 0 where
  unreadable : SessionRead
  active : Option Text → SessionRead

-- What `write_all` does with a line: all of it is in the file, or the write failed after so many
-- bytes.
pub data Write : Type 0 where
  complete : Write
  partial : ℕ → Write

-- What a `sync` adds to the file: the line of an entry, or the first bytes of it.
pub data Line : Type 0 where
  whole : CapturedRuntimeLog → Line
  piece : CapturedRuntimeLog → ℕ → Line

-- What the file system does during one `sync`: the session it names, whether the file can be opened,
-- and the write of each sequence.
pub record Disk : Type 0 where
  pub session : SessionRead
  pub opens : Bool
  pub writes : ℕ → Write

abbrev pub drop_first {ℓ} : {A : Type ℓ} → List A → List A
drop_first [] = []
drop_first (x ∷ xs) = xs

unfoldable pub capture : RuntimeLogBuffer → ℕ → Text → RuntimeLogBuffer
capture b now entry = record b {
  entries =
      (if leb max_pending_runtime_logs (length b.entries) then drop_first b.entries else b.entries)
      ++ record { sequence = b.next_sequence; captured_at = now; entry = entry } ∷ [];
  next_sequence = saturating_add64 b.next_sequence 1;
}

-- The digits of a number on top of those read.
unfoldable pub digits : ℕ → Text → Option ℕ
digits acc [] = some acc
digits acc (c ∷ cs) =
    let rest = digits (acc * 10 + (c - 0x30)) cs in
    if leb 0x30 c && leb c 0x39 && ltb (acc * 10 + (c - 0x30)) (2 ^ 128) then rest else none

-- `parse::<u128>().ok()`: digits, after a plus sign or not.
unfoldable pub parse_u128 : Text → Option ℕ
unfolding digits
parse_u128 [] = none
parse_u128 (c ∷ []) = digits 0 (c ∷ [])
parse_u128 (c ∷ d ∷ cs) = if c == 0x2b then digits 0 (d ∷ cs) else digits 0 (c ∷ d ∷ cs)

abbrev pub or_max : Option ℕ → ℕ
or_max none = 2 ^ 128 - 1
or_max (some n) = n

-- When the session started, in nanoseconds.
abbrev pub started_at : Option Text → ℕ
unfolding parse_u128
started_at none = 2 ^ 128 - 1
started_at (some session) = or_max (parse_u128 session)

-- `retain(|captured| captured.captured_at >= started_at)`
unfoldable pub retain_since : ℕ → List CapturedRuntimeLog → List CapturedRuntimeLog
retain_since start [] = []
retain_since start (c ∷ cs) =
    let rest = retain_since start cs in if leb start c.captured_at then c ∷ rest else rest

unfoldable pub enter_session : RuntimeLogBuffer → Option Text → RuntimeLogBuffer
enter_session b session = if session == b.session_id then b else record b {
  entries = retain_since (started_at session) b.entries;
  persisted_sequence = 0;
  appender = false;
  session_id = session;
  last_error = none;
}

abbrev pub open_appender : RuntimeLogBuffer → Bool → RuntimeLogBuffer
open_appender b opens =
    if b.appender
    then b
    else if opens
    then record b { appender = true; last_error = none }
    else record b { last_error = some appender_closed }

-- The loop over the entries that are not persisted: what it wrote, the last sequence written, and
-- the last error.
pub record Written : Type 0 where
  pub lines : List Line
  pub persisted : ℕ
  pub error : Option LogError

abbrev pub add_line : CapturedRuntimeLog → Written → Written
add_line c w = record w { lines = whole c ∷ w.lines }

-- A failed write ends the loop, with a piece of the line in the file.
abbrev pub write_line : Write → CapturedRuntimeLog → ℕ → Written → Written
write_line complete c persisted rest = add_line c rest
write_line (partial n) c persisted rest = record {
  lines = piece c n ∷ [];
  persisted = persisted;
  error = some write_failed;
}

unfoldable pub write_entries :
    (ℕ → Write) → ℕ → ℕ → Option LogError → List CapturedRuntimeLog → Written
write_entries writes old persisted error [] = record {
  lines = [];
  persisted = persisted;
  error = error;
}
write_entries writes old persisted error (c ∷ cs) =
    let skipped = write_entries writes old persisted error cs in
    let next = write_entries writes old c.sequence none cs in
    if ltb old c.sequence then write_line (writes c.sequence) c persisted next else skipped

-- `while len > MAX_IN_MEMORY_LOGS && front is persisted`
unfoldable pub pop_persisted : ℕ → List CapturedRuntimeLog → List CapturedRuntimeLog
pop_persisted persisted [] = []
pop_persisted persisted (c ∷ cs) =
    let rest = pop_persisted persisted cs in
    if ltb max_in_memory_logs (length (c ∷ cs)) && leb c.sequence persisted then rest else c ∷ cs

unfoldable pub write_back : RuntimeLogBuffer → (ℕ → Write) → RuntimeLogBuffer × List Line
unfolding write_entries pop_persisted
write_back b writes =
    if not b.appender
    then (b, [])
    else (let w =
          write_entries writes b.persisted_sequence b.persisted_sequence b.last_error b.entries in
        (
          record b {
            entries = pop_persisted w.persisted b.entries;
            persisted_sequence = w.persisted;
            last_error = w.error;
          },
          w.lines,
        ))

unfoldable pub sync_in : RuntimeLogBuffer → Disk → RuntimeLogBuffer × List Line
unfolding write_back
sync_in b disk =
    if is_some b.session_id then write_back (open_appender b disk.opens) disk.writes else (
      record b { entries = []; persisted_sequence = 0; appender = false; last_error = none },
      [],
    )

abbrev pub sync_read : RuntimeLogBuffer → Disk → SessionRead → RuntimeLogBuffer × List Line
unfolding enter_session sync_in
sync_read b disk unreadable = (record b { last_error = some session_unreadable }, [])
sync_read b disk (active session) = sync_in (enter_session b session) disk

-- `sync`, with what it appends to the file.
pub sync : RuntimeLogBuffer → Disk → RuntimeLogBuffer × List Line
unfolding sync_read
sync b disk = sync_read b disk disk.session

unfoldable pub clear : RuntimeLogBuffer → RuntimeLogBuffer
clear b = record b { entries = []; persisted_sequence = 0 }

-- What the engine and the core do to the buffer.
pub data Event : Type 0 where
  captures : ℕ → Text → Event
  syncs : Disk → Event
  clears : Event

pub step : RuntimeLogBuffer → Event → RuntimeLogBuffer × List Line
unfolding capture sync clear
step b (captures now entry) = (capture b now entry, [])
step b (syncs disk) = sync b disk
step b clears = (clear b, [])

pub run : RuntimeLogBuffer → List Event → RuntimeLogBuffer × List Line
run b [] = (b, [])
run b (e ∷ es) = let (b', lines) = step b e in let (b'', more) = run b' es in (b'', lines ++ more)
