-- ===== src/LogRecording/Recorded.antt =====
-- crates/paws_core/src/log_recording.rs, `RecordedLogBuffer`: the entries of the application, kept in
-- memory and appended to the log file while a session records.
use paws.Base.{
  Text, Bool, true, false, Option, none, some, List, [], ◌∷◌, ◌++◌, Eq, ◌==◌, leb, if◌then◌else◌,
  length, is_some,
}
use paws.LogRecording.{
  LogError, session_unreadable, appender_closed, write_failed, control, SessionRead, unreadable,
  active, session_eq, drop_first, max_in_memory_logs,
}

-- Where the last error came from.
pub data LogRecordingErrorSource : Type 0 where
  control_source session_source writer_source : LogRecordingErrorSource

abbrev source-discrete : Discrete (Option LogRecordingErrorSource)
source-discrete = hlevel

instance abbrev pub source_eq : Eq (Option LogRecordingErrorSource)
source_eq = record { same = source-discrete }

pub record RecordedLogBuffer : Type 0 where
  pub session_id : Option Text
  pub appender : Bool
  pub entries : List Text
  pub last_error : Option LogError
  pub last_error_source : Option LogRecordingErrorSource

-- `RecordedLogBuffer::new`
abbrev pub new_recorded : RecordedLogBuffer
new_recorded = record {
  session_id = none;
  appender = false;
  entries = [];
  last_error = none;
  last_error_source = none;
}

abbrev pub set_error : LogRecordingErrorSource → LogError → RecordedLogBuffer → RecordedLogBuffer
set_error source error_ b = record b { last_error = some error_; last_error_source = some source }

abbrev pub clear_error_from : LogRecordingErrorSource → RecordedLogBuffer → RecordedLogBuffer
clear_error_from source b =
    if b.last_error_source == some source
    then record b { last_error = none; last_error_source = none }
    else b

abbrev pub record_writer_result : Bool → RecordedLogBuffer → RecordedLogBuffer
record_writer_result true b = clear_error_from writer_source b
record_writer_result false b = set_error writer_source write_failed b

-- Another session starts with no entries and no file.
abbrev pub change_session : Option Text → RecordedLogBuffer → RecordedLogBuffer
change_session session b =
    if session == b.session_id
    then b
    else clear_error_from writer_source
        (record b { entries = []; appender = false; session_id = session })

abbrev pub open_file : Bool → RecordedLogBuffer → RecordedLogBuffer
open_file opens b =
    if is_some b.session_id
    then (if b.appender
        then b
        else if opens
        then clear_error_from writer_source (record b { appender = true })
        else set_error writer_source appender_closed b)
    else b

-- `sync_session`, on what it reads and on whether the file can be opened
unfoldable pub sync_session : SessionRead → Bool → RecordedLogBuffer → RecordedLogBuffer
sync_session unreadable opens b = set_error session_source session_unreadable b
sync_session (active session) opens b =
    open_file opens (change_session session (clear_error_from session_source b))

abbrev pub write_entry : Bool → RecordedLogBuffer → RecordedLogBuffer
write_entry writes b = if b.appender then record_writer_result writes b else b

-- The entry goes to memory whether or not it reached the file.
abbrev pub keep_entry : Text → RecordedLogBuffer → RecordedLogBuffer
keep_entry entry b = record b {
  entries =
      (if leb max_in_memory_logs (length b.entries) then drop_first b.entries else b.entries)
      ++ entry ∷ [];
}

unfoldable pub push : SessionRead → Bool → Bool → Text → RecordedLogBuffer → RecordedLogBuffer
unfolding sync_session
push session opens writes entry b =
    let synced = sync_session session opens b in
    if is_some synced.session_id then keep_entry entry (write_entry writes synced) else synced

-- `record_control_error`, `clear_control_error` and `clear`
unfoldable pub record_control_error : RecordedLogBuffer → RecordedLogBuffer
record_control_error b = set_error control_source control b

unfoldable pub clear_control_error : RecordedLogBuffer → RecordedLogBuffer
clear_control_error b = clear_error_from control_source b

unfoldable pub clear_recorded : RecordedLogBuffer → RecordedLogBuffer
clear_recorded b = record b { entries = [] }

-- The calls of the core.
pub data Call : Type 0 where
  pushes : SessionRead → Bool → Bool → Text → Call
  syncs_session : SessionRead → Bool → Call
  records_control_error clears_control_error clears : Call

unfoldable pub step_recorded : RecordedLogBuffer → Call → RecordedLogBuffer
unfolding push sync_session record_control_error clear_control_error clear_recorded
step_recorded b (pushes session opens writes entry) = push session opens writes entry b
step_recorded b (syncs_session session opens) = sync_session session opens b
step_recorded b records_control_error = record_control_error b
step_recorded b clears_control_error = clear_control_error b
step_recorded b clears = clear_recorded b

unfoldable pub run_recorded : RecordedLogBuffer → List Call → RecordedLogBuffer
run_recorded b [] = b
run_recorded b (c ∷ cs) = run_recorded (step_recorded b c) cs
