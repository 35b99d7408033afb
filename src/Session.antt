-- ===== src/Session.antt =====
-- crates/paws_core/src/lib.rs: the session of the platform VPN that a core keeps, the part of
-- `CoreState` that starts, stops, binds and recovers it, and the state that it publishes to the
-- other process.
pub mod World
pub mod Remote
pub mod Stops
pub mod Starts
pub mod Binding
pub mod Cleanup
pub mod Recovery
pub mod Updates
pub mod Heartbeats
pub mod Calls
pub mod Moves
pub mod Frames
pub mod Keeps
pub mod Leads
pub mod Histories
pub mod Validity
pub mod Invariants
pub mod Intents
pub mod Watchdog
pub mod Promises
pub mod Grants
pub mod Journals
pub mod Bindings
pub mod Owners
pub mod Departures
pub mod Fences
pub mod Fates
mod Examples
mod OwnerExamples
use paws.Base.{ℕ, Text, Bool, true, false, Option, none, some, is_empty, [], ◌||◌, if◌then◌else◌}

pub data PlatformStartOutcome : Type 0 where
  idle pending connected failed cancelled : PlatformStartOutcome

abbrev pub is_idle : PlatformStartOutcome → Bool
is_idle idle = true
is_idle pending = false
is_idle connected = false
is_idle failed = false
is_idle cancelled = false

abbrev pub is_pending : PlatformStartOutcome → Bool
is_pending idle = false
is_pending pending = true
is_pending connected = false
is_pending failed = false
is_pending cancelled = false

abbrev pub is_connected : PlatformStartOutcome → Bool
is_connected idle = false
is_connected pending = false
is_connected connected = true
is_connected failed = false
is_connected cancelled = false

abbrev pub is_failed : PlatformStartOutcome → Bool
is_failed idle = false
is_failed pending = false
is_failed connected = false
is_failed failed = true
is_failed cancelled = false

-- `matches!(outcome, Failed | Cancelled)`
abbrev pub is_terminal : PlatformStartOutcome → Bool
is_terminal idle = false
is_terminal pending = false
is_terminal connected = false
is_terminal failed = true
is_terminal cancelled = true

pub data VpnEngine : Type 0 where
  auto meow mihomo sing_box : VpnEngine

-- What one process publishes to the other.
pub record PlatformVpnState : Type 0 where
  pub start_attempt_id : Text
  pub start_outcome : PlatformStartOutcome
  pub delivery_observed : Bool
  pub extension_attached : Bool
  pub stop_requested : Bool
  pub extension_owner_pid : ℕ
  pub extension_owner_start_time : ℕ
  pub cleanup_complete : Bool
  pub starting : Bool
  pub running : Bool
  pub network_protected : Bool
  pub network_protect_error : Option Text
  pub engine : Option VpnEngine
  pub app_http_proxy : Option Text
  pub updated_at : ℕ

-- The fields of `CoreState` about the platform VPN, without their prefix `platform_`. A lease is
-- there or not.
pub record Session : Type 0 where
  pub starting : Bool
  pub running : Bool
  pub engine : Option VpnEngine
  pub intent_epoch : ℕ
  pub os_stop_epoch : ℕ
  pub os_stop_attempt_id : Text
  pub os_stop_in_flight : Bool
  pub issuer_lease : Bool
  pub extension_lease : Bool
  pub start_sequence : ℕ
  pub start_attempt_id : Text
  pub start_outcome : PlatformStartOutcome
  pub delivery_observed : Bool
  pub extension_attached : Bool
  pub stop_requested : Bool
  pub extension_owner_pid : ℕ
  pub extension_owner_start_time : ℕ
  pub cleanup_complete : Bool
  pub network_protected : Bool
  pub network_protect_error : Option Text
  pub app_http_proxy : Option Text
  pub state_updated_at : ℕ
  pub remote_state_updated_at : ℕ
  pub remote_state_seen_at : Option ℕ
  pub remote_stale_since : Option ℕ
  pub watchdog_cleanup_recoverable : Bool
  pub auto_recovery_pending : Bool
  pub auto_recovery_attempt_id : Text
  pub auto_recovery_attempts : ℕ
  pub auto_recovery_not_before : Option ℕ

-- `CoreState::default`
abbrev pub initial : Session
initial = record {
  starting = false;
  running = false;
  engine = none;
  intent_epoch = 0;
  os_stop_epoch = 0;
  os_stop_attempt_id = [];
  os_stop_in_flight = false;
  issuer_lease = false;
  extension_lease = false;
  start_sequence = 0;
  start_attempt_id = [];
  start_outcome = idle;
  delivery_observed = false;
  extension_attached = false;
  stop_requested = false;
  extension_owner_pid = 0;
  extension_owner_start_time = 0;
  cleanup_complete = false;
  network_protected = false;
  network_protect_error = none;
  app_http_proxy = none;
  state_updated_at = 0;
  remote_state_updated_at = 0;
  remote_state_seen_at = none;
  remote_stale_since = none;
  watchdog_cleanup_recoverable = false;
  auto_recovery_pending = false;
  auto_recovery_attempt_id = [];
  auto_recovery_attempts = 0;
  auto_recovery_not_before = none;
}

-- `platform_vpn_state`
unfoldable pub platform_vpn_state : Session → PlatformVpnState
platform_vpn_state s = record {
  start_attempt_id = s.start_attempt_id;
  start_outcome = s.start_outcome;
  delivery_observed = s.delivery_observed;
  extension_attached = s.extension_attached;
  stop_requested = s.stop_requested;
  extension_owner_pid = s.extension_owner_pid;
  extension_owner_start_time = s.extension_owner_start_time;
  cleanup_complete = s.cleanup_complete;
  starting = s.starting;
  running = s.running;
  network_protected = s.network_protected;
  network_protect_error = s.network_protect_error;
  engine = s.engine;
  app_http_proxy = if s.running then s.app_http_proxy else none;
  updated_at = s.state_updated_at;
}

-- `apply_platform_failure`
unfoldable pub apply_platform_failure : Text → Session → Session
apply_platform_failure error s = record s {
  starting = false;
  running = false;
  network_protected = false;
  network_protect_error = some error;
  start_outcome = failed;
  remote_stale_since = none;
}

-- The cleanup barrier is gone, and with it the leases.
unfoldable pub drop_leases : Session → Session
drop_leases s = record s { issuer_lease = false; extension_lease = false }
