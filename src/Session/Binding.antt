-- ===== src/Session/Binding.antt =====
-- crates/paws_core/src/lib.rs: the extension takes the attempt of the start that woke it.
use paws.Base.{
  Text, Bool, true, false, not, ◌&&◌, ◌||◌, Option, none, some, ◌==◌, nat_eq, text_eq, is_empty,
  if◌then◌else◌,
}
use paws.PlatformOwner.Record.{
  ProcessIdentity, identity_eq, PlatformVpnOwnerPhase, PlatformVpnOwnerJournal, JournalRead,
  missing, present,
}
use paws.PlatformOwner.Lease.{PlatformVpnOwnerLeaseObservation, held_exact, held_other, released}
use paws.PlatformOwner.Disk.{Codec}
use paws.PlatformOwner.{read, upgrade_attached_exact, rebind_attached_exact}
use paws.Session.{Session, PlatformVpnState, pending, is_pending, is_connected, is_terminal}
use paws.Session.World.{
  grants, refuses, Refusal, Remote, envelope, nothing, unreadable, Env, Handler, ◌>>=◌, ◌>>◌, pure,
  refuse, guard, get, modify, on_journal, persist, lease_refused, lease_released, lease_unverified,
  empty_attempt, stale_attempt, terminal_attempt, journal_missing, journal_stale, still_owned,
  invalid_phase, superseded_after_attachment, not_in_extension, no_ui_state, not_active,
  unreadable_platform,
}
use paws.Session.Remote.{sync, apply_platform_envelope}
use paws.Session.Starts.{current_process_identity}

-- The extension was recreated: only the start of its attempt is reopened.
unfoldable pub reopen : Bool → Session → Session
reopen native_running s =
    if is_connected s.start_outcome && not native_running
    then record s {
      start_outcome = pending;
      starting = true;
      running = false;
      cleanup_complete = false;
      network_protected = false;
      network_protect_error = none;
      watchdog_cleanup_recoverable = false;
    }
    else s

-- The frames of the memory before say nothing about the new one.
abbrev pub forget_remote : Session → Session
forget_remote s = record s {
  remote_state_updated_at = 0;
  remote_state_seen_at = none;
  remote_stale_since = none;
  watchdog_cleanup_recoverable = false;
}

-- `attach_platform_shared_memory`: whether the descriptors are good, and the own frame that the new
-- memory has.
unfoldable pub attach_platform_shared_memory :
    (c : Codec) → Bool → Option PlatformVpnState → Handler c (Unit {0})
attach_platform_shared_memory c false lane w = (refuses unreadable_platform, w)
attach_platform_shared_memory c true lane w =
    (grants tt, record w { session = forget_remote w.session; lane = lane })

abbrev pub name_owner : ProcessIdentity → Session → Session
name_owner owner s = record s {
  extension_owner_pid = owner.pid;
  extension_owner_start_time = owner.start_time;
}

abbrev pub owner_changed : ProcessIdentity → Session → Bool
owner_changed owner s =
    not (s.extension_owner_pid == owner.pid)
    || not (s.extension_owner_start_time == owner.start_time)

abbrev pub attach : Session → Session
attach s = record s {
  delivery_observed = true;
  extension_attached = true;
  cleanup_complete = false;
  watchdog_cleanup_recoverable = false;
}

abbrev pub keep_lease : Bool → Session → Session
keep_lease taken s = record s { extension_lease = s.extension_lease || taken }

-- `validate_platform_start_envelope`: why the frame is refused.
abbrev pub start_refusal : Text → Option PlatformVpnState → Option Refusal
start_refusal attempt none = if is_empty attempt then some empty_attempt else some no_ui_state
start_refusal attempt (some r) =
    if is_empty attempt
    then some empty_attempt
    else if not (r.start_attempt_id == attempt)
    then some stale_attempt
    else if is_pending r.start_outcome || is_connected r.start_outcome
    then none
    else some not_active

module _ (c : Codec) (e : Env) where
  abbrev pub take_envelope : Text → Option PlatformVpnState → Handler c (Unit {0})
  take_envelope attempt remote w =
      pure tt (apply_platform_envelope c e 0 false (some attempt) remote w)

  abbrev pub take_valid : Text → Option PlatformVpnState → Option Refusal → Handler c (Unit {0})
  take_valid attempt remote none = take_envelope attempt remote
  take_valid attempt remote (some refusal) = refuse refusal

  abbrev pub bind_remote : Text → Remote → Handler c (Unit {0})
  bind_remote attempt unreadable = refuse unreadable_platform
  bind_remote attempt nothing = refuse no_ui_state
  bind_remote attempt (envelope remote) = take_valid attempt remote (start_refusal attempt remote)

  abbrev pub bind_side : Text → Option Bool → Handler c (Unit {0})
  bind_side attempt none = pure tt
  bind_side attempt (some true) = refuse not_in_extension
  bind_side attempt (some false) = bind_remote attempt (e.moments 0).remote

  unfoldable pub sync_for_binding : Text → Handler c (Unit {0})
  unfolding apply_platform_envelope
  sync_for_binding attempt = bind_side attempt e.is_ui

  abbrev pub expect_held : Option PlatformVpnOwnerLeaseObservation → Handler c (Unit {0})
  expect_held none = refuse lease_refused
  expect_held (some held_exact) = pure tt
  expect_held (some released) = refuse lease_released
  expect_held (some held_other) = refuse lease_unverified

  abbrev pub expect_released : Option PlatformVpnOwnerLeaseObservation → Handler c (Unit {0})
  expect_released none = refuse lease_refused
  expect_released (some released) = pure tt
  expect_released (some held_exact) = refuse still_owned
  expect_released (some held_other) = refuse lease_unverified

  abbrev pub rebind_by :
      PlatformVpnOwnerJournal → ProcessIdentity → ProcessIdentity → Bool → Bool → Handler c Bool
  rebind_by j owner current true true = pure false
  rebind_by j owner current false true = do guard (e.moments 2).acquires lease_refused; pure true
  rebind_by j owner current has_lease false = do
    expect_released (e.moments 1).observes
    guard (e.moments 2).acquires lease_refused
    on_journal c e 2 (λ f. rebind_attached_exact c f j.attempt_id j.issuer current owner)
    pure true

  unfoldable pub rebind_owner :
      PlatformVpnOwnerJournal → ProcessIdentity → ProcessIdentity → Bool → Handler c Bool
  unfolding on_journal
  rebind_owner j owner current has_lease = rebind_by j owner current has_lease (current == owner)

  -- Whether a new lease was taken.
  unfoldable pub own_journal :
      PlatformVpnOwnerJournal
      → ProcessIdentity
      → Bool
      → PlatformVpnOwnerPhase
      → Option ProcessIdentity
      → Handler c Bool
  unfolding rebind_owner on_journal
  own_journal j owner has_lease PlatformVpnOwnerPhase.pending none = do
    expect_held (e.moments 1).observes
    guard (e.moments 2).acquires lease_refused
    on_journal c e 2 (λ f. upgrade_attached_exact c f j.attempt_id j.issuer owner)
    pure true
  own_journal j owner has_lease PlatformVpnOwnerPhase.attached (some current) =
      rebind_owner j owner current has_lease
  own_journal j owner has_lease _ _ = refuse invalid_phase

  abbrev pub own_found : Text → JournalRead → Handler c PlatformVpnOwnerJournal
  own_found attempt missing = refuse journal_missing
  own_found attempt (present j) = do guard (j.attempt_id == attempt) journal_stale; pure j

  unfoldable pub read_own : Text → Handler c PlatformVpnOwnerJournal
  unfolding on_journal
  read_own attempt = do found ← on_journal c e 1 (read c); own_found attempt found

  abbrev pub publish_attached : Bool → Session → Handler c (Unit {0})
  publish_attached changed s =
      if not s.extension_attached
      then (do modify c e attach; persist c e 4)
      else if is_pending s.start_outcome && s.starting && not s.running
      then (do modify c e (λ s. record s { delivery_observed = true }); persist c e 4)
      else if changed
      then persist c e 4
      else pure tt

  unfoldable pub publish_synced : Text → ProcessIdentity → Session → Handler c (Unit {0})
  unfolding persist
  publish_synced attempt owner s = do
    guard (s.start_attempt_id == attempt) superseded_after_attachment
    modify c e (name_owner owner)
    publish_attached (owner_changed owner s) s

  -- `publish_platform_vpn_binding_locked`
  unfoldable pub publish_binding : Text → ProcessIdentity → Handler c (Unit {0})
  unfolding sync publish_synced
  publish_binding attempt owner = do sync c e 3; s ← get; publish_synced attempt owner s

  unfoldable pub own_read : ProcessIdentity → Bool → PlatformVpnOwnerJournal → Handler c Bool
  unfolding own_journal
  own_read owner has_lease j = own_journal j owner has_lease j.phase j.extension

  unfoldable pub bind_synced : Text → ProcessIdentity → Session → Handler c (Unit {0})
  unfolding reopen read_own own_read publish_binding
  bind_synced attempt owner s = do
    guard (s.start_attempt_id == attempt) stale_attempt
    guard (not (is_terminal s.start_outcome)) terminal_attempt
    modify c e (reopen e.native_running)
    j ← read_own attempt
    taken ← own_read owner s.extension_lease j
    modify c e (keep_lease taken)
    publish_binding attempt owner

  unfoldable pub bind_platform_vpn_start : Text → Handler c (Unit {0})
  unfolding sync_for_binding bind_synced
  bind_platform_vpn_start attempt = do
    guard (not (is_empty attempt)) empty_attempt
    owner ← current_process_identity c e
    sync_for_binding attempt
    s ← get
    bind_synced attempt owner s
