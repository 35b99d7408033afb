-- ===== src/Session/Remote.antt =====
-- crates/paws_core/src/lib.rs: what a session takes from the frames of the other process.
use paws.Base.{
  ℕ, ◌-◌, Text, text, Bool, true, false, not, ◌&&◌, ◌||◌, Option, none, some, ◌==◌, text_eq, ltb,
  leb, is_empty, if◌then◌else◌,
}
use paws.PlatformOwner.Disk.{Codec}
use paws.Session.{
  connected, PlatformVpnState, Session, is_pending, is_connected, is_terminal,
  apply_platform_failure, drop_leases,
}
use paws.Session.World.{Remote, envelope, nothing, unreadable, Env, World, Handler, grants, persist}

abbrev pub stale_after : ℕ
stale_after = 15000000000

abbrev pub wake_grace : ℕ
wake_grace = 6000000000

-- `now.duration_since(seen)`, which saturates.
abbrev pub seen_for : ℕ → Option ℕ → ℕ → Bool
seen_for now none limit = false
seen_for now (some seen) limit = leb limit (now - seen)

unfoldable pub heartbeat_frozen : ℕ → Bool → PlatformVpnState → Bool → Session → Bool
heartbeat_frozen now is_ui remote advanced s =
    is_ui
    && s.running
    && remote.running
    && not advanced
    && seen_for now s.remote_state_seen_at stale_after

-- `get_or_insert(now)`
abbrev pub since : ℕ → Option ℕ → ℕ
since now none = now
since now (some stale) = stale

-- `platform_heartbeat_watchdog_expired`: the answer, and the session with the start of the grace.
unfoldable pub watchdog_expired : ℕ → Bool → PlatformVpnState → Bool → Session → Bool × Session
unfolding heartbeat_frozen
watchdog_expired now is_ui remote advanced s =
    if heartbeat_frozen now is_ui remote advanced s
    then (
      leb wake_grace (now - since now s.remote_stale_since),
      record s { remote_stale_since = some (since now s.remote_stale_since) },
    )
    else if not remote.running || advanced
    then (false, record s { remote_stale_since = none })
    else (false, s)

-- Whether the other process was heard of, or its silence is young.
unfoldable pub is_heard : ℕ → Option ℕ → Option ℕ → Bool
is_heard now none stale = false
is_heard now (some seen) none = ltb (now - seen) stale_after
is_heard now (some seen) (some stale) = ltb (now - seen) stale_after || ltb (now - stale) wake_grace

-- `platform_remote_session_is_live`
unfoldable pub is_live : ℕ → Session → Bool
is_live now s =
    not (is_empty s.start_attempt_id)
    && s.extension_attached
    && not s.cleanup_complete
    && s.running
    && is_connected s.start_outcome
    && is_heard now s.remote_state_seen_at s.remote_stale_since

-- A connected session that is lost is to be recovered, once for each attempt.
unfoldable pub arm_recovery : Session → Session → Session
arm_recovery before s =
    if (before.running && is_connected before.start_outcome && not before.stop_requested)
      && not (s.auto_recovery_attempt_id == s.start_attempt_id)
    then record s {
      auto_recovery_pending = true;
      auto_recovery_attempt_id = s.start_attempt_id;
      auto_recovery_attempts = 0;
      auto_recovery_not_before = none;
    }
    else s

unfoldable pub heartbeat_stopped : Session → Session
heartbeat_stopped s =
    let failed_ = apply_platform_failure (text "VPN extension heartbeat stopped") s in
    arm_recovery s (record failed_ { watchdog_cleanup_recoverable = true })

unfoldable pub matches_attempt : PlatformVpnState → Session → Bool
matches_attempt remote s =
    not (is_empty remote.start_attempt_id) && remote.start_attempt_id == s.start_attempt_id

-- The attempt that the extension is bound for.
abbrev pub is_expected : Option Text → Text → Bool
is_expected none attempt = false
is_expected (some expected) attempt = attempt == expected

unfoldable pub adopt : PlatformVpnState → Session → Session
adopt remote s = record s {
  start_attempt_id = remote.start_attempt_id;
  start_outcome = remote.start_outcome;
  delivery_observed = remote.delivery_observed;
  extension_attached = remote.extension_attached;
  stop_requested = remote.stop_requested;
  extension_owner_pid = remote.extension_owner_pid;
  extension_owner_start_time = remote.extension_owner_start_time;
  cleanup_complete = remote.cleanup_complete;
}

unfoldable pub see_remote : ℕ → PlatformVpnState → Session → Session
see_remote now remote s = record s {
  remote_state_updated_at = remote.updated_at;
  remote_state_seen_at = some now;
  remote_stale_since = none;
}

-- A stop is the interface's to ask for and stays; the process is the extension's to name.
unfoldable pub take_owner : Bool → PlatformVpnState → Session → Session
take_owner is_ui remote s =
    let asked = record s { stop_requested = s.stop_requested || remote.stop_requested } in
    if is_ui
    then record asked {
      extension_owner_pid = remote.extension_owner_pid;
      extension_owner_start_time = remote.extension_owner_start_time;
    }
    else asked

abbrev pub settle_recovery : Session → Session
settle_recovery s =
    if s.running
    then record s { auto_recovery_pending = false; auto_recovery_not_before = none }
    else s

unfoldable pub take_outcome : PlatformVpnState → Session → Session
take_outcome remote s =
    if is_terminal remote.start_outcome
    then record s {
      start_outcome = remote.start_outcome;
      starting = false;
      running = false;
      cleanup_complete = remote.cleanup_complete;
    }
    else if not (is_terminal s.start_outcome)
    then settle_recovery (record s {
      running = remote.running;
      starting = not remote.running && remote.starting;
      cleanup_complete = false;
      start_outcome =
          (if remote.running && is_pending s.start_outcome then connected else s.start_outcome);
    })
    else s

unfoldable pub take_attachment : PlatformVpnState → Session → Session
take_attachment remote s = record s {
  extension_attached =
      (if is_terminal remote.start_outcome
        then remote.extension_attached
        else s.extension_attached || remote.extension_attached);
  delivery_observed = s.delivery_observed || remote.delivery_observed;
}

-- `local_terminal` is what the session was before.
unfoldable pub take_network : PlatformVpnState → Bool → Session → Session
take_network remote local_terminal s =
    if is_terminal remote.start_outcome || not local_terminal
    then record s {
      network_protected = remote.network_protected;
      network_protect_error = remote.network_protect_error;
      engine = (if remote.running then remote.engine else none);
      app_http_proxy = (if remote.running then remote.app_http_proxy else none);
    }
    else s

abbrev pub drop_if_clean : Session → Session
drop_if_clean s = if s.cleanup_complete then drop_leases s else s

unfoldable pub take_frame : Bool → PlatformVpnState → Session → Session
take_frame is_ui remote s = drop_if_clean (
    take_network remote (is_terminal s.start_outcome)
      (take_attachment remote (take_outcome remote (take_owner is_ui remote s))))

-- What follows the watchdog, of which the answer and the session are given.
unfoldable pub after_watchdog :
    Bool → Bool → Bool → PlatformVpnState → Bool × Session → Bool × Session
after_watchdog is_ui adopted advanced remote (true, s) = (true, heartbeat_stopped s)
after_watchdog is_ui adopted advanced remote (false, s) =
    (false, if not advanced && not adopted then s else take_frame is_ui remote s)

abbrev pub see_if : Bool → ℕ → PlatformVpnState → Session → Session
see_if true now remote s = see_remote now remote s
see_if false now remote s = s

-- The session after a frame of the attempt, and whether the watchdog gave the extension up. The
-- attempt of the frame is by now the session's.
unfoldable pub apply_matching : ℕ → Bool → Bool → PlatformVpnState → Session → Bool × Session
apply_matching now is_ui adopted remote s =
    let advanced = ltb s.remote_state_updated_at remote.updated_at in
    after_watchdog is_ui adopted advanced remote
      (watchdog_expired now is_ui remote advanced (see_if advanced now remote s))

-- `apply_platform_envelope_locked` up to the publication.
unfoldable pub apply_remote : ℕ → Bool → Option Text → PlatformVpnState → Session → Bool × Session
apply_remote now is_ui expected remote s =
    if matches_attempt remote s
    then apply_matching now is_ui false remote s
    else if not is_ui
        && is_expected expected remote.start_attempt_id
        && not (is_empty remote.start_attempt_id)
    then apply_matching now is_ui true remote (adopt remote s)
    else (false, s)

abbrev pub apply_state : ℕ → Bool → Option Text → Option PlatformVpnState → Session → Bool × Session
apply_state now is_ui expected none s = (false, s)
apply_state now is_ui expected (some remote) s = apply_remote now is_ui expected remote s

module _ (c : Codec) (e : Env) where
  -- Where the watchdog gave up, the failure is published, and a failure to do so is ignored.
  unfoldable pub apply_platform_envelope :
      ℕ → Bool → Option Text → Option PlatformVpnState → World c → World c
  apply_platform_envelope k is_ui expected remote w =
      let (expired, s) = apply_state (e.moments k).instant is_ui expected remote w.session in
      let w' = record w { session = s } in if expired then (persist c e k w').1 else w'

  abbrev pub sync_from : ℕ → Bool → Remote → World c → World c
  sync_from k is_ui (envelope remote) w = apply_platform_envelope k is_ui none remote w
  sync_from k is_ui nothing w = w
  sync_from k is_ui unreadable w = w

  abbrev pub sync_with : ℕ → Option Bool → Remote → World c → World c
  sync_with k none remote w = w
  sync_with k (some is_ui) remote w = sync_from k is_ui remote w

  -- `sync_platform_vpn_state_locked`, as far as the session goes.
  unfoldable pub sync : ℕ → Handler c (Unit {0})
  sync k w = (grants tt, sync_with k e.is_ui (e.moments k).remote w)
