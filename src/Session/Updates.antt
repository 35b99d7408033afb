-- ===== src/Session/Updates.antt =====
-- crates/paws_core/src/lib.rs: what the extension and the interface report about an attempt.
use paws.Base.{
  Text, Bool, true, false, not, ◌&&◌, ◌||◌, Option, none, some, ◌==◌, nat_eq, text_eq, is_empty,
  trim, if◌then◌else◌,
}
use paws.PlatformOwner.Record.{phase_eq}
use paws.PlatformOwner.Disk.{Codec}
use paws.Session.{
  Session, VpnEngine, auto, meow, mihomo, sing_box, connected, cancelled, failed, is_pending,
  is_connected, is_failed, is_terminal, apply_platform_failure,
}
use paws.Session.World.{
  unsupported_engine, Env, Handler, ◌>>=◌, ◌>>◌, pure, guard, get, modify, persist, not_active,
}
use paws.Session.Remote.{sync}
use paws.Session.Recovery.{forget_recovery}

-- `platform_attempt_accepts_updates`
unfoldable pub accepts_updates : Text → Session → Bool
accepts_updates attempt s =
    not (is_empty attempt)
    && s.start_attempt_id == attempt
    && s.extension_attached
    && (is_pending s.start_outcome || is_connected s.start_outcome)

abbrev pub set_starting : Bool → Session → Session
set_starting true s = record s {
  starting = true;
  running = false;
  network_protected = false;
  network_protect_error = none;
}
set_starting false s = record s { starting = false }

-- `error.filter(|value| !value.trim().is_empty())`
abbrev pub filter_blank : Option Text → Option Text
filter_blank none = none
filter_blank (some error) = if is_empty (trim error) then none else some error

-- The native worker runs.
abbrev pub set_connected : Option VpnEngine → Session → Session
set_connected engine s = record s {
  starting = false;
  running = true;
  engine = engine;
  start_outcome = (if is_pending s.start_outcome then connected else s.start_outcome);
}

-- `Some(VpnEngine::Mihomo | VpnEngine::SingBox)`
abbrev pub is_external : Option VpnEngine → Bool
is_external none = false
is_external (some auto) = false
is_external (some meow) = false
is_external (some mihomo) = true
is_external (some sing_box) = true

-- `ensure_platform_attempt_active`
abbrev pub is_active : Text → Session → Bool
is_active attempt s =
    not (is_empty attempt)
    && s.start_attempt_id == attempt
    && s.extension_attached
    && (is_pending s.start_outcome || is_connected s.start_outcome)

-- The first half of `stop_vpn_inner`, for one attempt.
unfoldable pub stop_attempt : Session → Session
stop_attempt s = record s {
  starting = false;
  running = false;
  engine = none;
  stop_requested = true;
  start_outcome = (if is_failed s.start_outcome then failed else cancelled);
  network_protected = false;
  network_protect_error = (if is_failed s.start_outcome then s.network_protect_error else none);
}

-- Its second half, after the native worker has stopped.
unfoldable pub stop_ended : Session → Session
stop_ended s = record s {
  starting = false;
  running = false;
  engine = none;
  start_outcome = (if is_pending s.start_outcome then cancelled else s.start_outcome);
  network_protected = false;
  network_protect_error = (if is_failed s.start_outcome then s.network_protect_error else none);
}

unfoldable pub may_request_stop : Session → Bool
may_request_stop s =
    s.extension_attached && not s.watchdog_cleanup_recoverable && not (is_terminal s.start_outcome)

module _ (c : Codec) (e : Env) where
  -- An update of the extension for an attempt that is open.
  abbrev pub on_open : Text → (Session → Bool) → (Session → Session) → Session → Handler c Bool
  on_open attempt allowed f s =
      if accepts_updates attempt s && allowed s
      then (do modify c e f; persist c e 1; pure true)
      else pure false

  abbrev pub on_attempt : Text → (Session → Bool) → (Session → Session) → Handler c Bool
  on_attempt attempt allowed f = do sync c e 0; s ← get; on_open attempt allowed f s

  unfoldable pub set_platform_vpn_starting_for_attempt : Text → Bool → Handler c Bool
  unfolding accepts_updates sync persist
  set_platform_vpn_starting_for_attempt attempt starting_ =
      on_attempt attempt (λ s. not starting_ || is_pending s.start_outcome) (set_starting starting_)

  unfoldable pub set_platform_vpn_failed_for_attempt : Text → Text → Handler c Bool
  unfolding accepts_updates sync persist apply_platform_failure
  set_platform_vpn_failed_for_attempt attempt error =
      on_attempt attempt (λ s. true) (apply_platform_failure error)

  unfoldable pub set_platform_network_protected_for_attempt :
      Text → Bool → Option Text → Handler c Bool
  unfolding accepts_updates sync persist
  set_platform_network_protected_for_attempt attempt protected error =
      on_attempt attempt (λ s. true)
        (λ s. record s {
          network_protected = protected;
          network_protect_error = filter_blank error;
        })

  abbrev pub commit_engine : Option Text → Handler c (Unit {0})
  commit_engine proxy = do
    modify c e (set_connected (some meow))
    modify c e (λ s. record s { app_http_proxy = proxy })
    persist c e 1

  abbrev pub commit_open : Text → Option Text → Session → Handler c (Unit {0})
  commit_open attempt proxy s = do guard (is_active attempt s) not_active; commit_engine proxy

  -- The commit of `start_vpn_inner`, after the native worker has started. `start_vpn` commits for no
  -- attempt, and then nothing is checked.
  unfoldable pub commit_start : Option Text → Option Text → Handler c (Unit {0})
  unfolding sync persist
  commit_start none proxy = commit_engine proxy
  commit_start (some attempt) proxy = do sync c e 0; s ← get; commit_open attempt proxy s

  abbrev pub external_open : Text → VpnEngine → Session → Handler c (Unit {0})
  external_open attempt engine s = do
    guard (is_active attempt s) not_active
    modify c e (λ s. record (set_connected (some engine) s) { start_outcome = connected })
    persist c e 1

  unfoldable pub start_external_platform_vpn : Text → VpnEngine → Handler c (Unit {0})
  unfolding sync persist
  start_external_platform_vpn attempt engine = do
    guard (is_external (some engine)) unsupported_engine
    sync c e 0
    s ← get
    external_open attempt engine s

  abbrev pub stop_open : Text → Session → Handler c Bool
  stop_open attempt s =
      if s.start_attempt_id == attempt
      then (do modify c e stop_attempt; persist c e 1; pure true)
      else pure false

  unfoldable pub begin_stop_platform_vpn : Text → Handler c Bool
  unfolding sync persist stop_attempt
  begin_stop_platform_vpn attempt = do sync c e 0; s ← get; stop_open attempt s

  abbrev pub is_other : Option Text → Text → Bool
  is_other none current = false
  is_other (some attempt) current = not (current == attempt)

  -- Also for a stop of no attempt in particular.
  unfoldable pub end_stop_platform_vpn : Option Text → Handler c Bool
  unfolding persist stop_ended
  end_stop_platform_vpn attempt = do
    s ← get
    if is_other attempt s.start_attempt_id
        then pure true
        else do modify c e stop_ended; persist c e 0; pure true

  unfoldable pub ask_stop : Handler c Bool
  unfolding persist
  ask_stop = do
    s ← get
    modify c e forget_recovery
    if s.stop_requested
        then pure true
        else (do modify c e (λ s. record s { stop_requested = true }); persist c e 1; pure true)

  abbrev pub request_open : Text → Session → Handler c Bool
  request_open attempt s =
      if not (s.start_attempt_id == attempt)
      then pure false
      else if s.cleanup_complete
      then pure true
      else if may_request_stop s
      then ask_stop
      else pure false

  unfoldable pub request_platform_vpn_stop : Text → Handler c Bool
  unfolding sync ask_stop may_request_stop
  request_platform_vpn_stop attempt =
      if is_empty attempt then pure false else do sync c e 0; s ← get; request_open attempt s
