-- ===== src/Session/Heartbeats.antt =====
-- crates/paws_core/src/lib.rs: the heartbeats of the extension and the exit of its worker.
use paws.Base.{ℕ, Text, text, Bool, false, not, ◌&&◌, ◌||◌, ◌==◌, nat_eq, text_eq, if◌then◌else◌}
use paws.PlatformOwner.Record.{phase_eq}
use paws.PlatformOwner.Disk.{Codec}
use paws.Session.{Session, is_pending, is_connected, is_terminal, apply_platform_failure}
use paws.Session.World.{
  NativeVpnLifecycle, runs, fails, stopped, Env, Handler, ◌>>=◌, ◌>>◌, pure, guard, get, modify,
  persist, stale_attempt, no_owner,
}
use paws.Session.Remote.{sync}
use paws.Session.Updates.{set_connected, is_external}

module _ (c : Codec) (e : Env) where
  -- The session that a heartbeat leaves, by what the native worker says.
  abbrev pub tick_of : Session → NativeVpnLifecycle → Session
  tick_of s (runs generation) = set_connected s.engine s
  tick_of s (fails generation error) = apply_platform_failure error s
  tick_of s stopped =
      if is_pending s.start_outcome && s.starting
      then s
      else if s.running
      then apply_platform_failure (text "native VPN worker is not running") s
      else s

  abbrev pub is_silent : Session → NativeVpnLifecycle → Bool
  is_silent s (runs generation) = false
  is_silent s (fails generation error) = false
  is_silent s stopped = not (is_pending s.start_outcome && s.starting) && not s.running

  -- `busy`: an operation holds the lock of the worker.
  unfoldable pub tick_live : Bool → Session → Handler c (Unit {0})
  unfolding persist apply_platform_failure
  tick_live busy s =
      if is_external s.engine && s.running && is_connected s.start_outcome || busy
      then persist c e 1
      else if is_silent s e.lifecycle
      then pure tt
      else do modify c e (λ s. tick_of s e.lifecycle); persist c e 1

  abbrev pub tick_body : Bool → Session → Handler c (Unit {0})
  tick_body busy s =
      if s.stop_requested || is_terminal s.start_outcome
      then pure tt
      else do guard s.extension_attached no_owner; tick_live busy s

  abbrev pub tick_open : Bool → Text → Session → Handler c (Unit {0})
  tick_open busy attempt s = do
    guard (s.start_attempt_id == attempt) stale_attempt
    tick_body busy s

  unfoldable pub extension_tick : Bool → Text → Handler c (Unit {0})
  unfolding sync tick_live
  extension_tick busy attempt = do sync c e 0; s ← get; tick_open busy attempt s

  abbrev pub has_failed : ℕ → NativeVpnLifecycle → Bool
  has_failed generation (runs active) = false
  has_failed generation (fails active error) = active == generation
  has_failed generation stopped = false

  abbrev pub exit_open : Text → ℕ → Text → Session → Handler c (Unit {0})
  exit_open attempt generation error s =
      if has_failed generation e.lifecycle
        && s.start_attempt_id == attempt
        && not (is_terminal s.start_outcome)
      then (do modify c e (apply_platform_failure error); persist c e 0)
      else pure tt

  -- The exit of the native worker counts only while its generation is the failed one.
  unfoldable pub publish_native_vpn_exit : Text → ℕ → Text → Handler c (Unit {0})
  unfolding persist apply_platform_failure
  publish_native_vpn_exit attempt generation error = do
    s ← get
    exit_open attempt generation error s
