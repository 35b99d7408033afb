-- ===== src/Session/Leads/Heartbeats.antt =====
-- crates/paws_core/src/lib.rs: heartbeats and the exit of the worker move the session along.
use paws.Base.{
  ℕ, ◌≡◌, Text, text, Bool, true, false, not, ◌&&◌, ◌||◌, arith, ◌==◌, text_eq, nat_eq,
  if◌then◌else◌,
}
use paws.PlatformOwner.Disk.{Codec}
use paws.Session.{Session, is_pending, is_connected, is_terminal, apply_platform_failure}
use paws.Session.World.{
  NativeVpnLifecycle, runs, stopped, Env, World, ◌>>◌, pure, modify, persist, stale_attempt,
  no_owner,
}
use paws.Session.Updates.{is_external}
use paws.Session.Heartbeats.{
  tick_of, is_silent, tick_live, tick_body, tick_open, extension_tick, has_failed,
  publish_native_vpn_exit,
}
use paws.Session.Moves.{Scope, Moves, Moves-trans, here, next, fails, connects}
use paws.Session.Leads.{Leads, Leads-if, Leads-guard, Leads-persist, Leads-synced, Leads-modify}

module _ (c : Codec) (e : Env) (a : Scope) (b : Bool) where
  -- What the native worker shows is taken as one move, or as none.
  ticks-Moves :
      (l : NativeVpnLifecycle) (w : World c)
      → is_terminal w.session.start_outcome ≡ false
      → Moves a b w.session (tick_of c e w.session l)
  ticks-Moves (runs generation) w h = next here (connects w.session.engine h)
  ticks-Moves (NativeVpnLifecycle.fails generation error) w h = next here (fails error h)
  ticks-Moves stopped w h =
      go (is_pending w.session.start_outcome && w.session.starting) w.session.running
    where
      go :
          (waits running : Bool)
          → Moves a b w.session (
              if waits
              then w.session
              else if running
              then apply_platform_failure (text "native VPN worker is not running") w.session
              else w.session)
      go true running = here
      go false true = next here (fails (text "native VPN worker is not running") h)
      go false false = here

  tick_live-Leads :
      (busy : Bool) (w : World c)
      → is_terminal w.session.start_outcome ≡ false
      → Leads c e a b (tick_live c e busy w.session) w
  unfolding tick_live
  tick_live-Leads busy w h =
      let s = w.session in
      let f = λ (s : Session). tick_of c e s e.lifecycle in
      Leads-if c e a b (is_external s.engine && s.running && is_connected s.start_outcome || busy)
        (persist c e 1) _ w (λ _. Leads-persist c e a b 1 w)
        (λ _.
          Leads-if c e a b (is_silent c e s e.lifecycle) (pure tt) (do modify c e f; persist c e 1)
            w (λ _. here)
            (λ _.
              Moves-trans (ticks-Moves e.lifecycle w h)
                (Leads-persist c e a b 1 (record w { session = f s }))))

  tick_body-Leads : (busy : Bool) (w : World c) → Leads c e a b (tick_body c e busy w.session) w
  tick_body-Leads busy w =
      let s = w.session in
      Leads-if c e a b (s.stop_requested || is_terminal s.start_outcome) (pure tt) _ w (λ _. here)
        (λ h.
          Leads-guard c e a b s.extension_attached no_owner (tick_live c e busy s) w
            (λ _. tick_live-Leads busy w (ground (arith, h))))

  pub tick-Leads :
      (busy : Bool) (attempt : Text) (w : World c)
      → Leads c e a b (extension_tick c e busy attempt) w
  unfolding extension_tick
  tick-Leads busy attempt w = Leads-synced c e a b 0 (tick_open c e busy attempt) w (λ v _.
      Leads-guard c e a b (v.session.start_attempt_id == attempt) stale_attempt
        (tick_body c e busy v.session) v (λ _. tick_body-Leads busy v))

  pub exit-Leads :
      (attempt : Text) (generation : ℕ) (error : Text) (w : World c)
      → Leads c e a b (publish_native_vpn_exit c e attempt generation error) w
  unfolding publish_native_vpn_exit
  exit-Leads attempt generation error w =
      let s = w.session in
      Leads-if c e a b
        (has_failed c e generation e.lifecycle
          && s.start_attempt_id == attempt
          && not (is_terminal s.start_outcome))
        (do modify c e (apply_platform_failure error); persist c e 0) (pure tt) w
        (λ h.
          Leads-modify c e a b (apply_platform_failure error) (persist c e 0) w
            (fails error (ground (arith, h)))
            (Leads-persist c e a b 0 (record w { session = apply_platform_failure error s })))
        (λ _. here)
