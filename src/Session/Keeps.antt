-- ===== src/Session/Keeps.antt =====
-- crates/paws_core/src/lib.rs: a frame of the other process leaves the intents and the stop fence.
use paws.Base.{
  ℕ, ◌≡◌, refl, Text, Bool, true, false, Option, none, some, arith, if◌then◌else◌, text_eq,
}
use paws.PlatformOwner.Disk.{Codec}
use paws.Session.{Session, PlatformVpnState, drop_leases, apply_platform_failure}
use paws.Session.World.{
  Publication, delivered, unwritten, unnotified, Remote, envelope, nothing, unreadable, Env, World,
  stamped, publish_to, persist,
}
use paws.Session.Remote.{
  watchdog_expired, arm_recovery, heartbeat_stopped, adopt, see_remote, take_owner, take_outcome,
  take_attachment, take_network, take_frame, apply_state, apply_platform_envelope, sync_with,
}
use paws.Session.Frames.{
  Step, sees, watches, gives_up, takes, Steps, here, next, apply_matching-Steps, Frame, known,
  adopted, apply_state-Frame,
}

-- The intents and the fence of the second session are those of the first.
pub record Keeps (s t : Session) : Type 0 where
  pub intent : t.intent_epoch ≡ s.intent_epoch
  pub epoch : t.os_stop_epoch ≡ s.os_stop_epoch
  pub in_flight : t.os_stop_in_flight ≡ s.os_stop_in_flight

Keeps-refl : (s : Session) → Keeps s s
Keeps-refl s = record { intent = refl; epoch = refl; in_flight = refl }

Keeps-trans : (s t u : Session) → Keeps s t → Keeps t u → Keeps s u
Keeps-trans s t u h k = ground arith

Step-Keeps : {s t : Session} → Step s t → Keeps s t
unfolding see_remote watchdog_expired heartbeat_stopped arm_recovery apply_platform_failure
    take_frame take_owner take_outcome take_attachment take_network drop_leases
Step-Keeps (sees now r) = ground arith
Step-Keeps (watches now is_ui r advanced) = ground arith
Step-Keeps gives_up = ground arith
Step-Keeps (takes is_ui r) = ground arith

Steps-Keeps : {s t : Session} → Steps s t → Keeps s t
Steps-Keeps {s} here = Keeps-refl s
Steps-Keeps {s} {t = u} (next {t} m v) = Keeps-trans s t u (Steps-Keeps m) (Step-Keeps v)

Frame-Keeps : {expected : Option Text} {s t : Session} → Frame expected s t → Keeps s t
unfolding adopt
Frame-Keeps (known m) = Steps-Keeps m
Frame-Keeps {expected} {s} {t} (adopted now r m e n) =
    Keeps-trans s (adopt r s) t (record { intent = refl; epoch = refl; in_flight = refl })
      (Steps-Keeps (apply_matching-Steps now false true r (adopt r s)))

pub apply_state-Keeps :
    (now : ℕ) (is_ui : Bool) (expected : Option Text) (r : Option PlatformVpnState) (s : Session)
    → Keeps s (apply_state now is_ui expected r s).1
apply_state-Keeps now is_ui expected r s = Frame-Keeps (apply_state-Frame now is_ui expected r s)

module _ (c : Codec) (e : Env) where
  persist-Keeps : (n : ℕ) (w : World c) → Keeps w.session (persist c e n w).1.session
  unfolding persist
  persist-Keeps n w = go e.is_ui (e.moments n).publication
    where
      go :
          (side : Option Bool) (p : Publication)
          → Keeps w.session (publish_to c e side (stamped c e n w.session) p w).1.session
      go none p = record { intent = refl; epoch = refl; in_flight = refl }
      go (some ui) delivered = record { intent = refl; epoch = refl; in_flight = refl }
      go (some ui) unwritten = record { intent = refl; epoch = refl; in_flight = refl }
      go (some ui) unnotified = record { intent = refl; epoch = refl; in_flight = refl }

  pub envelope-Keeps :
      (n : ℕ) (is_ui : Bool) (expected : Option Text) (r : Option PlatformVpnState) (w : World c)
      → Keeps w.session (apply_platform_envelope c e n is_ui expected r w).session
  unfolding apply_platform_envelope
  envelope-Keeps n is_ui expected r w =
      go (apply_state (e.moments n).instant is_ui expected r w.session)
        (apply_state-Keeps (e.moments n).instant is_ui expected r w.session)
    where
      go :
          (p : Bool × Session)
          → Keeps w.session p.1
          → Keeps w.session
              (if p.0
                then (persist c e n (record w { session = p.1 })).1
                else record w { session = p.1 }).session
      go (true, s) h =
          Keeps-trans w.session s (persist c e n (record w { session = s })).1.session h
            (persist-Keeps n (record w { session = s }))
      go (false, s) h = h

  pub sync-Keeps :
      (n : ℕ) (w : World c)
      → Keeps w.session (sync_with c e n e.is_ui (e.moments n).remote w).session
  sync-Keeps n w = go e.is_ui (e.moments n).remote
    where
      go : (side : Option Bool) (r : Remote) → Keeps w.session (sync_with c e n side r w).session
      go none r = Keeps-refl w.session
      go (some is_ui) (envelope r) = envelope-Keeps n is_ui none r w
      go (some is_ui) nothing = Keeps-refl w.session
      go (some is_ui) unreadable = Keeps-refl w.session
