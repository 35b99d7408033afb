-- ===== src/Session/Validity.antt =====
-- crates/paws_core/src/lib.rs: the invariant of a session, kept by every call.
use paws.Base.{
  ℕ, ◌≤◌, ◌≡◌, refl, Text, Bool, true, false, not, ◌||◌, Option, none, arith, ◌==◌, nat_eq, text_eq,
  ltb, if◌then◌else◌,
}
use paws.Session.{Session, PlatformVpnState, is_terminal, apply_platform_failure, drop_leases}
use paws.Session.Remote.{
  watchdog_expired, arm_recovery, heartbeat_stopped, adopt, see_remote, take_owner, take_outcome,
  take_attachment, take_network, take_frame, after_watchdog, see_if, apply_matching, apply_state,
}
use paws.Session.Frames.{
  Step, sees, watches, gives_up, takes, Steps, here, next, Frame, known, adopted, apply_state-Frame,
}

-- An attempt that has ended neither starts nor runs, and none does both; only an attempt that has
-- ended is clean, and then its leases are gone; a stop in flight has its fence; a lost session is
-- recovered at most three times.
pub record IsSession (s : Session) : Type 0 where
  pub ended : is_terminal s.start_outcome ≡ true → (s.running ≡ false) × (s.starting ≡ false)
  pub either : s.running ≡ true → s.starting ≡ false
  pub cleaned : s.cleanup_complete ≡ true → is_terminal s.start_outcome ≡ true
  pub released : s.cleanup_complete ≡ true → (s.issuer_lease ≡ false) × (s.extension_lease ≡ false)
  pub fenced : s.os_stop_in_flight ≡ true → (s.os_stop_epoch == 0) ≡ false
  pub bounded : s.auto_recovery_attempts ≤ 3

take_frame-IsSession :
    (is_ui : Bool) (r : PlatformVpnState) (s : Session)
    → IsSession s
    → IsSession (take_frame is_ui r s)
unfolding take_frame take_owner take_outcome take_attachment take_network drop_leases
take_frame-IsSession is_ui r s v = ground arith

heartbeat_stopped-IsSession : (s : Session) → IsSession s → IsSession (heartbeat_stopped s)
unfolding heartbeat_stopped arm_recovery apply_platform_failure
heartbeat_stopped-IsSession s v = ground arith

-- A change that the invariant does not read, and one of the watchdog's start.
watchdog_expired-IsSession :
    (now : ℕ) (is_ui : Bool) (r : PlatformVpnState) (advanced : Bool) (s : Session)
    → IsSession s
    → IsSession (watchdog_expired now is_ui r advanced s).1
unfolding watchdog_expired
watchdog_expired-IsSession now is_ui r advanced s v = ground arith

see_remote-IsSession :
    (now : ℕ) (r : PlatformVpnState) (s : Session) → IsSession s → IsSession (see_remote now r s)
unfolding see_remote
see_remote-IsSession now r s v = ground arith

Step-IsSession : {s t : Session} → Step s t → IsSession s → IsSession t
Step-IsSession {s} (sees now r) v = see_remote-IsSession now r s v
Step-IsSession {s} (watches now is_ui r advanced) v =
    watchdog_expired-IsSession now is_ui r advanced s v
Step-IsSession {s} gives_up v = heartbeat_stopped-IsSession s v
Step-IsSession {s} (takes is_ui r) v = take_frame-IsSession is_ui r s v

Steps-IsSession : {s t : Session} → Steps s t → IsSession s → IsSession t
Steps-IsSession here v = v
Steps-IsSession (next m n) v = Step-IsSession n (Steps-IsSession m v)

-- What an adopted session lacks of the invariant, its frame restores.
record IsAdopted (r : PlatformVpnState) (s : Session) : Type 0 where
  pub same : s.start_outcome ≡ r.start_outcome
  pub fenced : s.os_stop_in_flight ≡ true → (s.os_stop_epoch == 0) ≡ false
  pub bounded : s.auto_recovery_attempts ≤ 3

adopted_frame-IsSession :
    (r : PlatformVpnState) (s : Session) → IsAdopted r s → IsSession (take_frame false r s)
unfolding take_frame take_owner take_outcome take_attachment take_network drop_leases
adopted_frame-IsSession r s v = ground arith

see_if-IsAdopted :
    (b : Bool) (now : ℕ) (r : PlatformVpnState) (s : Session)
    → IsAdopted r s
    → IsAdopted r (see_if b now r s)
unfolding see_remote
see_if-IsAdopted true now r s v = record { same = v.same; fenced = v.fenced; bounded = v.bounded }
see_if-IsAdopted false now r s v = v

-- The watchdog is the interface's.
watchdog_spares :
    (now : ℕ) (r : PlatformVpnState) (advanced : Bool) (s : Session)
    → IsAdopted r s
    → ((watchdog_expired now false r advanced s).0 ≡ false)
      × IsAdopted r (watchdog_expired now false r advanced s).1
unfolding watchdog_expired
watchdog_spares now r advanced s v = go (not r.running || advanced)
  where
    end : Bool → Bool × Session
    end b = if b then (false, record s { remote_stale_since = none }) else (false, s)

    go : (b : Bool) → ((end b).0 ≡ false) × IsAdopted r (end b).1
    go true = (refl, record { same = v.same; fenced = v.fenced; bounded = v.bounded })
    go false = (refl, v)

after_adoption :
    (advanced : Bool) (r : PlatformVpnState) (p : Bool × Session)
    → p.0 ≡ false
    → IsAdopted r p.1
    → IsSession (after_watchdog false true advanced r p).1
unfolding after_watchdog
after_adoption advanced r (true, s) e v = absurd (ground (arith, e))
after_adoption true r (false, s) e v = adopted_frame-IsSession r s v
after_adoption false r (false, s) e v = adopted_frame-IsSession r s v

adopted-IsSession :
    (now : ℕ) (r : PlatformVpnState) (s : Session)
    → IsAdopted r s
    → IsSession (apply_matching now false true r s).1
unfolding apply_matching
adopted-IsSession now r s v =
    let advanced = ltb s.remote_state_updated_at r.updated_at in
    let a = see_if advanced now r s in
    let (e, u) = watchdog_spares now r advanced a (see_if-IsAdopted advanced now r s v) in
    after_adoption advanced r (watchdog_expired now false r advanced a) e u

Frame-IsSession :
    {expected : Option Text} {s t : Session} → Frame expected s t → IsSession s → IsSession t
unfolding adopt
Frame-IsSession (known m) v = Steps-IsSession m v
Frame-IsSession {expected} {s} (adopted now r m e n) v =
    adopted-IsSession now r (adopt r s)
      (record { same = refl; fenced = v.fenced; bounded = v.bounded })

pub apply_state-IsSession :
    (now : ℕ) (is_ui : Bool) (expected : Option Text) (r : Option PlatformVpnState) (s : Session)
    → IsSession s
    → IsSession (apply_state now is_ui expected r s).1
apply_state-IsSession now is_ui expected r s =
    Frame-IsSession (apply_state-Frame now is_ui expected r s)
