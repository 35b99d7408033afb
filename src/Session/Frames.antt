-- ===== src/Session/Frames.antt =====
-- crates/paws_core/src/lib.rs: the steps by which a frame of the other process changes a session.
use paws.Base.{
  ℕ, ◌≡◌, refl, Text, Bool, true, false, not, ◌&&◌, Option, none, some, text_eq, is_empty, ltb,
  if◌then◌else◌,
}
use paws.Session.{Session, PlatformVpnState}
use paws.Session.Remote.{
  watchdog_expired, heartbeat_stopped, matches_attempt, is_expected, adopt, see_remote, take_frame,
  after_watchdog, see_if, apply_matching, apply_remote, apply_state,
}

pub data Step (s : Session) : Session → Type 0 where
  sees : (now : ℕ) (remote : PlatformVpnState) → Step s (see_remote now remote s)
  watches :
      (now : ℕ) (is_ui : Bool) (remote : PlatformVpnState) (advanced : Bool)
      → Step s (watchdog_expired now is_ui remote advanced s).1
  gives_up : Step s (heartbeat_stopped s)
  takes : (is_ui : Bool) (remote : PlatformVpnState) → Step s (take_frame is_ui remote s)

pub data Steps (s : Session) : Session → Type 0 where
  here : Steps s s
  next : {t u : Session} → Steps s t → Step t u → Steps s u

see_if-Steps :
    (b : Bool) (now : ℕ) (r : PlatformVpnState) (s : Session) → Steps s (see_if b now r s)
see_if-Steps true now r s = next here (sees now r)
see_if-Steps false now r s = here

after_watchdog-Steps :
    (is_ui adopted advanced : Bool) (r : PlatformVpnState) (s : Session) (p : Bool × Session)
    → Steps s p.1
    → Steps s (after_watchdog is_ui adopted advanced r p).1
unfolding after_watchdog
after_watchdog-Steps is_ui adopted advanced r s (true, t) h = next h gives_up
after_watchdog-Steps is_ui adopted advanced r s (false, t) h = go (not advanced && not adopted)
  where
    go : (b : Bool) → Steps s (if b then t else take_frame is_ui r t)
    go true = h
    go false = next h (takes is_ui r)

pub apply_matching-Steps :
    (now : ℕ) (is_ui adopted : Bool) (r : PlatformVpnState) (s : Session)
    → Steps s (apply_matching now is_ui adopted r s).1
unfolding apply_matching
apply_matching-Steps now is_ui adopted r s =
    let advanced = ltb s.remote_state_updated_at r.updated_at in
    let a = see_if advanced now r s in
    after_watchdog-Steps is_ui adopted advanced r s (watchdog_expired now is_ui r advanced a)
      (next (see_if-Steps advanced now r s) (watches now is_ui r advanced))

-- A frame is of the session's attempt, or the extension adopts its attempt, which it is bound for.
pub data Frame (expected : Option Text) (s : Session) : Session → Type 0 where
  known : {t : Session} → Steps s t → Frame expected s t
  adopted :
      (now : ℕ) (remote : PlatformVpnState)
      → matches_attempt remote s ≡ false
      → is_expected expected remote.start_attempt_id ≡ true
      → not (is_empty remote.start_attempt_id) ≡ true
      → Frame expected s (apply_matching now false true remote (adopt remote s)).1

apply_remote-Frame :
    (now : ℕ) (is_ui : Bool) (expected : Option Text) (r : PlatformVpnState) (s : Session)
    → Frame expected s (apply_remote now is_ui expected r s).1
unfolding apply_remote
apply_remote-Frame now is_ui expected r s =
    go (matches_attempt r s) refl is_ui (is_expected expected r.start_attempt_id) refl
      (not (is_empty r.start_attempt_id)) refl
  where
    go :
        (same : Bool)
        → matches_attempt r s ≡ same
        → (ui new : Bool) → is_expected expected r.start_attempt_id ≡ new
        → (named : Bool) → not (is_empty r.start_attempt_id) ≡ named
        → Frame expected s
            (if same
              then apply_matching now ui false r s
              else if not ui && new && named
              then apply_matching now ui true r (adopt r s)
              else (false, s)).1
    go true m ui new n named e = known (apply_matching-Steps now ui false r s)
    go false m true new n named e = known here
    go false m false true n true e = adopted now r m n e
    go false m false true n false e = known here
    go false m false false n named e = known here

pub apply_state-Frame :
    (now : ℕ) (is_ui : Bool) (expected : Option Text) (r : Option PlatformVpnState) (s : Session)
    → Frame expected s (apply_state now is_ui expected r s).1
apply_state-Frame now is_ui expected none s = known here
apply_state-Frame now is_ui expected (some r) s = apply_remote-Frame now is_ui expected r s
