-- ===== src/Session/Watchdog.antt =====
-- crates/paws_core/src/lib.rs: when the watchdog gives the extension up.
use paws.Base.{
  ℕ, ◌≡◌, refl, sym, ◌∙◌, Text, Bool, true, false, not, ◌&&◌, Option, none, some, arith, text_eq,
  ltb, is_empty, if◌then◌else◌,
}
use paws.Session.{Session, PlatformVpnState}
use paws.Session.Remote.{
  stale_after, wake_grace, seen_for, watchdog_expired, heartbeat_frozen, see_if, after_watchdog,
  apply_matching, matches_attempt, is_expected, adopt, apply_remote, is_heard, is_live,
}

-- The interface looks at a running session of the frame's attempt, whose extension says that it runs
-- by a frame no newer than the last, seen alive fifteen seconds ago, and silent for six seconds
-- since that was noticed.
pub record IsGivenUp (now : ℕ) (is_ui : Bool) (r : PlatformVpnState) (s : Session) : Type 0 where
  pub looks : is_ui ≡ true
  pub runs : s.running ≡ true
  pub answers : r.running ≡ true
  pub frozen : ltb s.remote_state_updated_at r.updated_at ≡ false
  pub silent : seen_for now s.remote_state_seen_at stale_after ≡ true
  pub noticed : seen_for now s.remote_stale_since wake_grace ≡ true

long_silent :
    (now : ℕ) (seen stale : Option ℕ)
    → seen_for now seen stale_after ≡ true
    → seen_for now stale wake_grace ≡ true
    → is_heard now seen stale ≡ false
unfolding is_heard
long_silent now none stale h k = refl
long_silent now (some seen) none h k = ground (arith, h)
long_silent now (some seen) (some stale) h k = ground (arith, h, k)

-- The telemetry of such a session is no longer read.
given_up_is_dead :
    (now : ℕ) (is_ui : Bool) (r : PlatformVpnState) (s : Session)
    → IsGivenUp now is_ui r s
    → is_live now s ≡ false
unfolding is_live
given_up_is_dead now is_ui r s g =
    ground (arith, long_silent now s.remote_state_seen_at s.remote_stale_since g.silent g.noticed)

frozen-IsGivenUp :
    (now : ℕ) (is_ui : Bool) (r : PlatformVpnState) (s : Session)
    → ltb s.remote_state_updated_at r.updated_at ≡ false
    → (watchdog_expired now is_ui r false s).0 ≡ true
    → IsGivenUp now is_ui r s
unfolding watchdog_expired heartbeat_frozen
frozen-IsGivenUp now is_ui r s f h = record {
  looks = ground (arith, h);
  runs = ground (arith, h);
  answers = ground (arith, h);
  frozen = f;
  silent = ground (arith, h);
  noticed = ground (arith, h);
}

watchdog_waits :
    (now : ℕ) (is_ui : Bool) (r : PlatformVpnState) (s : Session)
    → (watchdog_expired now is_ui r true s).0 ≡ false
unfolding watchdog_expired heartbeat_frozen
watchdog_waits now is_ui r s = ground arith

after_watchdog_answer :
    (is_ui adopted advanced : Bool) (r : PlatformVpnState) (p : Bool × Session)
    → (after_watchdog is_ui adopted advanced r p).0 ≡ p.0
unfolding after_watchdog
after_watchdog_answer is_ui adopted advanced r (true, s) = refl
after_watchdog_answer is_ui adopted advanced r (false, s) = refl

matching-IsGivenUp :
    (now : ℕ) (is_ui adopted : Bool) (r : PlatformVpnState) (s : Session)
    → (apply_matching now is_ui adopted r s).0 ≡ true
    → IsGivenUp now is_ui r s
unfolding apply_matching
matching-IsGivenUp now is_ui adopted r s = go (ltb s.remote_state_updated_at r.updated_at) refl
  where
    go :
        (advanced : Bool)
        → ltb s.remote_state_updated_at r.updated_at ≡ advanced
        → (after_watchdog is_ui adopted advanced r
            (watchdog_expired now is_ui r advanced (see_if advanced now r s))).0
          ≡ true
        → IsGivenUp now is_ui r s
    go true a h =
        let p = watchdog_expired now is_ui r true (see_if true now r s) in
        absurd (
          ground (
            arith,
            h,
            after_watchdog_answer is_ui adopted true r p,
            watchdog_waits now is_ui r (see_if true now r s),
          ))
    go false a h = frozen-IsGivenUp now is_ui r s a (
        sym (after_watchdog_answer is_ui adopted false r (watchdog_expired now is_ui r false s))
        ∙ h)

-- The watchdog gives the extension up, in any session and on any frame of the other process, only
-- where the interface holds a running session of that very attempt, the frame says that the
-- extension runs and is no newer than the last one, the last new frame was seen at least fifteen
-- seconds ago, and the silence was noticed at least six seconds ago. Such a session is no longer
-- live for the reader of the telemetry.
pub expiry_waits :
    (now : ℕ) (is_ui : Bool) (expected : Option Text) (r : PlatformVpnState) (s : Session)
    → (apply_remote now is_ui expected r s).0 ≡ true
    → (matches_attempt r s ≡ true) × IsGivenUp now is_ui r s × (is_live now s ≡ false)
unfolding apply_remote
expiry_waits now is_ui expected r s =
    go (matches_attempt r s) refl is_ui refl (is_expected expected r.start_attempt_id)
      (not (is_empty r.start_attempt_id))
  where
    go :
        (same : Bool)
        → matches_attempt r s ≡ same
        → (ui : Bool) → is_ui ≡ ui
        → (new named : Bool)
        → (if same
            then apply_matching now is_ui false r s
            else if not ui && new && named
            then apply_matching now is_ui true r (adopt r s)
            else (false, s)).0
          ≡ true
        → (matches_attempt r s ≡ true) × IsGivenUp now is_ui r s × (is_live now s ≡ false)
    go true m ui u new named h =
        let g = matching-IsGivenUp now is_ui false r s h in (m, g, given_up_is_dead now is_ui r s g)
    go false m true u new named h = absurd (ground (arith, h))
    go false m false u true true h =
        absurd (ground (arith, u, (matching-IsGivenUp now is_ui true r (adopt r s) h).looks))
    go false m false u true false h = absurd (ground (arith, h))
    go false m false u false named h = absurd (ground (arith, h))
