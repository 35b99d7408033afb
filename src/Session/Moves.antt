-- ===== src/Session/Moves.antt =====
-- crates/paws_core/src/lib.rs: the moves of a session, one for each place where a handler changes
-- it, with what the handler has checked by then.
use paws.Base.{
  ℕ, ◌+◌, ◌≡◌, ◌⊎◌, Text, Bool, true, false, not, ◌||◌, Option, none, some, ◌==◌, nat_eq,
}
use paws.PlatformOwner.Record.{ProcessIdentity}
use paws.Session.{
  Session, PlatformVpnState, VpnEngine, connected, is_pending, is_terminal, apply_platform_failure,
}
use paws.Session.Remote.{apply_state}
use paws.Session.Stops.{
  begin_os_stop, complete_os_stop, fail_os_stop, fenced, claim_stop, owes_cleanup,
}
use paws.Session.Starts.{open_attempt, start_is_pending, fail_start, cancel_start}
use paws.Session.Binding.{forget_remote, reopen, name_owner, attach, keep_lease}
use paws.Session.Cleanup.{may_clean, clean, recover_clean}
use paws.Session.Updates.{set_starting, set_connected, stop_attempt, stop_ended}
use paws.Session.Recovery.{forget_recovery, grant_recovery, find_orphan, rearm, release_found}

-- What may start: the attempt that the session has, another attempt as well, or also an engine for
-- no attempt.
pub data Scope : Type 0 where
  same_attempt new_attempt any_start : Scope

abbrev pub replaces : Scope → Bool
replaces same_attempt = false
replaces new_attempt = true
replaces any_start = true

abbrev pub is_unnamed : Scope → Bool
is_unnamed same_attempt = false
is_unnamed new_attempt = false
is_unnamed any_start = true

-- `fresh`: what may start. `confirmed`: the system may confirm a stop.
pub data Move (fresh : Scope) (confirmed : Bool) (s : Session) : Session → Type 0 where
  frames :
      (now : ℕ) (is_ui : Bool) (remote : Option PlatformVpnState)
      → Move fresh confirmed s (apply_state now is_ui none remote s).1
  binds :
      (now : ℕ) (attempt : Text) (remote : Option PlatformVpnState)
      → (replaces fresh ≡ true) ⊎ (s.start_attempt_id ≡ attempt)
      → Move fresh confirmed s (apply_state now false (some attempt) remote s).1
  stamps : (n : ℕ) → Move fresh confirmed s (record s { state_updated_at = n })
  reattaches : Move fresh confirmed s (forget_remote s)
  advances : Move fresh confirmed s (record s { intent_epoch = s.intent_epoch + 1 })
  begins_os_stop :
      (epoch : ℕ) (attempt : Text) → Move fresh confirmed s (begin_os_stop epoch attempt s).1
  completes_os_stop :
      (epoch : ℕ) (attempt : Text)
      → confirmed ≡ true
      → Move fresh confirmed s (complete_os_stop epoch attempt s).1
  fails_os_stop :
      (epoch : ℕ) (attempt : Text) → Move fresh confirmed s (fail_os_stop epoch attempt s).1
  fences :
      (epoch : ℕ) (attempt : Text)
      → (epoch == 0) ≡ false
      → Move fresh confirmed s (fenced epoch attempt false s)
  claims : owes_cleanup s ≡ true → Move fresh confirmed s (claim_stop s)
  opens :
      (sequence : ℕ) (attempt : Text)
      → replaces fresh ≡ true
      → s.os_stop_epoch ≡ 0
      → is_pending s.start_outcome ≡ false
      → owes_cleanup s ≡ false
      → s.running ≡ false
      → Move fresh confirmed s (open_attempt sequence attempt s)
  fails_start :
      (attempt error : Text) (unattached : Bool)
      → start_is_pending attempt s ≡ true
      → Move fresh confirmed s (fail_start error unattached s)
  cancels :
      (attempt : Text) → start_is_pending attempt s ≡ true → Move fresh confirmed s (cancel_start s)
  reopens :
      (native_running : Bool)
      → is_terminal s.start_outcome ≡ false
      → Move fresh confirmed s (reopen native_running s)
  leases :
      (taken : Bool)
      → is_terminal s.start_outcome ≡ false
      → Move fresh confirmed s (keep_lease taken s)
  names : (owner : ProcessIdentity) → Move fresh confirmed s (name_owner owner s)
  attaches : s.extension_attached ≡ false → Move fresh confirmed s (attach s)
  observes : Move fresh confirmed s (record s { delivery_observed = true })
  cleans : may_clean s ≡ true → Move fresh confirmed s (clean s)
  recovers : s.cleanup_complete ≡ false → Move fresh confirmed s (recover_clean s)
  sets_starting :
      (starting_ : Bool)
      → is_terminal s.start_outcome ≡ false
      → not starting_ || is_pending s.start_outcome ≡ true
      → Move fresh confirmed s (set_starting starting_ s)
  fails :
      (error : Text)
      → is_terminal s.start_outcome ≡ false
      → Move fresh confirmed s (apply_platform_failure error s)
  protects :
      (protected : Bool) (error : Option Text)
      → Move fresh confirmed s
          (record s { network_protected = protected; network_protect_error = error })
  connects :
      (engine : Option VpnEngine)
      → is_terminal s.start_outcome ≡ false
      → Move fresh confirmed s (set_connected engine s)
  connects_unnamed :
      (engine : Option VpnEngine)
      → is_unnamed fresh ≡ true
      → Move fresh confirmed s (set_connected engine s)
  connects_external :
      (engine : Option VpnEngine)
      → is_terminal s.start_outcome ≡ false
      → Move fresh confirmed s (record (set_connected engine s) { start_outcome = connected })
  proxies : (proxy : Option Text) → Move fresh confirmed s (record s { app_http_proxy = proxy })
  stops : Move fresh confirmed s (stop_attempt s)
  ends_stop : Move fresh confirmed s (stop_ended s)
  asks_stop : Move fresh confirmed s (record s { stop_requested = true })
  forgets : Move fresh confirmed s (forget_recovery s)
  releases : is_terminal s.start_outcome ≡ false → Move fresh confirmed s (release_found s)
  orphans : (orphan : Option Text) → Move fresh confirmed s (find_orphan orphan s)
  grants_recovery : (now : ℕ) → Move fresh confirmed s (grant_recovery now s).1
  rearms : (now : ℕ) (native_running : Bool) → Move fresh confirmed s (rearm now native_running s)

pub data Moves (fresh : Scope) (confirmed : Bool) (s : Session) : Session → Type 0 where
  here : Moves fresh confirmed s s
  next :
      {t u : Session}
      → Moves fresh confirmed s t
      → Move fresh confirmed t u
      → Moves fresh confirmed s u

pub Moves-trans :
    {a : Scope} {b : Bool} {s t u : Session} → Moves a b s t → Moves a b t u → Moves a b s u
Moves-trans m here = m
Moves-trans m (next n v) = next (Moves-trans m n) v
