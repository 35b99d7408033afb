-- ===== src/Session/Histories.antt =====
-- crates/paws_core/src/lib.rs: every call takes the session along by the moves, and so do histories.
use paws.Base.{◌≡◌, refl, inl, ◌⊎◌, Bool, true, none, some}
use paws.PlatformOwner.Disk.{Codec}
use paws.Session.{Session}
use paws.Session.World.{Env, World}
use paws.Session.Calls.{SessionCall, perform, history}
use paws.Session.Calls
use paws.Session.Moves.{Scope, any_start, replaces, is_unnamed, Moves}
use paws.Session.Leads.{Leads-sync}
use paws.Session.Leads.Stops.{
  advance-Leads, begin_os_stop-Leads, complete_os_stop-Leads, fail_os_stop-Leads, claim-Leads,
}
use paws.Session.Leads.Starts.{begin-Leads, fail-Leads, cancel-Leads}
use paws.Session.Leads.Binding.{bind-Leads, attach_memory-Leads}
use paws.Session.Leads.Cleanup.{complete_cleanup-Leads, recover-Leads}
use paws.Session.Leads.Updates.{
  starting-Leads, failed-Leads, protected-Leads, commit-Leads, external-Leads, begin_stop-Leads,
  end_stop-Leads, request-Leads,
}
use paws.Session.Leads.Recovery.{claim_recovery-Leads, rearm-Leads}
use paws.Session.Leads.Heartbeats.{tick-Leads, exit-Leads}

-- The call may replace the attempt only where that is allowed, and start an engine for no attempt or
-- confirm a stop likewise.
abbrev pub Allows : Scope → Bool → SessionCall → Session → Type 0
Allows fresh confirmed (Calls.begins_start epoch) s = replaces fresh ≡ true
Allows fresh confirmed (Calls.binds_start attempt) s =
    (replaces fresh ≡ true) ⊎ (s.start_attempt_id ≡ attempt)
Allows fresh confirmed (Calls.completes_os_stop epoch attempt) s = confirmed ≡ true
Allows fresh confirmed (Calls.commits_start none proxy) s = is_unnamed fresh ≡ true
Allows fresh confirmed _ s = Unit {0}

pub perform-Moves :
    (c : Codec) (e : Env) (a : Scope) (b : Bool) (call : SessionCall) (w : World c)
    → Allows a b call w.session
    → Moves a b w.session (perform c e call w).session
unfolding perform
perform-Moves c e a b Calls.syncs w h = Leads-sync c e a b 0 w
perform-Moves c e a b (Calls.attaches_memory opens lane) w h =
    attach_memory-Leads c e a b opens lane w
perform-Moves c e a b Calls.advances_intent w h = advance-Leads c e a b w
perform-Moves c e a b (Calls.begins_os_stop epoch attempt) w h =
    begin_os_stop-Leads c e a b epoch attempt w
perform-Moves c e a b (Calls.completes_os_stop epoch attempt) w h =
    complete_os_stop-Leads c e a b epoch attempt w h
perform-Moves c e a b (Calls.fails_os_stop epoch attempt) w h =
    fail_os_stop-Leads c e a b epoch attempt w
perform-Moves c e a b (Calls.claims_stop epoch) w h = claim-Leads c e a b epoch w
perform-Moves c e a b (Calls.begins_start epoch) w h = begin-Leads c e a b epoch w h
perform-Moves c e a b (Calls.binds_start attempt) w h = bind-Leads c e a b attempt w h
perform-Moves c e a b (Calls.fails_start attempt error unattached) w h =
    fail-Leads c e a b attempt error unattached w
perform-Moves c e a b (Calls.cancels_start attempt) w h = cancel-Leads c e a b attempt w
perform-Moves c e a b (Calls.completes_cleanup attempt) w h =
    complete_cleanup-Leads c e a b attempt w
perform-Moves c e a b (Calls.recovers_cleanup deadline attempt) w h =
    recover-Leads c e a b deadline attempt w
perform-Moves c e a b (Calls.sets_starting attempt starting) w h =
    starting-Leads c e a b attempt starting w
perform-Moves c e a b (Calls.sets_failed attempt error) w h = failed-Leads c e a b attempt error w
perform-Moves c e a b (Calls.sets_protected attempt protected error) w h =
    protected-Leads c e a b attempt protected error w
perform-Moves c e a b (Calls.commits_start none proxy) w h = commit-Leads c e a b none proxy w h
perform-Moves c e a b (Calls.commits_start (some attempt) proxy) w h =
    commit-Leads c e a b (some attempt) proxy w tt
perform-Moves c e a b (Calls.starts_external attempt engine) w h =
    external-Leads c e a b attempt engine w
perform-Moves c e a b (Calls.begins_stop attempt) w h = begin_stop-Leads c e a b attempt w
perform-Moves c e a b (Calls.ends_stop attempt) w h = end_stop-Leads c e a b attempt w
perform-Moves c e a b (Calls.requests_stop attempt) w h = request-Leads c e a b attempt w
perform-Moves c e a b (Calls.claims_recovery has_profile orphan) w h =
    claim_recovery-Leads c e a b has_profile orphan w
perform-Moves c e a b Calls.rearms_recovery w h = rearm-Leads c e a b w
perform-Moves c e a b (Calls.ticks busy attempt) w h = tick-Leads c e a b busy attempt w
perform-Moves c e a b (Calls.exits attempt generation error) w h =
    exit-Leads c e a b attempt generation error w

pub any-Allows : (call : SessionCall) (s : Session) → Allows any_start true call s
any-Allows (Calls.completes_os_stop epoch attempt) s = refl
any-Allows (Calls.begins_start epoch) s = refl
any-Allows (Calls.binds_start attempt) s = inl refl
any-Allows (Calls.commits_start none proxy) s = refl
any-Allows _ s = tt
