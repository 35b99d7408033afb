-- ===== src/Session/Calls.antt =====
-- crates/paws_core/src/lib.rs: the calls of a core about the platform VPN, and histories of them.
-- Each runs under the lock of the state, so that a history is a list of whole calls.
use paws.Base.{ℕ, Text, Bool, Option, List, [], ◌∷◌}
use paws.PlatformOwner.Disk.{Codec}
use paws.Session.{VpnEngine, PlatformVpnState}
use paws.Session.World.{Env, World}
use paws.Session.Remote.{sync}
use paws.Session.Stops.{
  advance_platform_vpn_intent, begin_platform_vpn_os_stop, complete_platform_vpn_os_stop,
  fail_platform_vpn_os_stop, claim_current_platform_vpn_stop,
}
use paws.Session.Starts.{
  begin_platform_vpn_start_for_intent, fail_platform_vpn_start_if, cancel_platform_vpn_start,
}
use paws.Session.Binding.{attach_platform_shared_memory, bind_platform_vpn_start}
use paws.Session.Cleanup.{complete_platform_vpn_cleanup, recover_platform_vpn_cleanup}
use paws.Session.Updates.{
  set_platform_vpn_starting_for_attempt, set_platform_vpn_failed_for_attempt,
  set_platform_network_protected_for_attempt, commit_start, start_external_platform_vpn,
  begin_stop_platform_vpn, end_stop_platform_vpn, request_platform_vpn_stop,
}
use paws.Session.Recovery.{claim_platform_vpn_auto_recovery, rearm_platform_vpn_auto_recovery}
use paws.Session.Heartbeats.{extension_tick, publish_native_vpn_exit}

pub data SessionCall : Type 0 where
  syncs : SessionCall
  attaches_memory : Bool → Option PlatformVpnState → SessionCall
  advances_intent : SessionCall
  begins_os_stop : ℕ → Text → SessionCall
  completes_os_stop : ℕ → Text → SessionCall
  fails_os_stop : ℕ → Text → SessionCall
  claims_stop : ℕ → SessionCall
  begins_start : ℕ → SessionCall
  binds_start : Text → SessionCall
  fails_start : Text → Text → Bool → SessionCall
  cancels_start : Text → SessionCall
  completes_cleanup : Text → SessionCall
  recovers_cleanup : ℕ → Text → SessionCall
  sets_starting : Text → Bool → SessionCall
  sets_failed : Text → Text → SessionCall
  sets_protected : Text → Bool → Option Text → SessionCall
  commits_start : Option Text → Option Text → SessionCall
  starts_external : Text → VpnEngine → SessionCall
  begins_stop : Text → SessionCall
  ends_stop : Option Text → SessionCall
  requests_stop : Text → SessionCall
  claims_recovery : Bool → Option Text → SessionCall
  rearms_recovery : SessionCall
  ticks : Bool → Text → SessionCall
  exits : Text → ℕ → Text → SessionCall

-- The world that a call leaves.
unfoldable pub perform : (c : Codec) → Env → SessionCall → World c → World c
perform c e syncs w = (sync c e 0 w).1
perform c e (attaches_memory opens lane) w = (attach_platform_shared_memory c opens lane w).1
perform c e advances_intent w = (advance_platform_vpn_intent c e w).1
perform c e (begins_os_stop epoch attempt) w = (begin_platform_vpn_os_stop c e epoch attempt w).1
perform c e (completes_os_stop epoch attempt) w =
    (complete_platform_vpn_os_stop c e epoch attempt w).1
perform c e (fails_os_stop epoch attempt) w = (fail_platform_vpn_os_stop c e epoch attempt w).1
perform c e (claims_stop epoch) w = (claim_current_platform_vpn_stop c e epoch w).1
perform c e (begins_start epoch) w = (begin_platform_vpn_start_for_intent c e epoch w).1
perform c e (binds_start attempt) w = (bind_platform_vpn_start c e attempt w).1
perform c e (fails_start attempt error unattached) w =
    (fail_platform_vpn_start_if c e attempt error unattached w).1
perform c e (cancels_start attempt) w = (cancel_platform_vpn_start c e attempt w).1
perform c e (completes_cleanup attempt) w = (complete_platform_vpn_cleanup c e attempt w).1
perform c e (recovers_cleanup deadline attempt) w =
    (recover_platform_vpn_cleanup c e deadline attempt w).1
perform c e (sets_starting attempt starting) w =
    (set_platform_vpn_starting_for_attempt c e attempt starting w).1
perform c e (sets_failed attempt error) w =
    (set_platform_vpn_failed_for_attempt c e attempt error w).1
perform c e (sets_protected attempt protected error) w =
    (set_platform_network_protected_for_attempt c e attempt protected error w).1
perform c e (commits_start attempt proxy) w = (commit_start c e attempt proxy w).1
perform c e (starts_external attempt engine) w =
    (start_external_platform_vpn c e attempt engine w).1
perform c e (begins_stop attempt) w = (begin_stop_platform_vpn c e attempt w).1
perform c e (ends_stop attempt) w = (end_stop_platform_vpn c e attempt w).1
perform c e (requests_stop attempt) w = (request_platform_vpn_stop c e attempt w).1
perform c e (claims_recovery has_profile orphan) w =
    (claim_platform_vpn_auto_recovery c e has_profile orphan w).1
perform c e rearms_recovery w = (rearm_platform_vpn_auto_recovery c e w).1
perform c e (ticks busy attempt) w = (extension_tick c e busy attempt w).1
perform c e (exits attempt generation error) w =
    (publish_native_vpn_exit c e attempt generation error w).1

unfoldable pub history : (c : Codec) → List (Env × SessionCall) → World c → World c
history c [] w = w
history c ((e, call) ∷ calls) w = history c calls (perform c e call w)
