-- ===== src/Session/OwnerExamples.antt =====
-- Starts, bindings and recoveries with the owner journal on a concrete codec.
use paws.Base.{Option, ◌≡◌, refl, true, false, none, some, arith, text, ℕ_discrete, trim, nat_eq}
use paws.PlatformOwner.Record.{
  PlatformVpnOwnerJournal, attached, validate_record, validate_phase, validate_attempt_id,
  validate_identity, to_stored, try_from_stored, PlatformVpnOwnerPhase,
}
use paws.PlatformOwner.Disk.{regular, read_unlocked, contents, write_unlocked}
use paws.PlatformOwner.{read, run, create_pending_exact, upgrade_attached_exact}
use paws.Session.{PlatformVpnState, pending, initial, platform_vpn_state, drop_leases}
use paws.Session.World.{envelope, Env, World, grants, on_journal, persist}
use paws.Session.Remote.{
  sync, apply_remote, apply_matching, after_watchdog, watchdog_expired, heartbeat_frozen,
  matches_attempt, adopt, see_remote, take_frame, take_owner, take_outcome, take_attachment,
  take_network, apply_platform_envelope,
}
use paws.Session.Starts.{
  begin_as, begin_checked, begin_synced, create_attempt, attempt_name, decimal, digits,
  begin_platform_vpn_start_for_intent,
}
use paws.PlatformOwner.Lease.{PlatformVpnOwnerLeaseObservation, held_exact, released}
use paws.PlatformOwner.Protocol.{Holds}
use paws.Session.Cleanup.{recover_platform_vpn_cleanup}
use paws.Session.Binding.{
  bind_platform_vpn_start, sync_for_binding, bind_synced, reopen, read_own, own_read, own_journal,
  publish_binding, publish_synced,
}
use paws.Session.Bindings.{IsBound, granted_bind_is_owner}
use paws.Session.Owners.{Spares, live_owner_is_spared}
use paws.Session.Departures.{Recovers, gone_owner_is_recovered}
use paws.Session.Promises.{Promises}
use paws.Session.Grants.{IsStarted, granted_start_is_recorded}
use paws.Session.Examples.{
  plain, plain-RoundTrips, quiet, calm, asked, remote_running, cancelled_session,
}

-- The start that is granted names the attempt by its time and its number.
begin_grants : (begin_platform_vpn_start_for_intent plain calm 1 asked).0 ≡ grants (text "1000-1")
unfolding begin_platform_vpn_start_for_intent begin_as begin_checked begin_synced create_attempt
    attempt_name decimal digits sync on_journal run read create_pending_exact read_unlocked contents
    write_unlocked validate_record validate_phase validate_attempt_id validate_identity trim
    ℕ_discrete to_stored persist
begin_grants = refl

granted_start_is_recorded_example :
    Promises plain
      (IsStarted plain calm.identity)
      (begin_platform_vpn_start_for_intent plain calm 1 asked)
granted_start_is_recorded_example =
    granted_start_is_recorded plain calm 1 asked none plain-RoundTrips tt

-- The extension had the attempt, and its lease is seen as `o`.
abbrev looking : Option PlatformVpnOwnerLeaseObservation → Env
looking o = record calm { moments = λ _. record quiet { observes = o } }

abbrev owner : PlatformVpnOwnerJournal
owner = record {
  attempt_id = text "a";
  issuer = record { boot_id = text "boot-a"; pid = 7; start_time = 9 };
  extension = some (record { boot_id = text "boot-a"; pid = 8; start_time = 9 });
  phase = attached;
}

abbrev owned_world : World plain
owned_world = record {
  session = record cancelled_session { extension_attached = true };
  journal = regular (unfold to_stored in to_stored owner);
  lane = none;
}

owner-Holds : Holds plain owned_world.journal (some owner)
unfolding to_stored validate_record validate_phase validate_attempt_id validate_identity trim
    ℕ_discrete
owner-Holds = (refl, refl)

gone_owner_is_recovered_example :
    Recovers plain
      (text "a")
      (recover_platform_vpn_cleanup plain (looking (some released)) 9 (text "a") owned_world)
unfolding to_stored ℕ_discrete
gone_owner_is_recovered_example =
    gone_owner_is_recovered plain (looking (some released)) 9 (text "a") owned_world owner
      plain-RoundTrips owner-Holds (omega arith) refl refl
      (λ _. record { alone = refl; works = refl; publishes = refl }) refl refl

live_owner_is_spared_example :
    Spares plain owned_world
      (recover_platform_vpn_cleanup plain (looking (some held_exact)) 9 (text "a") owned_world)
unfolding run ℕ_discrete
live_owner_is_spared_example =
    live_owner_is_spared plain (looking (some held_exact)) 9 (text "a") owned_world owner
      plain-RoundTrips owner-Holds (record { owned = refl; held = λ h. ground (arith, h) }) refl
      refl

-- The interface asks an extension to take the attempt, whose issuer still holds its lease.
abbrev remote_pending : PlatformVpnState
remote_pending = record remote_running {
  start_outcome = pending;
  extension_attached = false;
  running = false;
  starting = true;
}

abbrev woken : Env
woken = record (looking (some held_exact)) {
  is_ui = some false;
  identity = some (record { boot_id = text "boot-a"; pid = 8; start_time = 9 });
  moments =
      λ _. record quiet { remote = envelope (some remote_pending); observes = some held_exact };
}

abbrev issued : PlatformVpnOwnerJournal
issued = record owner { extension = none; phase = PlatformVpnOwnerPhase.pending }

abbrev woken_world : World plain
woken_world = record {
  session = initial;
  journal = regular (unfold to_stored in to_stored issued);
  lane = none;
}

issued-Holds : Holds plain woken_world.journal (some issued)
unfolding to_stored validate_record validate_phase validate_attempt_id validate_identity trim
    ℕ_discrete
issued-Holds = (refl, refl)

bind_grants : (bind_platform_vpn_start plain woken (text "a") woken_world).0 ≡ grants tt
unfolding bind_platform_vpn_start sync_for_binding apply_platform_envelope apply_remote
    matches_attempt adopt apply_matching see_remote watchdog_expired heartbeat_frozen after_watchdog
    take_frame take_owner take_outcome take_attachment take_network drop_leases bind_synced reopen
    read_own own_read own_journal on_journal run read upgrade_attached_exact read_unlocked contents
    write_unlocked validate_record validate_phase validate_attempt_id validate_identity trim
    ℕ_discrete to_stored try_from_stored publish_binding publish_synced sync persist
    platform_vpn_state
bind_grants = refl

granted_bind_is_owner_example :
    Promises plain
      (λ _ u. IsBound plain woken (text "a") u.journal)
      (bind_platform_vpn_start plain woken (text "a") woken_world)
granted_bind_is_owner_example =
    granted_bind_is_owner plain woken (text "a") woken_world (some issued) plain-RoundTrips
      issued-Holds
