-- ===== src/Session/Examples.antt =====
-- A session on a concrete codec: runs, and the theorems at concrete calls.
use paws.Base.{
  ◌+◌, ◌≡◌, refl, true, false, none, some, List, [], ◌∷◌, arith, text, length, ℕ_discrete, nat_eq,
}
use paws.PlatformOwner.Record.{StoredPlatformVpnOwnerJournal}
use paws.PlatformOwner.Disk.{Codec, RoundTrips, absent}
use paws.PlatformOwner.Limits.{no_faults}
use paws.Session.{Session, PlatformVpnState, PlatformStartOutcome, connected, initial, is_terminal}
use paws.Session.World.{persist, envelope, nothing, delivered, stopped, Moment, Env, World}
use paws.Session.Remote.{
  apply_remote, apply_matching, after_watchdog, watchdog_expired, heartbeat_frozen, matches_attempt,
  is_live,
}
use paws.Session.Starts.{begin_platform_vpn_start_for_intent}
use paws.Session.Calls.{
  SessionCall, advances_intent, binds_start, begins_os_stop, attaches_memory, syncs, commits_start,
  perform, sets_failed, history,
}
use paws.Session.Validity.{IsSession}
use paws.Session.Invariants.{history-IsSession}
use paws.Session.Fates.{ended_stays_ended}
use paws.Session.Fences.{IsRefused, fence_blocks_start}
use paws.Session.Intents.{old_intent_starts_nothing}
use paws.Session.Updates.{commit_start}
use paws.Session.Watchdog.{IsGivenUp, expiry_waits}

abbrev pub plain : Codec
plain = record {
  Bytes = StoredPlatformVpnOwnerJournal;
  size = λ s. 200 + length s.attempt_id;
  to_vec = λ s. some s;
  from_slice = λ b. some b;
}

pub plain-RoundTrips : RoundTrips plain
plain-RoundTrips s b e = cc

abbrev pub quiet : Moment
quiet = record {
  unix_nanos = 1000;
  instant = 0;
  remote = nothing;
  publication = delivered;
  others = [];
  faults = no_faults;
  acquires = true;
  observes = none;
  locks_released = none;
}

abbrev pub calm : Env
calm = record {
  is_ui = some true;
  identity = some (record { boot_id = text "boot-a"; pid = 7; start_time = 9 });
  native_running = false;
  lifecycle = stopped;
  moments = λ _. quiet;
}

-- A core whose user has just asked for the VPN.
abbrev pub asked : World plain
asked = record { session = record initial { intent_epoch = 1 }; journal = absent; lane = none }

abbrev pub remote_running : PlatformVpnState
remote_running = record {
  start_attempt_id = text "a";
  start_outcome = connected;
  delivery_observed = true;
  extension_attached = true;
  stop_requested = false;
  extension_owner_pid = 8;
  extension_owner_start_time = 9;
  cleanup_complete = false;
  starting = false;
  running = true;
  network_protected = true;
  network_protect_error = none;
  engine = none;
  app_http_proxy = none;
  updated_at = 5;
}

-- The user cancelled while the extension was about to say that it runs.
abbrev pub cancelled_session : Session
cancelled_session = record initial {
  intent_epoch = 1;
  start_attempt_id = text "a";
  start_outcome = PlatformStartOutcome.cancelled;
}

abbrev pub cancelled_world : World plain
cancelled_world = record { session = cancelled_session; journal = absent; lane = none }

abbrev pub late : Env
late = record calm { moments = λ _. record quiet { remote = envelope (some remote_running) } }

abbrev pub late_calls : List (Env × SessionCall)
late_calls =
    (late, attaches_memory true none)
    ∷ (late, syncs)
    ∷ (late, sets_failed (text "a") (text "lost"))
    ∷ (late, binds_start (text "a"))
    ∷ []

ended_stays_ended_example :
    let t = (history plain late_calls cancelled_world).session in
    (t.start_attempt_id ≡ text "a")
    × (is_terminal t.start_outcome ≡ true)
    × (t.running ≡ false)
    × (t.starting ≡ false)
ended_stays_ended_example =
    ended_stays_ended plain late_calls cancelled_world (ground arith) (tt, (tt, (tt, (refl, tt))))
      refl

history-IsSession_example : IsSession (history plain late_calls asked).session
history-IsSession_example =
    history-IsSession plain late_calls asked (tt, (tt, (tt, (tt, tt)))) (ground arith)

-- A start for no attempt makes the cancelled session run.
unnamed_start_runs :
    (history plain ((calm, commits_start none none) ∷ []) cancelled_world).session.running ≡ true
unfolding history perform commit_start persist
unnamed_start_runs = refl

-- A stop of the system that the system has still to confirm.
abbrev pub stopping : World plain
stopping = record {
  session = record initial { intent_epoch = 2; os_stop_epoch = 2; os_stop_in_flight = true };
  journal = absent;
  lane = none;
}

abbrev pub stop_calls : List (Env × SessionCall)
stop_calls = (calm, advances_intent) ∷ (calm, begins_os_stop 3 []) ∷ (late, syncs) ∷ []

fence_blocks_start_example :
    IsRefused
      (begin_platform_vpn_start_for_intent plain calm 3 (history plain stop_calls stopping)).0
    × ((begin_platform_vpn_start_for_intent plain calm 3 (history plain stop_calls stopping)).1
        ≡ history plain stop_calls stopping)
unfolding ℕ_discrete
fence_blocks_start_example =
    fence_blocks_start plain stop_calls stopping calm 3 refl (tt, (tt, (tt, tt)))

old_intent_starts_nothing_example :
    IsRefused
      (begin_platform_vpn_start_for_intent plain calm 1 (history plain stop_calls stopping)).0
    × ((begin_platform_vpn_start_for_intent plain calm 1 (history plain stop_calls stopping)).1
        ≡ history plain stop_calls stopping)
old_intent_starts_nothing_example =
    old_intent_starts_nothing plain stop_calls stopping calm 1 (omega arith)

abbrev pub silent : Session
silent = record initial {
  start_attempt_id = text "a";
  start_outcome = connected;
  running = true;
  remote_state_updated_at = 5;
  remote_state_seen_at = some 1000000000;
  remote_stale_since = some 17000000000;
}

expiry_waits_example :
    (matches_attempt remote_running silent ≡ true)
    × IsGivenUp 23000000000 true remote_running silent
    × (is_live 23000000000 silent ≡ false)
unfolding apply_remote apply_matching after_watchdog watchdog_expired heartbeat_frozen
    matches_attempt ℕ_discrete
expiry_waits_example = expiry_waits 23000000000 true none remote_running silent refl
