-- ===== src/Session/Starts.antt =====
-- crates/paws_core/src/lib.rs: the start of an attempt, and its end before the extension has it.
use paws.Base.{
  ℕ, zero, suc, ◌+◌, ◌/◌, ◌%◌, min, Text, text, Bool, true, false, not, ◌&&◌, ◌||◌, Option, none,
  some, [], ◌∷◌, ◌++◌, ◌==◌, nat_eq, text_eq, ltb, is_empty, if◌then◌else◌,
}
use paws.PlatformOwner.Record.{
  ProcessIdentity, PlatformVpnOwnerPhase, PlatformVpnOwnerJournal, JournalRead, missing, present,
}
use paws.PlatformOwner.Disk.{Codec}
use paws.PlatformOwner.{read, create_pending_exact, delete_pending_exact}
use paws.Session.{Session, pending, failed, cancelled, is_pending, drop_leases}
use paws.Session.World.{
  Env, Handler, ◌>>=◌, ◌>>◌, pure, refuse, guard, get, modify, on_journal, persist,
  intent_superseded, os_stop_pending, already_pending, cleanup_pending, already_connected,
  journal_pending, no_identity, lease_refused,
}
use paws.Session.Remote.{sync}
use paws.Session.Stops.{is_current_intent, owes_cleanup, u64_max}

-- A number in decimal.
unfoldable pub digits : ℕ → ℕ → Text → Text
digits zero n acc = acc
digits (suc fuel) n acc =
    let rest = digits fuel (n / 10) ((48 + n % 10) ∷ acc) in
    if ltb n 10 then (48 + n % 10) ∷ acc else rest

-- A `u128` has at most 39 digits.
unfoldable pub decimal : ℕ → Text
unfolding digits
decimal n = digits 39 n []

-- `format!("{}-{next_sequence}", now_unix_nanos())`
unfoldable pub attempt_name : ℕ → ℕ → Text
unfolding decimal
attempt_name nanos sequence = decimal nanos ++ text "-" ++ decimal sequence

unfoldable pub open_attempt : ℕ → Text → Session → Session
open_attempt sequence attempt s = record s {
  issuer_lease = true;
  extension_lease = false;
  start_sequence = sequence;
  start_attempt_id = attempt;
  start_outcome = pending;
  delivery_observed = false;
  extension_attached = false;
  stop_requested = false;
  extension_owner_pid = 0;
  extension_owner_start_time = 0;
  cleanup_complete = false;
  starting = true;
  running = false;
  engine = none;
  network_protected = false;
  network_protect_error = none;
  remote_state_updated_at = 0;
  remote_state_seen_at = none;
  remote_stale_since = none;
  watchdog_cleanup_recoverable = false;
}

-- The owner on record while the extension does not have the attempt.
abbrev pub pending_owner : Text → ProcessIdentity → PlatformVpnOwnerJournal
pending_owner attempt issuer = record {
  attempt_id = attempt;
  issuer = issuer;
  extension = none;
  phase = PlatformVpnOwnerPhase.pending;
}

-- `platform_start_is_pending_locked`
unfoldable pub start_is_pending : Text → Session → Bool
start_is_pending attempt s =
    not (is_empty attempt) && s.start_attempt_id == attempt && is_pending s.start_outcome

-- An attempt that ends while the extension does not have it has nothing to clean up.
unfoldable pub fail_start : Text → Bool → Session → Session
unfolding drop_leases
fail_start error unattached s =
    let ended = record s {
      starting = false;
      running = false;
      network_protected = false;
      network_protect_error = some error;
      start_outcome = failed;
      cleanup_complete = s.cleanup_complete || unattached;
    } in
    if ended.cleanup_complete then drop_leases ended else ended

unfoldable pub cancel_start : Session → Session
cancel_start s = record s {
  starting = false;
  running = false;
  network_protected = false;
  network_protect_error = none;
  start_outcome = cancelled;
}

module _ (c : Codec) (e : Env) where
  abbrev pub identified : Option ProcessIdentity → Handler c ProcessIdentity
  identified none = refuse no_identity
  identified (some identity) = pure identity

  abbrev pub current_process_identity : Handler c ProcessIdentity
  current_process_identity = identified e.identity

  abbrev pub is_missing : JournalRead → Bool
  is_missing missing = true
  is_missing (present j) = false

  -- The journal is created with the lease held, and the session changes only after it.
  unfoldable pub create_attempt : ℕ → Text → ProcessIdentity → Handler c Text
  unfolding open_attempt persist on_journal
  create_attempt sequence attempt issuer = do
    found ← on_journal c e 1 (read c)
    guard (is_missing found) journal_pending
    guard (e.moments 1).acquires lease_refused
    on_journal c e 2 (λ f. create_pending_exact c f (pending_owner attempt issuer))
    modify c e (open_attempt sequence attempt)
    persist c e 3
    pure attempt

  unfoldable pub begin_synced : ProcessIdentity → Session → Handler c Text
  begin_synced issuer now = do
    guard (not (is_pending now.start_outcome)) already_pending
    guard (not (owes_cleanup now)) cleanup_pending
    guard (not (now.running || e.native_running)) already_connected
    let sequence = min (now.start_sequence + 1) u64_max
    create_attempt sequence (attempt_name (e.moments 1).unix_nanos sequence) issuer

  -- Only the latest intent starts, and none while a stop of the system is to be confirmed.
  unfoldable pub begin_checked : Bool → Bool → ProcessIdentity → Handler c Text
  begin_checked current free issuer = do
    guard current intent_superseded
    guard free os_stop_pending
    sync c e 0
    now ← get
    begin_synced issuer now

  unfoldable pub begin_as : ℕ → ProcessIdentity → Handler c Text
  begin_as epoch issuer = do
    s ← get
    begin_checked (is_current_intent epoch s) (s.os_stop_epoch == 0) issuer

  unfoldable pub begin_platform_vpn_start_for_intent : ℕ → Handler c Text
  begin_platform_vpn_start_for_intent epoch = do
    issuer ← current_process_identity
    begin_as epoch issuer

  -- The journal decides between an extension that attaches and a dispatch that fails.
  abbrev pub deletes_unattached : Text → Bool → Handler c Bool
  deletes_unattached attempt false = pure true
  deletes_unattached attempt true = on_journal c e 1 (λ f. delete_pending_exact c f attempt)

  unfoldable pub fail_deleted : Text → Bool → Bool → Handler c Bool
  unfolding fail_start persist
  fail_deleted error unattached false = pure false
  fail_deleted error unattached true = do
    modify c e (fail_start error unattached)
    persist c e 2
    pure true

  unfoldable pub fail_checked : Text → Text → Bool → Session → Handler c Bool
  unfolding fail_deleted start_is_pending on_journal
  fail_checked attempt error unattached s =
      if not (start_is_pending attempt s) || unattached && s.extension_attached
      then pure false
      else do deleted ← deletes_unattached attempt unattached; fail_deleted error unattached deleted

  unfoldable pub fail_platform_vpn_start_if : Text → Text → Bool → Handler c Bool
  unfolding fail_checked sync
  fail_platform_vpn_start_if attempt error unattached = do
    sync c e 0
    s ← get
    fail_checked attempt error unattached s

  unfoldable pub cancel_checked : Text → Session → Handler c Bool
  unfolding cancel_start start_is_pending persist
  cancel_checked attempt s =
      if start_is_pending attempt s
      then (do modify c e cancel_start; persist c e 1; pure true)
      else pure false

  unfoldable pub cancel_platform_vpn_start : Text → Handler c Bool
  unfolding cancel_checked sync
  cancel_platform_vpn_start attempt = do sync c e 0; s ← get; cancel_checked attempt s
