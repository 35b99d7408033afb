-- ===== src/Session/Cleanup.antt =====
-- crates/paws_core/src/lib.rs: the end of an attempt that the extension had, by its own
-- acknowledgement or by a proof that it is gone.
use paws.Base.{
  ℕ, Text, Bool, true, false, not, ◌&&◌, ◌||◌, Option, none, some, ◌==◌, nat_eq, text_eq, leb,
  is_empty, if◌then◌else◌,
}
use paws.PlatformOwner.Record.{
  ProcessIdentity, identity_eq, PlatformVpnOwnerPhase, PlatformVpnOwnerJournal, JournalRead,
  missing, present,
}
use paws.PlatformOwner.Lease.{PlatformVpnOwnerLeaseObservation, held_exact, held_other, released}
use paws.PlatformOwner.Disk.{Codec}
use paws.PlatformOwner.{read, delete_exact}
use paws.Session.{Session, cancelled, is_failed, is_terminal}
use paws.Session.World.{
  Env, Handler, ◌>>=◌, ◌>>◌, pure, refuse, guard, get, modify, on_journal, persist, lease_refused,
  lease_unverified, journal_missing, invalid_phase, lease_missing, owner_mismatch, journal_changed,
}
use paws.Session.Remote.{sync}
use paws.Session.Starts.{current_process_identity}

-- A terminal attempt whose work has ended.
abbrev pub may_clean : Session → Bool
may_clean s = not s.running && not s.starting && is_terminal s.start_outcome

unfoldable pub clean : Session → Session
clean s = record s {
  cleanup_complete = true;
  extension_attached = false;
  stop_requested = true;
  extension_owner_pid = 0;
  extension_owner_start_time = 0;
  watchdog_cleanup_recoverable = false;
  issuer_lease = false;
  extension_lease = false;
}

unfoldable pub recover_clean : Session → Session
unfolding clean
recover_clean s =
    let ended = record s { starting = false; running = false; network_protected = false } in
    clean (
      if is_failed s.start_outcome
      then ended
      else record ended { start_outcome = cancelled; network_protect_error = none })

abbrev pub is_unattached_fence : Text → Session → Bool
is_unattached_fence attempt s =
    s.start_attempt_id == attempt
    && not s.extension_attached
    && s.stop_requested
    && is_terminal s.start_outcome

-- `CleanupRecoveryProof`
pub data CleanupRecoveryProof : Type 0 where
  proven owner_alive owner_liveness_unknown : CleanupRecoveryProof

-- One turn of the loop answers, or is to be taken again.
pub data Turn : Type 0 where
  answers : Bool → Turn
  again : Turn

module _ (c : Codec) (e : Env) where
  abbrev pub is_acknowledging :
      ProcessIdentity → Session → PlatformVpnOwnerPhase → Option ProcessIdentity → Bool
  is_acknowledging owner s PlatformVpnOwnerPhase.attached (some extension) =
      extension == owner
      && extension.pid == s.extension_owner_pid
      && extension.start_time == s.extension_owner_start_time
  is_acknowledging owner s _ _ = false

  unfoldable pub clean_deleted : Bool → Handler c Bool
  unfolding clean persist
  clean_deleted deleted = do
    guard deleted journal_changed
    modify c e clean
    persist c e 2
    pure true

  unfoldable pub clean_present :
      Text → ProcessIdentity → Session → PlatformVpnOwnerJournal → Handler c Bool
  unfolding clean_deleted on_journal
  clean_present attempt owner s j = if not (j.attempt_id == attempt) then pure false else do
    guard (is_acknowledging owner s j.phase j.extension) owner_mismatch
    deleted ← on_journal c e 1 (λ f. delete_exact c f attempt j.extension)
    clean_deleted deleted

  abbrev pub clean_found : Text → ProcessIdentity → Session → JournalRead → Handler c Bool
  clean_found attempt owner s missing = refuse journal_missing
  clean_found attempt owner s (present j) = clean_present attempt owner s j

  unfoldable pub clean_checked : Text → ProcessIdentity → Session → Handler c Bool
  unfolding clean_present on_journal
  clean_checked attempt owner s =
      if is_empty attempt || not (s.start_attempt_id == attempt) || not (may_clean s)
      then pure false
      else if s.cleanup_complete
      then pure true
      else do
        guard s.extension_lease lease_missing
        found ← on_journal c e 0 (read c)
        clean_found attempt owner s found

  unfoldable pub complete_platform_vpn_cleanup : Text → Handler c Bool
  unfolding clean_checked sync
  complete_platform_vpn_cleanup attempt = do
    owner ← current_process_identity c e
    sync c e 0
    s ← get
    clean_checked attempt owner s

  abbrev pub proof_of : Option PlatformVpnOwnerLeaseObservation → Handler c CleanupRecoveryProof
  proof_of none = refuse lease_refused
  proof_of (some released) = pure proven
  proof_of (some held_exact) = pure owner_alive
  proof_of (some held_other) = pure owner_liveness_unknown

  -- Whether the owner on record is known to be gone.
  unfoldable pub prove_gone :
      Bool → PlatformVpnOwnerPhase → Option ProcessIdentity → Handler c CleanupRecoveryProof
  prove_gone local_fence PlatformVpnOwnerPhase.stopping none = pure proven
  prove_gone local_fence PlatformVpnOwnerPhase.pending none =
      if local_fence then pure proven else proof_of (e.moments 0).observes
  prove_gone local_fence PlatformVpnOwnerPhase.attached (some extension) =
      proof_of (e.moments 0).observes
  prove_gone local_fence _ _ = refuse invalid_phase

  unfoldable pub recover_session : Text → Session → Handler c Turn
  unfolding recover_clean persist
  recover_session attempt s =
      if s.start_attempt_id == attempt && not s.cleanup_complete
      then (do modify c e recover_clean; persist c e 3; pure (answers true))
      else pure (answers true)

  -- The journal may have changed since it was read.
  unfoldable pub recover_deleted : Text → Bool → Handler c Turn
  unfolding recover_session sync
  recover_deleted attempt false = pure again
  recover_deleted attempt true = do sync c e 2; s ← get; recover_session attempt s

  unfoldable pub recover_proof :
      ℕ → Text → Option ProcessIdentity → CleanupRecoveryProof → Handler c Turn
  unfolding recover_deleted on_journal
  recover_proof deadline attempt expected proven = do
    deleted ← on_journal c e 1 (λ f. delete_exact c f attempt expected)
    recover_deleted attempt deleted
  recover_proof deadline attempt expected owner_alive =
      pure (if leb deadline (e.moments 1).instant then answers false else again)
  recover_proof deadline attempt expected owner_liveness_unknown = refuse lease_unverified

  abbrev pub recovered_already : Text → Session → Handler c Turn
  recovered_already attempt s = do
    guard (s.start_attempt_id == attempt && s.cleanup_complete) journal_missing
    pure (answers true)

  unfoldable pub recover_found : ℕ → Text → Bool → JournalRead → Handler c Turn
  unfolding prove_gone recover_proof sync
  recover_found deadline attempt local_fence missing = do
    sync c e 1
    s ← get
    recovered_already attempt s
  recover_found deadline attempt local_fence (present j) =
      if not (j.attempt_id == attempt) then pure (answers false) else do
        proof ← prove_gone local_fence j.phase j.extension
        recover_proof deadline attempt j.extension proof

  unfoldable pub recover_synced : ℕ → Text → Session → Handler c Turn
  unfolding recover_found on_journal
  recover_synced deadline attempt s =
      if s.start_attempt_id == attempt && s.cleanup_complete then pure (answers true) else do
        found ← on_journal c e 0 (read c)
        recover_found deadline attempt (is_unattached_fence attempt s) found

  -- One turn of `recover_platform_vpn_cleanup_after_confirmed_stop`, to its deadline.
  unfoldable pub recover_platform_vpn_cleanup : ℕ → Text → Handler c Turn
  unfolding recover_synced sync
  recover_platform_vpn_cleanup deadline attempt =
      if is_empty attempt
      then pure (answers false)
      else do sync c e 0; s ← get; recover_synced deadline attempt s
