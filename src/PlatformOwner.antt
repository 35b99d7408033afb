-- ===== src/PlatformOwner.antt =====
-- crates/paws_core/src/platform_owner.rs: the journal of the process that owns the platform VPN.
-- Each operation runs under the lock of the journal, so operations of two processes do not overlap
-- and a history is a list of whole operations. Messages of errors are constructors.
pub mod Record
pub mod Disk
pub mod Lease
pub mod Leases
pub mod Protocol
pub mod Races
pub mod Effects
pub mod Limits
mod Examples
use paws.Base.{
  Text, Bool, true, false, not, ◌&&◌, ◌||◌, Option, none, some, ◌==◌, text_eq, is_some,
  if◌then◌else◌, List, [], ◌∷◌,
}
use paws.PlatformOwner.Record.{
  ProcessIdentity, PlatformVpnOwnerPhase, pending, attached, stopping, PlatformVpnOwnerJournal,
  JournalRead, missing, present, identity_eq, phase_eq, extension_eq, journal_eq, Result, ok, err,
  validate_attempt_id, validate_identity, validate_extension, validate_record,
  new_owner_not_pending, create_conflict, attach_missing, attach_not_current, attach_other_owner,
  fence_other_owner, rebind_missing, rebind_not_current, rebind_other_owner,
}
use paws.PlatformOwner.Disk.{
  Codec, JournalFile, Faults, Action, ◌>>=◌, ◌>>◌, lift, pure, fail, guard, lock_journal,
  read_unlocked, write_unlocked, remove_file,
}

module _ (c : Codec) (f : Faults) where
  abbrev create_over : PlatformVpnOwnerJournal → JournalRead → Action c.Bytes (Unit {0})
  create_over new missing = write_unlocked c f new
  create_over new (present current) = if current == new then pure tt else fail create_conflict

  unfoldable pub create_pending_exact : PlatformVpnOwnerJournal → Action c.Bytes (Unit {0})
  create_pending_exact new = do
    lift (validate_record new)
    guard (not (not (new.phase == pending) || is_some new.extension)) new_owner_not_pending
    lock_journal c f
    found ← read_unlocked c f
    create_over new found

  abbrev attach_phase :
      ProcessIdentity
      → PlatformVpnOwnerJournal
      → PlatformVpnOwnerPhase
      → Option ProcessIdentity
      → Action c.Bytes (Unit {0})
  attach_phase extension current pending none =
      write_unlocked c f (record current { phase = attached; extension = some extension })
  attach_phase extension current attached (some current_extension) =
      if current_extension == extension then pure tt else fail attach_other_owner
  attach_phase extension current _ _ = fail attach_other_owner

  abbrev attach_over :
      Text → ProcessIdentity → ProcessIdentity → JournalRead → Action c.Bytes (Unit {0})
  attach_over attempt issuer extension missing = fail attach_missing
  attach_over attempt issuer extension (present current) =
      if not (current.attempt_id == attempt) || not (current.issuer == issuer)
      then fail attach_not_current
      else attach_phase extension current current.phase current.extension

  unfoldable pub upgrade_attached_exact :
      Text → ProcessIdentity → ProcessIdentity → Action c.Bytes (Unit {0})
  upgrade_attached_exact attempt issuer extension = do
    lift (validate_attempt_id attempt)
    lift (validate_identity issuer)
    lift (validate_identity extension)
    lock_journal c f
    found ← read_unlocked c f
    attach_over attempt issuer extension found

  abbrev fence_phase :
      PlatformVpnOwnerJournal → PlatformVpnOwnerPhase → Option ProcessIdentity → Action c.Bytes Bool
  fence_phase current pending none = do
    write_unlocked c f (record current { phase = stopping })
    pure true
  fence_phase current stopping none = pure true
  fence_phase current attached (some extension) = pure false
  fence_phase current _ _ = fail fence_other_owner

  abbrev fence_over : Text → ProcessIdentity → JournalRead → Action c.Bytes Bool
  fence_over attempt issuer missing = pure false
  fence_over attempt issuer (present current) =
      if not (current.attempt_id == attempt) || not (current.issuer == issuer)
      then pure false
      else fence_phase current current.phase current.extension

  pub fence_pending_stop_exact : Text → ProcessIdentity → Action c.Bytes Bool
  fence_pending_stop_exact attempt issuer = do
    lift (validate_attempt_id attempt)
    lift (validate_identity issuer)
    lock_journal c f
    found ← read_unlocked c f
    fence_over attempt issuer found

  abbrev rebind_extension :
      ProcessIdentity
      → ProcessIdentity
      → PlatformVpnOwnerJournal
      → Option ProcessIdentity
      → Action c.Bytes (Unit {0})
  rebind_extension expected replacement current none = fail rebind_other_owner
  rebind_extension expected replacement current (some extension) =
      if extension == expected
      then (if extension == replacement
          then pure tt
          else write_unlocked c f (record current { extension = some replacement }))
      else if extension == replacement
      then pure tt
      else fail rebind_other_owner

  abbrev rebind_over :
      Text
      → ProcessIdentity
      → ProcessIdentity
      → ProcessIdentity
      → JournalRead
      → Action c.Bytes (Unit {0})
  rebind_over attempt issuer expected replacement missing = fail rebind_missing
  rebind_over attempt issuer expected replacement (present current) =
      if not (current.attempt_id == attempt)
        || not (current.issuer == issuer)
        || not (current.phase == attached)
      then fail rebind_not_current
      else rebind_extension expected replacement current current.extension

  pub rebind_attached_exact :
      Text → ProcessIdentity → ProcessIdentity → ProcessIdentity → Action c.Bytes (Unit {0})
  rebind_attached_exact attempt issuer expected replacement = do
    lift (validate_attempt_id attempt)
    lift (validate_identity issuer)
    lift (validate_identity expected)
    lift (validate_identity replacement)
    lock_journal c f
    found ← read_unlocked c f
    rebind_over attempt issuer expected replacement found

  abbrev delete_over : Text → Option ProcessIdentity → JournalRead → Action c.Bytes Bool
  delete_over attempt expected missing = pure false
  delete_over attempt expected (present current) =
      if not (current.attempt_id == attempt) || not (current.extension == expected)
      then pure false
      else do remove_file c f; pure true

  pub delete_exact : Text → Option ProcessIdentity → Action c.Bytes Bool
  delete_exact attempt expected = do
    lift (validate_attempt_id attempt)
    lift (validate_extension expected)
    lock_journal c f
    found ← read_unlocked c f
    delete_over attempt expected found

  abbrev delete_pending_over : Text → JournalRead → Action c.Bytes Bool
  delete_pending_over attempt missing = pure false
  delete_pending_over attempt (present current) =
      if not (current.attempt_id == attempt)
        || not (current.phase == pending)
        || is_some current.extension
      then pure false
      else do remove_file c f; pure true

  pub delete_pending_exact : Text → Action c.Bytes Bool
  delete_pending_exact attempt = do
    lift (validate_attempt_id attempt)
    lock_journal c f
    found ← read_unlocked c f
    delete_pending_over attempt found

  unfoldable pub read : Action c.Bytes JournalRead
  read = do lock_journal c f; read_unlocked c f

-- One call, with the faults that it meets.
pub data Call : Type 0 where
  creates : PlatformVpnOwnerJournal → Call
  attaches : Text → ProcessIdentity → ProcessIdentity → Call
  fences : Text → ProcessIdentity → Call
  rebinds : Text → ProcessIdentity → ProcessIdentity → ProcessIdentity → Call
  deletes : Text → Option ProcessIdentity → Call
  deletes_pending : Text → Call

pub step : (c : Codec) → JournalFile c.Bytes → Faults × Call → JournalFile c.Bytes
unfolding create_pending_exact upgrade_attached_exact fence_pending_stop_exact rebind_attached_exact
    delete_exact delete_pending_exact
step c d (f, creates new) = (create_pending_exact c f new d).1
step c d (f, attaches attempt issuer extension) =
    (upgrade_attached_exact c f attempt issuer extension d).1
step c d (f, fences attempt issuer) = (fence_pending_stop_exact c f attempt issuer d).1
step c d (f, rebinds attempt issuer expected replacement) =
    (rebind_attached_exact c f attempt issuer expected replacement d).1
step c d (f, deletes attempt expected) = (delete_exact c f attempt expected d).1
step c d (f, deletes_pending attempt) = (delete_pending_exact c f attempt d).1

unfoldable pub run : (c : Codec) → JournalFile c.Bytes → List (Faults × Call) → JournalFile c.Bytes
run c d [] = d
run c d (s ∷ ss) = run c (step c d s) ss
