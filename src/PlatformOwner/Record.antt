-- ===== src/PlatformOwner/Record.antt =====
-- crates/paws_core/src/platform_owner.rs: the records of the journal and their validation.
use paws.Base.{
  ℕ, ◌*◌, Text, ◌||◌, Option, none, some, Eq, ◌==◌, nat_eq, is_empty, trim, if◌then◌else◌,
  List-discrete, ℕ_discrete, ◌≡◌, refl,
}

pub record ProcessIdentity : Type 0 where
  pub boot_id : Text
  pub pid : ℕ
  pub start_time : ℕ

pub data PlatformVpnOwnerPhase : Type 0 where
  pending attached stopping : PlatformVpnOwnerPhase

pub record PlatformVpnOwnerJournal : Type 0 where
  pub attempt_id : Text
  pub issuer : ProcessIdentity
  pub extension : Option ProcessIdentity
  pub phase : PlatformVpnOwnerPhase

pub data JournalRead : Type 0 where
  missing : JournalRead
  present : PlatformVpnOwnerJournal → JournalRead

pub record StoredPlatformVpnOwnerJournal : Type 0 where
  pub version : ℕ
  pub attempt_id : Text
  pub issuer : ProcessIdentity
  pub extension : Option ProcessIdentity
  pub phase : PlatformVpnOwnerPhase

abbrev ProcessIdentity-discrete : Discrete ProcessIdentity
ProcessIdentity-discrete = hlevel (ℕ_discrete, List-discrete)

instance abbrev pub identity_eq : Eq ProcessIdentity
identity_eq = record { same = ProcessIdentity-discrete }

abbrev PlatformVpnOwnerPhase-discrete : Discrete PlatformVpnOwnerPhase
PlatformVpnOwnerPhase-discrete = hlevel

instance abbrev pub phase_eq : Eq PlatformVpnOwnerPhase
phase_eq = record { same = PlatformVpnOwnerPhase-discrete }

abbrev Option-discrete : Discrete (Option ProcessIdentity)
Option-discrete = hlevel ProcessIdentity-discrete

instance abbrev pub extension_eq : Eq (Option ProcessIdentity)
extension_eq = record { same = Option-discrete }

abbrev PlatformVpnOwnerJournal-discrete : Discrete PlatformVpnOwnerJournal
PlatformVpnOwnerJournal-discrete =
    hlevel
      (List-discrete, ProcessIdentity-discrete, Option-discrete, PlatformVpnOwnerPhase-discrete)

instance abbrev pub journal_eq : Eq PlatformVpnOwnerJournal
journal_eq = record { same = PlatformVpnOwnerJournal-discrete }

-- The reasons of `journal_error`, each message a constructor.
pub data JournalError : Type 0 where
  empty_attempt_id incomplete_identity : JournalError
  pending_with_extension attached_without_extension stopping_with_extension : JournalError
  unsupported_version not_regular too_large malformed unserializable busy : JournalError
  new_owner_not_pending create_conflict : JournalError
  attach_missing attach_not_current attach_other_owner : JournalError
  fence_other_owner : JournalError
  rebind_missing rebind_not_current rebind_other_owner : JournalError

-- Where an operation of the file system failed (`io_error`).
pub data IoStep : Type 0 where
  open_lock inspect read_file write_temporary rename remove sync_parent : IoStep

pub data PawsError : Type 0 where
  core : JournalError → PawsError
  io : IoStep → PawsError

pub data Result {ℓ} (A : Type ℓ) : Type ℓ where
  ok : A → Result A
  err : PawsError → Result A

abbrev pub journal_version : ℕ
journal_version = 1

abbrev pub max_journal_bytes : ℕ
max_journal_bytes = 16 * 1024

unfoldable pub validate_attempt_id : Text → Result (Unit {0})
validate_attempt_id attempt_id =
    if is_empty (trim attempt_id) then err (core empty_attempt_id) else ok tt

unfoldable pub validate_identity : ProcessIdentity → Result (Unit {0})
validate_identity identity =
    if is_empty (trim identity.boot_id) || identity.pid == 0 || identity.start_time == 0
    then err (core incomplete_identity)
    else ok tt

abbrev pub and_then {ℓ} : {B : Type ℓ} → Result (Unit {0}) → Result B → Result B
and_then (ok u) r = r
and_then (err e) r = err e

abbrev pub validate_extension : Option ProcessIdentity → Result (Unit {0})
validate_extension none = ok tt
validate_extension (some extension) = validate_identity extension

unfoldable pub validate_phase : PlatformVpnOwnerPhase → Option ProcessIdentity → Result (Unit {0})
validate_phase pending none = ok tt
validate_phase attached (some extension) = ok tt
validate_phase stopping none = ok tt
validate_phase pending (some extension) = err (core pending_with_extension)
validate_phase attached none = err (core attached_without_extension)
validate_phase stopping (some extension) = err (core stopping_with_extension)

unfoldable pub validate_record : PlatformVpnOwnerJournal → Result (Unit {0})
unfolding validate_phase
validate_record record_ = and_then (validate_attempt_id record_.attempt_id) (
    and_then (validate_identity record_.issuer) (
      and_then (validate_extension record_.extension)
        (validate_phase record_.phase record_.extension)))

-- `impl From<PlatformVpnOwnerJournal> for StoredPlatformVpnOwnerJournal`
unfoldable pub to_stored : PlatformVpnOwnerJournal → StoredPlatformVpnOwnerJournal
to_stored j = record {
  version = journal_version;
  attempt_id = j.attempt_id;
  issuer = j.issuer;
  extension = j.extension;
  phase = j.phase;
}

-- `impl TryFrom<StoredPlatformVpnOwnerJournal> for PlatformVpnOwnerJournal`
unfoldable pub try_from_stored : StoredPlatformVpnOwnerJournal → Result PlatformVpnOwnerJournal
try_from_stored stored =
    if stored.version == journal_version
    then (let j : PlatformVpnOwnerJournal = record {
      attempt_id = stored.attempt_id;
      issuer = stored.issuer;
      extension = stored.extension;
      phase = stored.phase;
    } in
        and_then (validate_record j) (ok j))
    else err (core unsupported_version)

-- Storing a record and reading it back gives the record again exactly when validation accepts it.
pub try_from_stored-to_stored :
    (j : PlatformVpnOwnerJournal)
    → try_from_stored (to_stored j) ≡ and_then (validate_record j) (ok j)
unfolding try_from_stored to_stored ℕ_discrete
try_from_stored-to_stored j = refl
