-- ===== src/PlatformOwner/Lease.antt =====
-- The leases of crates/paws_core/src/platform_owner.rs: an exclusive lock on one fixed file, whose
-- content names its holder. The lock is advisory and belongs to an open file, numbered by `who`.
use paws.Base.{
  ℕ, ◌*◌, Text, Bool, true, ◌||◌, not, Option, none, some, Eq, ◌==◌, nat_eq, is_empty, trim, ltb,
  if◌then◌else◌, List-discrete, ◌≡◌,
}
use paws.PlatformOwner.Record.{ProcessIdentity, identity_eq}

pub data PlatformVpnOwnerLeaseRole : Type 0 where
  issuer_role extension_role : PlatformVpnOwnerLeaseRole

pub record PlatformVpnOwnerLeaseRecord : Type 0 where
  pub attempt_id : Text
  pub identity : ProcessIdentity
  pub role : PlatformVpnOwnerLeaseRole

pub record StoredPlatformVpnOwnerLeaseRecord : Type 0 where
  pub version : ℕ
  pub attempt_id : Text
  pub identity : ProcessIdentity
  pub role : PlatformVpnOwnerLeaseRole

pub data PlatformVpnOwnerLeaseObservation : Type 0 where
  held_exact held_other released : PlatformVpnOwnerLeaseObservation

abbrev role-discrete : Discrete PlatformVpnOwnerLeaseRole
role-discrete = hlevel

abbrev lease-discrete : Discrete PlatformVpnOwnerLeaseRecord
lease-discrete = hlevel (List-discrete, identity_eq.same, role-discrete)

instance abbrev pub lease_eq : Eq PlatformVpnOwnerLeaseRecord
lease_eq = record { same = lease-discrete }

pub data LeaseError : Type 0 where
  empty_attempt_id incomplete_identity unsupported_version : LeaseError
  lease_busy not_regular missing too_large unserializable : LeaseError
  open_fails lock_fails read_fails write_fails sync_fails : LeaseError

pub data LeaseResult (A : Type 0) : Type 0 where
  granted : A → LeaseResult A
  refused : LeaseError → LeaseResult A

-- serde_json on the stored record.
pub record LeaseCodec : Type 1 where
  pub Bytes : Type 0
  pub size : Bytes → ℕ
  pub empty : Bytes
  pub to_vec : StoredPlatformVpnOwnerLeaseRecord → Option Bytes
  pub from_slice : Bytes → Option StoredPlatformVpnOwnerLeaseRecord

abbrev pub LeaseRoundTrips : LeaseCodec → Type 0
LeaseRoundTrips c =
    (s : StoredPlatformVpnOwnerLeaseRecord) (b : c.Bytes)
    → c.to_vec s ≡ some b
    → c.from_slice b ≡ some s

-- The path of the lease, and who holds its lock.
pub data LeaseFile (Bytes : Type 0) : Type 0 where
  absent other_kind : LeaseFile Bytes
  regular : Bytes → LeaseFile Bytes

pub record LeaseState (Bytes : Type 0) : Type 0 where
  pub file : LeaseFile Bytes
  pub holder : Option ℕ

-- How far a rewrite of the record comes.
pub data Rewrite (Bytes : Type 0) : Type 0 where
  untouched : Rewrite Bytes
  torn : Bytes → Rewrite Bytes
  unsynced complete : Rewrite Bytes

-- The calls of the file system that fail during one operation.
pub record LeaseFaults (Bytes : Type 0) : Type 0 where
  pub opens : Bool
  pub locks : Bool
  pub reads : Bool
  pub rewrite : Rewrite Bytes

abbrev pub lease_version : ℕ
lease_version = 1

abbrev pub max_lease_bytes : ℕ
max_lease_bytes = 16 * 1024

unfoldable pub validate_lease_record : PlatformVpnOwnerLeaseRecord → LeaseResult (Unit {0})
validate_lease_record r =
    if is_empty (trim r.attempt_id)
    then refused empty_attempt_id
    else if is_empty (trim r.identity.boot_id) || r.identity.pid == 0 || r.identity.start_time == 0
    then refused incomplete_identity
    else granted tt

-- `From<PlatformVpnOwnerLeaseRecord>`
abbrev pub to_stored_lease : PlatformVpnOwnerLeaseRecord → StoredPlatformVpnOwnerLeaseRecord
to_stored_lease r = record {
  version = lease_version;
  attempt_id = r.attempt_id;
  identity = r.identity;
  role = r.role;
}

abbrev pub checked :
    PlatformVpnOwnerLeaseRecord → LeaseResult (Unit {0}) → Option PlatformVpnOwnerLeaseRecord
checked r (granted u) = some r
checked r (refused e) = none

-- `TryFrom<StoredPlatformVpnOwnerLeaseRecord>`, of which only success is used
unfoldable pub from_stored_lease :
    StoredPlatformVpnOwnerLeaseRecord → Option PlatformVpnOwnerLeaseRecord
from_stored_lease stored =
    let r : PlatformVpnOwnerLeaseRecord = record {
      attempt_id = stored.attempt_id;
      identity = stored.identity;
      role = stored.role;
    } in
    if stored.version == lease_version then checked r (validate_lease_record r) else none

module _ (c : LeaseCodec) where
  open c use {Bytes, size, empty, to_vec, from_slice}

  -- `open_owner_lease`: with `create`, a missing file is made, empty.
  unfoldable pub open_owner_lease :
      Bool → LeaseFaults Bytes → LeaseFile Bytes → LeaseResult (LeaseFile Bytes)
  open_owner_lease create f other_kind = refused not_regular
  open_owner_lease create f absent =
      if not create
      then refused missing
      else if f.opens
      then refused open_fails
      else granted (regular empty)
  open_owner_lease create f (regular bytes) =
      if f.opens then refused open_fails else granted (regular bytes)

  -- What `read_owner_lease_record` makes of the content.
  abbrev pub decode_lease :
      Option StoredPlatformVpnOwnerLeaseRecord → Option PlatformVpnOwnerLeaseRecord
  decode_lease none = none
  decode_lease (some stored) = from_stored_lease stored

  unfoldable pub lease_content : LeaseFile Bytes → Option PlatformVpnOwnerLeaseRecord
  lease_content (regular bytes) =
      if ltb max_lease_bytes (size bytes) then none else decode_lease (from_slice bytes)
  lease_content _ = none

  -- `write_owner_lease_record` on the open file, by how far it comes.
  abbrev pub rewrite_with :
      Bytes → Rewrite Bytes → LeaseFile Bytes → LeaseResult (Unit {0}) × LeaseFile Bytes
  rewrite_with bytes untouched file = (refused write_fails, file)
  rewrite_with bytes (torn left) file = (refused write_fails, regular left)
  rewrite_with bytes unsynced file = (refused sync_fails, regular bytes)
  rewrite_with bytes complete file = (granted tt, regular bytes)

  abbrev pub write_serialized :
      Option Bytes → LeaseFaults Bytes → LeaseFile Bytes → LeaseResult (Unit {0}) × LeaseFile Bytes
  write_serialized none f file = (refused unserializable, file)
  write_serialized (some bytes) f file =
      if ltb max_lease_bytes (size bytes)
      then (refused too_large, file)
      else rewrite_with bytes f.rewrite file

  -- An error after the lock was taken drops the lease, and with it the lock.
  abbrev pub settle :
      ℕ → LeaseResult (Unit {0}) × LeaseFile Bytes → LeaseResult (Unit {0}) × LeaseState Bytes
  settle who (granted u, file) = (granted tt, record { file = file; holder = some who })
  settle who (refused e, file) = (refused e, record { file = file; holder = none })

  abbrev pub take_lock :
      ℕ
      → PlatformVpnOwnerLeaseRecord
      → LeaseFaults Bytes
      → LeaseFile Bytes
      → Option ℕ
      → LeaseResult (Unit {0}) × LeaseState Bytes
  take_lock who r f file (some other) =
      (refused lease_busy, record { file = file; holder = some other })
  take_lock who r f file none = settle who (write_serialized (to_vec (to_stored_lease r)) f file)

  abbrev pub acquire_opened :
      ℕ
      → PlatformVpnOwnerLeaseRecord
      → LeaseFaults Bytes
      → LeaseState Bytes
      → LeaseResult (LeaseFile Bytes)
      → LeaseResult (Unit {0}) × LeaseState Bytes
  acquire_opened who r f s (refused e) = (refused e, s)
  acquire_opened who r f s (granted file) =
      if f.locks
      then (refused lock_fails, record s { file = file })
      else take_lock who r f file s.holder

  abbrev pub acquire_valid :
      ℕ
      → PlatformVpnOwnerLeaseRecord
      → LeaseFaults Bytes
      → LeaseState Bytes
      → LeaseResult (Unit {0})
      → LeaseResult (Unit {0}) × LeaseState Bytes
  acquire_valid who r f s (refused e) = (refused e, s)
  acquire_valid who r f s (granted u) = acquire_opened who r f s (open_owner_lease true f s.file)
