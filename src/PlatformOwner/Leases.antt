-- ===== src/PlatformOwner/Leases.antt =====
-- crates/paws_core/src/platform_owner.rs: taking, watching and dropping a lease.
pub mod Holding
mod Examples
use paws.Base.{
  ℕ, Text, Bool, true, false, not, Option, none, some, List, [], ◌∷◌, Eq, ◌==◌, nat_eq,
  if◌then◌else◌, List-discrete,
}
use paws.PlatformOwner.Lease.{
  LeaseCodec, LeaseState, LeaseFile, LeaseFaults, LeaseResult, granted, refused, LeaseError,
  lease_busy, lock_fails, read_fails, PlatformVpnOwnerLeaseRecord, PlatformVpnOwnerLeaseObservation,
  held_exact, held_other, released, lease_eq, validate_lease_record, open_owner_lease,
  lease_content, acquire_valid,
}

abbrev holder-discrete : Discrete (Option ℕ)
holder-discrete = hlevel nat_eq.same

instance abbrev pub holder_eq : Eq (Option ℕ)
holder_eq = record { same = holder-discrete }

abbrev found-discrete : Discrete (Option PlatformVpnOwnerLeaseRecord)
found-discrete = hlevel lease_eq.same

instance abbrev pub found_eq : Eq (Option PlatformVpnOwnerLeaseRecord)
found_eq = record { same = found-discrete }

module _ (c : LeaseCodec) where
  open c use {Bytes}

  unfoldable pub acquire_owner_lease_exact :
      ℕ
      → PlatformVpnOwnerLeaseRecord
      → LeaseFaults Bytes
      → LeaseState Bytes
      → LeaseResult (Unit {0}) × LeaseState Bytes
  acquire_owner_lease_exact who r f s = acquire_valid c who r f s (validate_lease_record r)

  -- A lock that nobody holds is taken and dropped at once.
  abbrev pub observe_lock :
      PlatformVpnOwnerLeaseRecord
      → LeaseFaults Bytes
      → LeaseFile Bytes
      → Option ℕ
      → LeaseResult PlatformVpnOwnerLeaseObservation
  observe_lock expected f file none = granted released
  observe_lock expected f file (some who) =
      if f.reads
      then refused read_fails
      else granted (if lease_content c file == some expected then held_exact else held_other)

  abbrev pub observe_opened :
      PlatformVpnOwnerLeaseRecord
      → LeaseFaults Bytes
      → Option ℕ
      → LeaseResult (LeaseFile Bytes)
      → LeaseResult PlatformVpnOwnerLeaseObservation
  observe_opened expected f holder (refused e) = refused e
  observe_opened expected f holder (granted file) =
      if f.locks then refused lock_fails else observe_lock expected f file holder

  abbrev pub observe_valid :
      PlatformVpnOwnerLeaseRecord
      → LeaseFaults Bytes
      → LeaseState Bytes
      → LeaseResult (Unit {0})
      → LeaseResult PlatformVpnOwnerLeaseObservation
  observe_valid expected f s (refused e) = refused e
  observe_valid expected f s (granted u) =
      observe_opened expected f s.holder (open_owner_lease c false f s.file)

  unfoldable pub observe_owner_lease_exact :
      PlatformVpnOwnerLeaseRecord
      → LeaseFaults Bytes
      → LeaseState Bytes
      → LeaseResult PlatformVpnOwnerLeaseObservation
  observe_owner_lease_exact expected f s =
      observe_valid expected f s (validate_lease_record expected)

  abbrev pub lock_opened :
      ℕ
      → LeaseFaults Bytes
      → LeaseState Bytes
      → LeaseResult (LeaseFile Bytes)
      → LeaseResult Bool × LeaseState Bytes
  lock_opened who f s (refused e) = (refused e, s)
  lock_opened who f s (granted file) = if f.locks then (refused lock_fails, s) else elim s.holder [
    | none ↦ (granted true, record s { holder = some who })
    | some other ↦ (granted false, s)
  ]

  -- `true` stands for the lease that is returned.
  unfoldable pub lock_released_owner_lease :
      ℕ → LeaseFaults Bytes → LeaseState Bytes → LeaseResult Bool × LeaseState Bytes
  lock_released_owner_lease who f s = lock_opened who f s (open_owner_lease c false f s.file)

  -- `Drop for PlatformVpnOwnerLease`
  unfoldable pub drop_lease : ℕ → LeaseState Bytes → LeaseState Bytes
  drop_lease who s = if s.holder == some who then record s { holder = none } else s

  -- What the processes do to the lease.
  pub data Call : Type 0 where
    acquires : ℕ → PlatformVpnOwnerLeaseRecord → LeaseFaults Bytes → Call
    locks_released : ℕ → LeaseFaults Bytes → Call
    drops : ℕ → Call

  unfoldable pub step : LeaseState Bytes → Call → LeaseState Bytes
  step s (acquires who r f) = (acquire_owner_lease_exact who r f s).1
  step s (locks_released who f) = (lock_released_owner_lease who f s).1
  step s (drops who) = drop_lease who s

  unfoldable pub run : LeaseState Bytes → List Call → LeaseState Bytes
  run s [] = s
  run s (call ∷ calls) = run (step s call) calls

  -- The call is not the drop of this holder.
  abbrev pub spares : ℕ → Call → Bool
  spares who (drops other) = not (other == who)
  spares who _ = true

  abbrev pub all_spare : ℕ → List Call → Bool
  all_spare who [] = true
  all_spare who (call ∷ calls) = if spares who call then all_spare who calls else false
