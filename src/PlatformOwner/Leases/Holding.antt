-- ===== src/PlatformOwner/Leases/Holding.antt =====
-- A lease that is held stays with its holder and shows its record.
use paws.Base.{
  ℕ, ◌≡◌, refl, ap, ◌∙◌, Bool, true, false, Option, none, some, List, [], ◌∷◌, ◌==◌, nat_eq,
  if◌then◌else◌, arith,
}
use paws.PlatformOwner.Lease.{
  LeaseCodec, LeaseRoundTrips, LeaseState, LeaseFile, LeaseFaults, LeaseResult, granted, refused,
  lock_fails, lease_busy, PlatformVpnOwnerLeaseRecord, held_exact, held_other, lease_eq,
  validate_lease_record, open_owner_lease, lease_content, from_stored_lease, to_stored_lease,
  take_lock, acquire_valid, acquire_opened, regular, absent, other_kind, write_serialized,
}
use paws.PlatformOwner.Leases.{
  acquire_owner_lease_exact, observe_owner_lease_exact, observe_lock, lock_released_owner_lease,
  observe_valid, observe_opened, lock_opened, drop_lease, Call, acquires, locks_released, drops,
  step, run, spares, all_spare, found_eq, holder_eq,
}

module _ (c : LeaseCodec) where
  -- The lock is with the holder, and the file shows the record.
  abbrev pub IsHeld : ℕ → PlatformVpnOwnerLeaseRecord → LeaseState c.Bytes → Type 0
  IsHeld who r s =
      (s.holder ≡ some who)
      × (validate_lease_record r ≡ granted tt)
      × (lease_content c s.file ≡ some r)

  -- What a valid record becomes by storing and reading it.
  stored_back :
      (r : PlatformVpnOwnerLeaseRecord)
      → validate_lease_record r ≡ granted tt
      → from_stored_lease (to_stored_lease r) ≡ some r
  unfolding from_stored_lease
  stored_back r valid = ground (arith, valid)

  -- A record that was written is read back.
  written :
      (r : PlatformVpnOwnerLeaseRecord) (f : LeaseFaults c.Bytes) (file : LeaseFile c.Bytes)
      → (o : Option c.Bytes) → LeaseRoundTrips c
      → validate_lease_record r ≡ granted tt
      → c.to_vec (to_stored_lease r) ≡ o
      → (write_serialized c o f file).0 ≡ granted tt
      → lease_content c (write_serialized c o f file).1 ≡ some r
  unfolding lease_content
  written r f file none trips valid e got = absurd (ground arith)
  written r f file (some bytes) trips valid e got =
      ground (arith, stored_back r valid, trips (to_stored_lease r) bytes e)

  acquire-IsHeld :
      (who : ℕ) (r : PlatformVpnOwnerLeaseRecord) (f : LeaseFaults c.Bytes) (s : LeaseState c.Bytes)
      → LeaseRoundTrips c
      → (acquire_owner_lease_exact c who r f s).0 ≡ granted tt
      → IsHeld who r (acquire_owner_lease_exact c who r f s).1
  unfolding acquire_owner_lease_exact
  acquire-IsHeld who r f s trips got = go (validate_lease_record r) refl got
    where
      taken :
          (file : LeaseFile c.Bytes) (holder : Option ℕ)
          → validate_lease_record r ≡ granted tt
          → (take_lock c who r f file holder).0 ≡ granted tt
          → IsHeld who r (take_lock c who r f file holder).1
      taken file (some other) valid h = absurd (ground arith)
      taken file none valid h =
          ground (arith, written r f file (c.to_vec (to_stored_lease r)) trips valid refl)

      opened :
          (o : LeaseResult (LeaseFile c.Bytes))
          → validate_lease_record r ≡ granted tt
          → (acquire_opened c who r f s o).0 ≡ granted tt
          → IsHeld who r (acquire_opened c who r f s o).1
      opened (refused e) valid h = absurd (ground arith)
      opened (granted file) valid h = ground (arith, taken file s.holder valid)

      go :
          (v : LeaseResult (Unit {0}))
          → validate_lease_record r ≡ v
          → (acquire_valid c who r f s v).0 ≡ granted tt
          → IsHeld who r (acquire_valid c who r f s v).1
      go (refused e) valid h = absurd (ground arith)
      go (granted tt) valid h = opened (open_owner_lease c true f s.file) valid h

  step-IsHeld :
      (who : ℕ) (r : PlatformVpnOwnerLeaseRecord) (s : LeaseState c.Bytes) (call : Call c)
      → IsHeld who r s
      → spares c who call ≡ true
      → IsHeld who r (step c s call)
  unfolding step acquire_owner_lease_exact lock_released_owner_lease drop_lease open_owner_lease
      lease_content
  step-IsHeld who r s (acquires other r' f) held spared = ground arith
  step-IsHeld who r s (locks_released other f) held spared = ground arith
  step-IsHeld who r s (drops other) held spared = ground arith

  run-IsHeld :
      (who : ℕ) (r : PlatformVpnOwnerLeaseRecord) (s : LeaseState c.Bytes) (calls : List (Call c))
      → IsHeld who r s
      → all_spare c who calls ≡ true
      → IsHeld who r (run c s calls)
  unfolding run
  run-IsHeld who r s [] held spared = held
  run-IsHeld who r s (call ∷ calls) held spared =
      run-IsHeld who r (step c s call) calls
        (step-IsHeld who r s call held (ground (arith, spared))) (ground (arith, spared))

  opens_as :
      (create : Bool) (r : PlatformVpnOwnerLeaseRecord) (f : LeaseFaults c.Bytes)
      → (file : LeaseFile c.Bytes) → lease_content c file ≡ some r
      → f.opens ≡ false
      → open_owner_lease c create f file ≡ granted file
  unfolding open_owner_lease lease_content
  opens_as create r f absent shown o = absurd (ground arith)
  opens_as create r f other_kind shown o = absurd (ground arith)
  opens_as create r f (regular bytes) shown o = ground arith

  same_some : (r expected : PlatformVpnOwnerLeaseRecord) → some r == some expected ≡ r == expected
  same_some r expected = elim (lease_eq.same r expected) [
    | yes same ↦ ground arith
    | no other ↦ ground arith
  ]

  observe_held :
      (who : ℕ) (r expected : PlatformVpnOwnerLeaseRecord) (f : LeaseFaults c.Bytes)
      → (s : LeaseState c.Bytes) → IsHeld who r s
      → validate_lease_record expected ≡ granted tt
      → f.opens ≡ false
      → f.locks ≡ false
      → f.reads ≡ false
      → observe_owner_lease_exact c expected f s
        ≡ granted (if r == expected then held_exact else held_other)
  unfolding observe_owner_lease_exact
  observe_held who r expected f s held valid o l d =
      ap (observe_valid c expected f s) valid
      ∙ ap (observe_opened c expected f s.holder) (opens_as false r f s.file held.2 o)
      ∙ observe_locked s.holder held.0
      ∙ ap (λ b. granted (if b then held_exact else held_other))
          (ap (λ q. q == some expected) held.2 ∙ same_some r expected)
    where
      observe_locked :
          (holder : Option ℕ)
          → holder ≡ some who
          → (if f.locks then refused lock_fails else observe_lock c expected f s.file holder)
            ≡ granted (if lease_content c s.file == some expected then held_exact else held_other)
      observe_locked none h = absurd (ground arith)
      observe_locked (some w) h = rw (l, d) refl

  acquire_busy :
      (who other : ℕ) (r expected : PlatformVpnOwnerLeaseRecord) (f : LeaseFaults c.Bytes)
      → (s : LeaseState c.Bytes) → IsHeld who r s
      → validate_lease_record expected ≡ granted tt
      → f.opens ≡ false
      → f.locks ≡ false
      → (acquire_owner_lease_exact c other expected f s).0 ≡ refused lease_busy
  unfolding acquire_owner_lease_exact
  acquire_busy who other r expected f s held valid o l =
      ap (λ v. (acquire_valid c other expected f s v).0) valid
      ∙ ap (λ v. (acquire_opened c other expected f s v).0) (opens_as true r f s.file held.2 o)
      ∙ go s.holder held.0
    where
      go :
          (holder : Option ℕ)
          → holder ≡ some who
          → (if f.locks
              then (refused lock_fails, record s { file = s.file })
              else take_lock c other expected f s.file holder).0
            ≡ refused lease_busy
      go none h = absurd (ground arith)
      go (some w) h = rw l refl

  lock_busy :
      (who other : ℕ) (r : PlatformVpnOwnerLeaseRecord) (f : LeaseFaults c.Bytes)
      → (s : LeaseState c.Bytes) → IsHeld who r s
      → f.opens ≡ false
      → f.locks ≡ false
      → (lock_released_owner_lease c other f s).0 ≡ granted false
  unfolding lock_released_owner_lease
  lock_busy who other r f s held o l =
      ap (λ v. (lock_opened c other f s v).0) (opens_as false r f s.file held.2 o)
      ∙ ground (arith, held.0)

  -- A lease that was acquired stays with its holder through any calls of other processes, whichever
  -- calls of the file system fail in them: no other process acquires it, and an observer without
  -- faults of its own that expects a valid record sees exactly whether it is the holder's, until the
  -- holder drops it. The serialisation of records is assumed to read back.
  pub acquired_lease_is_observed :
      (who other : ℕ) (r expected : PlatformVpnOwnerLeaseRecord) (f g : LeaseFaults c.Bytes)
      → (s : LeaseState c.Bytes) (calls : List (Call c)) → LeaseRoundTrips c
      → (acquire_owner_lease_exact c who r f s).0 ≡ granted tt
      → all_spare c who calls ≡ true
      → validate_lease_record expected ≡ granted tt
      → g.opens ≡ false
      → g.locks ≡ false
      → g.reads ≡ false
      → let held = run c (acquire_owner_lease_exact c who r f s).1 calls in
        (observe_owner_lease_exact c expected g held
          ≡ granted (if r == expected then held_exact else held_other))
        × ((acquire_owner_lease_exact c other expected g held).0 ≡ refused lease_busy)
        × ((lock_released_owner_lease c other g held).0 ≡ granted false)
  acquired_lease_is_observed who other r expected f g s calls trips got spared valid o l d =
      let held =
        run-IsHeld who r (acquire_owner_lease_exact c who r f s).1 calls
          (acquire-IsHeld who r f s trips got) spared in
      let state = run c (acquire_owner_lease_exact c who r f s).1 calls in
      (
        observe_held who r expected g state held valid o l d,
        acquire_busy who other r expected g state held valid o l,
        lock_busy who other r g state held o l,
      )
