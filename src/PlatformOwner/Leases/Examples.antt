-- ===== src/PlatformOwner/Leases/Examples.antt =====
-- An extension that takes the lease, and a process that watches it.
use paws.Base.{◌≡◌, refl, text, false, Option, none, some, List, [], ◌∷◌, ℕ_discrete, trim, arith}
use paws.PlatformOwner.Lease.{
  LeaseCodec, LeaseRoundTrips, LeaseState, LeaseFaults, absent, complete, granted, refused,
  lease_busy, held_exact, released, issuer_role, extension_role, PlatformVpnOwnerLeaseRecord,
  StoredPlatformVpnOwnerLeaseRecord, validate_lease_record, open_owner_lease,
}
use paws.PlatformOwner.Leases.{
  acquire_owner_lease_exact, observe_owner_lease_exact, lock_released_owner_lease, drop_lease, Call,
  acquires, locks_released, drops, run, step,
}
use paws.PlatformOwner.Leases.Holding.{acquired_lease_is_observed}

-- A codec that stores the record itself.
abbrev plain : LeaseCodec
plain = record {
  Bytes = Option StoredPlatformVpnOwnerLeaseRecord;
  size = λ b. 100;
  empty = none;
  to_vec = λ s. some (some s);
  from_slice = λ b. b;
}

plain-LeaseRoundTrips : LeaseRoundTrips plain
plain-LeaseRoundTrips s b e = unwrap b e
  where
    unwrap : (b : Option StoredPlatformVpnOwnerLeaseRecord) → some (some s) ≡ some b → b ≡ some s
    unwrap none h = absurd (ground arith)
    unwrap (some t) h = ground arith

abbrev holder : PlatformVpnOwnerLeaseRecord
holder = record {
  attempt_id = text "a";
  identity = record { boot_id = text "b"; pid = 7; start_time = 9 };
  role = extension_role;
}

abbrev other_holder : PlatformVpnOwnerLeaseRecord
other_holder = record holder { role = issuer_role }

abbrev free : LeaseState plain.Bytes
free = record { file = absent; holder = none }

abbrev works : LeaseFaults plain.Bytes
works = record { opens = false; locks = false; reads = false; rewrite = complete }

-- Another process tries to take the lease and to lock it, and drops what it has not.
abbrev others : List (Call plain)
others = acquires 2 other_holder works ∷ locks_released 3 works ∷ drops 2 ∷ []

-- After the drop the lease is free, though the file still has the record.
dropped :
    observe_owner_lease_exact plain holder works
      (run plain free (acquires 1 holder works ∷ drops 1 ∷ []))
    ≡ granted released
unfolding observe_owner_lease_exact run step acquire_owner_lease_exact drop_lease open_owner_lease
    validate_lease_record trim ℕ_discrete
dropped = refl

acquired_lease_is_observed_example :
    let held = run plain (acquire_owner_lease_exact plain 1 holder works free).1 others in
    (observe_owner_lease_exact plain holder works held ≡ granted held_exact)
    × ((acquire_owner_lease_exact plain 2 holder works held).0 ≡ refused lease_busy)
    × ((lock_released_owner_lease plain 2 works held).0 ≡ granted false)
unfolding acquire_owner_lease_exact open_owner_lease validate_lease_record trim ℕ_discrete
acquired_lease_is_observed_example =
    acquired_lease_is_observed plain 1 2 holder holder works works free others plain-LeaseRoundTrips
      refl refl refl refl refl refl
