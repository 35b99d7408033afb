-- ===== src/PlatformOwner/Examples.antt =====
-- The owner journal on a concrete codec: runs, and the theorems at concrete calls.
use paws.Base.{
  ℕ, ◌+◌, ◌≡◌, ◌≢◌, refl, Text, true, none, some, List, [], ◌∷◌, arith, text, length, ℕ_discrete,
  trim,
}
use paws.PlatformOwner.Record.{
  ProcessIdentity, pending, stopping, PlatformVpnOwnerJournal, ok, to_stored, try_from_stored,
  validate_record, validate_attempt_id, validate_identity, StoredPlatformVpnOwnerJournal,
}
use paws.PlatformOwner.Disk.{
  Codec, RoundTrips, JournalFile, absent, regular, Faults, read_unlocked, write_unlocked,
}
use paws.PlatformOwner.{
  Call, creates, attaches, fences, deletes, step, run, upgrade_attached_exact,
  fence_pending_stop_exact, create_pending_exact,
}
use paws.PlatformOwner.Protocol.{Holds, Outcome, step-Outcome}
use paws.PlatformOwner.Races.{fence_blocks_attach, Follows, run-Follows}
use paws.PlatformOwner.Limits.{no_faults, step_exact, oversized_owner_is_stuck}

-- A codec that keeps the stored record as it is.
abbrev plain : Codec
plain = record {
  Bytes = StoredPlatformVpnOwnerJournal;
  size = λ s. 200 + length s.attempt_id;
  to_vec = λ s. some s;
  from_slice = λ b. some b;
}

plain-RoundTrips : RoundTrips plain
plain-RoundTrips s b e = cc

abbrev identity : ℕ → ProcessIdentity
identity pid = record { boot_id = text "boot-a"; pid = pid; start_time = 9 }

abbrev fresh : Text → PlatformVpnOwnerJournal
fresh attempt = record {
  attempt_id = attempt;
  issuer = identity 7;
  extension = none;
  phase = pending;
}

abbrev file : PlatformVpnOwnerJournal → JournalFile StoredPlatformVpnOwnerJournal
file j = regular (unfold to_stored in to_stored j)

abbrev synced_too_late : Faults
synced_too_late = record no_faults { syncs_parent = true }

fresh-Holds : Holds plain (file (fresh (text "a"))) (some (fresh (text "a")))
unfolding to_stored validate_record validate_attempt_id validate_identity trim ℕ_discrete
fresh-Holds = (refl, refl)

-- A fence whose directory sync fails reports an error and still fences.
fence_with_late_fault :
    step plain (file (fresh (text "a"))) (synced_too_late, fences (text "a") (identity 7))
    ≡ file (record (fresh (text "a")) { phase = stopping })
unfolding step read_unlocked write_unlocked validate_record validate_attempt_id validate_identity
    trim ℕ_discrete to_stored try_from_stored
fence_with_late_fault = refl

abbrev pending_file : JournalFile StoredPlatformVpnOwnerJournal
pending_file = file (fresh (text "a"))

abbrev stopping_owner : PlatformVpnOwnerJournal
stopping_owner = record (fresh (text "a")) { phase = stopping }

step-Outcome_example :
    Outcome plain pending_file
      (step plain pending_file (synced_too_late, fences (text "a") (identity 7)))
      (some stopping_owner)
unfolding ℕ_discrete
step-Outcome_example =
    step-Outcome plain synced_too_late pending_file (some (fresh (text "a")))
      (fences (text "a") (identity 7)) plain-RoundTrips fresh-Holds

fence_blocks_attach_example :
    (upgrade_attached_exact plain no_faults
      (text "a")
      (identity 7)
      (identity 8)
      (fence_pending_stop_exact plain no_faults (text "a") (identity 7) pending_file).1).0
    ≢ ok tt
unfolding fence_pending_stop_exact read_unlocked write_unlocked validate_record validate_attempt_id
    validate_identity trim ℕ_discrete to_stored try_from_stored
fence_blocks_attach_example =
    fence_blocks_attach plain no_faults no_faults pending_file (some (fresh (text "a"))) (text "a")
      (text "a") (identity 7) (identity 7) (identity 8) plain-RoundTrips fresh-Holds refl

stopping-Holds : Holds plain (file stopping_owner) (some stopping_owner)
unfolding to_stored validate_record validate_attempt_id validate_identity trim ℕ_discrete
stopping-Holds = (refl, refl)

abbrev late_wants : List (Faults × Call)
late_wants =
    (no_faults, attaches (text "a") (identity 7) (identity 8))
    ∷ (synced_too_late, creates (fresh (text "b")))
    ∷ (no_faults, deletes (text "b") none)
    ∷ []

a_not_b : ◌≢◌ {A = Text} (text "a") (text "b")
a_not_b e = ground arith

run-Follows_example :
    (j : PlatformVpnOwnerJournal) × Holds plain
      (run plain (file stopping_owner) late_wants)
      (some j)
    × Follows stopping_owner j
run-Follows_example =
    run-Follows plain (file stopping_owner) stopping_owner late_wants plain-RoundTrips
      stopping-Holds (tt, (tt, (a_not_b, tt)))

step_exact_example :
    Holds plain
      (step plain pending_file (no_faults, fences (text "a") (identity 7)))
      (some stopping_owner)
unfolding validate_attempt_id validate_identity trim ℕ_discrete
step_exact_example =
    step_exact plain pending_file (some (fresh (text "a"))) (fences (text "a") (identity 7))
      plain-RoundTrips (λ s e. cc) fresh-Holds (unfold to_stored in omega arith) (refl, refl)

-- A codec whose output is always larger than the reader accepts.
abbrev bloated : Codec
bloated = record plain { size = λ s. 20000 }

oversized_owner_is_stuck_example :
    create_pending_exact bloated no_faults (fresh (text "a")) absent ≡ (ok tt, pending_file)
unfolding to_stored validate_record validate_attempt_id validate_identity trim ℕ_discrete
oversized_owner_is_stuck_example =
    (oversized_owner_is_stuck bloated no_faults (fresh (text "a"))
      (record {
        version = 1;
        attempt_id = text "a";
        issuer = identity 7;
        extension = none;
        phase = pending;
      })
      (deletes (text "a") none) refl refl refl (omega arith)).0
