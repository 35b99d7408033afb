-- ===== src/PlatformOwner/Limits.antt =====
-- The owner journal where nothing fails, and where the record is larger than a reader accepts.
use paws.Base.{◌≡◌, ap, true, ◌≢◌, ◌≤◌, ◌<◌, refl, false, Option, none, some, arith}
use paws.PlatformOwner.Record.{
  JournalRead, missing, present, try_from_stored-to_stored, pending, attached, stopping,
  PlatformVpnOwnerJournal, Result, ok, validate_record, to_stored, validate_attempt_id,
  validate_identity, validate_extension, max_journal_bytes, StoredPlatformVpnOwnerJournal,
}
use paws.PlatformOwner.Disk.{
  Codec, RoundTrips, JournalFile, absent, regular, other_kind, Faults, contents, read_unlocked,
  write_unlocked, remove_file,
}
use paws.PlatformOwner.{
  Call, creates, attaches, fences, rebinds, deletes, deletes_pending, step, create_pending_exact,
  read, delete_exact,
}
use paws.PlatformOwner.Protocol.{Holds, next}

abbrev pub no_faults : Faults
no_faults = record {
  lock = none;
  inspects = false;
  reads = false;
  writes_temporary = false;
  renames = false;
  removes = false;
  syncs_parent = false;
}

-- The file is small enough to be read.
abbrev pub Fits : (c : Codec) → JournalFile c.Bytes → Type 0
Fits c absent = Unit {0}
Fits c other_kind = Unit {0}
Fits c (regular bytes) = c.size bytes ≤ max_journal_bytes

-- Every record can be written.
abbrev pub Serializes : Codec → Type 0
Serializes c = (s : StoredPlatformVpnOwnerJournal) → c.to_vec s ≢ none

abbrev fault_free_read : Option PlatformVpnOwnerJournal → Result JournalRead
fault_free_read none = ok missing
fault_free_read (some j) = ok (present j)

read_exact :
    (c : Codec) (d : JournalFile c.Bytes) (v : Option PlatformVpnOwnerJournal)
    → RoundTrips c
    → Holds c d v
    → Fits c d
    → contents c no_faults d ≡ fault_free_read v
unfolding contents
read_exact c absent none rt h fits = refl
read_exact c absent (some j) rt h fits = elim h [ ]
read_exact c other_kind v rt h fits = elim h [ ]
read_exact c (regular bytes) none rt h fits = elim h [ ]
read_exact c (regular bytes) (some j) rt h fits =
    ground (arith, rt (to_stored j) bytes h.0, try_from_stored-to_stored j)

write_exact :
    (c : Codec) (d : JournalFile c.Bytes) (j : PlatformVpnOwnerJournal)
    → Serializes c
    → validate_record j ≡ ok tt
    → ((write_unlocked c no_faults j d).0 ≡ ok tt)
      × Holds c (write_unlocked c no_faults j d).1 (some j)
unfolding write_unlocked
write_exact c d j total valid = ground (arith, total (to_stored j))

-- The arguments of a call pass its validation.
abbrev pub Accepts : Call → Type 0
Accepts (creates new) = validate_record new ≡ ok tt
Accepts (attaches attempt issuer extension) =
    (validate_attempt_id attempt ≡ ok tt)
    × (validate_identity issuer ≡ ok tt)
    × (validate_identity extension ≡ ok tt)
Accepts (fences attempt issuer) =
    (validate_attempt_id attempt ≡ ok tt) × (validate_identity issuer ≡ ok tt)
Accepts (rebinds attempt issuer expected replacement) =
    (validate_attempt_id attempt ≡ ok tt)
    × (validate_identity issuer ≡ ok tt)
    × (validate_identity expected ≡ ok tt)
    × (validate_identity replacement ≡ ok tt)
Accepts (deletes attempt expected) =
    (validate_attempt_id attempt ≡ ok tt) × (validate_extension expected ≡ ok tt)
Accepts (deletes_pending attempt) = validate_attempt_id attempt ≡ ok tt

-- Where the file system does not fail, the file can be read, every record serialises and the
-- arguments are valid, a call takes full effect: the file holds exactly the owner that the protocol
-- gives, on every branch of every call.
pub step_exact :
    (c : Codec) (d : JournalFile c.Bytes) (v : Option PlatformVpnOwnerJournal) (call : Call)
    → RoundTrips c
    → Serializes c
    → Holds c d v
    → Fits c d
    → Accepts call
    → Holds c (step c d (no_faults, call)) (next call v)
unfolding step read_unlocked validate_record remove_file
step_exact c d none (creates new) rt total h fits a =
    ground (arith, read_exact c d none rt h fits, write_exact c d new total)
step_exact c d (some j) (creates new) rt total h fits a =
    ground (arith, read_exact c d (some j) rt h fits)
step_exact c d (some j) (attaches attempt issuer extension) rt total h fits a = ground (
  arith,
  read_exact c d (some j) rt h fits,
  write_exact c d (record j { phase = attached; extension = some extension }) total,
)
step_exact c d (some j) (fences attempt issuer) rt total h fits a = ground (
  arith,
  read_exact c d (some j) rt h fits,
  write_exact c d (record j { phase = stopping }) total,
)
step_exact c d (some j) (rebinds attempt issuer expected replacement) rt total h fits a = ground (
  arith,
  read_exact c d (some j) rt h fits,
  write_exact c d (record j { extension = some replacement }) total,
)
step_exact c d (some j) _ rt total h fits a = ground (arith, read_exact c d (some j) rt h fits)
step_exact c d none _ rt total h fits a = ground (arith, read_exact c d none rt h fits)

-- Where nothing fails, reading gives the owner on record, and its deletion leaves none.
pub read_found :
    (c : Codec) (d : JournalFile c.Bytes) (j : PlatformVpnOwnerJournal)
    → RoundTrips c
    → Holds c d (some j)
    → Fits c d
    → read c no_faults d ≡ (ok (present j), d)
unfolding read read_unlocked
read_found c d j rt h fits =
    ap (λ (r : Result JournalRead). (r, d)) (read_exact c d (some j) rt h fits)

pub delete_found :
    (c : Codec) (d : JournalFile c.Bytes) (j : PlatformVpnOwnerJournal)
    → RoundTrips c
    → Holds c d (some j)
    → Fits c d
    → delete_exact c no_faults j.attempt_id j.extension d ≡ (ok true, absent)
unfolding delete_exact read_unlocked validate_record remove_file
delete_found c (regular bytes) j rt h fits =
    ground (arith, h.1, read_exact c (regular bytes) (some j) rt h fits)
delete_found c absent j rt h fits = absurd h
delete_found c other_kind j rt h fits = absurd h

step_oversized :
    (c : Codec) (f : Faults) (bytes : c.Bytes) (call : Call)
    → max_journal_bytes < c.size bytes
    → step c (regular bytes) (f, call) ≡ regular bytes
unfolding step read_unlocked contents
step_oversized c f bytes (creates new) h = ground arith
step_oversized c f bytes (attaches attempt issuer extension) h = ground arith
step_oversized c f bytes _ h = ground arith

-- A valid pending owner whose serialisation exceeds the 16 KiB that the reader accepts is created
-- with success, and from then on no call changes the file, whatever faults it meets.
pub oversized_owner_is_stuck :
    (c : Codec) (f : Faults) (new : PlatformVpnOwnerJournal) (bytes : c.Bytes) (call : Call)
    → validate_record new ≡ ok tt
    → new.phase ≡ pending
    → c.to_vec (to_stored new) ≡ some bytes
    → max_journal_bytes < c.size bytes
    → (create_pending_exact c no_faults new absent ≡ (ok tt, regular bytes))
      × (step c (regular bytes) (f, call) ≡ regular bytes)
unfolding create_pending_exact read_unlocked contents write_unlocked validate_record
oversized_owner_is_stuck c f new bytes call valid phase e h =
    (ground arith, step_oversized c f bytes call h)
