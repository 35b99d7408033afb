-- ===== src/PlatformOwner/Protocol.antt =====
-- The owner journal against its protocol: what each call may make of the owner on record.
use paws.Base.{
  ◌≡◌, refl, ◌⊎◌, inl, Text, Bool, not, ◌&&◌, Option, none, some, arith, ◌==◌, text_eq, is_some,
  if◌then◌else◌,
}
use paws.PlatformOwner.Record.{
  ProcessIdentity, pending, attached, stopping, PlatformVpnOwnerJournal, JournalRead, missing,
  present, identity_eq, phase_eq, extension_eq, journal_eq, Result, ok, err, validate_record,
  to_stored, try_from_stored-to_stored,
}
use paws.PlatformOwner.Disk.{
  Codec, RoundTrips, JournalFile, absent, other_kind, regular, Faults, contents, read_unlocked,
  write_unlocked, remove_file,
}
use paws.PlatformOwner.{Call, creates, attaches, fences, rebinds, deletes, deletes_pending, step}

-- The file is the serialisation of a valid record, or absent where no owner is on record.
abbrev pub Holds : (c : Codec) → JournalFile c.Bytes → Option PlatformVpnOwnerJournal → Type 0
Holds c absent none = Unit {0}
Holds c (regular bytes) (some j) =
    (c.to_vec (to_stored j) ≡ some bytes) × (validate_record j ≡ ok tt)
Holds c _ _ = ⊥

abbrev pub is_current : Text → ProcessIdentity → PlatformVpnOwnerJournal → Bool
is_current attempt issuer j = j.attempt_id == attempt && j.issuer == issuer

-- The protocol: what a call makes of the owner on record, where it takes effect.
abbrev pub next : Call → Option PlatformVpnOwnerJournal → Option PlatformVpnOwnerJournal
next (creates new) none =
    if new.phase == pending && not (is_some new.extension) then some new else none
next (creates new) (some j) = some j
next (attaches attempt issuer extension) none = none
next (attaches attempt issuer extension) (some j) =
    if is_current attempt issuer j && j.phase == pending
    then some (record j { phase = attached; extension = some extension })
    else some j
next (fences attempt issuer) none = none
next (fences attempt issuer) (some j) =
    if is_current attempt issuer j && j.phase == pending
    then some (record j { phase = stopping })
    else some j
next (rebinds attempt issuer expected replacement) none = none
next (rebinds attempt issuer expected replacement) (some j) =
    if is_current attempt issuer j && j.phase == attached && j.extension == some expected
    then some (record j { extension = some replacement })
    else some j
next (deletes attempt expected) none = none
next (deletes attempt expected) (some j) =
    if j.attempt_id == attempt && j.extension == expected then none else some j
next (deletes_pending attempt) none = none
next (deletes_pending attempt) (some j) =
    if j.attempt_id == attempt && j.phase == pending then none else some j

-- A call leaves the file, or takes it to what the protocol says.
abbrev pub Outcome :
    (c : Codec)
    → JournalFile c.Bytes
    → JournalFile c.Bytes
    → Option PlatformVpnOwnerJournal
    → Type 0
Outcome c d d' v = (d' ≡ d) ⊎ Holds c d' v

write-Outcome :
    (c : Codec) (f : Faults) (j : PlatformVpnOwnerJournal) (d : JournalFile c.Bytes)
    → Outcome c d (write_unlocked c f j d).1 (some j)
unfolding write_unlocked
write-Outcome c f j d = ground arith

remove-Outcome :
    (c : Codec) (f : Faults) (d : JournalFile c.Bytes) → Outcome c d (remove_file c f d).1 none
unfolding remove_file
remove-Outcome c f d = ground arith

abbrev pub read_of : Option PlatformVpnOwnerJournal → JournalRead
read_of none = missing
read_of (some j) = present j

abbrev pub IsErr : Result JournalRead → Type 0
IsErr (ok found) = ⊥
IsErr (err e) = Unit {0}

-- Reading fails, or gives the owner on record.
pub contents-Holds :
    (c : Codec) (f : Faults) (d : JournalFile c.Bytes) (v : Option PlatformVpnOwnerJournal)
    → RoundTrips c
    → Holds c d v
    → (contents c f d ≡ ok (read_of v)) ⊎ IsErr (contents c f d)
unfolding contents
contents-Holds c f absent none rt h = inl refl
contents-Holds c f absent (some j) rt h = elim h [ ]
contents-Holds c f other_kind v rt h = elim h [ ]
contents-Holds c f (regular bytes) none rt h = elim h [ ]
contents-Holds c f (regular bytes) (some j) rt h =
    ground (arith, rt (to_stored j) bytes h.0, try_from_stored-to_stored j, h.1)

module _ (c : Codec) (f : Faults) (d : JournalFile c.Bytes) (rt : RoundTrips c) where
  step-creates :
      (v : Option PlatformVpnOwnerJournal)
      → Holds c d v
      → (new : PlatformVpnOwnerJournal)
      → Outcome c d (step c d (f, creates new)) (next (creates new) v)
  unfolding step read_unlocked
  step-creates none h new = ground (arith, contents-Holds c f d none rt h, write-Outcome c f new d)
  step-creates (some j) h new = ground (arith, contents-Holds c f d (some j) rt h)

  step-attaches :
      (v : Option PlatformVpnOwnerJournal)
      → Holds c d v
      → (attempt : Text) (issuer extension : ProcessIdentity)
      → Outcome c d
          (step c d (f, attaches attempt issuer extension))
          (next (attaches attempt issuer extension) v)
  unfolding step read_unlocked
  step-attaches none h attempt issuer extension = ground (arith, contents-Holds c f d none rt h)
  step-attaches (some j) h attempt issuer extension = ground (
    arith,
    contents-Holds c f d (some j) rt h,
    write-Outcome c f (record j { phase = attached; extension = some extension }) d,
  )

  step-fences :
      (v : Option PlatformVpnOwnerJournal)
      → Holds c d v
      → (attempt : Text) (issuer : ProcessIdentity)
      → Outcome c d (step c d (f, fences attempt issuer)) (next (fences attempt issuer) v)
  unfolding step read_unlocked
  step-fences none h attempt issuer = ground (arith, contents-Holds c f d none rt h)
  step-fences (some j) h attempt issuer = ground (
    arith,
    contents-Holds c f d (some j) rt h,
    write-Outcome c f (record j { phase = stopping }) d,
  )

  step-rebinds :
      (v : Option PlatformVpnOwnerJournal)
      → Holds c d v
      → (attempt : Text) (issuer expected replacement : ProcessIdentity)
      → Outcome c d
          (step c d (f, rebinds attempt issuer expected replacement))
          (next (rebinds attempt issuer expected replacement) v)
  unfolding step read_unlocked
  step-rebinds none h attempt issuer expected replacement =
      ground (arith, contents-Holds c f d none rt h)
  step-rebinds (some j) h attempt issuer expected replacement = ground (
    arith,
    contents-Holds c f d (some j) rt h,
    write-Outcome c f (record j { extension = some replacement }) d,
  )

  step-deletes :
      (v : Option PlatformVpnOwnerJournal)
      → Holds c d v
      → (attempt : Text) (expected : Option ProcessIdentity)
      → Outcome c d (step c d (f, deletes attempt expected)) (next (deletes attempt expected) v)
  unfolding step read_unlocked
  step-deletes none h attempt expected = ground (arith, contents-Holds c f d none rt h)
  step-deletes (some j) h attempt expected =
      ground (arith, contents-Holds c f d (some j) rt h, remove-Outcome c f d)

  step-deletes_pending :
      (v : Option PlatformVpnOwnerJournal)
      → Holds c d v
      → (attempt : Text)
      → Outcome c d (step c d (f, deletes_pending attempt)) (next (deletes_pending attempt) v)
  unfolding step read_unlocked
  step-deletes_pending none h attempt = ground (arith, contents-Holds c f d none rt h)
  step-deletes_pending (some j) h attempt =
      ground (arith, contents-Holds c f d (some j) rt h, remove-Outcome c f d)

-- Whatever the file system does, and on every branch of the call, the file is left as it was, or it
-- becomes the serialisation of the owner that the protocol gives (or absent, where it gives none).
pub step-Outcome :
    (c : Codec) (f : Faults) (d : JournalFile c.Bytes) (v : Option PlatformVpnOwnerJournal)
    (call : Call)
    → RoundTrips c
    → Holds c d v
    → Outcome c d (step c d (f, call)) (next call v)
step-Outcome c f d v (creates new) rt h = step-creates c f d rt v h new
step-Outcome c f d v (attaches attempt issuer extension) rt h =
    step-attaches c f d rt v h attempt issuer extension
step-Outcome c f d v (fences attempt issuer) rt h = step-fences c f d rt v h attempt issuer
step-Outcome c f d v (rebinds attempt issuer expected replacement) rt h =
    step-rebinds c f d rt v h attempt issuer expected replacement
step-Outcome c f d v (deletes attempt expected) rt h = step-deletes c f d rt v h attempt expected
step-Outcome c f d v (deletes_pending attempt) rt h = step-deletes_pending c f d rt v h attempt
