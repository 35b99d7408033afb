-- ===== src/PlatformOwner/Effects.antt =====
-- The owner journal after a call that reports success.
use paws.Base.{
  ◌≡◌, refl, ◌⊎◌, Bool, false, if◌then◌else◌, inl, inr, Text, true, Option, none, some, List, [],
  ◌∷◌, arith, text_eq,
}
use paws.PlatformOwner.Record.{
  ProcessIdentity, identity_eq, extension_eq, PlatformVpnOwnerJournal, attached, phase_eq,
  JournalRead, PawsError, Result, ok, err, io, inspect, journal_eq,
}
use paws.PlatformOwner.Disk.{
  Codec, RoundTrips, JournalFile, Faults, continue, contents, read_unlocked, write_unlocked,
  remove_file,
}
use paws.PlatformOwner.{
  Call, step, run, read, create_pending_exact, delete_exact, upgrade_attached_exact,
  rebind_attached_exact,
}
use paws.PlatformOwner.Protocol.{Holds, next, step-Outcome, contents-Holds, read_of, IsErr}

-- Whatever other processes do to the journal, it holds some owner or none.
pub run-Holds :
    (c : Codec) (d : JournalFile c.Bytes) (v : Option PlatformVpnOwnerJournal)
    (calls : List (Faults × Call))
    → RoundTrips c
    → Holds c d v
    → (v' : Option PlatformVpnOwnerJournal) × Holds c (run c d calls) v'
unfolding run
run-Holds c d v [] rt h = (v, h)
run-Holds c d v ((f, call) ∷ calls) rt h = elim (step-Outcome c f d v call rt h) [
  | inl same ↦ run-Holds c (step c d (f, call)) v calls rt (rw same h)
  | inr held ↦ run-Holds c (step c d (f, call)) (next call v) calls rt held
]

pub read_leaves : (c : Codec) (f : Faults) (d : JournalFile c.Bytes) → (read c f d).1 ≡ d
unfolding read read_unlocked
read_leaves c f d = ground arith

-- A write that reports success left the serialisation of its record.
pub write-Holds :
    (c : Codec) (f : Faults) (j : PlatformVpnOwnerJournal) (d : JournalFile c.Bytes)
    → (write_unlocked c f j d).0 ≡ ok tt
    → Holds c (write_unlocked c f j d).1 (some j)
unfolding write_unlocked
write-Holds c f j d e = ground (arith, e)

pub create-Holds :
    (c : Codec) (f : Faults) (d : JournalFile c.Bytes) (v : Option PlatformVpnOwnerJournal)
    (new : PlatformVpnOwnerJournal)
    → RoundTrips c
    → Holds c d v
    → (create_pending_exact c f new d).0 ≡ ok tt
    → Holds c (create_pending_exact c f new d).1 (some new)
unfolding create_pending_exact read_unlocked
create-Holds c f d none new rt h e =
    ground (arith, e, contents-Holds c f d none rt h, write-Holds c f new d)
create-Holds c f d (some j) new rt h e = ground (arith, e, contents-Holds c f d (some j) rt h)

pub delete-Holds :
    (c : Codec) (f : Faults) (d : JournalFile c.Bytes) (v : Option PlatformVpnOwnerJournal)
    (attempt : Text) (expected : Option ProcessIdentity)
    → RoundTrips c
    → Holds c d v
    → (delete_exact c f attempt expected d).0 ≡ ok true
    → Holds c (delete_exact c f attempt expected d).1 none
unfolding delete_exact read_unlocked remove_file
delete-Holds c f d none attempt expected rt h e = ground (arith, e, contents-Holds c f d none rt h)
delete-Holds c f d (some j) attempt expected rt h e =
    ground (arith, e, contents-Holds c f d (some j) rt h)

-- Reading leaves the file, and fails or gives the owner on record.
abbrev pub Reads :
    (c : Codec) (d : JournalFile c.Bytes) (v : Option PlatformVpnOwnerJournal)
    → Result JournalRead × JournalFile c.Bytes
    → Type 0
Reads c d v (ok found, d') = (found ≡ read_of v) × (d' ≡ d)
Reads c d v (err e, d') = d' ≡ d

pub read-Reads :
    (c : Codec) (f : Faults) (d : JournalFile c.Bytes) (v : Option PlatformVpnOwnerJournal)
    → RoundTrips c
    → Holds c d v
    → Reads c d v (read c f d)
unfolding read read_unlocked
read-Reads c f d v rt h = locked f.lock f.inspects
  where
    found : (r : Result JournalRead) → (r ≡ ok (read_of v)) ⊎ IsErr r → Reads c d v (r, d)
    found (ok a) (inl h) = (ground (arith, h), refl)
    found (ok a) (inr h) = absurd h
    found (err e) h = refl

    lock_of : Option PawsError → Result (Unit {0}) × JournalFile c.Bytes
    lock_of lock = elim lock [ none ↦ (ok tt, d) | some e ↦ (err e, d) ]

    locked :
        (lock : Option PawsError) (inspects : Bool)
        → Reads c d v (
            continue
              (lock_of lock).0
              (λ _ d'. (if inspects then (err (io inspect), d') else (contents c f d', d')))
              (lock_of lock).1)
    locked (some e) inspects = refl
    locked none true = refl
    locked none false = found (contents c f d) (contents-Holds c f d v rt h)

-- The journal says that this extension has the attempt.
abbrev pub IsOwnedBy : (c : Codec) → Text → ProcessIdentity → JournalFile c.Bytes → Type 0
IsOwnedBy c attempt owner d =
    (j : PlatformVpnOwnerJournal) × (j.attempt_id ≡ attempt)
    × (j.phase ≡ attached)
    × (j.extension ≡ some owner)
    × Holds c d (some j)

module _ (c : Codec) (f : Faults) (d : JournalFile c.Bytes) (rt : RoundTrips c) where
  pub attach-IsOwnedBy :
      (v : Option PlatformVpnOwnerJournal) (attempt : Text) (issuer extension : ProcessIdentity)
      → Holds c d v
      → (upgrade_attached_exact c f attempt issuer extension d).0 ≡ ok tt
      → IsOwnedBy c attempt extension (upgrade_attached_exact c f attempt issuer extension d).1
  unfolding upgrade_attached_exact read_unlocked
  attach-IsOwnedBy none attempt issuer extension h e =
      absurd (ground (arith, contents-Holds c f d none rt h))
  attach-IsOwnedBy (some j) attempt issuer extension h e =
      let j' : PlatformVpnOwnerJournal = record j {
        phase = attached;
        extension = some extension;
      } in
      (
        j',
        ground (arith, contents-Holds c f d (some j) rt h),
        refl,
        refl,
        ground (arith, contents-Holds c f d (some j) rt h, write-Holds c f j' d),
      )

  pub rebind-IsOwnedBy :
      (v : Option PlatformVpnOwnerJournal) (attempt : Text)
      (issuer expected replacement : ProcessIdentity)
      → Holds c d v
      → (rebind_attached_exact c f attempt issuer expected replacement d).0 ≡ ok tt
      → IsOwnedBy c attempt replacement
          (rebind_attached_exact c f attempt issuer expected replacement d).1
  unfolding rebind_attached_exact read_unlocked
  rebind-IsOwnedBy none attempt issuer expected replacement h e =
      absurd (ground (arith, contents-Holds c f d none rt h))
  rebind-IsOwnedBy (some j) attempt issuer expected replacement h e =
      let j' : PlatformVpnOwnerJournal = record j { extension = some replacement } in
      (
        j',
        ground (arith, contents-Holds c f d (some j) rt h),
        ground (arith, contents-Holds c f d (some j) rt h),
        refl,
        ground (arith, contents-Holds c f d (some j) rt h, write-Holds c f j' d),
      )
