-- ===== src/PlatformOwner/Disk.antt =====
-- The journal file under its lock: `lock_journal`, `read_unlocked` and `write_unlocked` of
-- crates/paws_core/src/platform_owner.rs.
use paws.Base.{ℕ, Bool, true, false, Option, none, some, ltb, ◌≡◌, if◌then◌else◌}
use paws.PlatformOwner.Record.{
  PlatformVpnOwnerJournal, StoredPlatformVpnOwnerJournal, JournalRead, missing, present,
  JournalError, PawsError, core, io, Result, ok, err, max_journal_bytes, validate_record, to_stored,
  try_from_stored, not_regular, too_large, malformed, unserializable, inspect, read_file,
  write_temporary, rename, remove, sync_parent,
}

-- serde_json on the stored record: what it writes, and what it reads from the bytes of a file.
pub record Codec : Type 1 where
  pub Bytes : Type 0
  pub size : Bytes → ℕ
  pub to_vec : StoredPlatformVpnOwnerJournal → Option Bytes
  pub from_slice : Bytes → Option StoredPlatformVpnOwnerJournal

-- What serde promises of a derived pair: it reads back what it wrote.
abbrev pub RoundTrips : Codec → Type 0
RoundTrips c =
    (s : StoredPlatformVpnOwnerJournal) (b : c.Bytes)
    → c.to_vec s ≡ some b
    → c.from_slice b ≡ some s

-- The path of the journal.
pub data JournalFile (Bytes : Type 0) : Type 0 where
  absent : JournalFile Bytes
  other_kind : JournalFile Bytes
  regular : Bytes → JournalFile Bytes

-- Which calls of the file system fail during one operation, with the error of `lock_journal`.
pub record Faults : Type 0 where
  pub lock : Option PawsError
  pub inspects : Bool
  pub reads : Bool
  pub writes_temporary : Bool
  pub renames : Bool
  pub removes : Bool
  pub syncs_parent : Bool

-- An operation takes the file to its result and the file that it leaves.
abbrev pub Action : Type 0 → Type 0 → Type 0
Action Bytes A = JournalFile Bytes → Result A × JournalFile Bytes

module _ {Bytes : Type 0} {A B : Type 0} where
  abbrev pub continue : Result A → (A → Action Bytes B) → Action Bytes B
  continue (ok a) f d = f a d
  continue (err e) f d = (err e, d)

  infixl 5 ◌>>=◌
  abbrev pub ◌>>=◌ : Action Bytes A → (A → Action Bytes B) → Action Bytes B
  ◌>>=◌ m f d = let (r, d') = m d in continue r f d'

module _ {Bytes : Type 0} {B : Type 0} where
  infixl 5 ◌>>◌
  abbrev pub ◌>>◌ : Action Bytes (Unit {0}) → Action Bytes B → Action Bytes B
  m >> k = m >>= λ _. k

module _ {Bytes : Type 0} {A : Type 0} where
  abbrev pub lift : Result A → Action Bytes A
  lift r d = (r, d)

  abbrev pub pure : A → Action Bytes A
  pure a d = (ok a, d)

  abbrev pub fail : JournalError → Action Bytes A
  fail e d = (err (core e), d)

abbrev pub guard : {Bytes : Type 0} → Bool → JournalError → Action Bytes (Unit {0})
guard true e d = (ok tt, d)
guard false e d = (err (core e), d)

module _ (c : Codec) where
  open c use {Bytes, size, to_vec, from_slice}

  -- `lock_journal`: creating the directory, opening and locking the lock file.
  abbrev pub lock_journal : Faults → Action Bytes (Unit {0})
  lock_journal f d = elim f.lock [ none ↦ (ok tt, d) | some e ↦ (err e, d) ]

  abbrev present_of : Result PlatformVpnOwnerJournal → Result JournalRead
  present_of (ok j) = ok (present j)
  present_of (err e) = err e

  abbrev decode : Option StoredPlatformVpnOwnerJournal → Result JournalRead
  decode none = err (core malformed)
  decode (some stored) = present_of (try_from_stored stored)

  -- What `read_unlocked` makes of the file.
  unfoldable pub contents : Faults → JournalFile Bytes → Result JournalRead
  contents f absent = ok missing
  contents f other_kind = err (core not_regular)
  contents f (regular bytes) =
      if ltb max_journal_bytes (size bytes)
      then err (core too_large)
      else if f.reads
      then err (io read_file)
      else decode (from_slice bytes)

  unfoldable pub read_unlocked : Faults → Action Bytes JournalRead
  unfolding contents
  read_unlocked f d = if f.inspects then (err (io inspect), d) else (contents f d, d)

  -- The file changes at the rename: an error before it leaves the old file, one after it the new.
  abbrev replace_file : Faults → Option Bytes → Action Bytes (Unit {0})
  replace_file f none d = (err (core unserializable), d)
  replace_file f (some bytes) d =
      if f.writes_temporary
      then (err (io write_temporary), d)
      else if f.renames
      then (err (io rename), d)
      else if f.syncs_parent
      then (err (io sync_parent), regular bytes)
      else (ok tt, regular bytes)

  unfoldable pub write_unlocked : Faults → PlatformVpnOwnerJournal → Action Bytes (Unit {0})
  write_unlocked f j = do lift (validate_record j); replace_file f (to_vec (to_stored j))

  -- `fs::remove_file` and `sync_parent`: the file is gone also where the directory is not synced.
  unfoldable pub remove_file : Faults → Action Bytes (Unit {0})
  remove_file f d =
      if f.removes
      then (err (io remove), d)
      else if f.syncs_parent
      then (err (io sync_parent), absent)
      else (ok tt, absent)
