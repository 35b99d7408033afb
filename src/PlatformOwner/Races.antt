-- ===== src/PlatformOwner/Races.antt =====
-- Races for the owner journal: a stop against an attach, retries, and what a history can make of an owner.
use paws.Base.{
  ◌≡◌, ◌≢◌, ◌∙◌, ap, sym, refl, inl, inr, Text, true, ◌&&◌, Option, none, some, List, [], ◌∷◌,
  arith, ◌==◌, if◌then◌else◌, All, subst,
}
use paws.PlatformOwner.Record.{
  ProcessIdentity, pending, attached, stopping, PlatformVpnOwnerJournal, ok, phase_eq, extension_eq,
}
use paws.PlatformOwner.Disk.{Codec, RoundTrips, JournalFile, Faults, read_unlocked}
use paws.PlatformOwner.{
  Call, creates, attaches, fences, rebinds, deletes, deletes_pending, step, run,
  upgrade_attached_exact, fence_pending_stop_exact,
}
use paws.PlatformOwner.Effects.{write-Holds}
use paws.PlatformOwner.Protocol.{Holds, next, is_current, contents-Holds, step-Outcome}

module _ (c : Codec) (f : Faults) (d : JournalFile c.Bytes) (rt : RoundTrips c) where
  fenced :
      (v : Option PlatformVpnOwnerJournal) (attempt : Text) (issuer : ProcessIdentity)
      → Holds c d v
      → (fence_pending_stop_exact c f attempt issuer d).0 ≡ ok true
      → (j : PlatformVpnOwnerJournal) × (j.phase ≡ stopping)
        × Holds c (fence_pending_stop_exact c f attempt issuer d).1 (some j)
  unfolding fence_pending_stop_exact read_unlocked
  fenced none attempt issuer h e = absurd (ground (arith, contents-Holds c f d none rt h))
  fenced (some j) attempt issuer h e = (
    record j { phase = stopping },
    refl,
    ground (
      arith,
      contents-Holds c f d (some j) rt h,
      write-Holds c f (record j { phase = stopping }) d,
    ),
  )

  attach_on :
      (j : PlatformVpnOwnerJournal) (attempt : Text) (issuer extension : ProcessIdentity)
      → Holds c d (some j)
      → j.phase ≡ stopping
      → (upgrade_attached_exact c f attempt issuer extension d).0 ≢ ok tt
  unfolding upgrade_attached_exact read_unlocked
  attach_on j attempt issuer extension h e = ground (arith, contents-Holds c f d (some j) rt h)

-- Once a stop fence has reported success, no attach succeeds on the file that it left, for any
-- attempt, issuer and extension, whatever faults either call meets.
pub fence_blocks_attach :
    (c : Codec) (f f' : Faults) (d : JournalFile c.Bytes) (v : Option PlatformVpnOwnerJournal)
    (attempt attempt' : Text) (issuer issuer' extension : ProcessIdentity)
    → RoundTrips c
    → Holds c d v
    → (fence_pending_stop_exact c f attempt issuer d).0 ≡ ok true
    → (upgrade_attached_exact c f' attempt' issuer' extension
        (fence_pending_stop_exact c f attempt issuer d).1).0
      ≢ ok tt
fence_blocks_attach c f f' d v attempt attempt' issuer issuer' extension rt h e =
    let (j, phase, held) = fenced c f d rt v attempt issuer h e in
    attach_on c f' (fence_pending_stop_exact c f attempt issuer d).1 rt j attempt' issuer' extension
      held phase

-- No call of the list can delete an owner of this attempt.
abbrev pub Spares : Text → Call → Type 0
Spares attempt (deletes other expected) = attempt ≢ other
Spares attempt (deletes_pending other) = attempt ≢ other
Spares attempt _ = Unit {0}

-- A later record of the same attempt: the issuer stays, a pending owner may attach or be fenced, an
-- attached owner stays attached, and a fenced owner is not changed at all.
abbrev pub Follows : PlatformVpnOwnerJournal → PlatformVpnOwnerJournal → Type 0
Follows j j' =
    (j'.attempt_id ≡ j.attempt_id)
    × (j'.issuer ≡ j.issuer)
    × (j.phase ≡ attached → j'.phase ≡ attached)
    × (j.phase ≡ stopping → j' ≡ j)

Follows-trans : (i j k : PlatformVpnOwnerJournal) → Follows i j → Follows j k → Follows i k
Follows-trans i j k p q = (
  q.0 ∙ p.0,
  q.1 ∙ p.1,
  λ a. q.2 (p.2 a),
  λ s. q.3 (ap (λ (r : PlatformVpnOwnerJournal). r.phase) (p.3 s) ∙ s) ∙ p.3 s,
)

-- What a call makes of an owner that it does not delete.
evolve : Call → PlatformVpnOwnerJournal → PlatformVpnOwnerJournal
evolve (attaches attempt issuer extension) j =
    if is_current attempt issuer j && j.phase == pending
    then record j { phase = attached; extension = some extension }
    else j
evolve (fences attempt issuer) j =
    if is_current attempt issuer j && j.phase == pending then record j { phase = stopping } else j
evolve (rebinds attempt issuer expected replacement) j =
    if is_current attempt issuer j && j.phase == attached && j.extension == some expected
    then record j { extension = some replacement }
    else j
evolve _ j = j

next-evolve :
    (call : Call) (j : PlatformVpnOwnerJournal)
    → Spares j.attempt_id call
    → next call (some j) ≡ some (evolve call j)
unfolding evolve
next-evolve (attaches attempt issuer extension) j s = ground arith
next-evolve (fences attempt issuer) j s = ground arith
next-evolve (rebinds attempt issuer expected replacement) j s = ground arith
next-evolve (deletes attempt expected) j s = ground arith
next-evolve (deletes_pending attempt) j s = ground arith
next-evolve (creates new) j s = refl

evolve-Follows : (call : Call) (j : PlatformVpnOwnerJournal) → Follows j (evolve call j)
unfolding evolve
evolve-Follows (attaches attempt issuer extension) j = ground arith
evolve-Follows (fences attempt issuer) j = ground arith
evolve-Follows (rebinds attempt issuer expected replacement) j = ground arith
evolve-Follows _ j = ground arith

step-Follows :
    (c : Codec) (f : Faults) (d : JournalFile c.Bytes) (j : PlatformVpnOwnerJournal) (call : Call)
    → RoundTrips c
    → Holds c d (some j)
    → Spares j.attempt_id call
    → (j' : PlatformVpnOwnerJournal) × Holds c (step c d (f, call)) (some j') × Follows j j'
step-Follows c f d j call rt h s = elim (step-Outcome c f d (some j) call rt h) [
  | inl same ↦ (j, rw same h, (refl, refl, λ a. a, λ st. refl))
  | inr held ↦ (evolve call j, rw (next-evolve call j s) at held, evolve-Follows call j)
]

-- Along any history, with any faults, whose deletions name other attempts, the owner of an attempt
-- stays on record under its issuer: once attached it stays attached, and a stop fence stays as it
-- is, so a late attach or rebind cannot remove it.
pub run-Follows :
    (c : Codec) (d : JournalFile c.Bytes) (j : PlatformVpnOwnerJournal)
    (calls : List (Faults × Call))
    → RoundTrips c
    → Holds c d (some j)
    → All (λ s. Spares j.attempt_id s.1) calls
    → (j' : PlatformVpnOwnerJournal) × Holds c (run c d calls) (some j') × Follows j j'
unfolding run
run-Follows c d j [] rt h s = (j, h, (refl, refl, λ a. a, λ st. refl))
run-Follows c d j ((f, call) ∷ calls) rt h s =
    let (j', held, follows) = step-Follows c f d j call rt h s.0 in
    let (k, held', follows') =
      run-Follows c (step c d (f, call)) j' calls rt held
        (subst (λ a. All (λ (s : Faults × Call). Spares a s.1) calls) (sym follows.0) s.1) in
    (k, held', Follows-trans j j' k follows follows')
