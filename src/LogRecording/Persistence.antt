-- ===== src/LogRecording/Persistence.antt =====
-- Every captured entry is written once and in order, across failed writes.
use paws.Base.{
  ℕ, ◌≤◌, ◌<◌, ◌≡◌, ◌⊎◌, refl, ap, Option, none, List, [], ◌∷◌, ◌++◌, ltb, if◌then◌else◌, arith,
}
use paws.LogRecording.{
  CapturedRuntimeLog, RuntimeLogBuffer, Write, Line, whole, piece, session_eq, LogError,
  write_entries, pop_persisted,
}
use paws.LogRecording.Sequences.{Between}

-- The entries whose lines are in the file as a whole.
unfoldable pub whole_lines : List Line → List CapturedRuntimeLog
whole_lines [] = []
whole_lines (whole c ∷ ls) = c ∷ whole_lines ls
whole_lines (piece c n ∷ ls) = whole_lines ls

pub whole_lines-append :
    (ls ms : List Line) → whole_lines (ls ++ ms) ≡ whole_lines ls ++ whole_lines ms
unfolding whole_lines
whole_lines-append [] ms = refl
whole_lines-append (whole c ∷ ls) ms = ap (◌∷◌ c) (whole_lines-append ls ms)
whole_lines-append (piece c n ∷ ls) ms = whole_lines-append ls ms

-- The entries that are still to be written.
unfoldable pub pending_after : ℕ → List CapturedRuntimeLog → List CapturedRuntimeLog
pending_after p [] = []
pending_after p (c ∷ cs) =
    let rest = pending_after p cs in if ltb p c.sequence then c ∷ rest else rest

abbrev pub pending : RuntimeLogBuffer → List CapturedRuntimeLog
pending b = pending_after b.persisted_sequence b.entries

pending_after-all :
    (p low high : ℕ) (cs : List CapturedRuntimeLog)
    → Between low high cs
    → p ≤ low
    → pending_after p cs ≡ cs
unfolding pending_after
pending_after-all p low high [] b h = refl
pending_after-all p low high (c ∷ cs) b h =
    ground (arith, pending_after-all p c.sequence high cs b.1)

-- The position never moves back.
write_entries-le :
    (writes : ℕ → Write) (old p low high : ℕ) (e : Option LogError) (cs : List CapturedRuntimeLog)
    → Between low high cs
    → (p ≤ low) ⊎ (p ≡ old)
    → old ≤ p
    → p ≤ (write_entries writes old p e cs).persisted
unfolding write_entries
write_entries-le writes old p low high e [] b at h = omega arith
write_entries-le writes old p low high e (c ∷ cs) b at h = ground (
  arith,
  write_entries-le writes old p c.sequence high e cs b.1,
  write_entries-le writes old c.sequence c.sequence high none cs b.1,
)

-- What the loop writes and what it leaves is what was to be written.
pub write_entries-splits :
    (writes : ℕ → Write) (old p low high : ℕ) (e : Option LogError) (cs : List CapturedRuntimeLog)
    → Between low high cs
    → (p ≤ low) ⊎ (p ≡ old)
    → old ≤ p
    → let w = write_entries writes old p e cs in
      whole_lines w.lines ++ pending_after w.persisted cs ≡ pending_after old cs
unfolding write_entries pending_after whole_lines
write_entries-splits writes old p low high e [] b at h = refl
write_entries-splits writes old p low high e (c ∷ cs) b at h = ground (
  arith,
  write_entries-splits writes old p c.sequence high e cs b.1,
  write_entries-splits writes old c.sequence c.sequence high none cs b.1,
  write_entries-le writes old p c.sequence high e cs b.1,
  write_entries-le writes old c.sequence c.sequence high none cs b.1,
  pending_after-all old c.sequence high cs b.1,
  pending_after-all p c.sequence high cs b.1,
)

pub pending_after-pop :
    (p : ℕ) (cs : List CapturedRuntimeLog)
    → pending_after p (pop_persisted p cs) ≡ pending_after p cs
unfolding pending_after pop_persisted
pending_after-pop p [] = refl
pending_after-pop p (c ∷ cs) = ground (arith, pending_after-pop p cs)

pub pending_after-push :
    (p : ℕ) (cs : List CapturedRuntimeLog) (c : CapturedRuntimeLog)
    → p < c.sequence
    → pending_after p (cs ++ c ∷ []) ≡ pending_after p cs ++ c ∷ []
unfolding pending_after
pending_after-push p [] c h = ground arith
pending_after-push p (d ∷ cs) c h = ground (arith, pending_after-push p cs c)
