-- ===== src/LogRecording/Sequences.antt =====
-- The sequences of captured entries, in order through every change of the buffer.
use paws.Base.{ℕ, ◌+◌, ◌≤◌, ◌<◌, Option, none, List, [], ◌∷◌, ◌++◌, length, arith}
use paws.LogRecording.{
  CapturedRuntimeLog, Write, session_eq, LogError, drop_first, retain_since, write_entries,
  pop_persisted,
}

-- The sequences rise strictly from above `low` to below `high`.
abbrev pub Between : ℕ → ℕ → List CapturedRuntimeLog → Type 0
Between low high [] = low < high
Between low high (c ∷ cs) = (low < c.sequence) × Between c.sequence high cs

pub Between-lt : (low high : ℕ) (cs : List CapturedRuntimeLog) → Between low high cs → low < high
Between-lt low high [] b = b
Between-lt low high (c ∷ cs) b = omega (arith, b.0, Between-lt c.sequence high cs b.1)

pub Between-lower :
    (low low' high : ℕ) (cs : List CapturedRuntimeLog)
    → low ≤ low'
    → Between low' high cs
    → Between low high cs
Between-lower low low' high [] h b = omega arith
Between-lower low low' high (c ∷ cs) h b = (omega (arith, b.0), b.1)

pub drop_first-Between :
    (low high : ℕ) (cs : List CapturedRuntimeLog)
    → Between low high cs
    → Between low high (drop_first cs)
drop_first-Between low high [] b = b
drop_first-Between low high (c ∷ cs) b =
    Between-lower low c.sequence high cs (omega (arith, b.0)) b.1

pub push-Between :
    (low : ℕ) (cs : List CapturedRuntimeLog) (c : CapturedRuntimeLog)
    → Between low c.sequence cs
    → Between low (c.sequence + 1) (cs ++ c ∷ [])
push-Between low [] c b = (b, omega arith)
push-Between low (d ∷ cs) c b = (b.0, push-Between d.sequence cs c b.1)

pub retain_since-Between :
    (start low high : ℕ) (cs : List CapturedRuntimeLog)
    → Between low high cs
    → Between low high (retain_since start cs)
unfolding retain_since
retain_since-Between start low high [] b = b
retain_since-Between start low high (c ∷ cs) b = ground (
  arith,
  retain_since-Between start c.sequence high cs b.1,
  Between-lower low c.sequence high (retain_since start cs),
)

pub length-retain_since-le :
    (start : ℕ) (cs : List CapturedRuntimeLog) → length (retain_since start cs) ≤ length cs
unfolding retain_since
length-retain_since-le start [] = omega arith
length-retain_since-le start (c ∷ cs) = ground (arith, length-retain_since-le start cs)

pub pop_persisted-Between :
    (p low high : ℕ) (cs : List CapturedRuntimeLog)
    → Between low high cs
    → Between low high (pop_persisted p cs)
unfolding pop_persisted
pop_persisted-Between p low high [] b = b
pop_persisted-Between p low high (c ∷ cs) b = ground (
  arith,
  pop_persisted-Between p c.sequence high cs b.1,
  Between-lower low c.sequence high (pop_persisted p cs),
)

pub length-pop_persisted-le :
    (p : ℕ) (cs : List CapturedRuntimeLog) → length (pop_persisted p cs) ≤ length cs
unfolding pop_persisted
length-pop_persisted-le p [] = omega arith
length-pop_persisted-le p (c ∷ cs) = ground (arith, length-pop_persisted-le p cs)

-- What is written last is the old position or the sequence of an entry.
pub write_entries-bounds :
    (writes : ℕ → Write) (old p : ℕ) (e : Option LogError) (low high : ℕ)
    (cs : List CapturedRuntimeLog)
    → Between low high cs
    → p < high
    → (write_entries writes old p e cs).persisted < high
unfolding write_entries
write_entries-bounds writes old p e low high [] b h = h
write_entries-bounds writes old p e low high (c ∷ cs) b h = ground (
  arith,
  write_entries-bounds writes old p e c.sequence high cs b.1 h,
  write_entries-bounds writes old c.sequence none c.sequence high cs b.1
      (Between-lt c.sequence high cs b.1),
)
