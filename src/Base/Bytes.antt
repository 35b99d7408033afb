-- ===== src/Base/Bytes.antt =====
-- Byte buffers: indexing and slicing that may panic, and the byte orders of machine words.
use Prim.Native.Nat.{ℕ, zero, suc, ◌+◌, ◌-◌, ◌*◌, ◌/◌, ◌%◌, ◌^◌, ◌≤◌, ◌<◌}
use mathlib.Core.Path.{◌≡◌, refl, ap}
use mathlib.Core.Logic.{◌≢◌}
use mathlib.Core.List.{List, [], ◌∷◌}
use mathlib.Core.Bool.{◌||◌}
use mathlib.Core.Option.{Option, none, some}
use native.Mathlib.Omega.{arith}
use paws.Base.Tests.{ltb, if◌then◌else◌}
use paws.Base.Lists.{length, take, drop, All}

abbrev pub Bytes : Type 0
Bytes = List ℕ

-- A computation that may panic: `none` is the panic.
abbrev pub Checked : Type 0 → Type 0
Checked A = Option A

infixl 5 ◌>>=◌
abbrev pub ◌>>=◌ : {A B : Type 0} → Checked A → (A → Checked B) → Checked B
none >>= f = none
some a >>= f = f a

-- `bytes[i]`
unfoldable pub index : Bytes → ℕ → Checked ℕ
index [] i = none
index (b ∷ bs) zero = some b
index (b ∷ bs) (suc i) = index bs i

-- `&bytes[start..end]`
unfoldable pub slice : Bytes → ℕ → ℕ → Checked Bytes
slice bs start end =
    if ltb end start || ltb (length bs) end then none else some (take (end - start) (drop start bs))

pub index-ne-none : (bs : Bytes) (i : ℕ) → i < length bs → index bs i ≢ none
unfolding index
index-ne-none [] i h = elim h [ ]
index-ne-none (b ∷ bs) zero h = ground arith
index-ne-none (b ∷ bs) (suc i) h = index-ne-none bs i (omega arith)

pub slice-ne-none :
    (bs : Bytes) (start end : ℕ) → start ≤ end → end ≤ length bs → slice bs start end ≢ none
unfolding slice
slice-ne-none bs start end h k = ground arith

abbrev pub AreBytes : Bytes → Type 0
AreBytes = All (λ b. b < 256)

pub index-lt_256 : (bs : Bytes) (i : ℕ) (b : ℕ) → AreBytes bs → index bs i ≡ some b → b < 256
unfolding index
index-lt_256 [] i b v h = absurd (ground arith)
index-lt_256 (c ∷ bs) zero b v h = ground arith
index-lt_256 (c ∷ bs) (suc i) b v h = index-lt_256 bs i b v.1 h

-- `u16::from_be_bytes`
abbrev pub be16 : ℕ → ℕ → ℕ
be16 hi lo = hi * 256 + lo

-- `(word as u16).to_be_bytes()`, the high and the low byte.
abbrev pub high_byte : ℕ → ℕ
high_byte w = w / 256 % 256

abbrev pub low_byte : ℕ → ℕ
low_byte w = w % 256

-- The byte order of the target.
pub data Endian : Type 0 where
  little big : Endian

pub record Word32 : Type 0 where
  pub b0 : ℕ
  pub b1 : ℕ
  pub b2 : ℕ
  pub b3 : ℕ

-- `u32::to_ne_bytes`
abbrev pub to_ne_bytes : Endian → ℕ → Word32
to_ne_bytes little w = record {
  b0 = w % 256;
  b1 = w / 2 ^ 8 % 256;
  b2 = w / 2 ^ 16 % 256;
  b3 = w / 2 ^ 24 % 256;
}
to_ne_bytes big w = record {
  b0 = w / 2 ^ 24 % 256;
  b1 = w / 2 ^ 16 % 256;
  b2 = w / 2 ^ 8 % 256;
  b3 = w % 256;
}

-- `u32::from_ne_bytes`
abbrev pub from_ne_bytes : Endian → ℕ → ℕ → ℕ → ℕ → ℕ
from_ne_bytes little b0 b1 b2 b3 = b0 + b1 * 2 ^ 8 + b2 * 2 ^ 16 + b3 * 2 ^ 24
from_ne_bytes big b0 b1 b2 b3 = b0 * 2 ^ 24 + b1 * 2 ^ 16 + b2 * 2 ^ 8 + b3

pub take-length : (bs : Bytes) → take (length bs) bs ≡ bs
take-length [] = refl
take-length (b ∷ bs) = ap (◌∷◌ b) (take-length bs)

pub length-take-drop : (bs : Bytes) (m n : ℕ) → m + n ≤ length bs → length (take n (drop m bs)) ≡ n
length-take-drop [] zero zero h = refl
length-take-drop [] zero (suc n) h = absurd (omega arith)
length-take-drop [] (suc m) n h = absurd (omega arith)
length-take-drop (b ∷ bs) zero zero h = refl
length-take-drop (b ∷ bs) zero (suc n) h = ap suc (length-take-drop bs zero n (omega arith))
length-take-drop (b ∷ bs) (suc m) n h = length-take-drop bs m n (omega arith)
