-- ===== src/Base/Outcome.antt =====
-- A function over a byte buffer that may panic, may answer `None`, or returns a value.
use Prim.Native.Nat.{ℕ, zero, suc, ◌+◌, ◌-◌, ◌*◌, ◌^◌, ◌≤◌, ◌<◌}
use mathlib.Core.Path.{◌≡◌, refl, ap, sym, ◌∙◌}
use mathlib.Core.Bool.{Bool, true, false, ◌||◌, not}
use mathlib.Core.List.{[], ◌∷◌, ◌++◌}
use native.Mathlib.Omega.{arith}
use paws.Base.Tests.{ltb, ◌==◌, nat_eq, if◌then◌else◌}
use paws.Base.Lists.{length, take, drop, length-append}
use paws.Base.Bytes.{Bytes, be16, length-take-drop}

pub data Outcome {ℓ} (A : Type ℓ) : Type ℓ where
  panics rejects : Outcome A
  returns : A → Outcome A

infixl 5 ◌>>=◌
abbrev pub ◌>>=◌ {ℓ κ} : {A : Type ℓ} → {B : Type κ} → Outcome A → (A → Outcome B) → Outcome B
panics >>= f = panics
rejects >>= f = rejects
returns a >>= f = f a

-- The outcome is no panic, and a value that it returns has the property.
abbrev pub Safe {ℓ} : {A : Type ℓ} → (A → Type 0) → Outcome A → Type 0
Safe P panics = ⊥
Safe P rejects = Unit {0}
Safe P (returns a) = P a

-- The outcome is a value with the property.
abbrev pub Returns {ℓ} : {A : Type ℓ} → (A → Type 0) → Outcome A → Type 0
Returns P panics = ⊥
Returns P rejects = ⊥
Returns P (returns a) = P a

module _ {ℓ κ} {A : Type ℓ} {B : Type κ} where
  -- A safe computation goes on safely if each value with its property does.
  pub Safe-bind :
      (P : A → Type 0) (Q : B → Type 0) (m : Outcome A) (f : A → Outcome B)
      → Safe P m
      → ((a : A) → P a → Safe Q (f a))
      → Safe Q (m >>= f)
  Safe-bind P Q panics f h k = h
  Safe-bind P Q rejects f h k = tt
  Safe-bind P Q (returns a) f h k = k a h

  pub Returns-bind :
      (P : A → Type 0) (Q : B → Type 0) (m : Outcome A) (f : A → Outcome B)
      → Returns P m
      → ((a : A) → P a → Safe Q (f a))
      → Safe Q (m >>= f)
  Returns-bind P Q panics f h k = absurd h
  Returns-bind P Q rejects f h k = absurd h
  Returns-bind P Q (returns a) f h k = k a h

pub Returns-then {ℓ κ} :
    {A : Type ℓ}
    → {B : Type κ} → (P : A → Type 0) (Q : B → Type 0) (m : Outcome A) (f : A → Outcome B)
    → Returns P m
    → ((a : A) → P a → Returns Q (f a))
    → Returns Q (m >>= f)
Returns-then P Q panics f h k = absurd h
Returns-then P Q rejects f h k = absurd h
Returns-then P Q (returns a) f h k = k a h

pub Returns-map {ℓ} :
    {A : Type ℓ}
    → (P Q : A → Type 0) (o : Outcome A) → Returns P o
    → ((a : A) → P a → Q a)
    → Returns Q o
Returns-map P Q panics h k = h
Returns-map P Q rejects h k = h
Returns-map P Q (returns a) h k = k a h

pub Safe-map {ℓ} :
    {A : Type ℓ} → (P Q : A → Type 0) (o : Outcome A) → Safe P o → ((a : A) → P a → Q a) → Safe Q o
Safe-map P Q panics h k = h
Safe-map P Q rejects h k = tt
Safe-map P Q (returns a) h k = k a h

pub Returns-Safe {ℓ} : {A : Type ℓ} → (P : A → Type 0) (o : Outcome A) → Returns P o → Safe P o
Returns-Safe P panics h = h
Returns-Safe P rejects h = tt
Returns-Safe P (returns a) h = h

-- A guard that rejects: what follows it may use that the guard is false.
pub Safe-guard {ℓ} :
    {A : Type ℓ}
    → (P : A → Type 0) (b : Bool) (o : Outcome A) → (b ≡ false → Safe P o)
    → Safe P (if b then rejects else o)
Safe-guard P true o h = tt
Safe-guard P false o h = h refl

-- `bytes[i]`
unfoldable pub byte_at : Bytes → ℕ → Outcome ℕ
byte_at [] i = panics
byte_at (b ∷ bs) zero = returns b
byte_at (b ∷ bs) (suc i) = byte_at bs i

-- `*bytes.get(i)?`
unfoldable pub get_byte : Bytes → ℕ → Outcome ℕ
get_byte [] i = rejects
get_byte (b ∷ bs) zero = returns b
get_byte (b ∷ bs) (suc i) = get_byte bs i

-- `&bytes[start..end]`
unfoldable pub range : Bytes → ℕ → ℕ → Outcome Bytes
range bs start end =
    if ltb end start || ltb (length bs) end
    then panics
    else returns (take (end - start) (drop start bs))

-- `bytes[start..end].copy_from_slice(source)`
unfoldable pub overwrite : Bytes → ℕ → ℕ → Bytes → Outcome Bytes
overwrite bs start end source =
    if ltb end start || ltb (length bs) end || not (length source == end - start)
    then panics
    else returns (take start bs ++ (source ++ drop end bs))

-- `u16::from_be_bytes([bytes[i], bytes[i + 1]])`
unfoldable pub u16_at : Bytes → ℕ → Outcome ℕ
u16_at bs i = do hi ← byte_at bs i; lo ← byte_at bs (i + 1); returns (be16 hi lo)

-- `u32::from_be_bytes` of four indexed bytes
unfoldable pub u32_at : Bytes → ℕ → Outcome ℕ
u32_at bs i = do high ← u16_at bs i; low ← u16_at bs (i + 2); returns (high * 2 ^ 16 + low)

pub byte_at-Returns : (bs : Bytes) (i : ℕ) → i < length bs → Returns (λ b. Unit {0}) (byte_at bs i)
unfolding byte_at
byte_at-Returns [] i h = absurd (omega arith)
byte_at-Returns (b ∷ bs) zero h = tt
byte_at-Returns (b ∷ bs) (suc i) h = byte_at-Returns bs i (omega arith)

-- A byte that is there is below the length.
pub get_byte-Safe : (bs : Bytes) (i : ℕ) → Safe (λ b. i < length bs) (get_byte bs i)
unfolding get_byte
get_byte-Safe [] i = tt
get_byte-Safe (b ∷ bs) zero = omega arith
get_byte-Safe (b ∷ bs) (suc i) = ground (arith, get_byte-Safe bs i)

pub range-Returns :
    (bs : Bytes) (start end : ℕ)
    → start ≤ end
    → end ≤ length bs
    → Returns (λ r. length r ≡ end - start) (range bs start end)
unfolding range
range-Returns bs start end h k = ground (arith, length-take-drop bs start (end - start))

pub u16_at-Returns :
    (bs : Bytes) (i : ℕ) → i + 1 < length bs → Returns (λ w. Unit {0}) (u16_at bs i)
unfolding u16_at
u16_at-Returns bs i h = ground (arith, byte_at-Returns bs i, byte_at-Returns bs (i + 1))

pub u32_at-Returns :
    (bs : Bytes) (i : ℕ) → i + 3 < length bs → Returns (λ w. Unit {0}) (u32_at bs i)
unfolding u32_at
u32_at-Returns bs i h = ground (arith, u16_at-Returns bs i, u16_at-Returns bs (i + 2))

length-take : (n : ℕ) (bs : Bytes) → n ≤ length bs → length (take n bs) ≡ n
length-take zero [] h = refl
length-take zero (b ∷ bs) h = refl
length-take (suc n) [] h = absurd (omega arith)
length-take (suc n) (b ∷ bs) h = ground (arith, length-take n bs)

length-drop : (n : ℕ) (bs : Bytes) → n ≤ length bs → length (drop n bs) ≡ length bs - n
length-drop zero [] h = refl
length-drop zero (b ∷ bs) h = ground arith
length-drop (suc n) [] h = absurd (omega arith)
length-drop (suc n) (b ∷ bs) h = ground (arith, length-drop n bs)

take-append :
    (n m : ℕ) (bs rest : Bytes) → n ≤ m → m ≤ length bs → take n (take m bs ++ rest) ≡ take n bs
take-append zero m bs rest h k = refl
take-append (suc n) zero bs rest h k = absurd (omega arith)
take-append (suc n) (suc m) [] rest h k = absurd (omega arith)
take-append (suc n) (suc m) (b ∷ bs) rest h k =
    ap (◌∷◌ b) (take-append n m bs rest (omega arith) (omega arith))

pub take-take : (n m : ℕ) (bs : Bytes) → n ≤ m → take n (take m bs) ≡ take n bs
take-take zero m bs h = refl
take-take (suc n) zero bs h = absurd (omega arith)
take-take (suc n) (suc m) [] h = refl
take-take (suc n) (suc m) (b ∷ bs) h = ap (◌∷◌ b) (take-take n m bs (omega arith))

take-prefix : (bs rest : Bytes) → take (length bs) (bs ++ rest) ≡ bs
take-prefix [] rest = refl
take-prefix (b ∷ bs) rest = ap (◌∷◌ b) (take-prefix bs rest)

-- The front of a buffer starts as the buffer does.
pub range-front :
    (n end : ℕ) (bs : Bytes)
    → n ≤ end
    → end ≤ length bs
    → Returns (λ r. (length r ≡ end) × (take n r ≡ take n bs)) (range bs 0 end)
unfolding range
range-front n end bs h k = ground (arith, length-take end bs, take-take n end bs)

-- Overwriting a part of a buffer by as many bytes keeps its length and what stands before the part.
pub overwrite-Returns :
    (n : ℕ) (bs : Bytes) (start end : ℕ) (source : Bytes)
    → n ≤ start
    → start ≤ end
    → end ≤ length bs
    → length source ≡ end - start
    → Returns (λ r. (length r ≡ length bs) × (take n r ≡ take n bs)) (overwrite bs start end source)
unfolding overwrite
overwrite-Returns n bs start end source before h k same = ground (
  arith,
  length-take start bs,
  length-drop end bs,
  length-append source (drop end bs),
  length-append (take start bs) (source ++ drop end bs),
  take-append n start bs (source ++ drop end bs),
)

-- Overwriting the front of a buffer puts the source there.
pub overwrite-front :
    (bs : Bytes) (n : ℕ) (source : Bytes)
    → length source ≡ n
    → n ≤ length bs
    → Returns (λ r. (length r ≡ length bs) × (take n r ≡ source)) (overwrite bs 0 n source)
unfolding overwrite
overwrite-front bs n source same fits = ground (
  arith,
  length-drop n bs,
  length-append source (drop n bs),
  ap (λ m. take m (source ++ drop n bs)) (sym same) ∙ take-prefix source (drop n bs),
)

module _ {A : Type 0} (Q : A → Type 0) (bs : Bytes) (i : ℕ) (f : ℕ → Outcome A) where
  -- Reading a field that is there goes on safely if every value does.
  pub u16_at-bind : i + 1 < length bs → ((w : ℕ) → Safe Q (f w)) → Safe Q (u16_at bs i >>= f)
  u16_at-bind h k = Returns-bind _ Q (u16_at bs i) f (u16_at-Returns bs i h) (λ w _. k w)

  pub u32_at-bind : i + 3 < length bs → ((w : ℕ) → Safe Q (f w)) → Safe Q (u32_at bs i >>= f)
  u32_at-bind h k = Returns-bind _ Q (u32_at bs i) f (u32_at-Returns bs i h) (λ w _. k w)
