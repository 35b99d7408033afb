-- ===== src/Base/Assoc.antt =====
-- `HashMap` as an association list in its order of iteration, and `min_by_key` over it.
use Prim.Native.Nat.{ℕ, suc, ◌≤◌, ◌<◌}
use mathlib.Core.Path.{◌≡◌, refl}
use mathlib.Core.Logic.{◌≢◌}
use mathlib.Core.Bool.{Bool, true, false}
use mathlib.Core.List.{List, [], ◌∷◌}
use mathlib.Core.Option.{Option, none, some}
use native.Mathlib.Omega.{arith}
use native.Mathlib.Nat.{le_trans, le_of_lt}
use paws.Base.Tests.{Eq, ◌==◌, if◌then◌else◌, ltb, ltb→lt, is_some}
use paws.Base.Lists.{length, All}

module _ {K V : Type 0} ⦃e : Eq K⦄ where
  unfoldable pub get : K → List (K × V) → Option V
  get k [] = none
  get k ((j, v) ∷ m) = if j == k then some v else get k m

  -- `remove`
  unfoldable pub remove : K → List (K × V) → List (K × V)
  remove k [] = []
  remove k ((j, v) ∷ m) = if j == k then m else (j, v) ∷ remove k m

  -- `insert`, or a write through `entry`: a new key goes to the end.
  unfoldable pub put : K → V → List (K × V) → List (K × V)
  put k v [] = (k, v) ∷ []
  put k v ((j, w) ∷ m) = if j == k then (k, v) ∷ m else (j, w) ∷ put k v m

  -- No key stands twice.
  abbrev pub Distinct : List (K × V) → Type 0
  Distinct [] = Unit {0}
  Distinct ((k, v) ∷ m) = (get k m ≡ none) × Distinct m

  pub get-put :
      (k j : K) (v : V) (m : List (K × V))
      → get j (put k v m) ≡ (if k == j then some v else get j m)
  unfolding get put
  get-put k j v [] = refl
  get-put k j v ((i, w) ∷ m) = ground (arith, get-put k j v m)

  pub get-remove_ne : (k j : K) (m : List (K × V)) → k ≢ j → get j (remove k m) ≡ get j m
  unfolding get remove
  get-remove_ne k j [] h = refl
  get-remove_ne k j ((i, w) ∷ m) h = ground (arith, get-remove_ne k j m h)

  pub get-remove-none : (k j : K) (m : List (K × V)) → get j m ≡ none → get j (remove k m) ≡ none
  unfolding get remove
  get-remove-none k j [] h = refl
  get-remove-none k j ((i, w) ∷ m) h = ground (arith, get-remove-none k j m)

  pub put-Distinct : (k : K) (v : V) (m : List (K × V)) → Distinct m → Distinct (put k v m)
  unfolding get put
  put-Distinct k v [] d = ground arith
  put-Distinct k v ((j, w) ∷ m) d = ground (arith, put-Distinct k v m d.1, get-put k j v m)

  pub remove-Distinct : (k : K) (m : List (K × V)) → Distinct m → Distinct (remove k m)
  unfolding get remove
  remove-Distinct k [] d = d
  remove-Distinct k ((j, w) ∷ m) d = ground (arith, remove-Distinct k m d.1, get-remove-none k j m)

  pub length-put :
      (k : K) (v : V) (m : List (K × V))
      → length (put k v m) ≡ (if is_some (get k m) then length m else suc (length m))
  unfolding get put
  length-put k v [] = refl
  length-put k v ((j, w) ∷ m) = ground (arith, length-put k v m)

  pub length-remove :
      (k : K) (m : List (K × V)) → get k m ≢ none → suc (length (remove k m)) ≡ length m
  unfolding get remove
  length-remove k [] h = absurd (h refl)
  length-remove k ((j, w) ∷ m) h = ground (arith, length-remove k m)

  -- The first entry with the least key, from a candidate on.
  unfoldable pub min_from : (V → ℕ) → K × V → List (K × V) → K × V
  min_from key best [] = best
  min_from key best (x ∷ m) = min_from key (if ltb (key x.1) (key best.1) then x else best) m

  -- `iter().min_by_key(..)` and `remove` of the key found.
  unfoldable pub remove_min : (V → ℕ) → List (K × V) → List (K × V)
  remove_min key [] = []
  remove_min key (entry ∷ m) = remove (min_from key entry m).0 (entry ∷ m)

  -- An entry of a map, by what holds of every value.
  pub remove-All {κ} :
      (P : K × V → Type κ) (k : K) (m : List (K × V)) → All P m → All P (remove k m)
  unfolding remove
  remove-All P k [] a = a
  remove-All P k ((j, v) ∷ m) a = ground (arith, remove-All P k m a.1)

  get-cons : (k : K) (x : K × V) (m : List (K × V)) → get k m ≢ none → get k (x ∷ m) ≢ none
  unfolding get
  get-cons k x m h = ground arith

  get-cons_second :
      (k : K) (x y : K × V) (m : List (K × V)) → get k (x ∷ m) ≢ none → get k (x ∷ y ∷ m) ≢ none
  unfolding get
  get-cons_second k x y m h = ground arith

  min_from-mem :
      (key : V → ℕ) (best : K × V) (m : List (K × V))
      → get (min_from key best m).0 (best ∷ m) ≢ none
  unfolding min_from
  min_from-mem key best [] = unfold get in ground arith
  min_from-mem key best (x ∷ m) = go (ltb (key x.1) (key best.1)) (λ y. min_from-mem key y m)
    where
      go :
          (b : Bool)
          → ((y : K × V) → get (min_from key y m).0 (y ∷ m) ≢ none)
          → get (min_from key (if b then x else best) m).0 (best ∷ x ∷ m) ≢ none
      go true ih = get-cons _ best (x ∷ m) (ih x)
      go false ih = get-cons_second _ best x m (ih best)

  -- The entry found has a key no greater than any.
  pub min_from-le :
      (key : V → ℕ) (best : K × V) (m : List (K × V))
      → (key (min_from key best m).1 ≤ key best.1)
        × All (λ (x : K × V). key (min_from key best m).1 ≤ key x.1) m
  unfolding min_from
  min_from-le key best [] = (omega arith, tt)
  min_from-le key best (x ∷ m) = go (ltb (key x.1) (key best.1)) refl (λ y. min_from-le key y m)
    where
      go :
          (b : Bool)
          → ltb (key x.1) (key best.1) ≡ b
          → ((y : K × V)
              → (key (min_from key y m).1 ≤ key y.1)
                × All (λ (z : K × V). key (min_from key y m).1 ≤ key z.1) m)
          → let r = min_from key (if b then x else best) m in
            (key r.1 ≤ key best.1) × All (λ (z : K × V). key r.1 ≤ key z.1) (x ∷ m)
      go true e ih =
          let less : key x.1 < key best.1 = ltb→lt _ _ e in
          (le_trans (ih x).0 (le_of_lt less), ((ih x).0, (ih x).1))
      go false e ih =
          let more : key best.1 ≤ key x.1 = ground arith in
          ((ih best).0, (le_trans (ih best).0 more, (ih best).1))

  -- Evicting drops one entry of a map that is not empty.
  pub length-remove_min :
      (key : V → ℕ) (m : List (K × V)) → 0 < length m → suc (length (remove_min key m)) ≡ length m
  unfolding remove_min
  length-remove_min key [] h = absurd (omega arith)
  length-remove_min key (x ∷ m) h =
      length-remove (min_from key x m).0 (x ∷ m) (min_from-mem key x m)

  pub remove_min-Distinct :
      (key : V → ℕ) (m : List (K × V)) → Distinct m → Distinct (remove_min key m)
  unfolding remove_min
  remove_min-Distinct key [] d = d
  remove_min-Distinct key (x ∷ m) d = remove-Distinct (min_from key x m).0 (x ∷ m) d

  pub remove_min-All {κ} :
      (P : K × V → Type κ) (key : V → ℕ) (m : List (K × V)) → All P m → All P (remove_min key m)
  unfolding remove_min
  remove_min-All P key [] a = a
  remove_min-All P key (x ∷ m) a = remove-All P (min_from key x m).0 (x ∷ m) a

  pub put-All {κ} :
      (P : V → Type κ) (k : K) (v : V) (m : List (K × V))
      → P v
      → All (λ (x : K × V). P x.1) m
      → All (λ (x : K × V). P x.1) (put k v m)
  unfolding put
  put-All P k v [] p a = (p, tt)
  put-All P k v ((j, w) ∷ m) p a = ground (arith, put-All P k v m p a.1)

  pub get-All {κ} :
      (P : V → Type κ) (k : K) (v : V) (m : List (K × V))
      → All (λ (x : K × V). P x.1) m
      → get k m ≡ some v
      → P v
  unfolding get
  get-All P k v [] a h = absurd (ground arith)
  get-All P k v ((j, w) ∷ m) a h = ground (arith, get-All P k v m a.1)

  pub get-remove_min-none :
      (key : V → ℕ) (k : K) (m : List (K × V)) → get k m ≡ none → get k (remove_min key m) ≡ none
  unfolding remove_min
  get-remove_min-none key k [] h = h
  get-remove_min-none key k (x ∷ m) h = get-remove-none (min_from key x m).0 k (x ∷ m) h
