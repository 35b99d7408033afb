-- ===== src/MemberOrder/Sorting.antt =====
-- crates/paws_core/src/runtime_snapshot.rs: what a stable sort by key does.
use paws.Base.{Bool, true, false, ◌≡◌, refl, ap, ◌∙◌, List, [], ◌∷◌, nat_eq, if◌then◌else◌, arith}
use paws.MemberOrder.{Key, key_less, insert_by_key, sort_by_key}

-- The members that pass a test, in their order.
unfoldable pub those : {A : Type 0} → (A → Bool) → List A → List A
those test [] = []
those test (x ∷ xs) = let rest = those test xs in if test x then x ∷ rest else rest

-- Of two members that pass the test, neither has the lesser key.
abbrev pub AreEqual : {A : Type 0} → (A → Key) → (A → Bool) → Type 0
AreEqual {A} key test = (x y : A) → key_less (key y) (key x) ≡ true → test x ≡ true → test y ≡ false

-- No member of the list has a key less than the one given.
abbrev pub NoneLess : {A : Type 0} → (A → Key) → A → List A → Type 0
NoneLess key x [] = Unit {0}
NoneLess key x (y ∷ ys) = (key_less (key y) (key x) ≡ false) × NoneLess key x ys

abbrev pub IsSorted : {A : Type 0} → (A → Key) → List A → Type 0
IsSorted key [] = Unit {0}
IsSorted key (x ∷ xs) = NoneLess key x xs × IsSorted key xs

less_asym : (a b : Key) → key_less a b ≡ true → key_less b a ≡ false
unfolding key_less
less_asym a b h = ground arith

not_less_trans : (a b c : Key) → key_less b a ≡ false → key_less c b ≡ false → key_less c a ≡ false
unfolding key_less
not_less_trans a b c h i = ground arith

-- Every member of a list that is not less than `y` is not less than what `y` is not less than.
NoneLess-weaken :
    {A : Type 0} (key : A → Key) (x y : A) (xs : List A)
    → key_less (key y) (key x) ≡ false
    → NoneLess key y xs
    → NoneLess key x xs
NoneLess-weaken key x y [] h n = tt
NoneLess-weaken key x y (z ∷ zs) h n =
    (not_less_trans (key x) (key y) (key z) h n.0, NoneLess-weaken key x y zs h n.1)

insert-NoneLess :
    {A : Type 0} (key : A → Key) (y x : A) (xs : List A)
    → key_less (key x) (key y) ≡ false
    → NoneLess key y xs
    → NoneLess key y (insert_by_key key x xs)
unfolding insert_by_key
insert-NoneLess key y x [] h n = (h, tt)
insert-NoneLess key y x (z ∷ zs) h n =
    go (key_less (key z) (key x)) (insert-NoneLess key y x zs h n.1)
  where
    go :
        (less : Bool)
        → NoneLess key y (insert_by_key key x zs)
        → NoneLess key y (if less then z ∷ insert_by_key key x zs else x ∷ z ∷ zs)
    go true rest = (n.0, rest)
    go false rest = (h, n)

insert-IsSorted :
    {A : Type 0} (key : A → Key) (x : A) (xs : List A)
    → IsSorted key xs
    → IsSorted key (insert_by_key key x xs)
unfolding insert_by_key
insert-IsSorted key x [] s = (tt, tt)
insert-IsSorted key x (y ∷ ys) s = go (key_less (key y) (key x)) refl (insert-IsSorted key x ys s.1)
  where
    go :
        (less : Bool)
        → key_less (key y) (key x) ≡ less
        → IsSorted key (insert_by_key key x ys)
        → IsSorted key (if less then y ∷ insert_by_key key x ys else x ∷ y ∷ ys)
    go true h rest = (insert-NoneLess key y x ys (less_asym (key y) (key x) h) s.0, rest)
    go false h rest = ((h, NoneLess-weaken key x y ys h s.0), s)

insert-those :
    {A : Type 0} (key : A → Key) (test : A → Bool) (x : A) (xs : List A)
    → AreEqual key test
    → those test (insert_by_key key x xs) ≡ those test (x ∷ xs)
unfolding those insert_by_key
insert-those key test x [] e = refl
insert-those key test x (y ∷ ys) e = ground (arith, insert-those key test x ys e, e x y)

pub sort-IsSorted : {A : Type 0} (key : A → Key) (xs : List A) → IsSorted key (sort_by_key key xs)
unfolding sort_by_key
sort-IsSorted key [] = tt
sort-IsSorted key (x ∷ xs) = insert-IsSorted key x (sort_by_key key xs) (sort-IsSorted key xs)

pub sort-those :
    {A : Type 0} (key : A → Key) (test : A → Bool) (xs : List A)
    → AreEqual key test
    → those test (sort_by_key key xs) ≡ those test xs
unfolding those sort_by_key
sort-those key test [] e = refl
sort-those key test (x ∷ xs) e =
    insert-those key test x (sort_by_key key xs) e
    ∙ ap (λ rest. if test x then x ∷ rest else rest) (sort-those key test xs e)
