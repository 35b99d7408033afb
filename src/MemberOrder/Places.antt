-- ===== src/MemberOrder/Places.antt =====
-- crates/paws_core/src/runtime_snapshot.rs: the places that the members of a group had, and the keys
-- made of them.
use paws.Base.{
  ℕ, zero, suc, ◌+◌, ◌≤◌, ◌≡◌, ◌⊎◌, inl, inr, Bool-cases, not, refl, Text, Bool, true, false, none,
  some, List, [], ◌∷◌, ◌==◌, ◌||◌, text_eq, nat_eq, arith,
}
use paws.Proxies.{ProxyItem, ProxyGroup}
use paws.MemberOrder.Sorting.{AreEqual}
use paws.MemberOrder.{Key, key_less, place_of, key_of, member_key}

-- The list has a member of the name.
abbrev pub knows : Text → List ProxyItem → Bool
knows name [] = false
knows name (p ∷ ps) = p.name == name || knows name ps

-- The place of the last member of the name.
abbrev pub HasPlace : Text → ℕ → List ProxyItem → Type 0
HasPlace name place [] = ⊥
HasPlace name zero (p ∷ ps) = (p.name == name ≡ true) × (knows name ps ≡ false)
HasPlace name (suc place) (p ∷ ps) = HasPlace name place ps

place_of-unknown :
    (name : Text) (index : ℕ) (ps : List ProxyItem)
    → knows name ps ≡ false
    → place_of name index ps ≡ none
unfolding place_of
place_of-unknown name index [] h = refl
place_of-unknown name index (p ∷ ps) h = ground (arith, place_of-unknown name (suc index) ps)

place_of-known :
    (name : Text) (index place : ℕ) (ps : List ProxyItem)
    → HasPlace name place ps
    → place_of name index ps ≡ some (index + place)
unfolding place_of
place_of-known name index zero [] h = elim h [ ]
place_of-known name index (suc place) [] h = elim h [ ]
place_of-known name index zero (p ∷ ps) h = ground (arith, h, place_of-unknown name (suc index) ps)
place_of-known name index (suc place) (p ∷ ps) h =
    ground (arith, place_of-known name (suc index) place ps h)

place-cases :
    (name : Text) (ps : List ProxyItem)
    → (knows name ps ≡ false) ⊎ ((place : ℕ) × HasPlace name place ps)
place-cases name [] = inl refl
place-cases name (p ∷ ps) = elim (place-cases name ps) [
  | inr (place, h) ↦ inr (suc place, h)
  | inl later_ ↦ elim (Bool-cases (p.name == name)) [
    | inl same ↦ inr (zero, (same, later_))
    | inr other ↦ inl (ground (arith, later_, other))
  ]
]

-- Where the later one had a place, the earlier one had one that is not behind it.
abbrev pub Before : List ProxyItem → ProxyItem → ProxyItem → Type 0
Before previous x y =
    (j : ℕ) → HasPlace y.name j previous → (i : ℕ) × HasPlace x.name i previous × (i ≤ j)

pub key-Before :
    (previous : ProxyGroup) (x y : ProxyItem)
    → key_less (member_key previous y) (member_key previous x) ≡ false
    → Before previous.proxies x y
unfolding member_key key_of key_less
key-Before previous x y sorted j h =
    let known = place_of-known y.name 0 j previous.proxies h in
    elim (place-cases x.name previous.proxies) [
      | inr (i, g) ↦
          (i, g, ground (arith, sorted, known, place_of-known x.name 0 i previous.proxies g))
      | inl new ↦
          absurd (ground (arith, sorted, known, place_of-unknown x.name 0 previous.proxies new))
    ]

abbrev pub is_new : ProxyGroup → ProxyItem → Bool
is_new previous p = not (knows p.name previous.proxies)

pub new-AreEqual : (previous : ProxyGroup) → AreEqual (member_key previous) (is_new previous)
unfolding member_key key_of key_less
new-AreEqual previous x y less new = elim (Bool-cases (knows y.name previous.proxies)) [
  | inl known ↦ ground (arith, known)
  | inr other ↦ absurd (
      ground (
        arith,
        less,
        new,
        place_of-unknown y.name 0 previous.proxies other,
        place_of-unknown x.name 0 previous.proxies,
      ))
]

key_less_irrefl : (k : Key) → key_less k k ≡ false
unfolding key_less
key_less_irrefl k = ground arith

pub name-AreEqual :
    (previous : ProxyGroup) (name : Text) → AreEqual (member_key previous) (λ p. p.name == name)
unfolding member_key
name-AreEqual previous name x y less same =
    ground (arith, less, same, key_less_irrefl (key_of (place_of name 0 previous.proxies)))
