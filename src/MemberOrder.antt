-- ===== src/MemberOrder.antt =====
-- crates/paws_core/src/runtime_snapshot.rs, `preserve_proxy_group_member_order`: the members of a
-- refreshed group take the places they had before.
pub mod Sorting
pub mod Places
pub mod Preserving
mod Examples
use paws.Base.{
  ℕ, suc, zero, ◌+◌, Text, Bool, true, false, ◌&&◌, ◌||◌, Option, none, some, List, [], ◌∷◌, ◌==◌,
  text_eq, nat_eq, ltb, if◌then◌else◌,
}
use paws.Proxies.{ProxyItem, ProxyGroup}

-- The key of a member: whether it is new, then its place.
pub record Key : Type 0 where
  pub class : ℕ
  pub place : ℕ

abbrev pub usize_max : ℕ
usize_max = 18446744073709551615

-- The order of pairs.
unfoldable pub key_less : Key → Key → Bool
key_less a b = ltb a.class b.class || (a.class == b.class && ltb a.place b.place)

-- A member enters a sorted list before the first one whose key is not less.
unfoldable pub insert_by_key : {A : Type 0} → (A → Key) → A → List A → List A
insert_by_key key x [] = x ∷ []
insert_by_key key x (y ∷ ys) =
    let rest = insert_by_key key x ys in if key_less (key y) (key x) then y ∷ rest else x ∷ y ∷ ys

-- The standard library's stable `sort_by_key`.
unfoldable pub sort_by_key : {A : Type 0} → (A → Key) → List A → List A
unfolding insert_by_key
sort_by_key key [] = []
sort_by_key key (x ∷ xs) = insert_by_key key x (sort_by_key key xs)

unfoldable pub previous_group : Text → List ProxyGroup → Option ProxyGroup
previous_group name [] = none
previous_group name (g ∷ gs) =
    let rest = previous_group name gs in if g.name == name then some g else rest

abbrev pub later : Option ℕ → Option ℕ → Option ℕ
later (some place) here = some place
later none here = here

-- The map of places, collected from the members: of two with one name, the later one is kept.
unfoldable pub place_of : Text → ℕ → List ProxyItem → Option ℕ
place_of name index [] = none
place_of name index (p ∷ ps) =
    later (place_of name (suc index) ps) (if p.name == name then some index else none)

unfoldable pub key_of : Option ℕ → Key
key_of none = record { class = 1; place = usize_max }
key_of (some index) = record { class = 0; place = index }

unfoldable pub member_key : ProxyGroup → ProxyItem → Key
unfolding place_of key_of
member_key previous p = key_of (place_of p.name 0 previous.proxies)

unfoldable pub reorder_group : Option ProxyGroup → ProxyGroup → ProxyGroup
unfolding sort_by_key member_key
reorder_group none group = group
reorder_group (some previous) group = record group {
  proxies = sort_by_key (member_key previous) group.proxies;
}

unfoldable pub preserve_proxy_group_member_order :
    List ProxyGroup → List ProxyGroup → List ProxyGroup
unfolding reorder_group previous_group
preserve_proxy_group_member_order previous [] = []
preserve_proxy_group_member_order previous (group ∷ groups) =
    reorder_group (previous_group group.name previous) group
    ∷ preserve_proxy_group_member_order previous groups
