-- ===== src/MemberOrder/Preserving.antt =====
-- crates/paws_core/src/runtime_snapshot.rs: what a refresh keeps of the order of the members.
use paws.Base.{◌≡◌, refl, Text, ◌==◌, text_eq, Option, none, some, List, [], ◌∷◌}
use paws.Proxies.{ProxyItem, ProxyGroup}
use paws.MemberOrder.{
  sort_by_key, member_key, previous_group, reorder_group, preserve_proxy_group_member_order,
}
use paws.MemberOrder.Sorting.{those, NoneLess, IsSorted, sort-IsSorted, sort-those}
use paws.MemberOrder.Places.{Before, key-Before, is_new, new-AreEqual, name-AreEqual}

abbrev pub AllBefore : List ProxyItem → ProxyItem → List ProxyItem → Type 0
AllBefore previous x [] = Unit {0}
AllBefore previous x (y ∷ ys) = Before previous x y × AllBefore previous x ys

-- Of any two members, the one that had the later place, or none, stands behind the other.
abbrev pub InOrder : List ProxyItem → List ProxyItem → Type 0
InOrder previous [] = Unit {0}
InOrder previous (x ∷ xs) = AllBefore previous x xs × InOrder previous xs

-- A refreshed group before and after: all but its members is as it was. The members stand in the
-- order of their previous places with the new ones behind; those of one name, and the new ones, are
-- the same and in the same order.
pub record FollowsGroup (previous before after : ProxyGroup) : Type 0 where
  pub rest_kept : after ≡ record before { proxies = after.proxies }
  pub in_order : InOrder previous.proxies after.proxies
  pub members_kept :
      (name : Text)
      → those (λ p. p.name == name) after.proxies ≡ those (λ p. p.name == name) before.proxies
  pub new_kept : those (is_new previous) after.proxies ≡ those (is_new previous) before.proxies

NoneLess-AllBefore :
    (previous : ProxyGroup) (x : ProxyItem) (ys : List ProxyItem)
    → NoneLess (member_key previous) x ys
    → AllBefore previous.proxies x ys
NoneLess-AllBefore previous x [] n = tt
NoneLess-AllBefore previous x (y ∷ ys) n =
    (key-Before previous x y n.0, NoneLess-AllBefore previous x ys n.1)

IsSorted-InOrder :
    (previous : ProxyGroup) (xs : List ProxyItem)
    → IsSorted (member_key previous) xs
    → InOrder previous.proxies xs
IsSorted-InOrder previous [] s = tt
IsSorted-InOrder previous (x ∷ xs) s =
    (NoneLess-AllBefore previous x xs s.0, IsSorted-InOrder previous xs s.1)

-- A group that was not there before is as the refresh has it.
abbrev pub Follows : Option ProxyGroup → ProxyGroup → ProxyGroup → Type 0
Follows none before after = after ≡ before
Follows (some previous) before after = FollowsGroup previous before after

-- The groups are the same ones, in the same order, and each follows the first previous one of its
-- name.
abbrev pub AllFollow : List ProxyGroup → List ProxyGroup → List ProxyGroup → Type 0
AllFollow previous [] [] = Unit {0}
AllFollow previous [] (g ∷ gs) = ⊥
AllFollow previous (g ∷ gs) [] = ⊥
AllFollow previous (g ∷ gs) (h ∷ hs) =
    Follows (previous_group g.name previous) g h × AllFollow previous gs hs

reorder-Follows :
    (found : Option ProxyGroup) (group : ProxyGroup)
    → Follows found group (reorder_group found group)
unfolding reorder_group
reorder-Follows none group = refl
reorder-Follows (some previous) group = record {
  rest_kept = refl;
  in_order =
      IsSorted-InOrder previous (sort_by_key (member_key previous) group.proxies)
        (sort-IsSorted (member_key previous) group.proxies);
  members_kept = λ name.
      sort-those (member_key previous) (λ p. p.name == name) group.proxies
        (name-AreEqual previous name);
  new_kept =
      sort-those (member_key previous) (is_new previous) group.proxies (new-AreEqual previous);
}

-- For any groups before and after a refresh, the groups stay in the order of the refresh. In one
-- whose name was there before, members stand in the order of the places that they had then, a place
-- being that of the last member of the name, and new ones stand last. It has the same members of
-- every name, in the same order, and the same new members, in the same order. All else of it, and
-- any other group, is as refreshed.
pub preserve_proxy_group_member_order-AllFollow :
    (previous refreshed : List ProxyGroup)
    → AllFollow previous refreshed (preserve_proxy_group_member_order previous refreshed)
unfolding preserve_proxy_group_member_order
preserve_proxy_group_member_order-AllFollow previous [] = tt
preserve_proxy_group_member_order-AllFollow previous (g ∷ gs) = (
  reorder-Follows (previous_group g.name previous) g,
  preserve_proxy_group_member_order-AllFollow previous gs,
)
