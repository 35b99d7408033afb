-- ===== src/MemberOrder/Examples.antt =====
-- A group whose members come back in another order, with a new one.
use paws.Base.{◌≡◌, refl, Text, text, false, none, List, [], ◌∷◌, ℕ_discrete}
use paws.Proxies.{ProxyItem, ProxyGroup}
use paws.MemberOrder.{
  key_less, insert_by_key, sort_by_key, previous_group, place_of, key_of, member_key, reorder_group,
  preserve_proxy_group_member_order,
}
use paws.MemberOrder.Preserving.{AllFollow, preserve_proxy_group_member_order-AllFollow}

abbrev member : Text → ProxyItem
member name = record { name = name; proxy_type = text "Socks5"; delay_ms = none; selected = false }

abbrev group : List ProxyItem → ProxyGroup
group members = record {
  name = text "g";
  group_type = text "Selector";
  selected = none;
  fixed = none;
  proxies = members;
}

abbrev before : List ProxyGroup
before = group (member (text "a") ∷ member (text "b") ∷ []) ∷ []

abbrev refreshed : List ProxyGroup
refreshed = group (member (text "n") ∷ member (text "b") ∷ member (text "a") ∷ []) ∷ []

reordered :
    preserve_proxy_group_member_order before refreshed
    ≡ group (member (text "a") ∷ member (text "b") ∷ member (text "n") ∷ []) ∷ []
unfolding preserve_proxy_group_member_order reorder_group previous_group member_key key_of place_of
    sort_by_key insert_by_key key_less ℕ_discrete
reordered = refl

preserve_proxy_group_member_order-AllFollow_example :
    AllFollow before refreshed (preserve_proxy_group_member_order before refreshed)
preserve_proxy_group_member_order-AllFollow_example =
    preserve_proxy_group_member_order-AllFollow before refreshed
