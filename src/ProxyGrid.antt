-- ===== src/ProxyGrid.antt =====
-- crates/paws_ui/src/proxy_grid.rs: the node that a group leads to through the selections of groups,
-- and the counts of the groups. The rows of the page are not modelled.
pub mod Leaf
mod Examples
use paws.Base.{
  ℕ, zero, suc, ◌+◌, Text, text, Bool, true, false, not, ◌&&◌, Option, none, some, List, [], ◌∷◌,
  ◌==◌, text_eq, if◌then◌else◌, is_some, length, eq_ignore_ascii_case,
}
use paws.Base.Outcome.{Outcome, panics, rejects, returns, ◌>>=◌}
use paws.Proxies.{ProxyItem, ProxyGroup}

pub record ProxyGroupSummary : Type 0 where
  pub groups : ℕ
  pub members : ℕ

abbrev pub is_global : ProxyGroup → Bool
unfolding eq_ignore_ascii_case
is_global g = eq_ignore_ascii_case g.name (text "GLOBAL")

abbrev pub add_group : ProxyGroup → ProxyGroupSummary → ProxyGroupSummary
add_group g s = record { groups = s.groups + 1; members = s.members + length g.proxies }

-- The fold from the left, with what it has so far.
unfoldable pub summarize : ProxyGroupSummary → List ProxyGroup → ProxyGroupSummary
unfolding is_global
summarize s [] = s
summarize s (g ∷ groups) = summarize (if is_global g then s else add_group g s) groups

pub proxy_group_summary : List ProxyGroup → ProxyGroupSummary
unfolding summarize
proxy_group_summary = summarize (record { groups = 0; members = 0 })

unfoldable pub find_group : Text → List ProxyGroup → Option ProxyGroup
find_group name [] = none
find_group name (g ∷ groups) = if g.name == name then some g else find_group name groups

unfoldable pub marked_member : List ProxyItem → Option Text
marked_member [] = none
marked_member (p ∷ ps) = if p.selected then some p.name else marked_member ps

unfoldable pub selected_member : ProxyGroup → Option Text
unfolding marked_member
selected_member g = elim g.selected [
  | some selected ↦ some selected
  | none ↦ marked_member g.proxies
]

unfoldable pub visited : Text → List Text → Bool
visited name [] = false
visited name (x ∷ xs) = if x == name then true else visited name xs

-- Where the selection of a group leads.
pub data Next : Type 0 where
  nowhere : Next
  leaf : Text → Next
  subgroup : ProxyGroup → Next

abbrev pub group_or_leaf : Text → Option ProxyGroup → Next
group_or_leaf selected none = leaf selected
group_or_leaf selected (some g) = subgroup g

abbrev pub selection_of : List ProxyGroup → Option Text → Next
unfolding find_group
selection_of groups none = nowhere
selection_of groups (some selected) = group_or_leaf selected (find_group selected groups)

unfoldable pub next_of : List ProxyGroup → ProxyGroup → Next
unfolding selection_of selected_member
next_of groups g = selection_of groups (selected_member g)

-- The loop from a group on; running out of fuel counts as a panic.
unfoldable pub follow : ℕ → List ProxyGroup → List Text → ProxyGroup → Outcome Text
unfolding next_of visited
follow zero groups seen g = panics
follow (suc fuel) groups seen g = if visited g.name seen then rejects else elim (next_of groups g) [
  | nowhere ↦ rejects
  | leaf name ↦ returns name
  | subgroup next ↦ follow fuel groups (g.name ∷ seen) next
]

abbrev pub follow_found : List ProxyGroup → Option ProxyGroup → Outcome Text
unfolding follow
follow_found groups none = rejects
follow_found groups (some g) = follow (suc (length groups)) groups [] g

-- One turn for each group, and one that finds a group twice.
unfoldable pub effective_group_leaf : List ProxyGroup → Text → Outcome Text
unfolding follow_found
effective_group_leaf groups root = follow_found groups (find_group root groups)

abbrev pub is_named : Option Text → ProxyGroup → Bool
unfolding eq_ignore_ascii_case
is_named none g = true
is_named (some name) g = eq_ignore_ascii_case g.name name

-- The first group with a selection that is not `GLOBAL`, of that name where one is given.
unfoldable pub first_selected : Option Text → List ProxyGroup → Option ProxyGroup
unfolding is_global is_named
first_selected wanted [] = none
first_selected wanted (g ∷ groups) =
    let rest = first_selected wanted groups in
    if not (is_global g) && is_named wanted g && is_some (selected_member g) then some g else rest

abbrev pub or_else {ℓ} : {A : Type ℓ} → Option A → Option A → Option A
or_else none other = other
or_else (some a) other = some a

abbrev pub leaf_of : List ProxyGroup → Option ProxyGroup → Outcome Text
leaf_of groups none = rejects
leaf_of groups (some primary) = effective_group_leaf groups primary.name

pub primary_selected_group_leaf : List ProxyGroup → Outcome Text
primary_selected_group_leaf groups =
    leaf_of groups
      (or_else (first_selected (some (text "Proxy")) groups) (first_selected none groups))
