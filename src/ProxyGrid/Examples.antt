-- ===== src/ProxyGrid/Examples.antt =====
-- Two groups that select one another, and one that leads to a node.
use paws.Base.{◌≡◌, refl, Text, text, none, some, List, [], ◌∷◌, ℕ_discrete}
use paws.Base.Outcome.{rejects, returns, Safe}
use paws.Proxies.{ProxyGroup}
use paws.ProxyGrid.{find_group, next_of, selected_member, follow, visited, effective_group_leaf}
use paws.ProxyGrid.Leaf.{effective_group_leaf-Safe}

abbrev selects : Text → Text → ProxyGroup
selects name selected = record {
  name = name;
  group_type = text "Selector";
  selected = some selected;
  fixed = none;
  proxies = [];
}

abbrev groups : List ProxyGroup
groups =
    selects (text "A") (text "B")
    ∷ selects (text "B") (text "A")
    ∷ selects (text "C") (text "D")
    ∷ selects (text "D") (text "node")
    ∷ []

cycle : effective_group_leaf groups (text "A") ≡ rejects
unfolding effective_group_leaf follow next_of selected_member find_group visited ℕ_discrete
cycle = refl

node : effective_group_leaf groups (text "C") ≡ returns (text "node")
unfolding effective_group_leaf follow next_of selected_member find_group visited ℕ_discrete
node = refl

effective_group_leaf-Safe_example :
    Safe (λ found. find_group found groups ≡ none) (effective_group_leaf groups (text "C"))
effective_group_leaf-Safe_example = effective_group_leaf-Safe groups (text "C")
