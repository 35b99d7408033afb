-- ===== src/ProxyGrid/Leaf.antt =====
-- Following selections ends, at the name of no group.
use paws.Base.{
  ℕ, zero, suc, ◌≤◌, ◌<◌, ◌≡◌, refl, Text, Bool, true, false, Option, none, some, List, [], ◌∷◌,
  text_eq, if◌then◌else◌, length, arith,
}
use paws.Base.Outcome.{rejects, returns, Safe}
use paws.Proxies.{ProxyGroup}
use paws.ProxyGrid.{
  find_group, visited, Next, nowhere, leaf, subgroup, group_or_leaf, selection_of, next_of, follow,
  follow_found, effective_group_leaf, selected_member,
}

-- How many groups were not visited yet.
unfoldable pub unvisited : List Text → List ProxyGroup → ℕ
unvisited seen [] = 0
unvisited seen (g ∷ groups) =
    let rest = unvisited seen groups in if visited g.name seen then rest else suc rest

unvisited-le : (seen : List Text) (groups : List ProxyGroup) → unvisited seen groups ≤ length groups
unfolding unvisited
unvisited-le seen [] = omega arith
unvisited-le seen (g ∷ groups) = ground (arith, unvisited-le seen groups)

visit-le :
    (name : Text) (seen : List Text) (groups : List ProxyGroup)
    → unvisited (name ∷ seen) groups ≤ unvisited seen groups
unfolding unvisited visited
visit-le name seen [] = omega arith
visit-le name seen (g ∷ groups) = ground (arith, visit-le name seen groups)

-- A visit of a group of the list leaves fewer.
visit-lt :
    (g : ProxyGroup) (name : Text) (seen : List Text) (groups : List ProxyGroup)
    → find_group name groups ≡ some g
    → visited g.name seen ≡ false
    → unvisited (g.name ∷ seen) groups < unvisited seen groups
unfolding unvisited visited find_group
visit-lt g name seen [] found new = absurd (ground arith)
visit-lt g name seen (h ∷ groups) found new =
    ground (arith, visit-lt g name seen groups, visit-le g.name seen groups)

-- Where a selection leads is a name of no group, or a group of the list.
abbrev LeadsOn : List ProxyGroup → Next → Type 0
LeadsOn groups nowhere = Unit {0}
LeadsOn groups (leaf name) = find_group name groups ≡ none
LeadsOn groups (subgroup g) = (name : Text) × (find_group name groups ≡ some g)

next_of-LeadsOn : (groups : List ProxyGroup) (g : ProxyGroup) → LeadsOn groups (next_of groups g)
unfolding next_of
next_of-LeadsOn groups g = chosen (selected_member g)
  where
    found :
        (name : Text) (o : Option ProxyGroup)
        → find_group name groups ≡ o
        → LeadsOn groups (group_or_leaf name o)
    found name none h = h
    found name (some next) h = (name, h)

    chosen : (o : Option Text) → LeadsOn groups (selection_of groups o)
    chosen none = tt
    chosen (some name) = found name (find_group name groups) refl

follow-Safe :
    (fuel : ℕ) (groups : List ProxyGroup) (seen : List Text) (g : ProxyGroup) (name : Text)
    → find_group name groups ≡ some g
    → unvisited seen groups < fuel
    → Safe (λ found. find_group found groups ≡ none) (follow fuel groups seen g)
unfolding follow
follow-Safe zero groups seen g name found enough = absurd (omega arith)
follow-Safe (suc fuel) groups seen g name found enough =
    go (visited g.name seen) refl (next_of groups g) (next_of-LeadsOn groups g)
      (λ next name'. follow-Safe fuel groups (g.name ∷ seen) next name')
  where
    go :
        (old : Bool)
        → visited g.name seen ≡ old
        → (o : Next) → LeadsOn groups o
        → ((next : ProxyGroup) (name' : Text)
            → find_group name' groups ≡ some next
            → unvisited (g.name ∷ seen) groups < fuel
            → Safe
                (λ found. find_group found groups ≡ none)
                (follow fuel groups (g.name ∷ seen) next))
        → Safe
            (λ found. find_group found groups ≡ none)
            (if old then rejects else elim o [
              | nowhere ↦ rejects
              | leaf name ↦ returns name
              | subgroup next ↦ follow fuel groups (g.name ∷ seen) next
            ])
    go true h o leads ih = tt
    go false h nowhere leads ih = tt
    go false h (leaf found') leads ih = leads
    go false h (subgroup next) (name', found') ih =
        ih next name' found' (omega (arith, visit-lt g name seen groups found h, enough))

-- Following the selections of groups from any root always ends, also where groups select one
-- another in a cycle, and the node that it finds is the name of no group.
pub effective_group_leaf-Safe :
    (groups : List ProxyGroup) (root : Text)
    → Safe (λ found. find_group found groups ≡ none) (effective_group_leaf groups root)
unfolding effective_group_leaf
effective_group_leaf-Safe groups root = go (find_group root groups) refl
  where
    go :
        (o : Option ProxyGroup)
        → find_group root groups ≡ o
        → Safe (λ found. find_group found groups ≡ none) (follow_found groups o)
    go none h = tt
    go (some g) h =
        follow-Safe (suc (length groups)) groups [] g root h (omega (arith, unvisited-le [] groups))
