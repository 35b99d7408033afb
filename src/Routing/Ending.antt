-- ===== src/Routing/Ending.antt =====
-- crates/paws_core/src/routing.rs: the search through the groups ends.
use paws.Base.{
  ℕ, zero, suc, ◌<◌, ◌≤◌, ◌≡◌, refl, ap, inl, inr, Text, Bool, true, false, Option, none, some,
  List, [], ◌∷◌, text_eq, is_some, Bool-cases, length, if◌then◌else◌, arith,
}
use paws.Routing.{
  Proxy, Table, Kind, blocks, groups, proxies, find_proxy, contains, kind_of, route_kind, all_route,
  group_routes, proxy_routes, target_routes_through_proxy,
}

-- The outbounds that are not visited.
unfoldable pub remaining : List Text → Table → ℕ
remaining visiting [] = 0
remaining visiting ((key, p) ∷ table) =
    let rest = remaining visiting table in if contains key visiting then rest else suc rest

remaining_empty : (table : Table) → remaining [] table ≤ length table
unfolding remaining contains
remaining_empty [] = omega arith
remaining_empty ((key, p) ∷ table) = omega (arith, remaining_empty table)

remaining_mono :
    (target : Text) (visiting : List Text) (table : Table)
    → remaining (target ∷ visiting) table ≤ remaining visiting table
unfolding remaining contains
remaining_mono target visiting [] = omega arith
remaining_mono target visiting ((key, p) ∷ table) =
    ground (arith, remaining_mono target visiting table)

remaining_visit :
    (target : Text) (visiting : List Text) (table : Table)
    → contains target visiting ≡ false
    → is_some (find_proxy target table) ≡ true
    → remaining (target ∷ visiting) table < remaining visiting table
unfolding remaining contains find_proxy
remaining_visit target visiting [] h f = absurd (ground arith)
remaining_visit target visiting ((key, p) ∷ table) h f = elim (text_eq.same key target) [
  | yes e ↦
      ground
        (arith, e, ap (λ name. contains name visiting) e, h, remaining_mono target visiting table)
  | no n ↦ ground (arith, n, remaining_visit target visiting table h)
]

all_route-IsSome :
    (route : Text → Option Bool) (ms : List Text)
    → ((m : Text) → is_some (route m) ≡ true)
    → is_some (all_route route ms) ≡ true
unfolding all_route
all_route-IsSome route [] h = refl
all_route-IsSome route (m ∷ ms) h = ground (arith, h m, all_route-IsSome route ms h)

group_routes-IsSome :
    (route : Text → Option Bool) (current : Option Text) (members : Option (List Text))
    → ((m : Text) → is_some (route m) ≡ true)
    → is_some (group_routes route current members) ≡ true
unfolding group_routes
group_routes-IsSome route (some current) members h = h current
group_routes-IsSome route none none h = refl
group_routes-IsSome route none (some []) h = refl
group_routes-IsSome route none (some (m ∷ ms)) h = all_route-IsSome route (m ∷ ms) h

route_kind-IsSome :
    (kind : Kind) (group : Option Bool)
    → is_some group ≡ true
    → is_some (route_kind kind group) ≡ true
route_kind-IsSome blocks group h = refl
route_kind-IsSome groups group h = h
route_kind-IsSome proxies group h = refl

proxy_routes-IsSome :
    (route : Text → Option Bool) (found : Option Proxy)
    → (is_some found ≡ true → (m : Text) → is_some (route m) ≡ true)
    → is_some (proxy_routes route found) ≡ true
unfolding proxy_routes
proxy_routes-IsSome route none h = refl
proxy_routes-IsSome route (some p) h =
    route_kind-IsSome (kind_of p.adapter_type) (group_routes route p.current p.members)
      (group_routes-IsSome route p.current p.members (h refl))

target_routes_through_proxy-IsSome :
    (fuel : ℕ) (table : Table) (visiting : List Text) (target : Text)
    → remaining visiting table < fuel
    → is_some (target_routes_through_proxy fuel table visiting target) ≡ true
unfolding target_routes_through_proxy
target_routes_through_proxy-IsSome zero table visiting target h = absurd (omega arith)
target_routes_through_proxy-IsSome (suc fuel) table visiting target h =
    elim (Bool-cases (contains target visiting)) [
      | inl seen ↦ ground (arith, seen)
      | inr fresh ↦
          let found =
            proxy_routes-IsSome (target_routes_through_proxy fuel table (target ∷ visiting))
              (find_proxy target table)
              (λ f m.
                target_routes_through_proxy-IsSome fuel table (target ∷ visiting) m
                  (omega (arith, h, remaining_visit target visiting table fresh f))) in
          ground (arith, found)
    ]

-- The search for a proxy behind any target ends, whatever the groups select and contain, cycles
-- included: a turn more than there are outbounds is enough to get an answer.
pub target_routes_through_proxy-Returns :
    (table : Table) (target : Text)
    → is_some (target_routes_through_proxy (suc (length table)) table [] target) ≡ true
target_routes_through_proxy-Returns table target =
    target_routes_through_proxy-IsSome (suc (length table)) table [] target
      (omega (arith, remaining_empty table))
