-- ===== src/Routing.antt =====
-- crates/paws_core/src/routing.rs, `target_routes_through_proxy` and `ensure_global_proxy_selected`:
-- whether a target leads through a proxy, and what GLOBAL is set to. The table is the tunnel's; what
-- a selection does to an outbound is an argument.
pub mod Ending
pub mod Choosing
mod Examples
use paws.Base.{
  ℕ, zero, suc, ◌-◌, Text, text, Bool, true, false, not, ◌&&◌, ◌||◌, Option, none, some, List, [],
  ◌∷◌, ◌==◌, text_eq, leb, map, length, if◌then◌else◌,
}

pub data AdapterType : Type 0 where
  direct reject reject_drop selector fallback url_test load_balance relay other : AdapterType

pub record Proxy : Type 0 where
  pub adapter_type : AdapterType
  pub current : Option Text
  pub members : Option (List Text)
  pub selectable : Bool

abbrev pub Table : Type 0
Table = List (Text × Proxy)

-- `tunnel.proxy(name)`
unfoldable pub find_proxy : Text → Table → Option Proxy
find_proxy name [] = none
find_proxy name ((key, p) ∷ table) =
    let rest = find_proxy name table in if key == name then some p else rest

unfoldable pub contains : Text → List Text → Bool
contains name [] = false
contains name (n ∷ ns) = name == n || contains name ns

unfoldable pub ascii_upper : ℕ → ℕ
ascii_upper c = if leb 97 c && leb c 122 then c - 32 else c

-- `matches!(target.to_ascii_uppercase(), "DIRECT" | "REJECT" | "REJECT-DROP")`
unfoldable pub is_builtin : Text → Bool
unfolding ascii_upper
is_builtin target =
    let upper = map ascii_upper target in
    upper == text "DIRECT" || upper == text "REJECT" || upper == text "REJECT-DROP"

pub data Kind : Type 0 where
  blocks groups proxies : Kind

abbrev pub kind_of : AdapterType → Kind
kind_of direct = blocks
kind_of reject = blocks
kind_of reject_drop = blocks
kind_of selector = groups
kind_of fallback = groups
kind_of url_test = groups
kind_of load_balance = groups
kind_of relay = groups
kind_of other = proxies

-- `members.iter().all`, which stops at the first that is not.
unfoldable pub all_route : (Text → Option Bool) → List Text → Option Bool
all_route route [] = some true
all_route route (m ∷ ms) = both (route m) (all_route route ms)
  where
    both : Option Bool → Option Bool → Option Bool
    both none rest = none
    both (some false) rest = some false
    both (some true) rest = rest

unfoldable pub group_routes : (Text → Option Bool) → Option Text → Option (List Text) → Option Bool
unfolding all_route
group_routes route (some current) members = route current
group_routes route none none = some false
group_routes route none (some []) = some false
group_routes route none (some (m ∷ ms)) = all_route route (m ∷ ms)

abbrev pub route_kind : Kind → Option Bool → Option Bool
route_kind blocks group = some false
route_kind groups group = group
route_kind proxies group = some true

unfoldable pub proxy_routes : (Text → Option Bool) → Option Proxy → Option Bool
unfolding group_routes
proxy_routes route none = some true
proxy_routes route (some p) =
    route_kind (kind_of p.adapter_type) (group_routes route p.current p.members)

-- The target leaves the visited ones at the end, so that the caller's are unchanged. Out of fuel is
-- `none`.
unfoldable pub target_routes_through_proxy : ℕ → Table → List Text → Text → Option Bool
unfolding proxy_routes is_builtin contains find_proxy
target_routes_through_proxy zero table visiting target = none
target_routes_through_proxy (suc fuel) table visiting target =
    let found =
      proxy_routes (target_routes_through_proxy fuel table (target ∷ visiting))
        (find_proxy target table) in
    if is_builtin target || contains target visiting then some false else found

-- A turn for each outbound, and one that finds none.
unfoldable pub routes : Table → Text → Bool
unfolding target_routes_through_proxy
routes table target = elim (target_routes_through_proxy (suc (length table)) table [] target) [
  | some b ↦ b
  | none ↦ false
]

pub data RouteError : Type 0 where
  no_global no_node no_direct not_selectable : RouteError
  bad_target : Text → RouteError

pub data Choice : Type 0 where
  refused : RouteError → Choice
  chosen : Text → Choice

-- The answer, with GLOBAL as it is left.
pub data Ensured : Type 0 where
  fails : RouteError → Ensured
  unresolved : Proxy → Ensured
  ensures : Option Text → Proxy → Ensured

unfoldable pub is_concrete : Option Proxy → Bool
is_concrete none = true
is_concrete (some p) = elim (kind_of p.adapter_type) [ proxies ↦ true | _ ↦ false ]

unfoldable pub is_valid_target : Table → List Text → Text → Bool
unfolding contains is_concrete find_proxy
is_valid_target table members target =
    contains target members && is_concrete (find_proxy target table) && routes table target

unfoldable pub first_valid : (Text → Bool) → List Text → Choice
first_valid valid [] = refused no_node
first_valid valid (m ∷ ms) = let rest = first_valid valid ms in if valid m then chosen m else rest

unfoldable pub direct_or_first : Table → List Text → Choice
unfolding contains first_valid is_valid_target
direct_or_first table members =
    if contains (text "DIRECT") members
    then chosen (text "DIRECT")
    else first_valid (is_valid_target table members) members

unfoldable pub choose_target : Table → List Text → Option Text → Option Text → Choice
unfolding contains is_valid_target direct_or_first
choose_target table members current (some required) =
    if required == text "DIRECT"
    then (if contains (text "DIRECT") members then chosen required else refused no_direct)
    else if is_valid_target table members required
    then chosen required
    else refused (bad_target required)
choose_target table members (some current) none =
    if is_valid_target table members current then chosen current else direct_or_first table members
choose_target table members none none = direct_or_first table members

unfoldable pub is_current : Proxy → Text → Bool
is_current p target = elim p.current [ some current ↦ current == target | none ↦ false ]

unfoldable pub resolve : Proxy → Text → Ensured
unfolding is_current
resolve global target =
    if is_current global target then ensures (some target) global else unresolved global

unfoldable pub settle : (Proxy → Text → Proxy) → Proxy → Choice → Ensured
unfolding resolve is_current
settle force_set global (refused error) = fails error
settle force_set global (chosen target) =
    if is_current global target
    then resolve global target
    else if global.selectable
    then resolve (force_set global target) target
    else fails not_selectable

unfoldable pub ensure_members :
    (Proxy → Text → Proxy) → Table → Option Text → Proxy → Option (List Text) → Ensured
unfolding settle choose_target routes
ensure_members force_set table required global none =
    if routes table (text "GLOBAL") then ensures none global else fails no_node
ensure_members force_set table required global (some members) =
    settle force_set global (choose_target table members global.current required)

unfoldable pub ensure_found : (Proxy → Text → Proxy) → Table → Option Text → Option Proxy → Ensured
unfolding ensure_members
ensure_found force_set table required none = fails no_global
ensure_found force_set table required (some global) =
    ensure_members force_set table required global global.members

unfoldable pub ensure_global_proxy_selected : (Proxy → Text → Proxy) → Table → Option Text → Ensured
unfolding ensure_found find_proxy
ensure_global_proxy_selected force_set table required =
    ensure_found force_set table required (find_proxy (text "GLOBAL") table)
