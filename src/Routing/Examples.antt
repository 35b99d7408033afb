-- ===== src/Routing/Examples.antt =====
-- A GLOBAL group of a group that holds itself, a node and DIRECT.
use paws.Base.{
  suc, ◌≡◌, refl, Text, text, true, Option, none, some, List, [], ◌∷◌, length, is_some, arith,
  ℕ_discrete,
}
use paws.Routing.{
  AdapterType, selector, other, Proxy, Table, find_proxy, contains, ascii_upper, is_builtin,
  all_route, group_routes, proxy_routes, target_routes_through_proxy, routes, is_concrete,
  is_valid_target, first_valid, direct_or_first, choose_target, is_current, resolve, settle,
  ensure_members, ensure_found, ensure_global_proxy_selected, ensures,
}
use paws.Routing.Ending.{target_routes_through_proxy-Returns}
use paws.Routing.Choosing.{Answers, ensure_global_proxy_selected-Answers}

abbrev outbound : AdapterType → Option (List Text) → Proxy
outbound adapter_type members = record {
  adapter_type = adapter_type;
  current = none;
  members = members;
  selectable = true;
}

abbrev names : List Text
names = text "loop" ∷ text "n" ∷ []

abbrev global : Proxy
global = outbound selector (some names)

abbrev table : Table
table =
    (text "GLOBAL", global)
    ∷ (text "loop", outbound selector (some (text "loop" ∷ [])))
    ∷ (text "n", outbound other none)
    ∷ []

abbrev force_set : Proxy → Text → Proxy
force_set p target = record p { current = some target }

chosen_node :
    ensure_global_proxy_selected force_set table none
    ≡ ensures (some (text "n")) (force_set global (text "n"))
unfolding ensure_global_proxy_selected ensure_found ensure_members settle resolve choose_target
    direct_or_first first_valid is_valid_target is_concrete is_current routes
    target_routes_through_proxy proxy_routes group_routes all_route is_builtin ascii_upper contains
    find_proxy ℕ_discrete
chosen_node = refl

target_routes_through_proxy-Returns_example :
    is_some (target_routes_through_proxy (suc (length table)) table [] (text "loop")) ≡ true
target_routes_through_proxy-Returns_example =
    target_routes_through_proxy-Returns table (text "loop")

forced : (target : Text) → is_current (force_set global target) target ≡ true
unfolding is_current
forced target = ground arith

ensure_global_proxy_selected-Answers_example :
    Answers table names none (ensure_global_proxy_selected force_set table none)
unfolding find_proxy ℕ_discrete
ensure_global_proxy_selected-Answers_example =
    ensure_global_proxy_selected-Answers force_set table none global names refl refl refl forced
