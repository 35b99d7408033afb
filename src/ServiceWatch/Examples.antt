-- ===== src/ServiceWatch/Examples.antt =====
-- A group whose node stops answering: the loop switches at the second failure.
use paws.Base.{
  ℕ, ◌+◌, ◌≡◌, refl, Text, text, true, false, Option, none, some, List, [], ◌∷◌, arith, ℕ_discrete,
  to_ascii_lowercase, eq_ignore_ascii_case,
}
use paws.Proxies.{ProxyGroup}
use paws.ServiceWatch.Selection.{
  ServiceWatchPolicy, Snapshot, Switch, find_selector, candidate_names, is_candidate, contains,
  try_candidates, select_candidate, select_at_revision,
}
use paws.ServiceWatch.{
  WatchState, Tick, signature, observe_policy, cooling, recover, watch, tick, run,
}
use paws.ServiceWatch.Switching.{IsJustified, tick-IsJustified}
use paws.ServiceWatch.Cooldown.{SpacedFrom, run_spaced}

abbrev policy : ServiceWatchPolicy
policy = record { enabled = true; group = text "g"; url = text "https://s" }

abbrev group : ProxyGroup
group = record {
  name = text "g";
  group_type = text "Selector";
  selected = some (text "a");
  fixed = none;
  proxies =
      record { name = text "a"; proxy_type = text "Vless"; delay_ms = none; selected = true }
      ∷ record { name = text "b"; proxy_type = text "Vless"; delay_ms = none; selected = false }
      ∷ [];
}

abbrev snapshot : Snapshot
snapshot = record {
  vpn_session_id = some (text "1");
  vpn_running = true;
  config_revision = 4;
  proxy_groups = group ∷ [];
}

abbrev failing : ℕ → Tick
failing now = record {
  now = now;
  owner = true;
  policy = some policy;
  snapshot = some snapshot;
  answers = false;
  candidates = λ c. record {
    before = some snapshot;
    policy_before = some policy;
    answers = true;
    policy_after = some policy;
    after = some snapshot;
    checked_revision = 4;
    locked_revision = 4;
    selects = true;
    switched_at = now + 1;
  };
}

abbrev show : Option Text → Text
show none = text "None"
show (some s) = s

abbrev watching : WatchState
watching = record { failures = 0; last_policy = text "g:https://s:1"; last_switch = none }

abbrev ticks : List Tick
ticks = failing 60 ∷ failing 120 ∷ failing 180 ∷ failing 500 ∷ failing 560 ∷ []

abbrev to_b : ℕ → Switch
to_b at = record { group = text "g"; candidate = text "b"; position = 0; revision = 4; at = at }

-- At the second failure, and again two failures after the cooldown.
switches : (run show watching ticks).1 ≡ to_b 121 ∷ to_b 561 ∷ []
unfolding run tick watch observe_policy signature cooling recover find_selector candidate_names
    is_candidate contains select_candidate select_at_revision try_candidates eq_ignore_ascii_case
    to_ascii_lowercase ℕ_discrete
switches = refl

abbrev failed_once : WatchState
failed_once = record watching { failures = 1 }

tick-IsJustified_example :
    IsJustified show failed_once
      (failing 120)
      (some policy)
      (some snapshot)
      (tick show failed_once (failing 120))
tick-IsJustified_example = tick-IsJustified show failed_once (failing 120) (omega arith)

run_spaced_example : SpacedFrom none (run show watching ticks).1
unfolding signature
run_spaced_example = run_spaced show watching ticks (omega arith) (
  refl,
  (λ c. omega arith),
  (
    refl,
    (λ c. omega arith),
    (refl, (λ c. omega arith), (refl, (λ c. omega arith), (refl, (λ c. omega arith), tt))),
  ),
)
