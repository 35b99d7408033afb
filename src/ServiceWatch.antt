-- ===== src/ServiceWatch.antt =====
-- crates/paws_core/src/service_watch.rs: the loop that moves a selector group to another node when
-- its service stops answering. One turn of the loop is a function of what it reads on its way.
pub mod Selection
pub mod Switching
pub mod Cooldown
mod Examples
use paws.Base.{
  ℕ, zero, suc, ◌+◌, ◌-◌, ◌<◌, ◌≡◌, Text, text, Bool, true, false, not, ◌&&◌, ◌||◌, Option, none,
  some, List, [], ◌∷◌, ◌++◌, Eq, ◌==◌, nat_eq, text_eq, List-discrete, ltb, leb, if◌then◌else◌,
  is_some, min, take, to_ascii_lowercase, eq_ignore_ascii_case,
}
use paws.Proxies.{ProxyGroup}
use Selection.{
  ServiceWatchPolicy, Snapshot, Checks, Switch, find_selector, candidate_names, try_candidates,
}

-- What one turn reads: the time in seconds, whether this process owns the VPN, the policy, a
-- snapshot, the probe of the group, and the checks of each candidate by its position.
pub record Tick : Type 0 where
  pub now : ℕ
  pub owner : Bool
  pub policy : Option ServiceWatchPolicy
  pub snapshot : Option Snapshot
  pub answers : Bool
  pub candidates : ℕ → Checks

-- The variables of the loop.
pub record WatchState : Type 0 where
  pub failures : ℕ
  pub last_policy : Text
  pub last_switch : Option ℕ

abbrev pub initial : WatchState
initial = record { failures = 0; last_policy = []; last_switch = none }

-- `format!("{}:{}:{:?}", ..)`; `debug` is the formatting of a session.
unfoldable pub signature : (Option Text → Text) → ServiceWatchPolicy → Snapshot → Text
signature debug policy snapshot =
    policy.group ++ text ":" ++ policy.url ++ text ":" ++ debug snapshot.vpn_session_id

unfoldable pub observe_policy : WatchState → Text → WatchState
observe_policy s signature_ =
    if signature_ == s.last_policy
    then s
    else record { failures = 0; last_policy = signature_; last_switch = none }

-- `time.elapsed() < Duration::from_secs(300)`
unfoldable pub cooling : Option ℕ → ℕ → Bool
cooling none now = false
cooling (some time) now = ltb (now - time) 300

abbrev pub after_switch : WatchState → Option Switch → WatchState × Option Switch
after_switch s none = (s, none)
after_switch s (some switch) = (record s { last_switch = some switch.at }, some switch)

-- From the result of the probe of the group.
unfoldable pub recover :
    WatchState → Tick → ServiceWatchPolicy → Snapshot → ProxyGroup → WatchState × Option Switch
unfolding try_candidates candidate_names
recover s t policy snapshot g =
    if t.answers
    then (record s { failures = 0 }, none)
    else if ltb (min (s.failures + 1) 255) 2
    then (record s { failures = min (s.failures + 1) 255 }, none)
    else after_switch (record s { failures = 0 })
        (try_candidates policy snapshot t.candidates 0 (take 3 (candidate_names g g.proxies)))

abbrev pub recover_found :
    WatchState
    → Tick
    → ServiceWatchPolicy
    → Snapshot
    → Option ProxyGroup
    → WatchState × Option Switch
unfolding recover
recover_found s t policy snapshot none = (s, none)
recover_found s t policy snapshot (some g) = recover s t policy snapshot g

-- From the state after the policy was observed.
unfoldable pub watch :
    WatchState → Tick → ServiceWatchPolicy → Snapshot → WatchState × Option Switch
unfolding recover_found cooling find_selector
watch s t policy snapshot =
    if not policy.enabled || not snapshot.vpn_running
    then (record s { failures = 0 }, none)
    else if cooling s.last_switch t.now
    then (s, none)
    else recover_found s t policy snapshot (find_selector policy.group snapshot.proxy_groups)

abbrev pub read_tick :
    (Option Text → Text)
    → WatchState
    → Tick
    → Option ServiceWatchPolicy
    → Option Snapshot
    → WatchState × Option Switch
unfolding watch observe_policy signature
read_tick debug s t (some policy) (some snapshot) =
    watch (observe_policy s (signature debug policy snapshot)) t policy snapshot
read_tick debug s t _ _ = (s, none)

-- One turn of `service_watch_loop`, and the switch that it made.
pub tick : (Option Text → Text) → WatchState → Tick → WatchState × Option Switch
unfolding read_tick
tick debug s t = if t.owner then read_tick debug s t t.policy t.snapshot else (s, none)

abbrev pub add_switch : Option Switch → List Switch → List Switch
add_switch none switches = switches
add_switch (some switch) switches = switch ∷ switches

pub run : (Option Text → Text) → WatchState → List Tick → WatchState × List Switch
run debug s [] = (s, [])
run debug s (t ∷ ts) =
    let (s', switch) = tick debug s t in
    let (s'', switches) = run debug s' ts in (s'', add_switch switch switches)
