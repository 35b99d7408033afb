-- ===== src/ServiceWatch/Switching.antt =====
-- What must have happened for the loop to switch.
use paws.Base.{
  ℕ, ◌+◌, ◌==◌, nat_eq, ◌&&◌, ◌||◌, ◌≤◌, ◌≡◌, ◌≢◌, sym, subst, refl, Text, Bool, true, false,
  Option, none, some, List, [], ◌∷◌, text_eq, if◌then◌else◌, take, arith,
}
use paws.Proxies.{ProxyGroup}
use paws.ServiceWatch.Selection.{
  ServiceWatchPolicy, Snapshot, Checks, Switch, name_eq, find_selector, candidate_names,
  try_candidates, select_candidate, select_at_revision, same_policy, same_run, same_vpn,
}
use paws.ServiceWatch.{
  WatchState, Tick, signature, observe_policy, cooling, recover, recover_found, watch, read_tick,
  tick,
}

-- The candidates have the name at the position, counted from `first`.
unfoldable pub is_at : ℕ → Text → ℕ → List Text → Bool
is_at position name first [] = false
is_at position name first (c ∷ cs) =
    (first == position && c == name) || is_at position name (first + 1) cs

-- The switch is to one of the candidates: policy, session and revision were those for which it was
-- tried before its probe, it answered, policy and session were the same after it, and the selection
-- went through at that revision.
abbrev pub IsTried :
    ServiceWatchPolicy → Snapshot → (ℕ → Checks) → ℕ → List Text → Option Switch → Type 0
IsTried policy snapshot checks first candidates none = Unit {0}
IsTried policy snapshot checks first candidates (some switch) =
    let c = checks switch.position in
    (is_at switch.position switch.candidate first candidates ≡ true)
    × (switch.group ≡ policy.group)
    × (switch.revision ≡ snapshot.config_revision)
    × (switch.at ≡ c.switched_at)
    × (same_run snapshot c.before ≡ true)
    × (same_policy policy c.policy_before ≡ true)
    × (c.answers ≡ true)
    × (same_policy policy c.policy_after ≡ true)
    × (same_vpn snapshot c.after ≡ true)
    × (c.checked_revision ≡ snapshot.config_revision)
    × (c.locked_revision ≡ snapshot.config_revision)
    × (c.selects ≡ true)

try_candidates-IsTried :
    (policy : ServiceWatchPolicy) (snapshot : Snapshot) (checks : ℕ → Checks) (first : ℕ)
    (cs : List Text)
    → IsTried policy snapshot checks first cs (try_candidates policy snapshot checks first cs)
unfolding try_candidates select_candidate select_at_revision is_at
try_candidates-IsTried policy snapshot checks first [] = tt
try_candidates-IsTried policy snapshot checks first (c ∷ cs) =
    ground (arith, try_candidates-IsTried policy snapshot checks (first + 1) cs)

-- Without a switch the last one is kept.
abbrev pub IsQuiet : WatchState → WatchState → Type 0
IsQuiet s s' =
    (s'.failures ≤ 1) × (s'.last_switch ≡ s.last_switch) × (s'.last_policy ≡ s.last_policy)

-- The failures, the cooldown and the group of the switch that a turn makes.
abbrev pub IsRecovery :
    WatchState
    → Tick
    → ServiceWatchPolicy
    → Snapshot
    → Option ProxyGroup
    → WatchState × Option Switch
    → Type 0
IsRecovery s t policy snapshot g (s', none) = IsQuiet s s'
IsRecovery s t policy snapshot none (s', some switch) = ⊥
IsRecovery s t policy snapshot (some g) (s', some switch) =
    (t.answers ≡ false)
    × (1 ≤ s.failures)
    × (s'.failures ≡ 0)
    × (s'.last_switch ≡ some switch.at)
    × (s'.last_policy ≡ s.last_policy)
    × IsTried policy snapshot t.candidates 0 (take 3 (candidate_names g g.proxies)) (some switch)

recover-IsRecovery :
    (s : WatchState) (t : Tick) (policy : ServiceWatchPolicy) (snapshot : Snapshot) (g : ProxyGroup)
    → s.failures ≤ 1
    → IsRecovery s t policy snapshot (some g) (recover s t policy snapshot g)
unfolding recover
recover-IsRecovery s t policy snapshot g few = ground (
  arith,
  try_candidates-IsTried policy snapshot t.candidates 0 (take 3 (candidate_names g g.proxies)),
)

recover_found-IsRecovery :
    (s : WatchState) (t : Tick) (policy : ServiceWatchPolicy) (snapshot : Snapshot)
    → (g : Option ProxyGroup) → s.failures ≤ 1
    → IsRecovery s t policy snapshot g (recover_found s t policy snapshot g)
unfolding recover_found
recover_found-IsRecovery s t policy snapshot none few = (few, refl, refl)
recover_found-IsRecovery s t policy snapshot (some g) few =
    recover-IsRecovery s t policy snapshot g few

-- Why a turn switched, from the policy and the snapshot that it read: the VPN runs under a policy
-- that is enabled and not changed since the last turn, the cooldown is over, the group's own probe
-- failed for the second time, and a candidate was tried. Else at most one failure is counted.
abbrev pub IsWatched :
    WatchState → Tick → ServiceWatchPolicy → Snapshot → WatchState × Option Switch → Type 0
IsWatched s t policy snapshot (s', none) = IsQuiet s s'
IsWatched s t policy snapshot (s', some switch) =
    (policy.enabled ≡ true)
    × (snapshot.vpn_running ≡ true)
    × (cooling s.last_switch t.now ≡ false)
    × IsRecovery s t policy snapshot (find_selector policy.group snapshot.proxy_groups)
        (s', some switch)

pub watch-IsWatched :
    (s : WatchState) (t : Tick) (policy : ServiceWatchPolicy) (snapshot : Snapshot)
    → s.failures ≤ 1
    → IsWatched s t policy snapshot (watch s t policy snapshot)
unfolding watch
watch-IsWatched s t policy snapshot few = ground (
  arith,
  recover_found-IsRecovery s t policy snapshot (find_selector policy.group snapshot.proxy_groups)
      few,
)

-- What a turn did, and why it switched.
abbrev pub IsJustified :
    (Option Text → Text)
    → WatchState
    → Tick
    → Option ServiceWatchPolicy
    → Option Snapshot
    → WatchState × Option Switch
    → Type 0
IsJustified debug s t policy snapshot (s', none) = s'.failures ≤ 1
IsJustified debug s t (some policy) (some snapshot) (s', some switch) =
    (t.owner ≡ true)
    × (s.last_policy ≡ signature debug policy snapshot)
    × IsWatched s t policy snapshot (s', some switch)
IsJustified debug s t _ _ (s', some switch) = ⊥

recovery_needs_failure :
    (s : WatchState) (t : Tick) (policy : ServiceWatchPolicy) (snapshot : Snapshot)
    → (g : Option ProxyGroup) (s' : WatchState) (switch : Switch)
    → IsRecovery s t policy snapshot g (s', some switch)
    → 1 ≤ s.failures
recovery_needs_failure s t policy snapshot none s' switch r = absurd r
recovery_needs_failure s t policy snapshot (some g) s' switch r = r.1

pub observe_same : (s : WatchState) (sig : Text) → sig ≡ s.last_policy → observe_policy s sig ≡ s
unfolding observe_policy
observe_same s sig same = ground arith

observe_other :
    (s : WatchState) (sig : Text) → sig ≢ s.last_policy → (observe_policy s sig).failures ≡ 0
unfolding observe_policy
observe_other s sig other = ground arith

-- A new policy or session clears the failures, so a switch needs the old ones.
watch_old :
    (debug : Option Text → Text) (s : WatchState) (t : Tick) (policy : ServiceWatchPolicy)
    → (snapshot : Snapshot) → (r : WatchState × Option Switch) → t.owner ≡ true
    → IsWatched (observe_policy s (signature debug policy snapshot)) t policy snapshot r
    → IsJustified debug s t (some policy) (some snapshot) r
watch_old debug s t policy snapshot (s', none) owner w = w.0
watch_old debug s t policy snapshot (s', some switch) owner w =
    let sig = signature debug policy snapshot in
    elim (text_eq.same sig s.last_policy) [
      | yes same ↦ (
        owner,
        sym same,
        subst (λ o. IsWatched o t policy snapshot (s', some switch)) (observe_same s sig same) w,
      )
      | no other ↦ absurd (
          omega (
            arith,
            observe_other s sig other,
            recovery_needs_failure (observe_policy s sig) t policy snapshot
                (find_selector policy.group snapshot.proxy_groups) s' switch w.3,
          ))
    ]

few_observed : (s : WatchState) (sig : Text) → s.failures ≤ 1 → (observe_policy s sig).failures ≤ 1
unfolding observe_policy
few_observed s sig few = ground (arith, few)

-- A turn of the loop switches only in the process that owns the VPN, with the VPN running under an
-- enabled policy that has not changed since the last turn, after the cooldown, when the probe of
-- the group fails for at least the second time in a row; and only to one of the first three nodes of
-- the selector group that are not selected. Before its probe, the policy, the session and the revision
-- of the core were those of the turn; it answered; after it, policy and session were the same and
-- the VPN ran; and the selection, refused once the revision is another, was made at the revision of
-- the turn. The switch resets the count of failures, which never exceeds one between turns.
pub tick-IsJustified :
    (debug : Option Text → Text) (s : WatchState) (t : Tick)
    → s.failures ≤ 1
    → IsJustified debug s t t.policy t.snapshot (tick debug s t)
unfolding tick
tick-IsJustified debug s t few = go t.owner refl t.policy t.snapshot
  where
    go :
        (owner : Bool)
        → t.owner ≡ owner
        → (p : Option ServiceWatchPolicy) (sn : Option Snapshot)
        → IsJustified debug s t p sn (if owner then read_tick debug s t p sn else (s, none))
    go false h p sn = few
    go true h none sn = few
    go true h (some p) none = few
    go true h (some p) (some sn) =
        watch_old debug s t p sn (watch (observe_policy s (signature debug p sn)) t p sn) h (
          watch-IsWatched (observe_policy s (signature debug p sn)) t p sn
            (few_observed s (signature debug p sn) few))
