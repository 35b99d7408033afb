-- ===== src/ServiceWatch/Cooldown.antt =====
-- How often the loop switches.
use paws.Base.{
  ℕ, ◌+◌, ◌≤◌, ◌≡◌, sym, subst, refl, Text, Bool, true, false, Option, none, some, List, [], ◌∷◌,
  if◌then◌else◌, arith,
}
use paws.Proxies.{ProxyGroup}
use paws.ServiceWatch.Selection.{ServiceWatchPolicy, Snapshot, Switch, find_selector}
use paws.ServiceWatch.{
  WatchState, Tick, signature, cooling, watch, read_tick, tick, run, add_switch,
}
use paws.ServiceWatch.Switching.{IsQuiet, IsRecovery, IsWatched, watch-IsWatched, observe_same}

-- The policy and the session of a turn, where it reads both, have the signature.
abbrev pub HasSignature :
    (Option Text → Text) → Text → Option ServiceWatchPolicy → Option Snapshot → Type 0
HasSignature debug sig (some policy) (some snapshot) = signature debug policy snapshot ≡ sig
HasSignature debug sig _ _ = Unit {0}

-- The clock does not run back during a turn.
abbrev pub IsTimely : Tick → Type 0
IsTimely t = (c : ℕ) → t.now ≤ (t.candidates c).switched_at

abbrev pub AreSteady : (Option Text → Text) → Text → List Tick → Type 0
AreSteady debug sig [] = Unit {0}
AreSteady debug sig (t ∷ ts) =
    HasSignature debug sig t.policy t.snapshot × IsTimely t × AreSteady debug sig ts

-- Each switch is at least 300 seconds after the one before it.
abbrev pub SpacedFrom : Option ℕ → List Switch → Type 0
SpacedFrom last [] = Unit {0}
SpacedFrom none (s ∷ switches) = SpacedFrom (some s.at) switches
SpacedFrom (some time) (s ∷ switches) = (time + 300 ≤ s.at) × SpacedFrom (some s.at) switches

-- One turn: nothing happens, or a switch after the cooldown.
abbrev Turns : WatchState → WatchState × Option Switch → Type 0
Turns s (s', none) = IsQuiet s s'
Turns s (s', some switch) =
    (s'.failures ≤ 1)
    × (s'.last_switch ≡ some switch.at)
    × (s'.last_policy ≡ s.last_policy)
    × SpacedFrom s.last_switch (switch ∷ [])

cooled :
    (last : Option ℕ) (now at : ℕ)
    → cooling last now ≡ false
    → now ≤ at
    → (s : Switch) → s.at ≡ at
    → SpacedFrom last (s ∷ [])
unfolding cooling
cooled none now at cool h s e = tt
cooled (some time) now at cool h s e = ground arith

watched-Turns :
    (s : WatchState) (t : Tick) (policy : ServiceWatchPolicy) (snapshot : Snapshot)
    → (r : WatchState × Option Switch) → IsTimely t
    → IsWatched s t policy snapshot r
    → Turns s r
watched-Turns s t policy snapshot (s', none) timely w = w
watched-Turns s t policy snapshot (s', some switch) timely w =
    go (find_selector policy.group snapshot.proxy_groups) w.3
  where
    go :
        (g : Option ProxyGroup)
        → IsRecovery s t policy snapshot g (s', some switch)
        → Turns s (s', some switch)
    go none r = absurd r
    go (some g) r = (
      omega (arith, r.2),
      r.3,
      r.4,
      cooled s.last_switch t.now (t.candidates switch.position).switched_at w.2
          (timely switch.position) switch r.5.3,
    )

tick-Turns :
    (debug : Option Text → Text) (s : WatchState) (t : Tick)
    → s.failures ≤ 1
    → HasSignature debug s.last_policy t.policy t.snapshot
    → IsTimely t
    → Turns s (tick debug s t)
unfolding tick
tick-Turns debug s t few same timely = go t.owner t.policy t.snapshot same
  where
    go :
        (owner : Bool) (p : Option ServiceWatchPolicy) (sn : Option Snapshot)
        → HasSignature debug s.last_policy p sn
        → Turns s (if owner then read_tick debug s t p sn else (s, none))
    go false p sn h = (few, refl, refl)
    go true none sn h = (few, refl, refl)
    go true (some p) none h = (few, refl, refl)
    go true (some p) (some sn) h =
        subst (λ o. Turns s (watch o t p sn)) (sym (observe_same s (signature debug p sn) h))
          (watched-Turns s t p sn (watch s t p sn) timely (watch-IsWatched s t p sn few))

spaced_cons :
    (last : Option ℕ) (s : Switch) (switches : List Switch)
    → SpacedFrom last (s ∷ [])
    → SpacedFrom (some s.at) switches
    → SpacedFrom last (s ∷ switches)
spaced_cons none s switches h rest = rest
spaced_cons (some time) s switches h rest = (h.0, rest)

-- While policy and session stay the same and the clock does not run back during a turn, each switch
-- of the loop is at least 300 seconds after the one before it.
pub run_spaced :
    (debug : Option Text → Text) (s : WatchState) (ts : List Tick)
    → s.failures ≤ 1
    → AreSteady debug s.last_policy ts
    → SpacedFrom s.last_switch (run debug s ts).1
unfolding run
run_spaced debug s [] few steady = tt
run_spaced debug s (t ∷ ts) few steady =
    go (tick debug s t) (tick-Turns debug s t few steady.0 steady.1)
      (λ s' few' steady'. run_spaced debug s' ts few' steady')
  where
    go :
        (r : WatchState × Option Switch)
        → Turns s r
        → ((s' : WatchState)
            → s'.failures ≤ 1
            → AreSteady debug s'.last_policy ts
            → SpacedFrom s'.last_switch (run debug s' ts).1)
        → SpacedFrom s.last_switch (add_switch r.1 (run debug r.0 ts).1)
    go (s', none) (few', same, pol) ih =
        subst (λ l. SpacedFrom l (run debug s' ts).1) same
          (ih s' few' (subst (λ p. AreSteady debug p ts) (sym pol) steady.2))
    go (s', some switch) (few', now_at, pol, spaced) ih =
        spaced_cons s.last_switch switch (run debug s' ts).1 spaced (
          subst (λ l. SpacedFrom l (run debug s' ts).1) now_at
            (ih s' few' (subst (λ p. AreSteady debug p ts) (sym pol) steady.2)))
