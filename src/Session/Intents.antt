-- ===== src/Session/Intents.antt =====
-- crates/paws_core/src/lib.rs: an intent that was overtaken starts nothing any more.
use paws.Base.{
  ℕ, ◌≤◌, ◌<◌, ◌≡◌, refl, Bool, true, false, Option, none, some, List, [], ◌∷◌, arith, ◌==◌, nat_eq,
  text_eq,
}
use paws.PlatformOwner.Record.{ProcessIdentity}
use paws.PlatformOwner.Disk.{Codec}
use paws.Session.{Session, apply_platform_failure, drop_leases}
use paws.Session.World.{Env, World, ◌>>=◌}
use paws.Session.Remote.{arm_recovery}
use paws.Session.Stops.{
  is_current_intent, begin_os_stop, complete_os_stop, fail_os_stop, claim_stop,
}
use paws.Session.Starts.{
  open_attempt, fail_start, cancel_start, identified, begin_checked, begin_as,
  begin_platform_vpn_start_for_intent,
}
use paws.Session.Binding.{reopen}
use paws.Session.Cleanup.{clean, recover_clean}
use paws.Session.Updates.{stop_attempt, stop_ended}
use paws.Session.Recovery.{grant_recovery, find_orphan, rearm, release_found}
use paws.Session.Calls.{SessionCall, perform, history}
use paws.Session.Keeps.{apply_state-Keeps}
use paws.Session.Moves.{any_start, Move, Moves, here, next}
use paws.Session.Moves
use paws.Session.Histories.{perform-Moves}
use paws.Session.Histories.{any-Allows}
use paws.Session.Fences.{IsRefused}

-- The intents only go on.
abbrev IsLater : Session → Session → Type 0
IsLater s t = s.intent_epoch ≤ t.intent_epoch

Move-IsLater : {s t : Session} → Move any_start true s t → IsLater s t
unfolding begin_os_stop complete_os_stop fail_os_stop claim_stop open_attempt fail_start drop_leases
    cancel_start reopen clean recover_clean apply_platform_failure stop_attempt stop_ended
    grant_recovery find_orphan rearm release_found arm_recovery
Move-IsLater {s} (Moves.frames now is_ui r) =
    omega (arith, (apply_state-Keeps now is_ui none r s).intent)
Move-IsLater {s} (Moves.binds now attempt r h) =
    omega (arith, (apply_state-Keeps now false (some attempt) r s).intent)
Move-IsLater _ = ground arith

Moves-IsLater : {s t : Session} → Moves any_start true s t → IsLater s t
Moves-IsLater here = omega arith
Moves-IsLater (next m n) = omega (arith, Moves-IsLater m, Move-IsLater n)

history-IsLater :
    (c : Codec) (calls : List (Env × SessionCall)) (w : World c)
    → IsLater w.session (history c calls w).session
unfolding history
history-IsLater c [] w = omega arith
history-IsLater c ((e, call) ∷ calls) w =
    let step = perform-Moves c e any_start true call w (any-Allows call w.session) in
    omega (arith, Moves-IsLater step, history-IsLater c calls (perform c e call w))

old-IsRefused :
    (c : Codec) (e : Env) (current free : Bool) (i : ProcessIdentity) (w : World c)
    → current ≡ false
    → IsRefused (begin_checked c e current free i w).0
      × ((begin_checked c e current free i w).1 ≡ w)
unfolding begin_checked
old-IsRefused c e false free i w h = (tt, refl)
old-IsRefused c e true free i w h = absurd (ground (arith, h))

-- An intent that the session had passed before a history of any calls is refused after it, on any
-- answers of the system, and the refusal leaves the world as it is: the intents only go on.
pub old_intent_starts_nothing :
    (c : Codec) (calls : List (Env × SessionCall)) (w : World c) (e : Env) (epoch : ℕ)
    → epoch < w.session.intent_epoch
    → IsRefused (begin_platform_vpn_start_for_intent c e epoch (history c calls w)).0
      × ((begin_platform_vpn_start_for_intent c e epoch (history c calls w)).1 ≡ history c calls w)
unfolding begin_platform_vpn_start_for_intent begin_as
old_intent_starts_nothing c calls w e epoch h = go e.identity
  where
    v : World c
    v = history c calls w

    passed : is_current_intent epoch v.session ≡ false
    passed = ground (arith, h, history-IsLater c calls w)

    go :
        (i : Option ProcessIdentity)
        → IsRefused ((identified c e i >>= begin_as c e epoch) v).0
          × (((identified c e i >>= begin_as c e epoch) v).1 ≡ v)
    go none = (tt, refl)
    go (some i) =
        old-IsRefused c e (is_current_intent epoch v.session) (v.session.os_stop_epoch == 0) i v
          passed
