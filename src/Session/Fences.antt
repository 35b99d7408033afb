-- ===== src/Session/Fences.antt =====
-- crates/paws_core/src/lib.rs: a stop of the system keeps every start out until it is confirmed.
use paws.Base.{
  ℕ, ◌≡◌, refl, ap, ◌∙◌, inl, Bool, true, false, Option, none, some, List, [], ◌∷◌, arith, ◌==◌,
  nat_eq, text_eq, All,
}
use paws.PlatformOwner.Record.{ProcessIdentity}
use paws.PlatformOwner.Disk.{Codec}
use paws.Session.{Session, apply_platform_failure, drop_leases}
use paws.Session.World.{Env, World, Reply, grants, refuses, ◌>>=◌}
use paws.Session.Remote.{arm_recovery}
use paws.Session.Stops.{
  is_current_intent, begin_os_stop, complete_os_stop, fail_os_stop, claim_stop,
}
use paws.Session.Starts.{
  fail_start, cancel_start, identified, begin_checked, begin_as,
  begin_platform_vpn_start_for_intent,
}
use paws.Session.Binding.{reopen}
use paws.Session.Cleanup.{clean, recover_clean}
use paws.Session.Updates.{stop_attempt, stop_ended}
use paws.Session.Recovery.{grant_recovery, find_orphan, rearm, release_found}
use paws.Session.Calls.{SessionCall, perform, history}
use paws.Session.Calls
use paws.Session.Keeps.{apply_state-Keeps}
use paws.Session.Moves.{any_start, Move, Moves, here, next}
use paws.Session.Moves
use paws.Session.Histories.{Allows, perform-Moves}

abbrev pub IsFenced : Session → Type 0
IsFenced s = (s.os_stop_epoch == 0) ≡ false

-- A move that may not confirm a stop keeps the fence.
Move-IsFenced : {s t : Session} → Move any_start false s t → IsFenced s → IsFenced t
unfolding begin_os_stop complete_os_stop fail_os_stop claim_stop fail_start drop_leases cancel_start
    reopen clean recover_clean apply_platform_failure stop_attempt stop_ended grant_recovery
    find_orphan rearm release_found arm_recovery
Move-IsFenced {s} (Moves.frames now is_ui r) f =
    ap (λ (n : ℕ). n == 0) (apply_state-Keeps now is_ui none r s).epoch ∙ f
Move-IsFenced {s} (Moves.binds now attempt r h) f =
    ap (λ (n : ℕ). n == 0) (apply_state-Keeps now false (some attempt) r s).epoch ∙ f
Move-IsFenced (Moves.completes_os_stop epoch attempt c) f = absurd (ground (arith, c))
Move-IsFenced (Moves.fences epoch attempt e) f = e
Move-IsFenced (Moves.opens sequence attempt fresh e o w r) f = absurd (ground (arith, e, f))
Move-IsFenced _ f = ground (arith, f)

Moves-IsFenced : {s t : Session} → Moves any_start false s t → IsFenced s → IsFenced t
Moves-IsFenced here f = f
Moves-IsFenced (next m v) f = Move-IsFenced v (Moves-IsFenced m f)

-- The call confirms no stop of the system.
abbrev pub ConfirmsNone : SessionCall → Type 0
ConfirmsNone (Calls.completes_os_stop epoch attempt) = ⊥
ConfirmsNone _ = Unit {0}

unconfirmed-Allows :
    (call : SessionCall) (s : Session) → ConfirmsNone call → Allows any_start false call s
unconfirmed-Allows (Calls.completes_os_stop epoch attempt) s h = absurd h
unconfirmed-Allows (Calls.begins_start epoch) s h = refl
unconfirmed-Allows (Calls.binds_start attempt) s h = inl refl
unconfirmed-Allows (Calls.commits_start none proxy) s h = refl
unconfirmed-Allows _ s h = tt

history-IsFenced :
    (c : Codec) (calls : List (Env × SessionCall)) (w : World c)
    → All (λ call. ConfirmsNone call.1) calls
    → IsFenced w.session
    → IsFenced (history c calls w).session
unfolding history
history-IsFenced c [] w all f = f
history-IsFenced c ((e, call) ∷ calls) w all f =
    history-IsFenced c calls (perform c e call w) all.1 (
      Moves-IsFenced
        (perform-Moves c e any_start false call w (unconfirmed-Allows call w.session all.0)) f)

abbrev pub IsRefused : {A : Type 0} → Reply A → Type 0
IsRefused (grants a) = ⊥
IsRefused (refuses r) = Unit {0}

begin_checked-IsRefused :
    (c : Codec) (e : Env) (current free : Bool) (i : ProcessIdentity) (w : World c)
    → free ≡ false
    → IsRefused (begin_checked c e current free i w).0
      × ((begin_checked c e current free i w).1 ≡ w)
unfolding begin_checked
begin_checked-IsRefused c e false free i w h = (tt, refl)
begin_checked-IsRefused c e true true i w h = ground (arith, h)
begin_checked-IsRefused c e true false i w h = (tt, refl)

begin-IsRefused :
    (c : Codec) (e : Env) (epoch : ℕ) (w : World c)
    → IsFenced w.session
    → IsRefused (begin_platform_vpn_start_for_intent c e epoch w).0
      × ((begin_platform_vpn_start_for_intent c e epoch w).1 ≡ w)
unfolding begin_platform_vpn_start_for_intent begin_as
begin-IsRefused c e epoch w f = go e.identity
  where
    go :
        (i : Option ProcessIdentity)
        → IsRefused ((identified c e i >>= begin_as c e epoch) w).0
          × (((identified c e i >>= begin_as c e epoch) w).1 ≡ w)
    go none = (tt, refl)
    go (some i) =
        begin_checked-IsRefused c e (is_current_intent epoch w.session)
          (w.session.os_stop_epoch == 0) i w f

-- While the fence of a stop is up, through any calls that confirm none, on any answers of the
-- system, the journal and the other process, every attempt to begin a start is refused and leaves
-- the world as it is.
pub fence_blocks_start :
    (c : Codec) (calls : List (Env × SessionCall)) (w : World c) (e : Env) (epoch : ℕ)
    → (w.session.os_stop_epoch == 0) ≡ false
    → All (λ call. ConfirmsNone call.1) calls
    → IsRefused (begin_platform_vpn_start_for_intent c e epoch (history c calls w)).0
      × ((begin_platform_vpn_start_for_intent c e epoch (history c calls w)).1 ≡ history c calls w)
fence_blocks_start c calls w e epoch f all =
    begin-IsRefused c e epoch (history c calls w) (history-IsFenced c calls w all f)
