-- ===== src/Session/Invariants.antt =====
-- crates/paws_core/src/lib.rs: every move of a session keeps its invariant, and so does a history.
use paws.Base.{refl, inl, true, false, none, some, List, [], ◌∷◌, All, arith, nat_eq, text_eq}
use paws.PlatformOwner.Disk.{Codec}
use paws.Session.{Session, apply_platform_failure, drop_leases, initial}
use paws.Session.World.{Env, World}
use paws.Session.Remote.{arm_recovery}
use paws.Session.Stops.{begin_os_stop, complete_os_stop, fail_os_stop, claim_stop}
use paws.Session.Starts.{open_attempt, start_is_pending, fail_start, cancel_start}
use paws.Session.Binding.{reopen}
use paws.Session.Cleanup.{clean, recover_clean}
use paws.Session.Updates.{stop_attempt, stop_ended}
use paws.Session.Recovery.{grant_recovery, find_orphan, rearm, release_found}
use paws.Session.Calls.{SessionCall, perform, history}
use paws.Session.Calls
use paws.Session.Moves.{new_attempt, Move, Moves, here, next}
use paws.Session.Moves
use paws.Session.Histories.{Allows, perform-Moves}
use paws.Session.Validity.{IsSession, apply_state-IsSession}

Move-IsSession : {s t : Session} → Move new_attempt true s t → IsSession s → IsSession t
unfolding begin_os_stop complete_os_stop fail_os_stop claim_stop open_attempt start_is_pending
    fail_start drop_leases cancel_start reopen clean recover_clean apply_platform_failure
    stop_attempt stop_ended grant_recovery find_orphan rearm release_found arm_recovery
Move-IsSession {s} (Moves.frames now is_ui r) v = apply_state-IsSession now is_ui none r s v
Move-IsSession {s} (Moves.binds now attempt r h) v =
    apply_state-IsSession now false (some attempt) r s v
Move-IsSession (Moves.opens sequence attempt fresh e o w r) v = ground arith
Move-IsSession (Moves.cancels attempt p) v = ground arith
Move-IsSession (Moves.leases taken o) v = ground arith
Move-IsSession (Moves.cleans m) v = ground arith
Move-IsSession (Moves.sets_starting true o p) v = ground arith
Move-IsSession (Moves.sets_starting false o p) v = ground arith
Move-IsSession (Moves.connects engine o) v = ground arith
Move-IsSession (Moves.connects_unnamed engine h) v = absurd (ground (arith, h))
Move-IsSession (Moves.connects_external engine o) v = ground arith
Move-IsSession _ v = ground arith

Moves-IsSession : {s t : Session} → Moves new_attempt true s t → IsSession s → IsSession t
Moves-IsSession here v = v
Moves-IsSession (next m n) v = Move-IsSession n (Moves-IsSession m v)

-- The call does not start an engine for no attempt, as `start_vpn` does.
abbrev pub IsNamed : SessionCall → Type 0
IsNamed (Calls.commits_start none proxy) = ⊥
IsNamed _ = Unit {0}

named-Allows : (call : SessionCall) (s : Session) → IsNamed call → Allows new_attempt true call s
named-Allows (Calls.completes_os_stop epoch attempt) s h = refl
named-Allows (Calls.begins_start epoch) s h = refl
named-Allows (Calls.binds_start attempt) s h = inl refl
named-Allows (Calls.commits_start none proxy) s h = absurd h
named-Allows _ s h = tt

pub initial-IsSession : IsSession initial
initial-IsSession = ground arith

-- Through any calls but a start for no attempt, on any answers of the system, of the journal and of
-- the other process, a session under its invariant keeps it: an attempt that has ended neither starts
-- nor runs and no attempt does both, only an ended attempt is clean and then holds no lease, a stop
-- of the system in flight has its fence, and a lost session is recovered at most three times.
pub history-IsSession :
    (c : Codec) (calls : List (Env × SessionCall)) (w : World c)
    → All (λ call. IsNamed call.1) calls
    → IsSession w.session
    → IsSession (history c calls w).session
unfolding history
history-IsSession c [] w all v = v
history-IsSession c ((e, call) ∷ calls) w all v =
    history-IsSession c calls (perform c e call w) all.1 (
      Moves-IsSession
        (perform-Moves c e new_attempt true call w (named-Allows call w.session all.0)) v)
