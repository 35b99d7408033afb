-- ===== src/Session/Fates.antt =====
-- crates/paws_core/src/lib.rs: an attempt that has ended does not come back, and a stop of the system
-- keeps every start out until it is confirmed.
use paws.Base.{
  Option, ◌≡◌, refl, sym, ◌∙◌, inl, inr, Text, Bool, true, false, none, some, List, [], ◌∷◌, arith,
  nat_eq, text_eq, All,
}
use paws.PlatformOwner.Disk.{Codec}
use paws.Session.{Session, is_terminal, apply_platform_failure, drop_leases}
use paws.Session.World.{Env, World}
use paws.Session.Remote.{
  watchdog_expired, arm_recovery, heartbeat_stopped, matches_attempt, see_remote, take_owner,
  take_outcome, take_attachment, take_network, take_frame,
}
use paws.Session.Stops.{begin_os_stop, complete_os_stop, fail_os_stop, claim_stop}
use paws.Session.Starts.{start_is_pending, fail_start, cancel_start}
use paws.Session.Binding.{reopen}
use paws.Session.Cleanup.{clean, recover_clean}
use paws.Session.Updates.{stop_attempt, stop_ended}
use paws.Session.Recovery.{grant_recovery, find_orphan, rearm, release_found}
use paws.Session.Calls.{SessionCall, perform, history}
use paws.Session.Calls
use paws.Session.Frames.{
  Step, sees, watches, gives_up, takes, Steps, Frame, known, adopted, apply_state-Frame,
}
use paws.Session.Frames
use paws.Session.Moves.{same_attempt, Move, Moves, here, next}
use paws.Session.Moves
use paws.Session.Validity.{IsSession}
use paws.Session.Invariants.{IsNamed, history-IsSession}
use paws.Session.Histories.{Allows, perform-Moves}

-- The attempt stays, and where it has ended it stays so.
pub record Fate (s t : Session) : Type 0 where
  pub attempt : t.start_attempt_id ≡ s.start_attempt_id
  pub ended : is_terminal s.start_outcome ≡ true → is_terminal t.start_outcome ≡ true

Fate-refl : (s : Session) → Fate s s
Fate-refl s = record { attempt = refl; ended = λ h. h }

Fate-trans : {s t u : Session} → Fate s t → Fate t u → Fate s u
Fate-trans h k = record { attempt = k.attempt ∙ h.attempt; ended = λ e. k.ended (h.ended e) }

Step-Fate : {s t : Session} → Step s t → Fate s t
unfolding see_remote watchdog_expired heartbeat_stopped arm_recovery apply_platform_failure
    take_frame take_owner take_outcome take_attachment take_network drop_leases
Step-Fate (sees now r) = ground arith
Step-Fate (watches now is_ui r advanced) = ground arith
Step-Fate gives_up = ground arith
Step-Fate (takes is_ui r) = ground arith

Steps-Fate : {s t : Session} → Steps s t → Fate s t
Steps-Fate {s} Frames.here = Fate-refl s
Steps-Fate (Frames.next m v) = Fate-trans (Steps-Fate m) (Step-Fate v)

-- A frame is for no other attempt than the session's, unless the extension is bound for one.
abbrev Expects : Option Text → Session → Type 0
Expects none s = Unit {0}
Expects (some attempt) s = s.start_attempt_id ≡ attempt

Frame-Fate :
    (expected : Option Text) {s t : Session} → Frame expected s t → Expects expected s → Fate s t
unfolding matches_attempt
Frame-Fate expected (known m) h = Steps-Fate m
Frame-Fate none (adopted now r m e n) h = absurd (ground (arith, e))
Frame-Fate (some attempt) (adopted now r m e n) h = absurd (ground (arith, m, e, n, h))

-- A move that may not replace the attempt keeps its fate.
Move-Fate : (b : Bool) {s t : Session} → Move same_attempt b s t → Fate s t
unfolding begin_os_stop complete_os_stop fail_os_stop claim_stop start_is_pending fail_start
    drop_leases cancel_start reopen clean recover_clean apply_platform_failure stop_attempt
    stop_ended grant_recovery find_orphan rearm release_found arm_recovery
Move-Fate b {s} (Moves.frames now is_ui r) =
    Frame-Fate none (apply_state-Frame now is_ui none r s) tt
Move-Fate b {s} (Moves.binds now attempt r (inl h)) = absurd (ground (arith, h))
Move-Fate b {s} (Moves.binds now attempt r (inr h)) =
    Frame-Fate (some attempt) (apply_state-Frame now false (some attempt) r s) h
Move-Fate b (Moves.opens sequence attempt f e o w r) = absurd (ground (arith, f))
Move-Fate b (Moves.connects_unnamed engine h) = absurd (ground (arith, h))
Move-Fate b (Moves.connects_external engine o) = ground arith
Move-Fate b _ = ground arith

Moves-Fate : {s t : Session} → Moves same_attempt true s t → Fate s t
Moves-Fate {s} here = Fate-refl s
Moves-Fate (next m v) = Fate-trans (Moves-Fate m) (Move-Fate true v)

-- The call may not put another attempt in the place of this one, nor start an engine for none.
abbrev pub Spares : Text → SessionCall → Type 0
Spares attempt (Calls.begins_start epoch) = ⊥
Spares attempt (Calls.binds_start bound) = bound ≡ attempt
Spares attempt (Calls.commits_start none proxy) = ⊥
Spares attempt _ = Unit {0}

sparing-Allows :
    (attempt : Text) (call : SessionCall) (s : Session)
    → s.start_attempt_id ≡ attempt
    → Spares attempt call
    → Allows same_attempt true call s
sparing-Allows attempt (Calls.completes_os_stop epoch stopped) s a h = refl
sparing-Allows attempt (Calls.begins_start epoch) s a h = absurd h
sparing-Allows attempt (Calls.binds_start bound) s a h = inr (a ∙ sym h)
sparing-Allows attempt (Calls.commits_start none proxy) s a h = absurd h
sparing-Allows attempt _ s a h = tt

history-Fate :
    (c : Codec) (calls : List (Env × SessionCall)) (w : World c)
    → All (λ call. Spares w.session.start_attempt_id call.1) calls
    → Fate w.session (history c calls w).session
unfolding history
history-Fate c calls w all = go calls w refl all
  where
    go :
        (calls' : List (Env × SessionCall)) (v : World c)
        → v.session.start_attempt_id ≡ w.session.start_attempt_id
        → All (λ call. Spares w.session.start_attempt_id call.1) calls'
        → Fate v.session (history c calls' v).session
    go [] v a all' = Fate-refl v.session
    go ((e, call) ∷ calls') v a all' =
        let step = Moves-Fate (
          perform-Moves c e same_attempt true call v
            (sparing-Allows w.session.start_attempt_id call v.session a all'.0)) in
        Fate-trans step (go calls' (perform c e call v) (step.attempt ∙ a) all'.1)

sparing-IsNamed : (attempt : Text) (call : SessionCall) → Spares attempt call → IsNamed call
sparing-IsNamed attempt (Calls.commits_start none proxy) h = absurd h
sparing-IsNamed attempt (Calls.commits_start (some named) proxy) h = tt
sparing-IsNamed attempt _ h = tt

spared-AllNamed :
    (attempt : Text) (calls : List (Env × SessionCall))
    → All (λ call. Spares attempt call.1) calls
    → All (λ call. IsNamed call.1) calls
spared-AllNamed attempt [] all = tt
spared-AllNamed attempt ((e, call) ∷ calls) all =
    (sparing-IsNamed attempt call all.0, spared-AllNamed attempt calls all.1)

-- An attempt of a session under its invariant that has failed or was cancelled stays so, through any
-- calls that begin no start, with an attempt or without, and bind none but this attempt, on any answers and frames of the other
-- process: the session keeps the attempt, as ended, and neither starts nor runs.
pub ended_stays_ended :
    (c : Codec) (calls : List (Env × SessionCall)) (w : World c)
    → IsSession w.session
    → All (λ call. Spares w.session.start_attempt_id call.1) calls
    → is_terminal w.session.start_outcome ≡ true
    → let t = (history c calls w).session in
      (t.start_attempt_id ≡ w.session.start_attempt_id)
      × (is_terminal t.start_outcome ≡ true)
      × (t.running ≡ false)
      × (t.starting ≡ false)
ended_stays_ended c calls w v all h =
    let fate = history-Fate c calls w all in
    let ended = fate.ended h in
    let (halted, quiet) =
      (history-IsSession c calls w (spared-AllNamed w.session.start_attempt_id calls all) v).ended
        ended in
    (fate.attempt, ended, halted, quiet)
