-- ===== src/VpnOperation.antt =====
-- crates/paws_ui/src/vpn_operation.rs: the state machine behind the VPN switch of the interface.
-- Each `&mut self` method is a function from the state to the new state and the result.
pub mod Refinement
pub mod Recovery
mod Examples
use paws.Base.{
  ℕ, Text, Bool, true, false, ◌&&◌, ◌||◌, not, Option, none, some, List, [], ◌∷◌, Eq, ◌==◌, nat_eq,
  is_some, if◌then◌else◌,
}

pub record VpnOperationReceipt : Type 0 where
  pub request_id : Text
  pub operation_id : Option Text
  pub label : Text

pub record VpnUnconfirmedOperation : Type 0 where
  pub message : Text
  pub receipt : VpnOperationReceipt

pub data VpnCommandAction : Type 0 where
  start stop restart owned_stop : VpnCommandAction

pub data VpnOperationPhase : Type 0 where
  awaiting_bridge confirming unconfirmed : VpnOperationPhase

abbrev VpnOperationPhase-discrete : Discrete VpnOperationPhase
VpnOperationPhase-discrete = hlevel

instance abbrev pub phase_eq : Eq VpnOperationPhase
phase_eq = record { same = VpnOperationPhase-discrete }

pub record UnconfirmedVpnBlocker : Type 0 where
  pub id : ℕ
  pub action : VpnCommandAction
  pub owner : Option Text
  pub operation : VpnUnconfirmedOperation

-- The head of `recovery_from` is the back of the vector.
pub record ActiveVpnOperation : Type 0 where
  pub id : ℕ
  pub action : VpnCommandAction
  pub owner : Option Text
  pub phase : VpnOperationPhase
  pub operation : Option VpnUnconfirmedOperation
  pub recovery_from : List UnconfirmedVpnBlocker

pub data VpnOperationFailureDisposition : Type 0 where
  stale cleared recovery_still_blocked : VpnOperationFailureDisposition

pub record VpnOperationState : Type 0 where
  pub active : Option ActiveVpnOperation

abbrev pub idle : VpnOperationState
idle = record { active = none }

abbrev pub running : ActiveVpnOperation → VpnOperationState
running a = record { active = some a }

pub begin_owned : VpnOperationState → ℕ → VpnCommandAction → Option Text → VpnOperationState × Bool
begin_owned s id action owner = if id == 0 || is_some s.active then (s, false) else (
  running (record {
    id = id;
    action = action;
    owner = owner;
    phase = awaiting_bridge;
    operation = none;
    recovery_from = [];
  }),
  true,
)

pub begin : VpnOperationState → ℕ → VpnCommandAction → VpnOperationState × Bool
unfolding begin_owned
begin s id action = begin_owned s id action none

pub mark_unconfirmed : VpnOperationState → ℕ → VpnUnconfirmedOperation → VpnOperationState × Bool
mark_unconfirmed s id operation = elim s.active [
  | none ↦ (s, false)
  | some active ↦
      if active.id == id
      then (running (record active { phase = unconfirmed; operation = some operation }), true)
      else (s, false)
]

pub begin_confirmation : VpnOperationState → ℕ → VpnOperationState × Option VpnUnconfirmedOperation
begin_confirmation s id = elim s.active [
  | none ↦ (s, none)
  | some active ↦
      if active.id == id && active.phase == unconfirmed
      then elim active.operation [
        | none ↦ (s, none)
        | some operation ↦ (running (record active { phase = confirming }), some operation)
      ]
      else (s, none)
]

pub begin_recovery : VpnOperationState → ℕ → ℕ → VpnOperationState × Bool
begin_recovery s expected_id recovery_id = if recovery_id == 0 then (s, false) else elim s.active [
  | none ↦ (s, false)
  | some previous ↦
      if not (previous.id == expected_id)
        || not (previous.phase == unconfirmed || previous.phase == confirming)
      then (s, false)
      else elim previous.operation [
        | none ↦ (s, false)
        | some operation ↦ (
          running (record {
            id = recovery_id;
            action = stop;
            owner = none;
            phase = awaiting_bridge;
            operation = none;
            recovery_from =
                record {
                  id = previous.id;
                  action = previous.action;
                  owner = previous.owner;
                  operation = operation;
                }
                ∷ previous.recovery_from;
          }),
          true,
        )
      ]
]

pub finish_success : VpnOperationState → ℕ → VpnOperationState × Bool
finish_success s id = elim s.active [
  | none ↦ (s, false)
  | some active ↦ if active.id == id then (idle, true) else (s, false)
]

pub finish_failure : VpnOperationState → ℕ → VpnOperationState × VpnOperationFailureDisposition
finish_failure s id = elim s.active [
  | none ↦ (s, stale)
  | some failed ↦ if not (failed.id == id) then (s, stale) else elim failed.recovery_from [
    | [] ↦ (idle, cleared)
    | blocker ∷ below ↦ (
      running (record {
        id = blocker.id;
        action = blocker.action;
        owner = blocker.owner;
        phase = unconfirmed;
        operation = some blocker.operation;
        recovery_from = below;
      }),
      recovery_still_blocked,
    )
  ]
]

-- The calls that the interface makes, in the order in which they reach the store.
pub data Call : Type 0 where
  begins : ℕ → VpnCommandAction → Option Text → Call
  unconfirms : ℕ → VpnUnconfirmedOperation → Call
  confirms : ℕ → Call
  recovers : ℕ → ℕ → Call
  succeeds : ℕ → Call
  fails : ℕ → Call

pub step : VpnOperationState → Call → VpnOperationState
unfolding begin_owned mark_unconfirmed begin_confirmation begin_recovery finish_success
    finish_failure
step s (begins id action owner) = (begin_owned s id action owner).0
step s (unconfirms id operation) = (mark_unconfirmed s id operation).0
step s (confirms id) = (begin_confirmation s id).0
step s (recovers expected_id recovery_id) = (begin_recovery s expected_id recovery_id).0
step s (succeeds id) = (finish_success s id).0
step s (fails id) = (finish_failure s id).0

pub run : VpnOperationState → List Call → VpnOperationState
run s [] = s
run s (c ∷ cs) = run (step s c) cs
