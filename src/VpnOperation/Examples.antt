-- ===== src/VpnOperation/Examples.antt =====
-- Runs of the operation store, and the theorems at concrete histories.
use paws.Base.{◌≡◌, refl, none, some, List, [], ◌∷◌, arith, text, ℕ_discrete}
use paws.VpnOperation.{
  ActiveVpnOperation, VpnUnconfirmedOperation, start, restart, unconfirmed, idle, running, Call,
  begins, unconfirms, recovers, succeeds, fails, step, run,
}
use paws.VpnOperation.Refinement.{Moves, open_operations, step-Moves}
use paws.VpnOperation.Recovery.{
  IsSound, run-IsSound, stale_call_changes_nothing, ascend, descend, recoveries_unwind,
}

abbrev receipt : VpnUnconfirmedOperation
receipt = record {
  message = text "still unknown";
  receipt = record { request_id = text "one"; operation_id = none; label = text "VPN test" };
}

abbrev session_restart : ActiveVpnOperation
session_restart = record {
  id = 1;
  action = restart;
  owner = some (text "session-a");
  phase = unconfirmed;
  operation = some receipt;
  recovery_from = [];
}

abbrev history : List Call
history =
    begins 1 restart (some (text "session-a"))
    ∷ unconfirms 1 receipt
    ∷ begins 2 start none
    ∷ recovers 1 2
    ∷ succeeds 1
    ∷ fails 2
    ∷ []

-- The test `a_failed_recovery_stop_restores_the_original_unknown_operation` of the source.
history_restores : run idle history ≡ running session_restart
unfolding run step ℕ_discrete
history_restores = refl

-- The test `stale_original_completion_does_not_clear_recovery_and_stop_success_fences_it`.
stop_success_fences :
    run idle (begins 1 start none ∷ unconfirms 1 receipt ∷ recovers 1 2 ∷ succeeds 2 ∷ []) ≡ idle
unfolding run step ℕ_discrete
stop_success_fences = refl

run-IsSound_example : IsSound (run idle history).active
run-IsSound_example = run-IsSound idle history tt

step-Moves_example :
    Moves
      (fails 1)
      (open_operations (running session_restart))
      (open_operations (step (running session_restart) (fails 1)))
step-Moves_example = step-Moves (running session_restart) (fails 1)

stale_call_changes_nothing_example :
    step (running session_restart) (fails 7) ≡ running session_restart
stale_call_changes_nothing_example =
    stale_call_changes_nothing (running session_restart) session_restart (fails 7) refl
      (omega arith)

recoveries_unwind_example :
    ascend
      (descend (running session_restart) 1 ((2, receipt) ∷ (3, receipt) ∷ []))
      ((2, receipt) ∷ (3, receipt) ∷ [])
    ≡ running session_restart
recoveries_unwind_example =
    recoveries_unwind session_restart receipt (2, receipt) ((3, receipt) ∷ []) refl (λ e. cc)
      (omega arith)
