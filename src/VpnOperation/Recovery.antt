-- ===== src/VpnOperation/Recovery.antt =====
-- What the operation store guarantees over whole histories of calls, and how recovery nests.
use paws.Base.{ℕ, ◌≡◌, ◌∙◌, ap, ◌≢◌, refl, Option, none, some, List, [], ◌∷◌, arith, All, nat_eq}
use paws.VpnOperation.{
  VpnOperationState, ActiveVpnOperation, VpnUnconfirmedOperation, VpnOperationPhase, stop,
  awaiting_bridge, confirming, unconfirmed, running, Call, begins, unconfirms, confirms, recovers,
  succeeds, fails, step, run,
}

-- A receipt is there exactly when the bridge has answered with an unknown outcome.
abbrev pub HasReceipt : VpnOperationPhase → Option VpnUnconfirmedOperation → Type 0
HasReceipt awaiting_bridge o = o ≡ none
HasReceipt confirming o = o ≢ none
HasReceipt unconfirmed o = o ≢ none

abbrev pub IsSound : Option ActiveVpnOperation → Type 0
IsSound none = Unit
IsSound (some a) = (a.id ≢ 0) × HasReceipt a.phase a.operation × All (λ b. b.id ≢ 0) a.recovery_from

step-IsSound : (s : VpnOperationState) (c : Call) → IsSound s.active → IsSound (step s c).active
unfolding step
step-IsSound s (begins id action owner) v = ground arith
step-IsSound s (unconfirms id operation) v = ground arith
step-IsSound s (recovers expected_id id) v = ground arith
step-IsSound s _ v = ground arith

-- After any calls, an open operation has a non-zero id, so do the operations that it covers, and
-- it carries a receipt exactly when its phase is confirming or unconfirmed.
pub run-IsSound :
    (s : VpnOperationState) (cs : List Call) → IsSound s.active → IsSound (run s cs).active
unfolding run
run-IsSound s [] v = v
run-IsSound s (c ∷ cs) v = run-IsSound (step s c) cs (step-IsSound s c v)

-- The call names another operation than the one with this id; a begin names none.
abbrev pub Misses : ℕ → Call → Type 0
Misses id (begins other action owner) = Unit
Misses id (unconfirms other operation) = id ≢ other
Misses id (confirms other) = id ≢ other
Misses id (recovers expected_id recovery_id) = id ≢ expected_id
Misses id (succeeds other) = id ≢ other
Misses id (fails other) = id ≢ other

-- While an operation is open, a second begin and every late call about another operation leave the
-- store exactly as it was.
pub stale_call_changes_nothing :
    (s : VpnOperationState) (a : ActiveVpnOperation) (c : Call)
    → s.active ≡ some a
    → Misses a.id c
    → step s c ≡ s
unfolding step
stale_call_changes_nothing s a (begins id action owner) h m = ground arith
stale_call_changes_nothing s a (recovers expected_id id) h m = ground arith
stale_call_changes_nothing s a _ h m = ground arith

-- Recoveries one upon the other: each stop is covered by the next after its outcome stayed unknown.
pub descend : VpnOperationState → ℕ → List (ℕ × VpnUnconfirmedOperation) → VpnOperationState
descend s id [] = s
descend s id ((recovery_id, operation) ∷ rest) =
    descend (step (step s (recovers id recovery_id)) (unconfirms recovery_id operation)) recovery_id
      rest

-- The stops fail, the last one first.
pub ascend : VpnOperationState → List (ℕ × VpnUnconfirmedOperation) → VpnOperationState
ascend s [] = s
ascend s ((recovery_id, operation) ∷ rest) = step (ascend s rest) (fails recovery_id)

-- The stop that covers an operation whose receipt is given, its own outcome unknown too.
abbrev covering :
    ActiveVpnOperation → VpnUnconfirmedOperation → ℕ → VpnUnconfirmedOperation → ActiveVpnOperation
covering a operation id next = record {
  id = id;
  action = stop;
  owner = none;
  phase = unconfirmed;
  operation = some next;
  recovery_from =
      record { id = a.id; action = a.action; owner = a.owner; operation = operation }
      ∷ a.recovery_from;
}

module _ (a : ActiveVpnOperation) (operation : VpnUnconfirmedOperation)
    (held : a.operation ≡ some operation) where
  step-recovers :
      (id : ℕ) (next : VpnUnconfirmedOperation)
      → id ≢ 0
      → a.phase ≢ awaiting_bridge
      → step (step (running a) (recovers a.id id)) (unconfirms id next)
        ≡ running (covering a operation id next)
  unfolding step
  step-recovers id next h p = ground arith

  step-fails :
      (id : ℕ) (next : VpnUnconfirmedOperation)
      → step (running (covering a operation id next)) (fails id)
        ≡ running (record a { phase = unconfirmed })
  unfolding step
  step-fails id next = ground arith

-- One round of recovery over a chain that unwinds.
unwind_one :
    (a : ActiveVpnOperation) (operation : VpnUnconfirmedOperation) (id : ℕ)
    (next : VpnUnconfirmedOperation) (rest : List (ℕ × VpnUnconfirmedOperation))
    → a.operation ≡ some operation
    → a.phase ≢ awaiting_bridge
    → id ≢ 0
    → ascend (descend (running (covering a operation id next)) id rest) rest
      ≡ running (covering a operation id next)
    → ascend (descend (running a) a.id ((id, next) ∷ rest)) ((id, next) ∷ rest)
      ≡ running (record a { phase = unconfirmed })
unfolding descend ascend
unwind_one a operation id next rest o p h unwinds =
    ap (λ s. step (ascend (descend s id rest) rest) (fails id))
      (step-recovers a operation o id next h p)
    ∙ ap (λ s. step s (fails id)) unwinds
    ∙ step-fails a operation o id next

unwind_unconfirmed :
    (a : ActiveVpnOperation) (operation : VpnUnconfirmedOperation)
    (recoveries : List (ℕ × VpnUnconfirmedOperation))
    → a.operation ≡ some operation
    → a.phase ≡ unconfirmed
    → All (λ r. r.0 ≢ 0) recoveries
    → ascend (descend (running a) a.id recoveries) recoveries ≡ running a
unfolding descend ascend
unwind_unconfirmed a operation [] o p ids = refl
unwind_unconfirmed a operation ((id, next) ∷ rest) o p ids =
    unwind_one a operation id next rest o (ground arith) ids.0
      (unwind_unconfirmed (covering a operation id next) next rest refl refl ids.1)
    ∙ ground arith

-- However deep recoveries are nested, once all of them have failed the original operation is back:
-- the same id, action, owner, receipt and covered operations, and its outcome is unconfirmed. This
-- holds for any recovery chain with non-zero ids over an operation that has left the bridge.
pub recoveries_unwind :
    (a : ActiveVpnOperation) (operation : VpnUnconfirmedOperation)
    (first : ℕ × VpnUnconfirmedOperation) (rest : List (ℕ × VpnUnconfirmedOperation))
    → a.operation ≡ some operation
    → a.phase ≢ awaiting_bridge
    → All (λ r. r.0 ≢ 0) (first ∷ rest)
    → ascend (descend (running a) a.id (first ∷ rest)) (first ∷ rest)
      ≡ running (record a { phase = unconfirmed })
unfolding descend ascend
recoveries_unwind a operation (id, next) rest o p ids =
    unwind_one a operation id next rest o p ids.0
      (unwind_unconfirmed (covering a operation id next) next rest refl refl ids.1)
