-- ===== src/VpnOperation/Refinement.antt =====
-- The operation store against its contract: a stack of operations whose outcome is open.
use paws.Base.{
  ℕ, ◌≡◌, ◌≢◌, ◌⊎◌, Text, Bool, false, not, ◌||◌, Option, none, some, List, [], ◌∷◌, arith, ◌==◌,
  nat_eq, is_empty, if◌then◌else◌,
}
use paws.VpnOperation.{
  VpnOperationState, ActiveVpnOperation, UnconfirmedVpnBlocker, VpnCommandAction, stop, Call,
  begins, unconfirms, confirms, recovers, succeeds, fails, step,
}

pub record Entry : Type 0 where
  pub id : ℕ
  pub action : VpnCommandAction
  pub owner : Option Text

abbrev pub entry : ActiveVpnOperation → Entry
entry a = record { id = a.id; action = a.action; owner = a.owner }

abbrev pub blocked : List UnconfirmedVpnBlocker → List Entry
blocked [] = []
blocked (b ∷ bs) = record { id = b.id; action = b.action; owner = b.owner } ∷ blocked bs

-- The open operations, the newest first.
abbrev pub open_operations : VpnOperationState → List Entry
open_operations s = elim s.active [ none ↦ [] | some a ↦ entry a ∷ blocked a.recovery_from ]

abbrev pub is_top : ℕ → List Entry → Bool
is_top id [] = false
is_top id (e ∷ es) = e.id == id

abbrev pub tail : List Entry → List Entry
tail [] = []
tail (e ∷ es) = es

-- What a call does to the stack.
abbrev pub Moves : Call → List Entry → List Entry → Type 0
Moves (begins id action owner) v w = w ≡ (
    if id == 0 || not (is_empty v)
    then v
    else record { id = id; action = action; owner = owner } ∷ [])
Moves (unconfirms id operation) v w = w ≡ v
Moves (confirms id) v w = w ≡ v
Moves (recovers expected_id id) v w =
    (w ≡ v)
    ⊎ ((is_top expected_id v ≡ Bool.true)
        × (id ≢ 0)
        × (w ≡ record { id = id; action = stop; owner = none } ∷ v))
Moves (succeeds id) v w = w ≡ (if is_top id v then [] else v)
Moves (fails id) v w = w ≡ (if is_top id v then tail v else v)

-- The store refines a stack of open operations: a begin with a non-zero id pushes onto the empty
-- stack only, a recovery keeps the stack or covers the top operation that it names by a stop, a
-- success of the top operation clears the stack, a failure of the top operation pops it alone, and
-- every other call leaves the stack as it was.
pub step-Moves :
    (s : VpnOperationState) (c : Call) → Moves c (open_operations s) (open_operations (step s c))
unfolding step
step-Moves s (begins id action owner) = ground arith
step-Moves s (recovers expected_id id) = ground arith
step-Moves s (succeeds id) = ground arith
step-Moves s (fails id) = ground arith
step-Moves s _ = ground arith
