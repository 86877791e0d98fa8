-- ===== src/Orchestrator/Transition.antt =====
-- `assertTransition` (orchestrator/states.js), `transition`, `fail` and the results of the
-- orchestrator's methods. `saved` is the document as it was last saved: what remains of the project
-- when a method throws.
use autonomous_dev_platform.Base.{
  Bool, true, false, not, ◌&&◌, ◌≡◌, ap, Option, none, some, String, [], ◌∷◌, ◌++◌, ◌==◌,
  if◌then◌else◌,
}
use autonomous_dev_platform.States.{
  ProjectState, failed, is_legal_transition, is_owner_terminal, same_state, state_name,
}
use autonomous_dev_platform.Errors.{
  Thrown, ErrorRecord, platform_error, known, invalid_state_transition, to_error_record,
}
use autonomous_dev_platform.Project.{Project, Checkpoint, Operation}
use autonomous_dev_platform.Orchestrator.Operations.{fail_operation, current_operation}

-- A method returns with the project saved, or throws.
pub data Result : Type 0 where
  ok : Project → Result
  raised : Project → Thrown → Result

-- The document that is left in the store.
abbrev pub stored : Result → Project
stored (ok p) = p
stored (raised p e) = p

-- The next call, unless there was an error.
abbrev pub next : Result → (Project → Result) → Result
next (ok p) f = f p
next (raised p e) f = raised p e

abbrev pub illegal_transition : ProjectState → Thrown
unfolding platform_error state_name
illegal_transition from =
    platform_error (some (known invalid_state_transition)) (some (state_name from)) (some false)

unfoldable pub assert_transition : ProjectState → ProjectState → Option Thrown
unfolding is_legal_transition illegal_transition
assert_transition from to =
    if is_legal_transition from to then none else some (illegal_transition from)

-- The document after a transition.
abbrev pub moved : Project → ProjectState → Project
moved p to = record p { history = p.history ++ record { from = p.state; to = to } ∷ []; state = to }

abbrev unless_illegal : Project → Project → ProjectState → Option Thrown → Result
unless_illegal saved p to none = ok (moved p to)
unless_illegal saved p to (some error) = raised saved error

unfoldable pub transition : Project → Project → ProjectState → Result
unfolding assert_transition
transition saved p to = unless_illegal saved p to (assert_transition p.state to)

asserted :
    (from to : ProjectState) (b : Bool)
    → is_legal_transition from to ≡ b
    → assert_transition from to ≡ (if b then none else some (illegal_transition from))
unfolding assert_transition
asserted from to b l = ap (λ (x : Bool). if x then none else some (illegal_transition from)) l

pub transition_legal :
    (saved p : Project) (to : ProjectState)
    → is_legal_transition p.state to ≡ true
    → transition saved p to ≡ ok (moved p to)
unfolding transition
transition_legal saved p to l = ap (unless_illegal saved p to) (asserted p.state to true l)

pub transition_illegal :
    (saved p : Project) (to : ProjectState)
    → is_legal_transition p.state to ≡ false
    → transition saved p to ≡ raised saved (illegal_transition p.state)
unfolding transition
transition_illegal saved p to l = ap (unless_illegal saved p to) (asserted p.state to false l)

abbrev pub operation_id : Option Operation → Option String
operation_id none = none
operation_id (some o) = some o.id

abbrev pub is_started : Option Checkpoint → Bool
is_started none = false
is_started (some c) = c.status == "started"

unfoldable pub with_failure : ErrorRecord → Project → Project
unfolding fail_operation current_operation
with_failure error p =
    let marked : Project = record p { error = some error; errors = p.errors ++ error ∷ [] } in
    if is_started p.checkpoint
    then fail_operation (operation_id (current_operation p)) error marked
    else marked

-- `fail`: what becomes of a project when a method has thrown.
unfoldable pub fail_project : Thrown → Project → Result
unfolding to_error_record transition is_owner_terminal with_failure
fail_project error p =
    let p' = with_failure (to_error_record error (some (state_name p.state))) p in
    if not (same_state p.state failed) && not (is_owner_terminal p.state)
    then transition p p' failed
    else ok p'
