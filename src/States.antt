-- ===== src/States.antt =====
-- orchestrator/states.js: the states of a project and the transition table.
pub mod Graph
mod Examples
use autonomous_dev_platform.Base.{ℕ, Bool, List, [], ◌∷◌, String, eqb, any}

pub data ProjectState : Type 0 where
  idea_submitted council_discovery specification_ready project_provisioning : ProjectState
  cursor_executing platform_verification runtime_verification visual_verification : ProjectState
  council_review final_verification delivery_preparation ready_for_owner_review : ProjectState
  owner_changes_requested owner_approved done failed : ProjectState

-- The position of a state in `ProjectState`, by which states are compared.
abbrev pub index : ProjectState → ℕ
index idea_submitted = 0
index council_discovery = 1
index specification_ready = 2
index project_provisioning = 3
index cursor_executing = 4
index platform_verification = 5
index runtime_verification = 6
index visual_verification = 7
index council_review = 8
index final_verification = 9
index delivery_preparation = 10
index ready_for_owner_review = 11
index owner_changes_requested = 12
index owner_approved = 13
index done = 14
index failed = 15

-- `a === b`
abbrev pub same_state : ProjectState → ProjectState → Bool
same_state a b = eqb (index a) (index b)

-- The string that stands for the state.
unfoldable pub state_name : ProjectState → String
state_name idea_submitted = "IDEA_SUBMITTED"
state_name council_discovery = "COUNCIL_DISCOVERY"
state_name specification_ready = "SPECIFICATION_READY"
state_name project_provisioning = "PROJECT_PROVISIONING"
state_name cursor_executing = "CURSOR_EXECUTING"
state_name platform_verification = "PLATFORM_VERIFICATION"
state_name runtime_verification = "RUNTIME_VERIFICATION"
state_name visual_verification = "VISUAL_VERIFICATION"
state_name council_review = "COUNCIL_REVIEW"
state_name final_verification = "FINAL_VERIFICATION"
state_name delivery_preparation = "DELIVERY_PREPARATION"
state_name ready_for_owner_review = "READY_FOR_OWNER_REVIEW"
state_name owner_changes_requested = "OWNER_CHANGES_REQUESTED"
state_name owner_approved = "OWNER_APPROVED"
state_name done = "DONE"
state_name failed = "FAILED"

abbrev active_workflow_states : List ProjectState
active_workflow_states =
    idea_submitted ∷ council_discovery ∷ specification_ready ∷ project_provisioning
    ∷ cursor_executing ∷ platform_verification ∷ runtime_verification ∷ visual_verification
    ∷ council_review ∷ final_verification ∷ delivery_preparation ∷ owner_changes_requested ∷ []

abbrev owner_terminal_states : List ProjectState
owner_terminal_states = ready_for_owner_review ∷ owner_approved ∷ done ∷ []

-- `legalTargets(from)`, the row of the table `transitions`.
unfoldable pub legal_targets : ProjectState → List ProjectState
legal_targets idea_submitted = council_discovery ∷ failed ∷ []
legal_targets council_discovery = specification_ready ∷ failed ∷ []
legal_targets specification_ready = project_provisioning ∷ cursor_executing ∷ failed ∷ []
legal_targets project_provisioning = cursor_executing ∷ failed ∷ []
legal_targets cursor_executing = platform_verification ∷ failed ∷ []
legal_targets platform_verification = runtime_verification ∷ council_review ∷ failed ∷ []
legal_targets runtime_verification = visual_verification ∷ council_review ∷ failed ∷ []
legal_targets visual_verification = council_review ∷ failed ∷ []
legal_targets council_review =
    cursor_executing ∷ specification_ready ∷ final_verification ∷ failed ∷ []
legal_targets final_verification =
    cursor_executing ∷ specification_ready ∷ delivery_preparation ∷ failed ∷ []
legal_targets delivery_preparation = ready_for_owner_review ∷ failed ∷ []
legal_targets ready_for_owner_review = owner_approved ∷ owner_changes_requested ∷ []
legal_targets owner_changes_requested = council_discovery ∷ failed ∷ []
legal_targets owner_approved = done ∷ []
legal_targets done = []
legal_targets failed =
    idea_submitted ∷ council_discovery ∷ specification_ready ∷ cursor_executing
    ∷ project_provisioning ∷ platform_verification ∷ runtime_verification ∷ visual_verification
    ∷ council_review ∷ final_verification ∷ delivery_preparation ∷ []

unfoldable pub is_legal_transition : ProjectState → ProjectState → Bool
unfolding legal_targets
is_legal_transition from to = any (same_state to) (legal_targets from)

unfoldable pub is_boot_resumable : ProjectState → Bool
is_boot_resumable s = any (same_state s) active_workflow_states

unfoldable pub is_owner_terminal : ProjectState → Bool
is_owner_terminal s = any (same_state s) owner_terminal_states
