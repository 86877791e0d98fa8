-- ===== src/Orchestrator/Foundation.antt =====
-- The council's specification and the project's foundation in orchestrator/orchestrator.js:
-- `ensureDiscovery`, `applyOwnerFeedback`, `enterProvisioning` and `finishProvisioning`, with
-- `applyProvisioningResult` of provision/pipeline.js. The answers of the council and of the
-- provisioners are arguments.
use Prim.Native.String.{◌++◌ as concat}
use autonomous_dev_platform.Base.{
  Bool, true, false, not, ◌&&◌, Option, none, some, String, if◌then◌else◌, or_text,
}
use autonomous_dev_platform.States.{
  idea_submitted, council_discovery, specification_ready, same_state,
}
use autonomous_dev_platform.Errors.{
  Thrown, ErrorCode, Code, known, platform_error, to_error_record, all_providers_failed,
  chair_failure,
}
use autonomous_dev_platform.Project.{Project, Spec, PendingFeedback}
use autonomous_dev_platform.Project.Runs.{ProvisioningRun}
use autonomous_dev_platform.Project.Latest.{needs_provisioning}
use autonomous_dev_platform.Gate.{has_valid_spec}
use autonomous_dev_platform.Orchestrator.Operations.{
  begin_operation, complete_operation, fail_operation,
}
use autonomous_dev_platform.Orchestrator.Transition.{Result, ok, raised, next, transition}
use autonomous_dev_platform.Orchestrator.World.{World, Answer, answered, refused}

-- What `runProjectProvisioning` returns: the run, whether it has a plan, and its evidence's provenance.
pub record Provisioned : Type 0 where
  pub run : ProvisioningRun
  pub plan : Bool
  pub provenance : Option String

pub record Foundation : Type 0 where
  pub discover : Project → Answer (Option Spec)  -- `council.discover`
  pub interpret : Project → Answer (Option String)  -- `council.discover` on the owner's feedback
  pub plan : Project → Option Thrown  -- an error of the architecture or of `createProvisioningPlan`
  pub provision : Project → Answer Provisioned  -- `runProjectProvisioning`
  pub provisioned_prompt : Project → ProvisioningRun → String

abbrev pub spec_with_prompt : String → Option Spec → Option Spec
spec_with_prompt prompt none = none
spec_with_prompt prompt (some s) = some (record s { cursor_prompt = some prompt })

abbrev pub spec_cursor_prompt : Option Spec → Option String
spec_cursor_prompt none = none
spec_cursor_prompt (some s) = s.cursor_prompt

-- A text in a template string.
abbrev pub in_template : Option String → String
in_template none = "null"
in_template (some s) = s

-- The prompt to which the feedback is appended.
abbrev pub appended_prompt : Project → PendingFeedback → String
appended_prompt p pending =
    concat (in_template (spec_cursor_prompt p.council.spec))
      (concat "\n\nOwner feedback: " (in_template pending.feedback))

abbrev pub interpreted : Project → PendingFeedback → Answer (Option String) → String
interpreted p pending (answered prompt) = or_text prompt (appended_prompt p pending)
interpreted p pending (refused e) = appended_prompt p pending

abbrev pub interpreted_feedback : Foundation → Project → Option PendingFeedback → Project
interpreted_feedback f p none = p
interpreted_feedback f p (some pending) =
    let spec = spec_with_prompt (interpreted p pending (f.interpret p)) p.council.spec in
    record p {
      council = record p.council { spec = spec };
      active_prompt = spec_cursor_prompt spec;
      pending_owner_feedback = none;
    }

unfoldable pub apply_owner_feedback : Foundation → Project → Project
apply_owner_feedback f p = interpreted_feedback f p p.pending_owner_feedback

-- An error of the discovery that is no `PlatformError`.
abbrev is_all_failed : Option Code → Bool
is_all_failed (some (known ErrorCode.all_providers_failed)) = true
is_all_failed _ = false

unfoldable pub discovery_error : Thrown → Thrown
unfolding platform_error
discovery_error e =
    if e.is_platform
    then e
    else platform_error
        (some (known (if is_all_failed e.code then all_providers_failed else chair_failure)))
        (some "COUNCIL_DISCOVERY") (some true)

unfoldable pub discovery_failed : String → Project → Thrown → Result
unfolding fail_operation to_error_record discovery_error
discovery_failed id p e =
    raised (fail_operation (some id) (to_error_record e (some "COUNCIL_DISCOVERY")) p)
      (discovery_error e)

unfoldable pub invalid_spec : Thrown
unfolding platform_error
invalid_spec = platform_error (some (known chair_failure)) (some "COUNCIL_DISCOVERY") (some true)

-- An error of the last transition is caught like the others.
unfoldable pub caught_discovery : String → Project → Result → Result
unfolding discovery_failed
caught_discovery id p (ok q) = ok q
caught_discovery id p (raised saved e) = discovery_failed id p e

-- The provisioning is planned where it is needed and there is no plan yet.
abbrev pub planned_if :
    Bool → Option Thrown → (Project → Thrown → Result) → Project → (Project → Result) → Result
planned_if false error failing p go = go p
planned_if true none failing p go = go (record p { provisioning_plan = true })
planned_if true (some e) failing p go = failing p e

unfoldable pub specified : String → Project → Project → Result
unfolding complete_operation transition caught_discovery
specified id saved p =
    let q = complete_operation (some id) p in
    caught_discovery id q (transition saved q specification_ready)

abbrev pub with_spec : Option Spec → Project → Project
with_spec spec p = record p { council = record p.council { spec = spec } }

abbrev pub spec_prompted : Option Spec → Project → Project
spec_prompted spec p = record p { active_prompt = spec_cursor_prompt spec }

unfoldable pub discovered : Foundation → String → Project → Answer (Option Spec) → Result
unfolding discovery_failed has_valid_spec invalid_spec needs_provisioning specified
discovered f id p (refused e) = discovery_failed id p e
discovered f id p (answered spec) =
    let q = with_spec spec p in
    if not (has_valid_spec q)
    then discovery_failed id q invalid_spec
    else let r = spec_prompted spec q in
      planned_if (needs_provisioning r && not r.provisioning_plan) (f.plan r) (discovery_failed id)
        r (specified id p)

unfoldable pub recovered_spec : Foundation → Project → Result
unfolding apply_owner_feedback transition
recovered_spec f p =
    let q = apply_owner_feedback f p in
    if same_state q.state council_discovery then transition q q specification_ready else ok q

unfoldable pub discover_if : Bool → World → Foundation → Project → Result
unfolding recovered_spec discovered begin_operation
discover_if true w f p = recovered_spec f p
discover_if false w f p =
    let id = w.new_id p in
    let q = begin_operation id "council_discovery" p in discovered f id q (f.discover q)

unfoldable pub ensure_discovery : World → Foundation → Project → Result
unfolding transition discover_if has_valid_spec
ensure_discovery w f p =
    next (if same_state p.state idea_submitted then transition p p council_discovery else ok p)
      (λ q. discover_if (has_valid_spec q) w f q)
