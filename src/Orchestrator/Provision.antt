-- ===== src/Orchestrator/Provision.antt =====
-- `enterProvisioning` and `finishProvisioning` of orchestrator/orchestrator.js, with
-- `applyProvisioningResult` of provision/pipeline.js: the foundation that a new project is built on.
use autonomous_dev_platform.Base.{
  true, not, ◌||◌, Option, none, some, String, [], ◌∷◌, ◌++◌, ◌==◌, if◌then◌else◌, or_text, truthy,
  select,
}
use autonomous_dev_platform.States.{
  specification_ready, project_provisioning, cursor_executing, same_state,
}
use autonomous_dev_platform.Errors.{
  Thrown, Code, known, other, platform_error, to_error_record, provisioning_failed,
}
use autonomous_dev_platform.Project.{Project, Repository}
use autonomous_dev_platform.Project.Runs.{Aspect, Evidence}
use autonomous_dev_platform.Project.Latest.{provisioning_succeeded, reads}
use autonomous_dev_platform.Reports.{create_evidence, aspect_of}
use autonomous_dev_platform.Orchestrator.Operations.{
  begin_operation, complete_operation, fail_operation,
}
use autonomous_dev_platform.Orchestrator.Transition.{Result, ok, raised, next, transition}
use autonomous_dev_platform.Orchestrator.World.{World, Answer, answered, refused}
use autonomous_dev_platform.Orchestrator.Implementation.{request_cursor_run}
use autonomous_dev_platform.Orchestrator.Foundation.{Foundation, Provisioned, planned_if}

abbrev empty_repository : Repository
empty_repository = record {
  repository_type = none;
  provisioning_baseline_sha = none;
  lifecycle_status = none;
}

abbrev or_repository : Option Repository → Repository
or_repository none = empty_repository
or_repository (some r) = r

abbrev provisioned_repository : Option String → Repository → Repository
provisioned_repository sha r = record r {
  repository_type = some "PROVISIONED_NEW_PROJECT";
  provisioning_baseline_sha = sha;
}

abbrev provisioning_aspect : Provisioned → Aspect
provisioning_aspect r =
    aspect_of (if reads r.run.status "PASS" then "PASS" else "FAIL")
      (or_text r.provenance "PLATFORM_VERIFIED")

abbrev with_provisioning : Provisioned → Option Evidence → Option Evidence
unfolding create_evidence
with_provisioning r none = none
with_provisioning r (some e) =
    some (create_evidence (record e { provisioning = some (provisioning_aspect r) }))

unfoldable pub apply_provisioning_result : Foundation → Project → Provisioned → Project
unfolding with_provisioning
apply_provisioning_result f p r =
    let q : Project = record p {
      provisioning_plan = r.plan || p.provisioning_plan;
      provisioning_runs = select (λ x. not (x.id == r.run.id)) p.provisioning_runs ++ (r.run ∷ []);
      provisioning = some record { status = r.run.status; baseline_sha = r.run.baseline_sha };
      repository =
          if truthy r.run.baseline_sha
          then some (provisioned_repository r.run.baseline_sha (or_repository p.repository))
          else p.repository;
    } in
    record q {
      active_prompt =
          if reads r.run.status "PASS"
          then some (f.provisioned_prompt q r.run)
          else q.active_prompt;
      evidence = with_provisioning r q.evidence;
    }

-- `error?.code || PROVISIONING_FAILED`
abbrev or_provisioning_failed : Option Code → Code
or_provisioning_failed none = known provisioning_failed
or_provisioning_failed (some (known c)) = known c
or_provisioning_failed (some (other s)) = if s == "" then known provisioning_failed else other s

unfoldable pub provisioning_error : Thrown → Thrown
unfolding platform_error
provisioning_error e =
    if e.is_platform
    then e
    else platform_error (some (or_provisioning_failed e.code)) (some "PROJECT_PROVISIONING")
        e.retryable

unfoldable pub provisioning_stopped : String → Project → Thrown → Result
unfolding fail_operation to_error_record provisioning_error
provisioning_stopped id p e =
    raised (fail_operation (some id) (to_error_record e (some "PROJECT_PROVISIONING")) p)
      (provisioning_error e)

-- An error of what follows is caught too. What it left in the store is the project in memory.
unfoldable pub caught_provisioning : String → Result → Result
unfolding provisioning_stopped
caught_provisioning id (ok p) = ok p
caught_provisioning id (raised p e) = provisioning_stopped id p e

-- With a queue the next job runs the agent, else `execute` does.
unfoldable pub start_implementation : World → Option (Project → Result) → Project → Result
unfolding transition request_cursor_run
start_implementation w none p = transition p p cursor_executing
start_implementation w (some execute) p = request_cursor_run w (some execute) p p true none

unfoldable pub provisioned :
    World → Foundation → Option (Project → Result) → String → Project → Answer Provisioned → Result
unfolding provisioning_stopped apply_provisioning_result complete_operation start_implementation
    caught_provisioning
provisioned w f execute id p (refused e) = provisioning_stopped id p e
provisioned w f execute id p (answered r) = caught_provisioning id (
    start_implementation w execute (complete_operation (some id) (apply_provisioning_result f p r)))

unfoldable pub provision_now : World → Foundation → Option (Project → Result) → Project → Result
unfolding begin_operation provisioned provisioning_stopped
provision_now w f execute p =
    let id = w.new_id p in
    let q = begin_operation id "project_provisioning" p in
    planned_if (not q.provisioning_plan) (f.plan q) (provisioning_stopped id) q
      (λ r. provisioned w f execute id r (f.provision r))

unfoldable pub finish_provisioning :
    World → Foundation → Option (Project → Result) → Project → Result
unfolding provisioning_succeeded start_implementation provision_now transition
finish_provisioning w f execute p =
    if provisioning_succeeded p
    then (if same_state p.state project_provisioning || same_state p.state specification_ready
        then start_implementation w execute p
        else ok p)
    else next
        (if same_state p.state specification_ready
          then transition p p project_provisioning
          else ok p)
        (provision_now w f execute)

unfoldable pub enter_provisioning :
    World → Foundation → Option (Project → Result) → Project → Result
unfolding transition finish_provisioning
enter_provisioning w f execute p =
    let entered =
      if not (same_state p.state project_provisioning)
      then transition p p project_provisioning
      else ok p in
    elim execute [ none ↦ entered | some run ↦ next entered (finish_provisioning w f (some run)) ]
