-- ===== src/Orchestrator/Implementation.antt =====
-- `requestCursorRun` of orchestrator/orchestrator.js: the start of the next iteration.
use autonomous_dev_platform.Base.{
  ◌+◌, Bool, true, false, not, ◌&&◌, leb, Option, none, some, String, or_else, if◌then◌else◌,
}
use autonomous_dev_platform.States.{cursor_executing, same_state, state_name}
use autonomous_dev_platform.Errors.{
  Thrown, platform_error, known, provisioning_failed, max_iterations_reached,
}
use autonomous_dev_platform.Project.{Project, Spec}
use autonomous_dev_platform.Project.Latest.{needs_provisioning, provisioning_succeeded}
use autonomous_dev_platform.Orchestrator.Transition.{Result, ok, raised, next, transition}
use autonomous_dev_platform.Orchestrator.World.{World}

abbrev spec_prompt : Option Spec → Option String
spec_prompt none = none
spec_prompt (some s) = s.cursor_prompt

-- The prompt of the run: the given one, the project's own, or the specification's.
abbrev pub with_prompt : Option String → Project → Project
with_prompt prompt p = record p {
  active_prompt = or_else (or_else prompt p.active_prompt) (spec_prompt p.council.spec);
}

abbrev pub unprovisioned : Project → Thrown
unfolding platform_error state_name
unprovisioned p =
    platform_error (some (known provisioning_failed)) (some (state_name p.state)) (some true)

abbrev pub exhausted : Project → Thrown
unfolding platform_error state_name
exhausted p =
    platform_error (some (known max_iterations_reached)) (some (state_name p.state)) (some false)

abbrev pub incremented : Bool → Project → Project
incremented increment p = record p {
  iteration = if increment then p.iteration + 1 else p.iteration;
}

abbrev pub then_execute : Option (Project → Result) → Result → Result
then_execute none r = r
then_execute (some f) r = next r f

-- `execute` runs the agent and goes on to the platform's verification; it is absent where the caller
-- leaves that to a job. `saved` is the stored document, `p` the one in memory.
unfoldable pub request_cursor_run :
    World → Option (Project → Result) → Project → Project → Bool → Option String → Result
unfolding transition needs_provisioning provisioning_succeeded unprovisioned exhausted
request_cursor_run w execute saved p increment prompt =
    let ready = with_prompt prompt (incremented increment p) in
    if needs_provisioning p && not (provisioning_succeeded p)
    then raised saved (unprovisioned p)
    else if increment && leb w.max_iterations p.iteration
    then raised saved (exhausted p)
    else then_execute execute (
        if not (same_state p.state cursor_executing)
        then transition saved ready cursor_executing
        else ok ready)
