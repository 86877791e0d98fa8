-- ===== src/Orchestrator/Requested.antt =====
-- The history under a request for a further run.
use autonomous_dev_platform.Base.{true, not, leb, ◌&&◌, Option, none, String}
use autonomous_dev_platform.States.{cursor_executing, same_state}
use autonomous_dev_platform.Project.{Project}
use autonomous_dev_platform.Project.Latest.{needs_provisioning, provisioning_succeeded}
use autonomous_dev_platform.Orchestrator.Transition.{ok, transition}
use autonomous_dev_platform.Orchestrator.History.{IsRecorded}
use autonomous_dev_platform.Orchestrator.Kept.{Recorded, branch, kept, thrown, moves}
use autonomous_dev_platform.Orchestrator.World.{World}
use autonomous_dev_platform.Orchestrator.Implementation.{
  request_cursor_run, with_prompt, incremented, unprovisioned, exhausted,
}

pub request-Recorded :
    (w : World) (saved p : Project) (prompt : Option String)
    → IsRecorded saved
    → IsRecorded p
    → Recorded (request_cursor_run w none saved p true prompt)
unfolding request_cursor_run
request-Recorded w saved p prompt s h =
    let ready = with_prompt prompt (incremented true p) in
    let moving = moves saved ready cursor_executing s h in
    let last_step =
      branch (not (same_state p.state cursor_executing)) (transition saved ready cursor_executing)
        (ok ready) moving (kept ready h) in
    branch (needs_provisioning p && not (provisioning_succeeded p)) _ _
      (thrown saved (unprovisioned p) s)
      (branch (leb w.max_iterations p.iteration) _ _ (thrown saved (exhausted p) s) last_step)
