-- ===== src/Orchestrator/Founding.antt =====
-- The history under the stages that build a project's foundation and review it.
use autonomous_dev_platform.Base.{Bool, true, false, not, ◌&&◌, ◌||◌, Option, none, some, String}
use autonomous_dev_platform.States.{
  idea_submitted, council_discovery, specification_ready, project_provisioning, cursor_executing,
  same_state,
}
use autonomous_dev_platform.Errors.{Thrown}
use autonomous_dev_platform.Project.{Project, Spec, PendingFeedback}
use autonomous_dev_platform.Project.Latest.{needs_provisioning, provisioning_succeeded}
use autonomous_dev_platform.Gate.{has_valid_spec}
use autonomous_dev_platform.Orchestrator.Operations.{
  begin_operation, complete_operation, fail_operation,
}
use autonomous_dev_platform.Orchestrator.Transition.{Result, ok, raised}
use autonomous_dev_platform.Orchestrator.History.{IsRecorded}
use autonomous_dev_platform.Orchestrator.Kept.{Recorded, branch, kept, thrown, moves, then_next}
use autonomous_dev_platform.Orchestrator.World.{World, Answer, answered, refused}
use autonomous_dev_platform.Orchestrator.Foundation.{
  Foundation, Provisioned, planned_if, apply_owner_feedback, discovery_failed, caught_discovery,
  discovered, recovered_spec, discover_if, ensure_discovery, specified, with_spec, spec_prompted,
  invalid_spec, interpreted_feedback,
}
use autonomous_dev_platform.Orchestrator.Provision.{
  apply_provisioning_result, provisioning_stopped, caught_provisioning, start_implementation,
  provisioned, provision_now, finish_provisioning,
}

begin_keeps :
    (id type : String) (p : Project) → IsRecorded p → IsRecorded (begin_operation id type p)
unfolding begin_operation
begin_keeps id type p h = h

complete_keeps :
    (id : Option String) (p : Project) → IsRecorded p → IsRecorded (complete_operation id p)
unfolding complete_operation
complete_keeps id p h = h

discovery_failed-Recorded :
    (id : String) (p : Project) (e : Thrown) → IsRecorded p → Recorded (discovery_failed id p e)
unfolding discovery_failed fail_operation
discovery_failed-Recorded id p e h = thrown _ _ h

planned-Recorded :
    (b : Bool) (error : Option Thrown) (failing : Project → Thrown → Result) (p : Project)
    (go : Project → Result)
    → IsRecorded p
    → ((q : Project) (e : Thrown) → IsRecorded q → Recorded (failing q e))
    → ((q : Project) → IsRecorded q → Recorded (go q))
    → Recorded (planned_if b error failing p go)
planned-Recorded false error failing p go h k l = l p h
planned-Recorded true none failing p go h k l = l _ h
planned-Recorded true (some e) failing p go h k l = k p e h

caught-Recorded :
    (id : String) (p : Project) (r : Result)
    → IsRecorded p
    → Recorded r
    → Recorded (caught_discovery id p r)
unfolding caught_discovery
caught-Recorded id p (ok q) h k = k
caught-Recorded id p (raised saved e) h k = discovery_failed-Recorded id p e h

specified-Recorded :
    (id : String) (saved p : Project)
    → IsRecorded saved
    → IsRecorded p
    → Recorded (specified id saved p)
unfolding specified
specified-Recorded id saved p s h =
    let q = complete_operation (some id) p in
    caught-Recorded id q _ (complete_keeps (some id) p h)
      (moves saved q specification_ready s (complete_keeps (some id) p h))

discovered-Recorded :
    (f : Foundation) (id : String) (p : Project) (a : Answer (Option Spec))
    → IsRecorded p
    → Recorded (discovered f id p a)
unfolding discovered
discovered-Recorded f id p (refused e) h = discovery_failed-Recorded id p e h
discovered-Recorded f id p (answered spec) h =
    let q = with_spec spec p in
    let r = spec_prompted spec q in
    branch (not (has_valid_spec q)) _ _ (discovery_failed-Recorded id q invalid_spec h) (
      planned-Recorded (needs_provisioning r && not r.provisioning_plan) (f.plan r)
        (discovery_failed id) r (specified id p) h (discovery_failed-Recorded id)
        (λ x hx. specified-Recorded id p x h hx))

interpreted_keeps :
    (f : Foundation) (p : Project) (o : Option PendingFeedback)
    → IsRecorded p
    → IsRecorded (interpreted_feedback f p o)
interpreted_keeps f p none h = h
interpreted_keeps f p (some pending) h = h

recovered-Recorded : (f : Foundation) (p : Project) → IsRecorded p → Recorded (recovered_spec f p)
unfolding recovered_spec apply_owner_feedback
recovered-Recorded f p h =
    let q = apply_owner_feedback f p in
    let k = interpreted_keeps f p p.pending_owner_feedback h in
    branch (same_state q.state council_discovery) _ _ (moves q q specification_ready k k) (kept q k)

discover-Recorded :
    (b : Bool) (w : World) (f : Foundation) (p : Project)
    → IsRecorded p
    → Recorded (discover_if b w f p)
unfolding discover_if
discover-Recorded true w f p h = recovered-Recorded f p h
discover-Recorded false w f p h =
    let q = begin_operation (w.new_id p) "council_discovery" p in
    discovered-Recorded f (w.new_id p) q (f.discover q)
      (begin_keeps (w.new_id p) "council_discovery" p h)

pub ensure_discovery-Recorded :
    (w : World) (f : Foundation) (p : Project) → IsRecorded p → Recorded (ensure_discovery w f p)
unfolding ensure_discovery
ensure_discovery-Recorded w f p h =
    then_next
      (branch (same_state p.state idea_submitted) _ _ (moves p p council_discovery h h) (kept p h))
      (λ q k. discover-Recorded (has_valid_spec q) w f q k)

stopped-Recorded :
    (id : String) (p : Project) (e : Thrown) → IsRecorded p → Recorded (provisioning_stopped id p e)
unfolding provisioning_stopped fail_operation
stopped-Recorded id p e h = thrown _ _ h

provisioning_caught : (id : String) (r : Result) → Recorded r → Recorded (caught_provisioning id r)
unfolding caught_provisioning
provisioning_caught id (ok p) h = h
provisioning_caught id (raised p e) h = stopped-Recorded id p e h.proof

applied_keeps :
    (f : Foundation) (p : Project) (r : Provisioned)
    → IsRecorded p
    → IsRecorded (apply_provisioning_result f p r)
unfolding apply_provisioning_result
applied_keeps f p r h = h

-- Where the agent's run is left to a job.
module _ (w : World) (f : Foundation) where
  started-Recorded : (p : Project) → IsRecorded p → Recorded (start_implementation w none p)
  unfolding start_implementation
  started-Recorded p h = moves p p cursor_executing h h

  provisioned-Recorded :
      (id : String) (p : Project) (a : Answer Provisioned)
      → IsRecorded p
      → Recorded (provisioned w f none id p a)
  unfolding provisioned
  provisioned-Recorded id p (refused e) h = stopped-Recorded id p e h
  provisioned-Recorded id p (answered r) h = provisioning_caught id _ (
      started-Recorded _
        (complete_keeps (some id) (apply_provisioning_result f p r) (applied_keeps f p r h)))

  provision-Recorded : (p : Project) → IsRecorded p → Recorded (provision_now w f none p)
  unfolding provision_now
  provision-Recorded p h =
      let id = w.new_id p in
      let q = begin_operation id "project_provisioning" p in
      planned-Recorded (not q.provisioning_plan) (f.plan q) (provisioning_stopped id) q
        (λ r. provisioned w f none id r (f.provision r)) (begin_keeps id "project_provisioning" p h)
        (stopped-Recorded id) (λ r k. provisioned-Recorded id r (f.provision r) k)

  pub finish_provisioning-Recorded :
      (p : Project) → IsRecorded p → Recorded (finish_provisioning w f none p)
  unfolding finish_provisioning
  finish_provisioning-Recorded p h =
      branch (provisioning_succeeded p) _ _
        (branch (same_state p.state project_provisioning || same_state p.state specification_ready)
          _ _ (started-Recorded p h) (kept p h))
        (then_next
          (branch (same_state p.state specification_ready) _ _ (moves p p project_provisioning h h)
            (kept p h))
          provision-Recorded)
