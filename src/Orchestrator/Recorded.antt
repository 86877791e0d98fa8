-- ===== src/Orchestrator/Recorded.antt =====
-- The history under the orchestrator's methods, in any order.
use autonomous_dev_platform.Base.{
  Bool, true, false, not, subst, sym, ◌&&◌, ◌≡◌, refl, Option, none, some, String, [], ◌∷◌, ◌++◌,
  if◌then◌else◌,
}
use autonomous_dev_platform.States.{
  ProjectState, idea_submitted, ready_for_owner_review, failed, owner_approved, done,
  owner_changes_requested, council_discovery, is_owner_terminal, same_state, state_name,
}
use autonomous_dev_platform.Errors.{Thrown, ErrorRecord, to_error_record}
use autonomous_dev_platform.Project.{Project, OwnerReview}
use autonomous_dev_platform.Project.Runs.{Delivery}
use autonomous_dev_platform.Gate.MockPolicy.{current_delivery}
use autonomous_dev_platform.Delivery.Decisions.{
  OwnerDecision, approved, changes_requested, Decided, decided, rejected, record_owner_decision,
  apply_decision,
}
use autonomous_dev_platform.Delivery.Decisions.Once.{decision_inv}
use autonomous_dev_platform.Orchestrator.Operations.{fail_operation, current_operation}
use autonomous_dev_platform.Orchestrator.Transition.{
  ok, stored, transition, fail_project, with_failure, is_started, operation_id,
}
use autonomous_dev_platform.Orchestrator.History.{IsRecorded, walk}
use autonomous_dev_platform.Orchestrator.Requested.{request-Recorded}
use autonomous_dev_platform.Orchestrator.Founding.{
  ensure_discovery-Recorded, finish_provisioning-Recorded,
}
use autonomous_dev_platform.Orchestrator.Reviewing.{finish_review-Recorded}
use autonomous_dev_platform.Orchestrator.Foundation.{Foundation, ensure_discovery}
use autonomous_dev_platform.Orchestrator.Provision.{finish_provisioning}
use autonomous_dev_platform.Orchestrator.Review.{finish_review}
use autonomous_dev_platform.Orchestrator.Kept.{Recorded, branch, kept, thrown, moves, then_next}
use autonomous_dev_platform.Orchestrator.World.{World}
use autonomous_dev_platform.Orchestrator.Implementation.{request_cursor_run}
use autonomous_dev_platform.Orchestrator.Resume.{retry, retry_if}
use autonomous_dev_platform.Orchestrator.Owner.{
  approve, request_changes, owner_decides, owner_if, after_decision,
}

retry-Recorded : (p : Project) → IsRecorded p → Recorded (retry p)
unfolding retry retry_if
retry-Recorded p h = by_state (same_state p.state failed)
  where
    by_state : (b : Bool) → Recorded (retry_if p b)
    by_state true = moves p (record p { error = none }) _ h h
    by_state false = thrown _ _ h

failure_keeps : (e : ErrorRecord) (p : Project) → IsRecorded p → IsRecorded (with_failure e p)
unfolding with_failure fail_operation
failure_keeps e p h = by_case (is_started p.checkpoint)
  where
    by_case :
        (b : Bool)
        → let marked : Project = record p { error = some e; errors = p.errors ++ e ∷ [] } in
          IsRecorded
            (if b then fail_operation (operation_id (current_operation p)) e marked else marked)
    by_case true = h
    by_case false = h

fail-Recorded : (e : Thrown) (p : Project) → IsRecorded p → Recorded (fail_project e p)
unfolding fail_project
fail-Recorded e p h =
    let k = failure_keeps (to_error_record e (some (state_name p.state))) p h in
    let q = with_failure (to_error_record e (some (state_name p.state))) p in
    branch (not (same_state p.state failed) && not (is_owner_terminal p.state))
      (transition p q failed) (ok q) (moves p q failed h k) (kept q k)

decision_keeps :
    (p : Project) (d : Delivery) (decision : OwnerDecision) (r : OwnerReview)
    → IsRecorded p
    → IsRecorded (apply_decision p d decision r)
unfolding apply_decision
decision_keeps p d approved r h = h
decision_keeps p d changes_requested r h = h

by_decision :
    (p : Project) (d : Decided) (first second : ProjectState)
    → IsRecorded p
    → ((q : Project) (r : OwnerReview) → d ≡ decided q r → IsRecorded q)
    → Recorded (after_decision p d first second)
unfolding after_decision
by_decision p (rejected q e) first second h k = thrown p e h
by_decision p (decided q r) first second h k =
    then_next (moves p q first h (k q r refl)) (λ x hx. moves x x second hx hx)

accepted_keeps :
    (sha256 : String → String) (id : String) (p : Project) (decision : OwnerDecision)
    (feedback : Option String) (d : Option Delivery)
    → IsRecorded p
    → (q : Project) (r : OwnerReview)
    → record_owner_decision sha256 id p d decision feedback ≡ decided q r
    → IsRecorded q
unfolding record_owner_decision
accepted_keeps sha256 id p decision feedback none h q r e = cc
accepted_keeps sha256 id p decision feedback (some d) h q r e =
    let (same, review) = decision_inv sha256 id p decision feedback d e in
    subst IsRecorded (sym same) (decision_keeps p d decision _ h)

decides-Recorded :
    (sha256 : String → String) (id : String) (p : Project) (decision : OwnerDecision)
    (feedback : Option String) (first second : ProjectState)
    → IsRecorded p
    → Recorded (owner_decides sha256 id p decision feedback first second)
unfolding owner_decides owner_if
decides-Recorded sha256 id p decision feedback first second h =
    by_state (same_state p.state ready_for_owner_review)
  where
    by_state : (b : Bool) → Recorded (owner_if sha256 b id p decision feedback first second)
    by_state false = thrown p _ h
    by_state true =
        by_decision p (record_owner_decision sha256 id p (current_delivery p) decision feedback)
          first second h (accepted_keeps sha256 id p decision feedback (current_delivery p) h)

-- One call by the owner, of a retry, of a further run or of `fail`, with any arguments, or one of the
-- stages that a job runs, with any answers of the council and the provisioners.
pub data Call (w : World) (p : Project) : Project → Type 0 where
  approval : (id : String) → Call w p (stored (approve w.sha256 id p))
  changes :
      (id : String) (feedback : Option String)
      → Call w p (stored (request_changes w.sha256 id p feedback))
  retried : Call w p (stored (retry p))
  requested :
      (prompt : Option String) → Call w p (stored (request_cursor_run w none p p true prompt))
  failed_with : (error : Thrown) → Call w p (stored (fail_project error p))
  specifying : (f : Foundation) → Call w p (stored (ensure_discovery w f p))
  provisioning : (f : Foundation) → Call w p (stored (finish_provisioning w f none p))
  reviewing : Call w p (stored (finish_review w none p))

pub data Calls (w : World) (p : Project) : Project → Type 0 where
  here : Calls w p p
  then_call : {q r : Project} → Calls w p q → Call w q r → Calls w p r

Call-IsRecorded : (w : World) {p q : Project} → Call w p q → IsRecorded p → IsRecorded q
unfolding approve request_changes
Call-IsRecorded w {p} (approval id) h =
    (decides-Recorded w.sha256 id p approved none owner_approved done h).proof
Call-IsRecorded w {p} (changes id feedback) h =
    (decides-Recorded w.sha256 id p changes_requested feedback owner_changes_requested
      council_discovery h).proof
Call-IsRecorded w {p} retried h = (retry-Recorded p h).proof
Call-IsRecorded w {p} (requested prompt) h = (request-Recorded w p p prompt h h).proof
Call-IsRecorded w {p} (failed_with error) h = (fail-Recorded error p h).proof
Call-IsRecorded w {p} (specifying f) h = (ensure_discovery-Recorded w f p h).proof
Call-IsRecorded w {p} (provisioning f) h = (finish_provisioning-Recorded w f p h).proof
Call-IsRecorded w {p} reviewing h = (finish_review-Recorded w p h).proof

-- Whatever calls of the owner, retries, requests for a further run, failures, and stages of discovery,
-- provisioning and review that jobs run, a stored project goes through, its history still leads from
-- IDEA_SUBMITTED to its state, every entry legal by the transition table and starting where the one
-- before it ended.
pub history_stays_legal :
    (w : World) {p q : Project}
    → Calls w p q
    → walk idea_submitted p.history p.state ≡ true
    → walk idea_submitted q.history q.state ≡ true
history_stays_legal w here h = h
history_stays_legal w (then_call before call) h =
    Call-IsRecorded w call (history_stays_legal w before h)
