-- ===== src/Orchestrator/Examples.antt =====
-- The orchestrator on concrete projects.
use autonomous_dev_platform.Base.{
  ◌+◌, ◌≤◌, true, false, not, ◌&&◌, ◌≡◌, refl, none, some, String, [], ◌∷◌, ◌++◌, ◌==◌, map, trim,
  or_text, if◌then◌else◌,
}
use autonomous_dev_platform.States.{
  idea_submitted, council_discovery, failed, council_review, delivery_preparation,
  ready_for_owner_review, owner_approved, owner_changes_requested, done, cursor_executing,
  is_legal_transition,
}
use autonomous_dev_platform.Errors.{Thrown, known, provider_timeout}
use autonomous_dev_platform.Project.{Project, Review, Completion}
use autonomous_dev_platform.Project.Runs.{Delivery}
use autonomous_dev_platform.Project.Samples.{
  sample_project, sample_delivery, sample_verification_run,
}
use autonomous_dev_platform.Project.Latest.{
  latest_verification_run, needs_provisioning, provisioning_succeeded,
}
use autonomous_dev_platform.Gate.{
  review_for_iteration, has_valid_spec, valid_spec, platform_reasons, runtime_reasons,
  visual_reasons,
}
use autonomous_dev_platform.Gate.Canonical.{is_canonical_evidence}
use autonomous_dev_platform.Gate.Security.{security_reasons}
use autonomous_dev_platform.Gate.Completion.{delivery_reasons, review_decides}
use autonomous_dev_platform.Gate.MockPolicy.{
  current_delivery, collect_real_project_mock_violations, collect_deterministic_visual_violations,
}
use autonomous_dev_platform.Delivery.Lineage.{
  delivery_is_current, final_checkpoint_sha, verification_set_hash,
}
use autonomous_dev_platform.Delivery.Decisions.{
  approved, changes_requested, apply_decision, review_of, record_owner_decision, feedback_text,
  lacks_feedback,
}
use autonomous_dev_platform.Delivery.Decisions.Once
use autonomous_dev_platform.Orchestrator.World.{World, answered, refused}
use autonomous_dev_platform.Orchestrator.Transition.{ok, raised, moved, stored, fail_project}
use autonomous_dev_platform.Orchestrator.Resume.{retry, resume_target}
use autonomous_dev_platform.Orchestrator.Retry
use autonomous_dev_platform.Orchestrator.Owner.{approve, request_changes}
use autonomous_dev_platform.Orchestrator.Approval
use autonomous_dev_platform.Orchestrator.Implementation.{request_cursor_run}
use autonomous_dev_platform.Orchestrator.Release.{finish_delivery, owner_gate}
use autonomous_dev_platform.Orchestrator.Released
use autonomous_dev_platform.Orchestrator.Review.{finish_review, judged, reviewed, correction_prompt}
use autonomous_dev_platform.Orchestrator.Overruled
use autonomous_dev_platform.Orchestrator.History.{walk}
use autonomous_dev_platform.Orchestrator.Recorded

abbrev sha256 : String → String
sha256 s = s

abbrev delivery : Delivery
delivery = sample_delivery "READY" "abc:v1:PASS:r1:PASS:w1:COMPLETE:PASS"

abbrev ready : Project
ready = record (sample_project (some delivery)) { state = ready_for_owner_review }

abbrev preparing : Project
preparing = record (sample_project (some delivery)) { state = delivery_preparation }

abbrev crashed : Project
crashed = record (sample_project none) { state = failed }

abbrev blocking : Project
blocking = record (sample_project none) {
  state = council_review;
  verification_runs =
      record sample_verification_run {
        blocking_failures = record { code = some "TEST_FAILED" } ∷ [];
      }
      ∷ [];
}

abbrev complete_review : Review
complete_review = record {
  iteration = 1;
  decision = some record { decision = some "COMPLETE"; next_cursor_prompt = none };
}

abbrev timeout : Thrown
timeout = record {
  is_platform = true;
  code = some (known provider_timeout);
  phase = none;
  retryable = some true;
}

abbrev world : World
world = record {
  demo = false;
  max_iterations = 12;
  environment = record { security_profile = none; demo_mode = false };
  pending_revocation = λ p. false;
  sha256 = sha256;
  new_id = λ p. "o1";
  review = λ p. refused timeout;
  final_verify = λ p. refused timeout;
  prompt_from_verification = λ v. "Fix the verified failures.";
  prompt_from_runtime = λ r. "Fix the failing scenarios.";
  prompt_from_visual = λ v r. "Fix the visual issues.";
  prompt_from_findings = λ p. "Fix all material findings.";
  prompt_from_blockers = λ p. "Resolve release blockers.";
  prepare_delivery = λ p. answered p;
  notify = λ p. none;
}

may_approve : Once.may_decide sha256 ready (some delivery) approved none ≡ true
unfolding delivery_is_current final_checkpoint_sha verification_set_hash lacks_feedback
may_approve = refl

may_request : Once.may_decide sha256 ready (some delivery) changes_requested (some "Bigger") ≡ true
unfolding delivery_is_current final_checkpoint_sha verification_set_hash lacks_feedback
    feedback_text
may_request = refl

the_delivery : current_delivery ready ≡ some delivery
unfolding current_delivery
the_delivery = refl

decision_accepted_example :
    Once.is_decided (record_owner_decision sha256 "o1" ready (some delivery) approved none)
    ≡ Once.may_decide sha256 ready (some delivery) approved none
decision_accepted_example = Once.decision_accepted sha256 "o1" ready approved none (some delivery)

decided_once_example :
    Once.is_decided (
      record_owner_decision sha256 "o2"
        (apply_decision ready delivery approved (review_of "o1" delivery approved none))
        (some delivery)
        changes_requested
        (some "Bigger"))
    ≡ false
decided_once_example =
    Once.decided_once sha256 "o1" "o2" ready delivery delivery approved changes_requested none
      (some "Bigger") (Once.decision_outcome sha256 "o1" ready delivery approved none may_approve)
      refl

approve_completes_example :
    (q : Project) × (c : Completion) × (approve sha256 "o1" ready ≡ ok q)
    × (q.state ≡ done)
    × (q.history
        ≡ (ready.history ++ record { from = ready.state; to = owner_approved } ∷ [])
          ++ record { from = owner_approved; to = done } ∷ [])
    × (q.deliveries
        ≡ map
            (λ x.
              if x.id == delivery.id then record x { status = "APPROVED"; current = true } else x)
            ready.deliveries)
    × (q.owner_reviews
        ≡ ready.owner_reviews
          ++ record { id = "o1"; delivery_id = delivery.id; decision = "APPROVED"; feedback = none }
            ∷ [])
    × (q.completion ≡ some c)
    × (c.delivery_version ≡ delivery.version)
    × (c.final_checkpoint ≡ delivery.checkpoint_sha)
    × (c.owner_review_id ≡ "o1")
approve_completes_example =
    Approval.approve_completes sha256 "o1" ready delivery refl the_delivery may_approve

request_changes_restarts_example :
    (q : Project) × (request_changes sha256 "o1" ready (some "Bigger") ≡ ok q)
    × (q.state ≡ council_discovery)
    × (q.history
        ≡ (ready.history ++ record { from = ready.state; to = owner_changes_requested } ∷ [])
          ++ record { from = owner_changes_requested; to = council_discovery } ∷ [])
    × (q.deliveries
        ≡ map
            (λ x.
              if x.id == delivery.id
              then record x { status = "SUPERSEDED"; current = false }
              else x)
            ready.deliveries)
    × (q.owner_reviews
        ≡ ready.owner_reviews
          ++ record {
            id = "o1";
            delivery_id = delivery.id;
            decision = "CHANGES_REQUESTED";
            feedback = some (trim (or_text (some "Bigger") ""));
          }
            ∷ [])
    × (q.pending_owner_feedback
        ≡ some record {
          review_id = "o1";
          delivery_id = delivery.id;
          feedback = some (trim (or_text (some "Bigger") ""));
        })
request_changes_restarts_example =
    Approval.request_changes_restarts sha256 "o1" ready delivery (some "Bigger") refl the_delivery
      may_request

approve_refused_example :
    (error : Thrown) × (approve sha256 "o1" preparing ≡ raised preparing error)
approve_refused_example = Approval.approve_refused sha256 "o1" preparing refl

resume_skips_nothing_example :
    (Retry.has_inputs crashed (resume_target crashed) ≡ true)
    × (is_legal_transition failed (resume_target crashed) ≡ true)
resume_skips_nothing_example = Retry.resume_skips_nothing crashed

retry_resumes_example :
    retry crashed ≡ ok (moved (Retry.cleared crashed) (resume_target (Retry.cleared crashed)))
retry_resumes_example = Retry.retry_resumes crashed refl

-- A council that finds nothing wrong.
abbrev content : World
content = record world {
  review = λ p. answered (some record { decision = some "COMPLETE"; next_cursor_prompt = none });
}

abbrev unreviewed : Project
unreviewed = record blocking { council = record blocking.council { reviews = [] } }

abbrev just_reviewed : Project
just_reviewed = stored (reviewed content unreviewed)

council_reviews : reviewed content unreviewed ≡ ok just_reviewed
unfolding reviewed review_for_iteration
council_reviews = refl

is_blocked : Overruled.is_blocked just_reviewed ≡ true
unfolding reviewed review_for_iteration latest_verification_run
is_blocked = refl

findings_overrule_review_example :
    (review_decides
        (review_for_iteration
          (judged content just_reviewed)
          (judged content just_reviewed).iteration)
        "CHANGES_REQUIRED"
      ≡ true)
    × (finish_review content none unreviewed
        ≡ request_cursor_run content none just_reviewed
            (judged content just_reviewed)
            true
            (correction_prompt content (judged content just_reviewed)))
unfolding reviewed review_for_iteration
findings_overrule_review_example =
    Overruled.findings_overrule_review content none unreviewed just_reviewed complete_review
      council_reviews refl refl refl refl is_blocked

abbrev next_run : Project
next_run = moved (record blocking { iteration = 2; active_prompt = some "Go on" }) cursor_executing

requests : request_cursor_run world none blocking blocking true (some "Go on") ≡ ok next_run
unfolding request_cursor_run
requests = refl

next_iteration_bounded_example :
    (next_run.iteration ≡ blocking.iteration + 1)
    × (next_run.iteration ≤ 12)
    × (next_run.state ≡ cursor_executing)
    × ((needs_provisioning blocking && not (provisioning_succeeded blocking)) ≡ false)
next_iteration_bounded_example =
    Overruled.next_iteration_bounded world blocking blocking next_run (some "Go on") requests

abbrev delivered : Project
delivered = moved preparing ready_for_owner_review

delivers : finish_delivery world preparing preparing ≡ ok delivered
unfolding finish_delivery collect_real_project_mock_violations has_valid_spec valid_spec
    is_canonical_evidence platform_reasons runtime_reasons visual_reasons
    collect_deterministic_visual_violations security_reasons delivery_reasons final_checkpoint_sha
    verification_set_hash
delivers = refl

finish_delivery_gated_example :
    (r : Project) × (answered preparing ≡ answered r)
    × ((owner_gate world r).ok ≡ true)
    × (delivered.state ≡ ready_for_owner_review)
    × (delivered.deliveries ≡ r.deliveries)
    × (delivered.verification_level ≡ (owner_gate world r).verification_level)
finish_delivery_gated_example =
    Released.finish_delivery_gated world preparing preparing delivered delivers

abbrev fresh : Project
fresh = record (sample_project none) { state = idea_submitted }

-- It fails, and is tried again.
abbrev broken : Project
broken = stored (fail_project timeout fresh)

abbrev revived : Project
revived = stored (retry broken)

is_revived : revived.state ≡ delivery_preparation
unfolding fail_project retry has_valid_spec valid_spec
is_revived = refl

history_stays_legal_example : walk idea_submitted revived.history revived.state ≡ true
history_stays_legal_example =
    Recorded.history_stays_legal world
      (Recorded.then_call (Recorded.then_call Recorded.here (Recorded.failed_with timeout))
        Recorded.retried)
      refl
