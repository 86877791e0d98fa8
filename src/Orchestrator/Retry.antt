-- ===== src/Orchestrator/Retry.antt =====
-- Where a retry resumes.
use autonomous_dev_platform.Base.{
  Bool, true, false, not, ◌&&◌, ◌||◌, ◌≡◌, refl, arith, is_some, Option, none, some, if◌then◌else◌,
  ap, sym, ◌∙◌, subst,
}
use autonomous_dev_platform.States.{
  ProjectState, failed, council_discovery, specification_ready, project_provisioning,
  cursor_executing, platform_verification, runtime_verification, visual_verification,
  council_review, final_verification, delivery_preparation, same_state, is_legal_transition,
}
use autonomous_dev_platform.Project.{Project}
use autonomous_dev_platform.Project.Runs.{CursorRun}
use autonomous_dev_platform.Project.Latest.{
  needs_provisioning, provisioning_succeeded, latest_verification_run, latest_cursor_run,
  latest_runtime_run, latest_visual_run,
}
use autonomous_dev_platform.Gate.{has_valid_spec, review_for_iteration}
use autonomous_dev_platform.Gate.Completion.{review_decides, final_decides, run_review}
use autonomous_dev_platform.Gate.Freshness.{should_skip_runtime, should_skip_visual}
use autonomous_dev_platform.Gate.MockPolicy.{current_delivery}
use autonomous_dev_platform.Orchestrator.Transition.{ok, moved, transition_legal}
use autonomous_dev_platform.Orchestrator.Resume.{
  resume_target, resume_by_run, resume_completed, completed_run, retry, retry_if,
  verification_completed, runtime_completed, visual_completed,
}

-- The states whose entry needs a specification and, for a new project, a provisioned foundation.
abbrev pub is_early : ProjectState → Bool
is_early council_discovery = true
is_early project_provisioning = true
is_early _ = false

-- The states behind a verification.
abbrev pub is_past_visual : ProjectState → Bool
is_past_visual council_review = true
is_past_visual final_verification = true
is_past_visual delivery_preparation = true
is_past_visual _ = false

abbrev pub is_past_runtime : ProjectState → Bool
is_past_runtime visual_verification = true
is_past_runtime s = is_past_visual s

abbrev pub is_past_platform : ProjectState → Bool
is_past_platform runtime_verification = true
is_past_platform s = is_past_runtime s

-- What the runs that count say of an agent's run: that its verification is complete, that its runtime
-- verification is, or needs not be, and so its visual one.
abbrev pub run_verified : Project → Option CursorRun → Bool
run_verified p none = false
run_verified p (some r) = verification_completed (latest_verification_run p r.iteration)

abbrev pub run_tried : Project → Option CursorRun → Bool
run_tried p none = false
run_tried p (some r) =
    should_skip_runtime p (latest_verification_run p r.iteration)
    || runtime_completed (latest_runtime_run p r.iteration)

abbrev pub run_seen : Project → Option CursorRun → Bool
run_seen p none = false
run_seen p (some r) =
    not (runtime_completed (latest_runtime_run p r.iteration))
    || should_skip_visual p (latest_runtime_run p r.iteration)
    || visual_completed (latest_visual_run p r.iteration)

-- The projects that hold what a state's own step starts from.
abbrev pub has_inputs : Project → ProjectState → Bool
has_inputs p s =
    (is_early s || has_valid_spec p && (not (needs_provisioning p) || provisioning_succeeded p))
    && (not (same_state s final_verification)
        || review_decides (run_review p (latest_cursor_run p)) "COMPLETE")
    && (not (same_state s delivery_preparation) || final_decides p.council.final "COMPLETE")
    && (not (is_past_platform s) || run_verified p (completed_run (latest_cursor_run p)))
    && (not (is_past_runtime s) || run_tried p (completed_run (latest_cursor_run p)))
    && (not (is_past_visual s) || run_seen p (completed_run (latest_cursor_run p)))

completed_inv : (o : Option CursorRun) {r : CursorRun} → completed_run o ≡ some r → o ≡ some r
completed_inv none h = cc
completed_inv (some r) h = ground arith

-- The targets of a project whose latest run has a result, by the tests that choose them.
ladder_inputs :
    (verified skips runtime_done hidden visual_done reviewed complete has_final final
      undelivered : Bool)
    → let s =
        if not verified
        then platform_verification
        else if not skips && not runtime_done
        then runtime_verification
        else if runtime_done && not hidden && not visual_done
        then visual_verification
        else if not reviewed
        then council_review
        else if complete && not has_final
        then final_verification
        else if final && undelivered
        then delivery_preparation
        else specification_ready in
      (is_early s ≡ false)
      × ((not (same_state s final_verification) || complete) ≡ true)
      × ((not (same_state s delivery_preparation) || final) ≡ true)
      × ((not (is_past_platform s) || verified) ≡ true)
      × ((not (is_past_runtime s) || (skips || runtime_done)) ≡ true)
      × ((not (is_past_visual s) || (not runtime_done || hidden || visual_done)) ≡ true)
      × (is_legal_transition failed s ≡ true)
unfolding is_legal_transition
ladder_inputs a b c d e f g h i j = ground arith

no_run_inputs :
    (b complete final verified tried seen : Bool)
    → let s = if b then cursor_executing else specification_ready in
      (is_early s ≡ false)
      × ((not (same_state s final_verification) || complete) ≡ true)
      × ((not (same_state s delivery_preparation) || final) ≡ true)
      × ((not (is_past_platform s) || verified) ≡ true)
      × ((not (is_past_runtime s) || tried) ≡ true)
      × ((not (is_past_visual s) || seen) ≡ true)
      × (is_legal_transition failed s ≡ true)
unfolding is_legal_transition
no_run_inputs b c f x y z = ground arith

by_run :
    (p : Project) (o : Option CursorRun)
    → ((r : CursorRun) → o ≡ some r → latest_cursor_run p ≡ some r)
    → let s = resume_by_run p o in
      (is_early s ≡ false)
      × ((not (same_state s final_verification)
            || review_decides (run_review p (latest_cursor_run p)) "COMPLETE")
          ≡ true)
      × ((not (same_state s delivery_preparation) || final_decides p.council.final "COMPLETE")
          ≡ true)
      × ((not (is_past_platform s) || run_verified p o) ≡ true)
      × ((not (is_past_runtime s) || run_tried p o) ≡ true)
      × ((not (is_past_visual s) || run_seen p o) ≡ true)
      × (is_legal_transition failed s ≡ true)
unfolding resume_by_run resume_completed
by_run p none h = no_run_inputs _ _ _ _ _ _
by_run p (some r) h =
    let runtime = latest_runtime_run p r.iteration in
    let review = review_for_iteration p r.iteration in
    rw (h r refl) (
      ladder_inputs (verification_completed (latest_verification_run p r.iteration))
        (should_skip_runtime p (latest_verification_run p r.iteration)) (runtime_completed runtime)
        (should_skip_visual p runtime) (visual_completed (latest_visual_run p r.iteration))
        (is_some review) (review_decides review "COMPLETE") (is_some p.council.final)
        (final_decides p.council.final "COMPLETE") (not (is_some (current_delivery p))))

inputs_outcome :
    (p : Project) (spec needs done : Bool) (s : ProjectState)
    (complete final verified tried seen : Bool)
    → (is_early s ≡ false)
      × ((not (same_state s final_verification) || complete) ≡ true)
      × ((not (same_state s delivery_preparation) || final) ≡ true)
      × ((not (is_past_platform s) || verified) ≡ true)
      × ((not (is_past_runtime s) || tried) ≡ true)
      × ((not (is_past_visual s) || seen) ≡ true)
      × (is_legal_transition failed s ≡ true)
    → let t =
        if not spec
        then council_discovery
        else if needs && not done
        then project_provisioning
        else s in
      (((is_early t || spec && (not needs || done))
          && (not (same_state t final_verification) || complete)
          && (not (same_state t delivery_preparation) || final)
          && (not (is_past_platform t) || verified)
          && (not (is_past_runtime t) || tried)
          && (not (is_past_visual t) || seen))
        ≡ true)
      × (is_legal_transition failed t ≡ true)
unfolding is_legal_transition
inputs_outcome p spec needs done s complete final verified tried seen h = ground arith

-- The state in which a retry resumes can legally follow FAILED. Beyond discovery and provisioning it
-- needs a valid specification and, for a new project, a provisioned foundation. Beyond the platform
-- verification it needs a latest run of the agent with a result, and a verification run that is
-- complete; beyond the runtime and the visual verification it needs those complete too, or a reason to
-- skip them: of each kind the run that counts is the last one of the agent's iteration, or the last one
-- of all where that iteration has none. The final verification needs a review of the agent's iteration
-- that decides COMPLETE, the preparation of the delivery a final verification that decides COMPLETE.
pub resume_skips_nothing :
    (p : Project)
    → (has_inputs p (resume_target p) ≡ true)
      × (is_legal_transition failed (resume_target p) ≡ true)
unfolding resume_target
resume_skips_nothing p =
    inputs_outcome p (has_valid_spec p) (needs_provisioning p) (provisioning_succeeded p)
      (resume_by_run p (completed_run (latest_cursor_run p)))
      (review_decides (run_review p (latest_cursor_run p)) "COMPLETE")
      (final_decides p.council.final "COMPLETE")
      (run_verified p (completed_run (latest_cursor_run p)))
      (run_tried p (completed_run (latest_cursor_run p)))
      (run_seen p (completed_run (latest_cursor_run p)))
      (by_run p (completed_run (latest_cursor_run p))
        (λ r e. completed_inv (latest_cursor_run p) e))

-- The project without its unresolved error.
abbrev pub cleared : Project → Project
cleared p = record p { error = none }

-- A retry of a failed project is never refused: it clears the error and resumes.
pub retry_resumes :
    (p : Project) → p.state ≡ failed → retry p ≡ ok (moved (cleared p) (resume_target (cleared p)))
unfolding retry retry_if
retry_resumes p h =
    let legal : is_legal_transition (cleared p).state (resume_target (cleared p)) ≡ true =
      subst (λ (s : ProjectState). is_legal_transition s (resume_target (cleared p)) ≡ true) (sym h)
        (resume_skips_nothing (cleared p)).1 in
    ap (retry_if p) (ap (λ (s : ProjectState). same_state s failed) h)
    ∙ transition_legal p (cleared p) (resume_target (cleared p)) legal
