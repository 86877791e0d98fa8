-- ===== src/Orchestrator/Observation.antt =====
-- The runtime and the visual verification in orchestrator/orchestrator.js, `finishRuntimeVerification`
-- and `finishVisualVerification` with what follows them, and the runs that they use again
-- (runtime/pipeline.js, visual/pipeline.js). The runs themselves are arguments: they start the
-- application, a browser and a vision model.
use autonomous_dev_platform.Base.{
  Bool, not, ◌&&◌, ◌||◌, Option, none, some, String, List, [], ◌∷◌, ◌++◌, ◌==◌, eqb, if◌then◌else◌,
  find, select, or_else, or_object, same_text,
}
use autonomous_dev_platform.States.{visual_verification, council_review, same_state}
use autonomous_dev_platform.Errors.{Thrown, to_error_record, runtime_crash, visual_review_failed}
use autonomous_dev_platform.Project.{Project}
use autonomous_dev_platform.Project.Runs.{CursorRun, Evidence, RuntimeRun, VisualRun}
use autonomous_dev_platform.Project.Latest.{
  reads, run_sha, latest_cursor_run, latest_runtime_run, latest_visual_run,
}
use autonomous_dev_platform.Gate.Freshness.{should_skip_visual}
use autonomous_dev_platform.Orchestrator.Operations.{
  begin_operation, complete_operation, fail_operation,
}
use autonomous_dev_platform.Orchestrator.Transition.{Result, ok, raised, next, transition}
use autonomous_dev_platform.Orchestrator.World.{World, Answer, answered, refused, wrapped}
use autonomous_dev_platform.Orchestrator.Review.{runtime_blocks}

pub record Observer : Type 0 where
  pub run_runtime : Project → Answer RuntimeRun  -- `runRuntimeVerification`
  pub run_visual : Project → Answer VisualRun  -- `runVisualVerification`

-- `item.checkpointSha === sha`, where a run without one has `null`.
unfoldable pub is_reusable_runtime : Project → RuntimeRun → Bool
is_reusable_runtime p r =
    eqb r.iteration p.iteration
    && (same_text r.checkpoint_sha (run_sha (latest_cursor_run p))
        && (reads r.status "PASS" && r.completed))

unfoldable pub find_reusable_runtime : Project → Option RuntimeRun
unfolding is_reusable_runtime
find_reusable_runtime p = find (is_reusable_runtime p) p.runtime_runs

unfoldable pub is_reusable_visual : RuntimeRun → VisualRun → Bool
is_reusable_visual runtime v =
    reads v.runtime_run_id runtime.id
    && (same_text v.screenshot_set_hash runtime.screenshot_set_hash
        && (reads v.decision "COMPLETE" && v.completed))

abbrev reusable_for : Option RuntimeRun → List VisualRun → Option VisualRun
unfolding is_reusable_visual
reusable_for none runs = none
reusable_for (some runtime) runs = find (is_reusable_visual runtime) runs

unfoldable pub find_reusable_visual : Project → Option VisualRun
unfolding reusable_for latest_runtime_run
find_reusable_visual p = reusable_for (latest_runtime_run p p.iteration) p.visual_review_runs

abbrev cursor_sha : Option CursorRun → Option String
cursor_sha none = none
cursor_sha (some run) = run.checkpoint_sha

-- `existing.checkpointSha === (latestCursorRun(project)?.checkpointSha || existing.checkpointSha)`
abbrev pub is_of_checkpoint : Project → Option String → Bool
is_of_checkpoint p sha = same_text sha (or_else (cursor_sha (latest_cursor_run p)) sha)

abbrev last_with : (CursorRun → CursorRun) → List CursorRun → List CursorRun
last_with f [] = []
last_with f (r ∷ []) = f r ∷ []
last_with f (r ∷ (s ∷ rs)) = r ∷ last_with f (s ∷ rs)

-- The evidence of a run becomes the project's, and that of the latest run of the agent.
abbrev pub with_patch : Option Evidence → Project → Project
with_patch none p = p
with_patch (some e) p = record p {
  evidence = some e;
  cursor_runs = last_with (λ r. record r { evidence = some e }) p.cursor_runs;
}

abbrev pub with_visual : VisualRun → Project → Project
with_visual v p = record p {
  visual_review_runs = select (λ x. not (x.id == v.id)) p.visual_review_runs ++ (v ∷ []);
}

abbrev pub with_runtime : RuntimeRun → Project → Project
with_runtime r p = record p {
  runtime_runs = select (λ x. not (x.id == r.id)) p.runtime_runs ++ (r ∷ []);
}

abbrev pub reused_evidence : Option Evidence → Project → Project
reused_evidence patch p = record p { evidence = or_object patch p.evidence }

unfoldable pub visual_failed : String → Project → Thrown → Result
unfolding fail_operation to_error_record wrapped
visual_failed id p e =
    raised (fail_operation (some id) (to_error_record e (some "VISUAL_VERIFICATION")) p)
      (wrapped e visual_review_failed "VISUAL_VERIFICATION")

-- The last transition stands within what is caught.
unfoldable pub caught_visual : String → Project → Result → Result
unfolding visual_failed
caught_visual id p (ok q) = ok q
caught_visual id p (raised saved e) = visual_failed id p e

unfoldable pub visual_done : String → Project → Answer VisualRun → Result
unfolding visual_failed caught_visual complete_operation transition
visual_done id p (refused e) = visual_failed id p e
visual_done id p (answered v) =
    let q = complete_operation (some id) (with_patch v.evidence_patch (with_visual v p)) in
    caught_visual id q (transition q q council_review)

unfoldable pub visual_now : World → Observer → Project → Result
unfolding begin_operation visual_done
visual_now w o p =
    let id = w.new_id p in
    let q = begin_operation id "visual_verification" p in visual_done id q (o.run_visual q)

-- The latest visual run, if it is complete and of the checkpoint.
unfoldable pub visual_unless : World → Observer → Project → Option VisualRun → Result
unfolding visual_now transition
visual_unless w o p none = visual_now w o p
visual_unless w o p (some v) =
    if v.completed && is_of_checkpoint p v.checkpoint_sha
    then transition p p council_review
    else visual_now w o p

unfoldable pub visual_reused : World → Observer → Project → Option VisualRun → Result
unfolding visual_unless latest_visual_run transition
visual_reused w o p none = visual_unless w o p (latest_visual_run p p.iteration)
visual_reused w o p (some v) =
    let q = with_visual v (reused_evidence v.evidence_patch p) in transition q q council_review

unfoldable pub finish_visual_verification : World → Observer → Project → Result
unfolding find_reusable_visual visual_reused
finish_visual_verification w o p = visual_reused w o p (find_reusable_visual p)

-- With a queue the next job reviews the pictures, else `later` does.
unfoldable pub enter_visual_verification : Option (Project → Result) → Project → Result
unfolding transition
enter_visual_verification later p =
    let entered =
      if not (same_state p.state visual_verification)
      then transition p p visual_verification
      else ok p in
    elim later [ none ↦ entered | some finish ↦ next entered finish ]

unfoldable pub after_runtime_verification :
    Option (Project → Result) → Project → RuntimeRun → Result
unfolding transition enter_visual_verification should_skip_visual
after_runtime_verification later p r =
    if runtime_blocks (some r) || should_skip_visual p (some r)
    then transition p p council_review
    else enter_visual_verification later p

unfoldable pub runtime_failed : String → Project → Thrown → Result
unfolding fail_operation to_error_record wrapped
runtime_failed id p e =
    raised (fail_operation (some id) (to_error_record e (some "RUNTIME_VERIFICATION")) p)
      (wrapped e runtime_crash "RUNTIME_VERIFICATION")

-- What follows the run is returned, not awaited, so that its errors are not caught.
unfoldable pub runtime_done :
    Option (Project → Result) → String → Project → Answer RuntimeRun → Result
unfolding runtime_failed complete_operation after_runtime_verification
runtime_done later id p (refused e) = runtime_failed id p e
runtime_done later id p (answered r) =
    after_runtime_verification later
      (complete_operation (some id) (with_patch r.evidence_patch (with_runtime r p))) r

unfoldable pub runtime_now : World → Observer → Option (Project → Result) → Project → Result
unfolding begin_operation runtime_done
runtime_now w o later p =
    let id = w.new_id p in
    let q = begin_operation id "runtime_verification" p in runtime_done later id q (o.run_runtime q)

unfoldable pub runtime_unless :
    World → Observer → Option (Project → Result) → Project → Option RuntimeRun → Result
unfolding runtime_now after_runtime_verification
runtime_unless w o later p none = runtime_now w o later p
runtime_unless w o later p (some r) =
    if r.completed && is_of_checkpoint p r.checkpoint_sha
    then after_runtime_verification later p r
    else runtime_now w o later p

unfoldable pub runtime_reused :
    World → Observer → Option (Project → Result) → Project → Option RuntimeRun → Result
unfolding runtime_unless latest_runtime_run after_runtime_verification
runtime_reused w o later p none = runtime_unless w o later p (latest_runtime_run p p.iteration)
runtime_reused w o later p (some r) =
    after_runtime_verification later (with_runtime r (reused_evidence r.evidence_patch p)) r

unfoldable pub finish_runtime_verification :
    World → Observer → Option (Project → Result) → Project → Result
unfolding find_reusable_runtime runtime_reused
finish_runtime_verification w o later p = runtime_reused w o later p (find_reusable_runtime p)
