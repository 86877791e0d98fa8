-- ===== src/Orchestrator/Observed.antt =====
-- Where the runtime verification leads, with the visual one behind it.
use autonomous_dev_platform.Base.{
  Bool, true, false, not, ◌&&◌, ◌||◌, Option, none, some, String, if◌then◌else◌, ◌≡◌, refl, ap, ◌∙◌,
  sym, subst,
}
use autonomous_dev_platform.States.{visual_verification, same_state}
use autonomous_dev_platform.Project.{Project}
use autonomous_dev_platform.Project.Runs.{RuntimeRun}
use autonomous_dev_platform.Project.Latest.{latest_runtime_run}
use autonomous_dev_platform.Gate.Freshness.{should_skip_visual}
use autonomous_dev_platform.Orchestrator.Operations.{
  begin_operation, complete_operation, fail_operation,
}
use autonomous_dev_platform.Orchestrator.Transition.{ok, next, transition, moved, transition_legal}
use autonomous_dev_platform.Orchestrator.World.{World, Answer, answered, refused}
use autonomous_dev_platform.Orchestrator.Review.{runtime_blocks}
use autonomous_dev_platform.Orchestrator.Observation.{
  Observer, with_patch, with_runtime, reused_evidence, is_of_checkpoint, finish_visual_verification,
  enter_visual_verification, after_runtime_verification, runtime_failed, runtime_done, runtime_now,
  runtime_unless, runtime_reused, finish_runtime_verification, find_reusable_runtime,
}
use autonomous_dev_platform.Orchestrator.Looked.{
  is_observing, ReachesReview, either, visual_follows, to_review, patch_state, patch_iteration,
  visual-ReachesReview,
}

module _ (w : World) (o : Observer) where
  enter_if :
      (b : Bool) (p : Project)
      → not (same_state p.state visual_verification) ≡ b
      → is_observing p.state ≡ true
      → ReachesReview p.iteration (
          next
            (if b then transition p p visual_verification else ok p)
            (finish_visual_verification w o))
  enter_if false p e h = visual-ReachesReview w o p h
  enter_if true p e h =
      subst (λ r. ReachesReview p.iteration (next r (finish_visual_verification w o)))
        (sym (transition_legal p p visual_verification (visual_follows p.state h e)))
        (visual-ReachesReview w o (moved p visual_verification) refl)

  after-ReachesReview :
      (p : Project) (r : RuntimeRun)
      → is_observing p.state ≡ true
      → ReachesReview p.iteration
          (after_runtime_verification (some (finish_visual_verification w o)) p r)
  unfolding after_runtime_verification enter_visual_verification
  after-ReachesReview p r h =
      either p.iteration (runtime_blocks (some r) || should_skip_visual p (some r)) _ _
        (to_review p p h) (enter_if (not (same_state p.state visual_verification)) p refl h)

  runtime_done-ReachesReview :
      (id : String) (p : Project) (a : Answer RuntimeRun)
      → is_observing p.state ≡ true
      → ReachesReview p.iteration (runtime_done (some (finish_visual_verification w o)) id p a)
  unfolding runtime_done complete_operation runtime_failed fail_operation
  runtime_done-ReachesReview id p (refused e) h = (h, refl)
  runtime_done-ReachesReview id p (answered r) h =
      let q = complete_operation (some id) (with_patch r.evidence_patch (with_runtime r p)) in
      subst
        (λ m.
          ReachesReview m (after_runtime_verification (some (finish_visual_verification w o)) q r))
        (patch_iteration r.evidence_patch (with_runtime r p))
        (after-ReachesReview q r
          (ap is_observing (patch_state r.evidence_patch (with_runtime r p)) ∙ h))

  runtime_now-ReachesReview :
      (p : Project)
      → is_observing p.state ≡ true
      → ReachesReview p.iteration (runtime_now w o (some (finish_visual_verification w o)) p)
  unfolding runtime_now begin_operation
  runtime_now-ReachesReview p h =
      let q = begin_operation (w.new_id p) "runtime_verification" p in
      runtime_done-ReachesReview (w.new_id p) q (o.run_runtime q) h

  runtime_unless-ReachesReview :
      (p : Project) (r : Option RuntimeRun)
      → is_observing p.state ≡ true
      → ReachesReview p.iteration (runtime_unless w o (some (finish_visual_verification w o)) p r)
  unfolding runtime_unless
  runtime_unless-ReachesReview p none h = runtime_now-ReachesReview p h
  runtime_unless-ReachesReview p (some r) h =
      either p.iteration (r.completed && is_of_checkpoint p r.checkpoint_sha) _ _
        (after-ReachesReview p r h) (runtime_now-ReachesReview p h)

  runtime_reused-ReachesReview :
      (p : Project) (r : Option RuntimeRun)
      → is_observing p.state ≡ true
      → ReachesReview p.iteration (runtime_reused w o (some (finish_visual_verification w o)) p r)
  unfolding runtime_reused
  runtime_reused-ReachesReview p none h =
      runtime_unless-ReachesReview p (latest_runtime_run p p.iteration) h
  runtime_reused-ReachesReview p (some r) h =
      after-ReachesReview (with_runtime r (reused_evidence r.evidence_patch p)) r h

  -- Without a queue, the runtime verification of a project that is being observed, with the visual one
  -- behind it where there is one, ends in the council's review, in the same iteration, whatever the
  -- runs find and whether earlier ones are used again; or it throws, and the project is still observed.
  observation-ReachesReview :
      (p : Project)
      → is_observing p.state ≡ true
      → ReachesReview p.iteration
          (finish_runtime_verification w o (some (finish_visual_verification w o)) p)
  unfolding finish_runtime_verification
  observation-ReachesReview p h = runtime_reused-ReachesReview p (find_reusable_runtime p) h
