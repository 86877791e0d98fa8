-- ===== src/Orchestrator/Reviewing.antt =====
-- The history under the council's review, where the next run is left to a job.
use autonomous_dev_platform.Base.{
  Bool, true, false, not, ◌&&◌, Option, none, some, String, if◌then◌else◌, is_some,
}
use autonomous_dev_platform.States.{final_verification}
use autonomous_dev_platform.Project.{Project, Review, Decision}
use autonomous_dev_platform.Project.Latest.{latest_cursor_run}
use autonomous_dev_platform.Gate.{review_for_iteration}
use autonomous_dev_platform.Gate.Completion.{review_decides}
use autonomous_dev_platform.Orchestrator.Operations.{
  begin_operation, complete_operation, fail_operation,
}
use autonomous_dev_platform.Orchestrator.History.{IsRecorded}
use autonomous_dev_platform.Orchestrator.Kept.{Recorded, branch, kept, thrown, moves, then_next}
use autonomous_dev_platform.Orchestrator.World.{World, Answer, answered, refused}
use autonomous_dev_platform.Orchestrator.Requested.{request-Recorded}
use autonomous_dev_platform.Orchestrator.Review.{
  council_review, reviewed, reviewed_if, judged, overrule, overruling, after_review,
  after_review_if, finish_review, answered_review, correction_prompt,
}

module _ (w : World) where
  answered-Recorded :
      (id : String) (p : Project) (a : Answer (Option Decision))
      → IsRecorded p
      → Recorded (answered_review id p a)
  unfolding answered_review complete_operation fail_operation
  answered-Recorded id p (answered decision) h = kept _ h
  answered-Recorded id p (refused e) h = thrown _ _ h

  council_review-Recorded : (p : Project) → IsRecorded p → Recorded (council_review w p)
  unfolding council_review begin_operation
  council_review-Recorded p h = branch (not (is_some (latest_cursor_run p))) _ _ (thrown p _ h) (
      answered-Recorded (w.new_id p) (begin_operation (w.new_id p) "council_review" p)
        (w.review (begin_operation (w.new_id p) "council_review" p)) h)

  reviewed-Recorded :
      (p : Project) (o : Option Review) → IsRecorded p → Recorded (reviewed_if w p o)
  unfolding reviewed_if
  reviewed-Recorded p none h = council_review-Recorded p h
  reviewed-Recorded p (some r) h = kept p h

  overruled_keeps : (o : Option String) (p : Project) → IsRecorded p → IsRecorded (overrule o p)
  overruled_keeps none p h = h
  overruled_keeps (some prompt) p h = h

  judged_if :
      (b : Bool) (p : Project)
      → IsRecorded p
      → IsRecorded (if b then overrule (overruling w p) p else p)
  judged_if true p h = overruled_keeps (overruling w p) p h
  judged_if false p h = h

  judged_keeps : (p : Project) → IsRecorded p → IsRecorded (judged w p)
  unfolding judged
  judged_keeps p h =
      judged_if
        (review_decides (review_for_iteration p p.iteration) "COMPLETE" && not p.demo && not w.demo)
        p h

  after-Recorded :
      (b : Bool) (saved p : Project)
      → IsRecorded saved
      → IsRecorded p
      → Recorded (after_review_if b w none saved p)
  unfolding after_review_if
  after-Recorded true saved p s h = request-Recorded w saved p (correction_prompt w p) s h
  after-Recorded false saved p s h = moves saved p final_verification s h

  pub finish_review-Recorded : (p : Project) → IsRecorded p → Recorded (finish_review w none p)
  unfolding finish_review reviewed after_review
  finish_review-Recorded p h =
      then_next (reviewed-Recorded p (review_for_iteration p p.iteration) h) (λ q k.
        after-Recorded
          (review_decides (review_for_iteration (judged w q) (judged w q).iteration)
            "CHANGES_REQUIRED")
          q (judged w q) k (judged_keeps q k))
