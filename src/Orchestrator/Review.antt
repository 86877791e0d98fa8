-- ===== src/Orchestrator/Review.antt =====
-- `finishReview` of orchestrator/orchestrator.js: the council's review of an iteration, and the
-- platform's own findings, which overrule it.
use autonomous_dev_platform.Base.{
  ℕ, Bool, true, false, not, ◌||◌, ◌&&◌, Option, none, some, String, [], ◌∷◌, ◌++◌, eqb, or_else,
  is_some, is_empty, map, if◌then◌else◌,
}
use autonomous_dev_platform.States.{final_verification}
use autonomous_dev_platform.Errors.{
  Thrown, platform_error, known, recovery_failed, chair_failure, to_error_record,
}
use autonomous_dev_platform.Project.{Project, Review, Decision}
use autonomous_dev_platform.Project.Runs.{VerificationRun, RuntimeRun, VisualRun}
use autonomous_dev_platform.Project.Latest.{
  reads, latest_cursor_run, latest_verification_run, latest_runtime_run, latest_visual_run,
}
use autonomous_dev_platform.Gate.{review_for_iteration}
use autonomous_dev_platform.Gate.Completion.{review_decides}
use autonomous_dev_platform.Orchestrator.Operations.{
  begin_operation, complete_operation, fail_operation,
}
use autonomous_dev_platform.Orchestrator.Transition.{Result, ok, raised, next, transition}
use autonomous_dev_platform.Orchestrator.World.{World, Answer, answered, refused, wrapped}
use autonomous_dev_platform.Orchestrator.Implementation.{request_cursor_run}

abbrev no_run : Thrown
unfolding platform_error
no_run = platform_error (some (known recovery_failed)) (some "COUNCIL_REVIEW") (some true)

abbrev with_review : ℕ → Option Decision → Project → Project
with_review n decision p = record p {
  council = record p.council {
    reviews = p.council.reviews ++ record { iteration = n; decision = decision } ∷ [];
  };
}

-- The council's review, where there is none yet.
-- What the council answers to the operation that was begun.
unfoldable pub answered_review : String → Project → Answer (Option Decision) → Result
unfolding complete_operation fail_operation to_error_record wrapped
answered_review id p (answered decision) =
    ok (complete_operation (some id) (with_review p.iteration decision p))
answered_review id p (refused error) =
    raised (fail_operation (some id) (to_error_record error (some "COUNCIL_REVIEW")) p)
      (wrapped error chair_failure "COUNCIL_REVIEW")

unfoldable pub council_review : World → Project → Result
unfolding begin_operation answered_review no_run
council_review w p =
    if not (is_some (latest_cursor_run p))
    then raised p no_run
    else let id = w.new_id p in
      let started = begin_operation id "council_review" p in
      answered_review id started (w.review started)

unfoldable pub reviewed_if : World → Project → Option Review → Result
unfolding council_review
reviewed_if w p none = council_review w p
reviewed_if w p (some review) = ok p

-- The iteration's review, which the council gives unless it is there.
unfoldable pub reviewed : World → Project → Result
unfolding review_for_iteration reviewed_if
reviewed w p = reviewed_if w p (review_for_iteration p p.iteration)

abbrev pub verification_blocks : Option VerificationRun → Bool
verification_blocks none = false
verification_blocks (some v) = not (is_empty v.blocking_failures)

abbrev pub runtime_blocks : Option RuntimeRun → Bool
runtime_blocks none = false
runtime_blocks (some r) = not (is_empty r.blocking_failures)

abbrev pub visual_blocks : Option VisualRun → Bool
visual_blocks none = false
visual_blocks (some v) = not (is_empty v.blocking_findings) || reads v.decision "CHANGES_REQUIRED"

-- The prompt that overrules a review that decides COMPLETE, if a run blocks it.
unfoldable pub overruling : World → Project → Option String
unfolding latest_verification_run latest_runtime_run latest_visual_run
overruling w p =
    let verification = latest_verification_run p p.iteration in
    let runtime = latest_runtime_run p p.iteration in
    let visual = latest_visual_run p p.iteration in
    if verification_blocks verification
    then some (w.prompt_from_verification verification)
    else if runtime_blocks runtime
    then some (w.prompt_from_runtime runtime)
    else if visual_blocks visual
    then some (w.prompt_from_visual visual runtime)
    else none

abbrev pub overruled_decision : String → Decision → Decision
overruled_decision prompt d = record {
  decision = some "CHANGES_REQUIRED";
  next_cursor_prompt = or_else d.next_cursor_prompt (some prompt);
}

abbrev pub overruled_review : ℕ → String → Review → Review
overruled_review n prompt r =
    if eqb r.iteration n
    then record r {
      decision = elim r.decision [ none ↦ none | some d ↦ some (overruled_decision prompt d) ];
    }
    else r

abbrev pub overrule : Option String → Project → Project
overrule none p = p
overrule (some prompt) p = record p {
  council = record p.council {
    reviews = map (overruled_review p.iteration prompt) p.council.reviews;
  };
}

-- A review that decides COMPLETE does not stand against a blocking finding, unless in a demo.
unfoldable pub judged : World → Project → Project
unfolding review_for_iteration overruling
judged w p =
    if review_decides (review_for_iteration p p.iteration) "COMPLETE" && not p.demo && not w.demo
    then overrule (overruling w p) p
    else p

abbrev review_prompt : Option Review → Option String
review_prompt none = none
review_prompt (some r) = elim r.decision [ none ↦ none | some d ↦ d.next_cursor_prompt ]

unfoldable pub correction_prompt : World → Project → Option String
unfolding latest_verification_run latest_runtime_run latest_visual_run review_for_iteration
correction_prompt w p =
    let verification = latest_verification_run p p.iteration in
    let runtime = latest_runtime_run p p.iteration in
    let visual = latest_visual_run p p.iteration in
    or_else (review_prompt (review_for_iteration p p.iteration)) (
      or_else (some (w.prompt_from_verification verification)) (
        or_else (some (w.prompt_from_runtime runtime))
          (or_else (some (w.prompt_from_visual visual runtime)) (some (w.prompt_from_findings p)))))

-- `saved` is the stored project, `p` the one whose review may have been overruled.
unfoldable pub after_review_if :
    Bool → World → Option (Project → Result) → Project → Project → Result
unfolding request_cursor_run transition correction_prompt
after_review_if true w execute saved p =
    request_cursor_run w execute saved p true (correction_prompt w p)
after_review_if false w execute saved p = transition saved p final_verification

unfoldable pub after_review : World → Option (Project → Result) → Project → Project → Result
unfolding after_review_if review_for_iteration
after_review w execute saved p =
    after_review_if (review_decides (review_for_iteration p p.iteration) "CHANGES_REQUIRED") w
      execute saved p

unfoldable pub finish_review : World → Option (Project → Result) → Project → Result
unfolding reviewed judged after_review
finish_review w execute p = next (reviewed w p) (λ q. after_review w execute q (judged w q))
