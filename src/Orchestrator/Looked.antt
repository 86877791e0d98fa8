-- ===== src/Orchestrator/Looked.antt =====
-- Where the visual verification leads.
use autonomous_dev_platform.Base.{
  ℕ, Bool, true, false, not, ◌&&◌, ◌||◌, Option, none, some, String, if◌then◌else◌, ◌≡◌, refl, ap,
  ◌∙◌, sym, subst,
}
use autonomous_dev_platform.States.{
  ProjectState, runtime_verification, visual_verification, council_review, same_state,
  legal_targets, is_legal_transition,
}
use autonomous_dev_platform.Errors.{Thrown}
use autonomous_dev_platform.Project.{Project}
use autonomous_dev_platform.Project.Runs.{Evidence, VisualRun}
use autonomous_dev_platform.Project.Latest.{latest_visual_run}
use autonomous_dev_platform.Orchestrator.Operations.{
  begin_operation, complete_operation, fail_operation,
}
use autonomous_dev_platform.Orchestrator.Transition.{
  Result, ok, raised, transition, transition_legal,
}
use autonomous_dev_platform.Orchestrator.World.{World, Answer, answered, refused}
use autonomous_dev_platform.Orchestrator.Observation.{
  Observer, with_patch, with_visual, reused_evidence, is_of_checkpoint, visual_failed,
  caught_visual, visual_done, visual_now, visual_unless, visual_reused, finish_visual_verification,
  find_reusable_visual,
}

abbrev pub is_observing : ProjectState → Bool
is_observing s = same_state s runtime_verification || same_state s visual_verification

-- A stage that ends in the council's review, or throws where the project is still observed, in the
-- same iteration.
abbrev pub ReachesReview : ℕ → Result → Type 0
ReachesReview n (ok q) = (q.state ≡ council_review) × (q.iteration ≡ n)
ReachesReview n (raised q e) = (is_observing q.state ≡ true) × (q.iteration ≡ n)

pub either :
    (n : ℕ) (b : Bool) (x y : Result)
    → ReachesReview n x
    → ReachesReview n y
    → ReachesReview n (if b then x else y)
either n true x y h k = h
either n false x y h k = k

-- The review may follow both stages.
review_follows :
    (s : ProjectState) → is_observing s ≡ true → is_legal_transition s council_review ≡ true
unfolding is_legal_transition legal_targets
review_follows ProjectState.idea_submitted h = cc
review_follows ProjectState.council_discovery h = cc
review_follows ProjectState.specification_ready h = cc
review_follows ProjectState.project_provisioning h = cc
review_follows ProjectState.cursor_executing h = cc
review_follows ProjectState.platform_verification h = cc
review_follows ProjectState.runtime_verification h = refl
review_follows ProjectState.visual_verification h = refl
review_follows ProjectState.council_review h = cc
review_follows ProjectState.final_verification h = cc
review_follows ProjectState.delivery_preparation h = cc
review_follows ProjectState.ready_for_owner_review h = cc
review_follows ProjectState.owner_changes_requested h = cc
review_follows ProjectState.owner_approved h = cc
review_follows ProjectState.done h = cc
review_follows ProjectState.failed h = cc

-- The visual verification may follow the other one.
pub visual_follows :
    (s : ProjectState)
    → is_observing s ≡ true
    → not (same_state s visual_verification) ≡ true
    → is_legal_transition s visual_verification ≡ true
unfolding is_legal_transition legal_targets
visual_follows ProjectState.idea_submitted h k = cc
visual_follows ProjectState.council_discovery h k = cc
visual_follows ProjectState.specification_ready h k = cc
visual_follows ProjectState.project_provisioning h k = cc
visual_follows ProjectState.cursor_executing h k = cc
visual_follows ProjectState.platform_verification h k = cc
visual_follows ProjectState.runtime_verification h k = refl
visual_follows ProjectState.visual_verification h k = cc
visual_follows ProjectState.council_review h k = cc
visual_follows ProjectState.final_verification h k = cc
visual_follows ProjectState.delivery_preparation h k = cc
visual_follows ProjectState.ready_for_owner_review h k = cc
visual_follows ProjectState.owner_changes_requested h k = cc
visual_follows ProjectState.owner_approved h k = cc
visual_follows ProjectState.done h k = cc
visual_follows ProjectState.failed h k = cc

pub to_review :
    (saved p : Project)
    → is_observing p.state ≡ true
    → ReachesReview p.iteration (transition saved p council_review)
to_review saved p h =
    subst (ReachesReview p.iteration)
      (sym (transition_legal saved p council_review (review_follows p.state h))) (refl, refl)

-- What a run's evidence leaves as it is.
pub patch_state : (e : Option Evidence) (p : Project) → (with_patch e p).state ≡ p.state
patch_state none p = refl
patch_state (some e) p = refl

pub patch_iteration : (e : Option Evidence) (p : Project) → (with_patch e p).iteration ≡ p.iteration
patch_iteration none p = refl
patch_iteration (some e) p = refl

module _ (w : World) (o : Observer) where
  visual_failed-ReachesReview :
      (id : String) (p : Project) (e : Thrown)
      → is_observing p.state ≡ true
      → ReachesReview p.iteration (visual_failed id p e)
  unfolding visual_failed fail_operation
  visual_failed-ReachesReview id p e h = (h, refl)

  caught-ReachesReview :
      (n : ℕ) (id : String) (p : Project) (r : Result)
      → is_observing p.state ≡ true
      → p.iteration ≡ n
      → ReachesReview n r
      → ReachesReview n (caught_visual id p r)
  unfolding caught_visual
  caught-ReachesReview n id p (ok q) h i k = k
  caught-ReachesReview n id p (raised saved e) h i k =
      subst (λ m. ReachesReview m (visual_failed id p e)) i (visual_failed-ReachesReview id p e h)

  done-ReachesReview :
      (id : String) (p : Project) (a : Answer VisualRun)
      → is_observing p.state ≡ true
      → ReachesReview p.iteration (visual_done id p a)
  unfolding visual_done complete_operation
  done-ReachesReview id p (refused e) h = visual_failed-ReachesReview id p e h
  done-ReachesReview id p (answered v) h =
      let patched = with_patch v.evidence_patch (with_visual v p) in
      let q = complete_operation (some id) patched in
      let i = patch_iteration v.evidence_patch (with_visual v p) in
      let k = ap is_observing (patch_state v.evidence_patch (with_visual v p)) ∙ h in
      caught-ReachesReview p.iteration id q (transition q q council_review) k i
        (subst (λ m. ReachesReview m (transition q q council_review)) i (to_review q q k))

  now-ReachesReview :
      (p : Project) → is_observing p.state ≡ true → ReachesReview p.iteration (visual_now w o p)
  unfolding visual_now begin_operation
  now-ReachesReview p h =
      let q = begin_operation (w.new_id p) "visual_verification" p in
      done-ReachesReview (w.new_id p) q (o.run_visual q) h

  unless-ReachesReview :
      (p : Project) (v : Option VisualRun)
      → is_observing p.state ≡ true
      → ReachesReview p.iteration (visual_unless w o p v)
  unfolding visual_unless
  unless-ReachesReview p none h = now-ReachesReview p h
  unless-ReachesReview p (some v) h =
      either p.iteration (v.completed && is_of_checkpoint p v.checkpoint_sha) _ _ (to_review p p h)
        (now-ReachesReview p h)

  reused-ReachesReview :
      (p : Project) (v : Option VisualRun)
      → is_observing p.state ≡ true
      → ReachesReview p.iteration (visual_reused w o p v)
  unfolding visual_reused
  reused-ReachesReview p none h = unless-ReachesReview p (latest_visual_run p p.iteration) h
  reused-ReachesReview p (some v) h =
      let q = with_visual v (reused_evidence v.evidence_patch p) in to_review q q h

  pub visual-ReachesReview :
      (p : Project)
      → is_observing p.state ≡ true
      → ReachesReview p.iteration (finish_visual_verification w o p)
  unfolding finish_visual_verification
  visual-ReachesReview p h = reused-ReachesReview p (find_reusable_visual p) h
