-- ===== src/Orchestrator/Onward.antt =====
-- What follows the runtime verification where the next job is left to a queue.
use autonomous_dev_platform.Base.{
  Bool, true, false, not, ◌&&◌, ◌||◌, Option, none, some, is_empty, if◌then◌else◌, ◌≡◌, refl, ap,
  ◌∙◌, sym, ◌⊎◌, inl, inr,
}
use autonomous_dev_platform.States.{council_review, visual_verification, same_state}
use autonomous_dev_platform.States.Graph.{same_state→≡}
use autonomous_dev_platform.Project.{Project}
use autonomous_dev_platform.Project.Runs.{RuntimeRun, Evidence}
use autonomous_dev_platform.Project.Latest.{latest_runtime_run}
use autonomous_dev_platform.Gate.Freshness.{should_skip_visual, runtime_skips_visual}
use autonomous_dev_platform.Orchestrator.Operations.{begin_operation, complete_operation}
use autonomous_dev_platform.Orchestrator.Transition.{Result, ok, transition}
use autonomous_dev_platform.Orchestrator.Released.{ok_inj, raised≢ok, transition_inv}
use autonomous_dev_platform.Orchestrator.World.{World, Answer, answered, refused}
use autonomous_dev_platform.Orchestrator.Observation.{
  Observer, with_patch, with_runtime, reused_evidence, is_of_checkpoint, find_reusable_runtime,
  enter_visual_verification, after_runtime_verification, runtime_failed, runtime_done, runtime_now,
  runtime_unless, runtime_reused, finish_runtime_verification,
}

-- A run that leaves nothing to look at: it blocks, the project is a demo, or its policy or its failure
-- to start exclude pictures.
abbrev pub hides : Project → RuntimeRun → Bool
hides p r = not (is_empty r.blocking_failures) || (p.demo || runtime_skips_visual (some r))

-- The state that follows a run.
abbrev pub Leads : Project → RuntimeRun → Project → Type 0
Leads p r q =
    ((q.state ≡ visual_verification) × (hides p r ≡ false))
    ⊎ ((q.state ≡ council_review) × (hides p r ≡ true))

-- The run that counts: one that can be used again, the latest one if it is complete and of the
-- checkpoint, or the one that is made now.
pub data Counted (w : World) (o : Observer) (p : Project) (r : RuntimeRun) : Type 0 where
  reused : find_reusable_runtime p ≡ some r → Counted w o p r
  kept :
      latest_runtime_run p p.iteration ≡ some r
      → (r.completed && is_of_checkpoint p r.checkpoint_sha) ≡ true
      → Counted w o p r
  made :
      o.run_runtime (begin_operation (w.new_id p) "runtime_verification" p) ≡ answered r
      → Counted w o p r

entered_by :
    (b : Bool) (p q : Project)
    → same_state p.state visual_verification ≡ b
    → (if not b then transition p p visual_verification else ok p) ≡ ok q
    → q.state ≡ visual_verification
entered_by true p q e h =
    ap (λ (x : Project). x.state) (ok_inj q p (sym h)) ∙ same_state→≡ p.state visual_verification e
entered_by false p q e h =
    ap (λ (x : Project). x.state) (transition_inv p p q visual_verification h).1

leads_if :
    (b : Bool) (p q : Project)
    → (if b then transition p p council_review else enter_visual_verification none p) ≡ ok q
    → ((q.state ≡ visual_verification) × (b ≡ false)) ⊎ ((q.state ≡ council_review) × (b ≡ true))
unfolding enter_visual_verification
leads_if true p q h =
    inr (ap (λ (x : Project). x.state) (transition_inv p p q council_review h).1, refl)
leads_if false p q h = inl (entered_by (same_state p.state visual_verification) p q refl h, refl)

after-Leads :
    (p q : Project) (r : RuntimeRun) → after_runtime_verification none p r ≡ ok q → Leads p r q
unfolding after_runtime_verification should_skip_visual
after-Leads p q r h = leads_if (hides p r) p q h

patch_demo : (e : Option Evidence) (p : Project) → (with_patch e p).demo ≡ p.demo
patch_demo none p = refl
patch_demo (some e) p = refl

same_demo :
    (a b : Project) (r : RuntimeRun) (q : Project) → a.demo ≡ b.demo → Leads a r q → Leads b r q
same_demo a b r q e (inl (s, h)) = inl (
  s,
  ap (λ x. not (is_empty r.blocking_failures) || (x || runtime_skips_visual (some r))) (sym e) ∙ h,
)
same_demo a b r q e (inr (s, h)) = inr (
  s,
  ap (λ x. not (is_empty r.blocking_failures) || (x || runtime_skips_visual (some r))) (sym e) ∙ h,
)

module _ (w : World) (o : Observer) (p q : Project) where
  Follows : Result → Type 0
  Follows x = x ≡ ok q → (r : RuntimeRun) × Counted w o p r × Leads p r q

  done-Follows :
      (a : Answer RuntimeRun)
      → o.run_runtime (begin_operation (w.new_id p) "runtime_verification" p) ≡ a
      → Follows
          (runtime_done none (w.new_id p) (begin_operation (w.new_id p) "runtime_verification" p) a)
  unfolding Follows runtime_done runtime_failed complete_operation begin_operation
  done-Follows (refused e) k h = absurd (raised≢ok _ q _ h)
  done-Follows (answered r) k h =
      let started = begin_operation (w.new_id p) "runtime_verification" p in
      let x =
        complete_operation (some (w.new_id p))
          (with_patch r.evidence_patch (with_runtime r started)) in
      (
        r,
        made k,
        same_demo x p r q (patch_demo r.evidence_patch (with_runtime r started))
            (after-Leads x q r h),
      )

  now-Follows : Follows (runtime_now w o none p)
  unfolding Follows runtime_now
  now-Follows =
      done-Follows (o.run_runtime (begin_operation (w.new_id p) "runtime_verification" p)) refl

  kept_or_made :
      (b : Bool) (r : RuntimeRun)
      → (r.completed && is_of_checkpoint p r.checkpoint_sha) ≡ b
      → latest_runtime_run p p.iteration ≡ some r
      → Follows (if b then after_runtime_verification none p r else runtime_now w o none p)
  unfolding Follows
  kept_or_made true r e l h = (r, kept l e, after-Leads p q r h)
  kept_or_made false r e l h = now-Follows h

  unless-Follows :
      (l : Option RuntimeRun)
      → latest_runtime_run p p.iteration ≡ l
      → Follows (runtime_unless w o none p l)
  unfolding Follows runtime_unless
  unless-Follows none e h = now-Follows h
  unless-Follows (some r) e h =
      kept_or_made (r.completed && is_of_checkpoint p r.checkpoint_sha) r refl e h

  reused-Follows :
      (l : Option RuntimeRun) → find_reusable_runtime p ≡ l → Follows (runtime_reused w o none p l)
  unfolding Follows runtime_reused
  reused-Follows none e h = unless-Follows (latest_runtime_run p p.iteration) refl h
  reused-Follows (some r) e h = (
    r,
    reused e,
    same_demo (with_runtime r (reused_evidence r.evidence_patch p)) p r q refl
        (after-Leads (with_runtime r (reused_evidence r.evidence_patch p)) q r h),
  )

  -- With a queue, the runtime verification that ends without an error leads to the visual
  -- verification, unless the run that counts has a blocking failure, the project is a demo, the run's
  -- policy asks for no pictures, or the application never started; then it leads to the council's
  -- review.
  pub runtime-Leads :
      finish_runtime_verification w o none p ≡ ok q
      → (r : RuntimeRun) × Counted w o p r × Leads p r q
  unfolding finish_runtime_verification Follows
  runtime-Leads h = reused-Follows (find_reusable_runtime p) refl h
