-- ===== src/Orchestrator/Overruled.antt =====
-- The platform's findings against the council's review, and the limit of iterations.
use autonomous_dev_platform.Base.{
  ℕ, ◌+◌, ◌≤◌, Bool, true, false, not, find_sound, ◌&&◌, ◌||◌, ◌≡◌, refl, sym, ap, ◌∙◌, arith, leb,
  eqb, Option, none, some, String, List, [], ◌∷◌, map, find, if◌then◌else◌,
}
use autonomous_dev_platform.States.{cursor_executing, same_state}
use autonomous_dev_platform.States.Graph.{same_state→≡}
use autonomous_dev_platform.Errors.{Thrown}
use autonomous_dev_platform.Project.{Project, Review}
use autonomous_dev_platform.Project.Latest.{
  needs_provisioning, provisioning_succeeded, latest_verification_run, latest_runtime_run,
  latest_visual_run,
}
use autonomous_dev_platform.Gate.{review_for_iteration, decides}
use autonomous_dev_platform.Gate.Completion.{review_decides}
use autonomous_dev_platform.Orchestrator.Transition.{Result, ok, raised, next, transition}
use autonomous_dev_platform.Orchestrator.Released.{ok_inj, raised≢ok, transition_inv}
use autonomous_dev_platform.Orchestrator.World.{World}
use autonomous_dev_platform.Orchestrator.Implementation.{
  request_cursor_run, with_prompt, incremented, unprovisioned, exhausted,
}
use autonomous_dev_platform.Orchestrator.Review.{
  judged, after_review, after_review_if, reviewed, finish_review, verification_blocks,
  runtime_blocks, visual_blocks, overruling, overrule, overruled_review, correction_prompt,
}

abbrev overruled_option : ℕ → String → Option Review → Option Review
overruled_option n prompt none = none
overruled_option n prompt (some r) = some (overruled_review n prompt r)

find_overruled :
    (n : ℕ) (prompt : String) (rs : List Review)
    → find (λ r. eqb r.iteration n) (map (overruled_review n prompt) rs)
      ≡ overruled_option n prompt (find (λ r. eqb r.iteration n) rs)
find_overruled n prompt [] = refl
find_overruled n prompt (r ∷ rs) = ground (arith, find_overruled n prompt rs)

-- The step that starts the next run, by its two branches.
started :
    (saved p ready q : Project) (b : Bool)
    → same_state p.state cursor_executing ≡ b
    → ready.state ≡ p.state
    → (if not b then transition saved ready cursor_executing else ok ready) ≡ ok q
    → (q.state ≡ cursor_executing) × (q.iteration ≡ ready.iteration)
started saved p ready q true e k h =
    let same : q ≡ ready = ok_inj q ready (sym h) in
    (
      ap (λ (x : Project). x.state) same ∙ k ∙ same_state→≡ p.state cursor_executing e,
      ap (λ (x : Project). x.iteration) same,
    )
started saved p ready q false e k h =
    let (l, same) = transition_inv saved ready q cursor_executing h in
    (ap (λ (x : Project). x.state) same, ap (λ (x : Project). x.iteration) same)

guards_inv :
    (a b : Bool) (saved q : Project) (e f : Thrown) (r : Result)
    → (if a then raised saved e else if b then raised saved f else r) ≡ ok q
    → (a ≡ false) × (b ≡ false) × (r ≡ ok q)
guards_inv true b saved q e f r h = absurd (raised≢ok saved q e h)
guards_inv false true saved q e f r h = absurd (raised≢ok saved q f h)
guards_inv false false saved q e f r h = (refl, refl, h)

bounded : (n m limit : ℕ) → n ≡ m + 1 → leb limit m ≡ false → n ≤ limit
bounded n m limit e h = ground arith

-- A further run of the agent that is requested without an error, its execution left to a job, counts
-- one iteration more, not beyond the limit, puts the project into CURSOR_EXECUTING, and is not
-- requested for a new project before its provisioning succeeded.
pub next_iteration_bounded :
    (w : World) (saved p q : Project) (prompt : Option String)
    → request_cursor_run w none saved p true prompt ≡ ok q
    → (q.iteration ≡ p.iteration + 1)
      × (q.iteration ≤ w.max_iterations)
      × (q.state ≡ cursor_executing)
      × ((needs_provisioning p && not (provisioning_succeeded p)) ≡ false)
unfolding request_cursor_run
next_iteration_bounded w saved p q prompt h =
    let (provisioned, below, rest) =
      guards_inv (needs_provisioning p && not (provisioning_succeeded p))
        (leb w.max_iterations p.iteration) saved q (unprovisioned p) (exhausted p) _ h in
    let (state, count) =
      started saved p (with_prompt prompt (incremented true p)) q
        (same_state p.state cursor_executing) refl refl rest in
    (count, bounded q.iteration p.iteration w.max_iterations count below, state, provisioned)

-- The findings of the iteration's runs block it.
abbrev pub is_blocked : Project → Bool
is_blocked p =
    verification_blocks (latest_verification_run p p.iteration)
    || runtime_blocks (latest_runtime_run p p.iteration)
    || visual_blocks (latest_visual_run p p.iteration)

overruling_cases :
    (a b c : Bool) (x y z : String)
    → (a || b || c) ≡ true
    → (prompt : String) × ((if a then some x else if b then some y else if c then some z else none)
        ≡ some prompt)
overruling_cases true b c x y z h = (x, refl)
overruling_cases false true c x y z h = (y, refl)
overruling_cases false false true x y z h = (z, refl)
overruling_cases false false false x y z h = cc

overruled_changes :
    (n : ℕ) (prompt : String) (r : Review)
    → eqb r.iteration n ≡ true
    → decides r.decision "COMPLETE" ≡ true
    → decides (overruled_review n prompt r).decision "CHANGES_REQUIRED" ≡ true
overruled_changes n prompt r e d = ground arith

and_three : (a b c : Bool) → a ≡ true → b ≡ false → c ≡ false → (a && not b && not c) ≡ true
and_three a b c h k l = ground arith

module _ (w : World) (execute : Option (Project → Result)) (p : Project) (r : Review) where
  overruled_project :
      (prompt : String)
      → p.demo ≡ false
      → w.demo ≡ false
      → review_for_iteration p p.iteration ≡ some r
      → decides r.decision "COMPLETE" ≡ true
      → overruling w p ≡ some prompt
      → judged w p ≡ overrule (some prompt) p
  unfolding judged
  overruled_project prompt real live e d o =
      ap (λ (b : Bool). if b then overrule (overruling w p) p else p)
        (and_three (review_decides (review_for_iteration p p.iteration) "COMPLETE") p.demo w.demo
          (ap (λ (x : Option Review). review_decides x "COMPLETE") e ∙ d) real live)
      ∙ ap (λ (x : Option String). overrule x p) o

  decides_changes :
      (prompt : String)
      → review_for_iteration p p.iteration ≡ some r
      → decides r.decision "COMPLETE" ≡ true
      → review_decides
          (review_for_iteration (overrule (some prompt) p) p.iteration)
          "CHANGES_REQUIRED"
        ≡ true
  unfolding review_for_iteration
  decides_changes prompt e d =
      ap (λ (x : Option Review). review_decides x "CHANGES_REQUIRED")
        (find_overruled p.iteration prompt p.council.reviews
          ∙ ap (overruled_option p.iteration prompt) e)
      ∙ overruled_changes p.iteration prompt r
          (find_sound (λ x. eqb x.iteration p.iteration) p.council.reviews r e) d

  judged_changes :
      p.demo ≡ false
      → w.demo ≡ false
      → review_for_iteration p p.iteration ≡ some r
      → decides r.decision "COMPLETE" ≡ true
      → is_blocked p ≡ true
      → review_decides (review_for_iteration (judged w p) (judged w p).iteration) "CHANGES_REQUIRED"
        ≡ true
  unfolding overruling
  judged_changes real live e d blocked =
      let (prompt, o) =
        overruling_cases (verification_blocks (latest_verification_run p p.iteration))
          (runtime_blocks (latest_runtime_run p p.iteration))
          (visual_blocks (latest_visual_run p p.iteration))
          (w.prompt_from_verification (latest_verification_run p p.iteration))
          (w.prompt_from_runtime (latest_runtime_run p p.iteration))
          (w.prompt_from_visual (latest_visual_run p p.iteration)
            (latest_runtime_run p p.iteration))
          blocked in
      ap (λ (q : Project). review_decides (review_for_iteration q q.iteration) "CHANGES_REQUIRED")
        (overruled_project prompt real live e d o)
      ∙ decides_changes prompt e d

-- Outside a demo, a review of the iteration that decides COMPLETE does not pass while the
-- iteration's verification, runtime or visual run has a blocking finding, be it a review that is
-- stored already or one that the council has just given: it is made one that requires changes, and
-- instead of the final verification a further run of the agent is requested. Here `q` is the project
-- with the review.
pub findings_overrule_review :
    (w : World) (execute : Option (Project → Result)) (p q : Project) (r : Review)
    → reviewed w p ≡ ok q
    → q.demo ≡ false
    → w.demo ≡ false
    → review_for_iteration q q.iteration ≡ some r
    → decides r.decision "COMPLETE" ≡ true
    → is_blocked q ≡ true
    → (review_decides (review_for_iteration (judged w q) (judged w q).iteration) "CHANGES_REQUIRED"
        ≡ true)
      × (finish_review w execute p
          ≡ request_cursor_run w execute q (judged w q) true (correction_prompt w (judged w q)))
unfolding finish_review after_review after_review_if
findings_overrule_review w execute p q r given real live e d blocked =
    let changes = judged_changes w execute q r real live e d blocked in
    (
      changes,
      ap (λ (x : Result). next x (λ y. after_review w execute y (judged w y))) given
          ∙ ap (λ (b : Bool). after_review_if b w execute q (judged w q)) changes,
    )
