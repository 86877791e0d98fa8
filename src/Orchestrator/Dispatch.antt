-- ===== src/Orchestrator/Dispatch.antt =====
-- `executeJob` and `run` of orchestrator/orchestrator.js: which stage a job, or a round of the loop,
-- runs. The stages are an interface, which the methods of the other files fill. A stage's result is
-- what is stored, so that reading the project again gives it.
use autonomous_dev_platform.Base.{
  ℕ, zero, suc, Bool, false, not, ◌&&◌, ◌||◌, Option, none, some, List, [], ◌∷◌, any, ltb,
  if◌then◌else◌,
}
use autonomous_dev_platform.States.{
  ProjectState, state_name, same_state, is_owner_terminal, council_discovery,
}
use autonomous_dev_platform.Errors.{
  Thrown, platform_error, known, max_iterations_reached, recovery_failed,
}
use autonomous_dev_platform.Project.{Project}
use autonomous_dev_platform.Project.Latest.{needs_provisioning, provisioning_succeeded}
use autonomous_dev_platform.Jobs.Kinds.{JobType}
use autonomous_dev_platform.Orchestrator.Transition.{
  Result, ok, raised, next, transition, fail_project,
}

pub record Stages : Type 0 where
  pub discover : Project → Result  -- `ensureDiscovery`
  pub enter_provisioning : Project → Result
  pub provision : Project → Result  -- `finishProvisioning`
  pub request_run : Project → Result  -- `requestCursorRun` with `increment`
  pub finish_cursor : Project → Result  -- `finishOrReplayCursor`
  pub verify : Project → Result  -- `finishPlatformVerification`
  pub observe : Project → Result  -- `finishRuntimeVerification`
  pub look : Project → Result  -- `finishVisualVerification`
  pub review : Project → Result  -- `finishReview`
  pub conclude : Project → Result  -- `finishFinal`
  pub deliver : Project → Result  -- `finishDelivery`

abbrev pub is_in : List ProjectState → Project → Bool
is_in states p = any (same_state p.state) states

-- The states in which a job has nothing left to do.
unfoldable pub is_past : JobType → Project → Bool
unfolding is_owner_terminal
is_past JobType.council_discovery p =
    is_in (ProjectState.specification_ready ∷ (ProjectState.project_provisioning ∷ [])) p
is_past JobType.project_provisioning p =
    is_in
      (ProjectState.cursor_executing
        ∷ (ProjectState.platform_verification
            ∷ (ProjectState.runtime_verification
                ∷ (ProjectState.visual_verification
                    ∷ (ProjectState.council_review
                        ∷ (ProjectState.final_verification
                            ∷ (ProjectState.delivery_preparation ∷ [])))))))
      p
    || is_owner_terminal p.state
is_past JobType.cursor_execution p =
    is_in
      (ProjectState.platform_verification
        ∷ (ProjectState.runtime_verification
            ∷ (ProjectState.visual_verification
                ∷ (ProjectState.council_review
                    ∷ (ProjectState.final_verification
                        ∷ (ProjectState.delivery_preparation ∷ []))))))
      p
is_past JobType.platform_verification p =
    is_in
      (ProjectState.runtime_verification
        ∷ (ProjectState.visual_verification
            ∷ (ProjectState.council_review
                ∷ (ProjectState.final_verification ∷ (ProjectState.delivery_preparation ∷ [])))))
      p
    || is_owner_terminal p.state
is_past JobType.runtime_verification p =
    is_in
      (ProjectState.visual_verification
        ∷ (ProjectState.council_review
            ∷ (ProjectState.final_verification ∷ (ProjectState.delivery_preparation ∷ []))))
      p
    || is_owner_terminal p.state
is_past JobType.visual_verification p =
    is_in
      (ProjectState.council_review
        ∷ (ProjectState.final_verification ∷ (ProjectState.delivery_preparation ∷ [])))
      p
    || is_owner_terminal p.state
is_past JobType.council_review p =
    is_in
      (ProjectState.final_verification
        ∷ (ProjectState.delivery_preparation
            ∷ (ProjectState.cursor_executing
                ∷ (ProjectState.platform_verification
                    ∷ (ProjectState.runtime_verification
                        ∷ (ProjectState.visual_verification ∷ []))))))
      p
is_past JobType.final_verification p =
    is_owner_terminal p.state || same_state p.state ProjectState.cursor_executing
is_past JobType.delivery_preparation p = is_owner_terminal p.state

-- A stage in a state, and nothing in any other.
abbrev pub when_in : ProjectState → (Project → Result) → Project → Result
when_in s stage p = if same_state p.state s then stage p else ok p

abbrev pub lacks_foundation : Project → Bool
lacks_foundation p = needs_provisioning p && not (provisioning_succeeded p)

unfoldable pub run_cursor_job : Stages → Project → Result
unfolding needs_provisioning provisioning_succeeded
run_cursor_job h p =
    if same_state p.state ProjectState.specification_ready
    then (if lacks_foundation p then h.provision p else h.request_run p)
    else if same_state p.state ProjectState.project_provisioning
    then h.provision p
    else when_in ProjectState.cursor_executing h.finish_cursor p

-- The work of a job that is not past. A job of a later stage first ends the one before it.
unfoldable pub run_job : Stages → JobType → Project → Result
unfolding run_cursor_job transition
run_job h JobType.council_discovery p =
    next
      (if same_state p.state ProjectState.owner_changes_requested
        then transition p p council_discovery
        else ok p)
      h.discover
run_job h JobType.project_provisioning p =
    if same_state p.state ProjectState.specification_ready
      || same_state p.state ProjectState.project_provisioning
    then h.provision p
    else ok p
run_job h JobType.cursor_execution p = run_cursor_job h p
run_job h JobType.platform_verification p =
    next (when_in ProjectState.cursor_executing h.finish_cursor p)
      (when_in ProjectState.platform_verification h.verify)
run_job h JobType.runtime_verification p =
    next (when_in ProjectState.platform_verification h.verify p)
      (when_in ProjectState.runtime_verification h.observe)
run_job h JobType.visual_verification p =
    next (when_in ProjectState.runtime_verification h.observe p)
      (when_in ProjectState.visual_verification h.look)
run_job h JobType.council_review p = h.review p
run_job h JobType.final_verification p =
    if same_state p.state ProjectState.delivery_preparation then h.deliver p else h.conclude p
run_job h JobType.delivery_preparation p =
    next (when_in ProjectState.final_verification h.conclude p)
      (when_in ProjectState.delivery_preparation h.deliver)

unfoldable pub execute_job : Stages → JobType → Project → Result
unfolding is_past run_job is_owner_terminal
execute_job h type p =
    if is_owner_terminal p.state || same_state p.state ProjectState.failed
    then ok p
    else if is_past type p
    then ok p
    else run_job h type p

unfoldable pub too_many : Project → Thrown
unfolding platform_error state_name
too_many p =
    platform_error (some (known max_iterations_reached)) (some (state_name p.state)) (some false)

unfoldable pub no_handler : Project → Thrown
unfolding platform_error state_name
no_handler p =
    platform_error (some (known recovery_failed)) (some (state_name p.state)) (some false)

-- The stage of a round, by the project's state.
unfoldable pub round_by : Stages → ProjectState → Project → Result
unfolding transition needs_provisioning provisioning_succeeded no_handler
round_by h ProjectState.idea_submitted p = h.discover p
round_by h ProjectState.council_discovery p = h.discover p
round_by h ProjectState.specification_ready p =
    if lacks_foundation p then h.enter_provisioning p else h.request_run p
round_by h ProjectState.project_provisioning p = h.provision p
round_by h ProjectState.cursor_executing p = h.finish_cursor p
round_by h ProjectState.platform_verification p = h.verify p
round_by h ProjectState.runtime_verification p = h.observe p
round_by h ProjectState.visual_verification p = h.look p
round_by h ProjectState.council_review p = h.review p
round_by h ProjectState.final_verification p = h.conclude p
round_by h ProjectState.delivery_preparation p = h.deliver p
round_by h ProjectState.owner_changes_requested p = transition p p council_discovery
round_by h ProjectState.ready_for_owner_review p = raised p (no_handler p)
round_by h ProjectState.owner_approved p = raised p (no_handler p)
round_by h ProjectState.done p = raised p (no_handler p)
round_by h ProjectState.failed p = raised p (no_handler p)

-- The round after another one, or `fail`.
unfoldable pub after_round : Result → (Project → Option Result) → Option Result
unfolding fail_project
after_round (ok p) go = go p
after_round (raised p e) go = some (fail_project e p)

-- `run`, with a number of rounds; there is no result where they do not suffice.
unfoldable pub run_rounds : Stages → ℕ → ℕ → Project → Option Result
unfolding round_by too_many is_owner_terminal fail_project after_round
run_rounds h max zero p = none
run_rounds h max (suc fuel) p =
    let rest = after_round (round_by h p.state p) (run_rounds h max fuel) in
    if is_owner_terminal p.state || same_state p.state ProjectState.failed
    then some (ok p)
    else if ltb max p.iteration
    then some (fail_project (too_many p) p)
    else rest
