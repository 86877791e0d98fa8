-- ===== src/Project/Latest.antt =====
-- Which of its runs a project's state depends on: `latestCursorRun` (orchestrator/gate.js),
-- `latestVerificationRun` (verify/pipeline.js), `latestRuntimeRun` (runtime/pipeline.js),
-- `latestVisualRun` (visual/pipeline.js), `latestProvisioningRun` and the tests on provisioning
-- (provision/plan.js).
use autonomous_dev_platform.Base.{
  ℕ, Bool, true, false, not, ◌&&◌, ◌||◌, Option, none, some, String, eqb, find_last, last,
  or_object, truthy, or_else, same_text, if◌then◌else◌,
}
use autonomous_dev_platform.Project.{Project}
use autonomous_dev_platform.Project.Runs.{
  CursorRun, VerificationRun, RuntimeRun, VisualRun, ProvisioningRun, GitInfo,
}

-- `value === "text"`
abbrev pub reads : Option String → String → Bool
reads o s = same_text o (some s)

abbrev pub latest_cursor_run : Project → Option CursorRun
latest_cursor_run p = last p.cursor_runs

-- `run?.iteration`, where an absent run stands for the project's own iteration.
abbrev pub run_iteration : Project → Option CursorRun → ℕ
run_iteration p none = p.iteration
run_iteration p (some run) = run.iteration

unfoldable pub latest_verification_run : Project → ℕ → Option VerificationRun
latest_verification_run p n =
    or_object (find_last (λ r. eqb r.iteration n) p.verification_runs) (last p.verification_runs)

unfoldable pub latest_runtime_run : Project → ℕ → Option RuntimeRun
latest_runtime_run p n =
    or_object (find_last (λ r. eqb r.iteration n) p.runtime_runs) (last p.runtime_runs)

unfoldable pub latest_visual_run : Project → ℕ → Option VisualRun
latest_visual_run p n =
    or_object (find_last (λ r. eqb r.iteration n) p.visual_review_runs) (last p.visual_review_runs)

abbrev pub latest_provisioning_run : Project → Option ProvisioningRun
latest_provisioning_run p = last p.provisioning_runs

abbrev pub git_checkpoint : Option GitInfo → Option String
git_checkpoint none = none
git_checkpoint (some g) = g.checkpoint_sha

abbrev pub git_after : Option GitInfo → Option String
git_after none = none
git_after (some g) = g.after_sha

-- `last?.checkpointSha || last?.git?.checkpointSha || last?.git?.afterSha || null`
abbrev pub run_sha : Option CursorRun → Option String
run_sha none = none
run_sha (some run) =
    or_else run.checkpoint_sha (or_else (git_checkpoint run.git) (or_else (git_after run.git) none))

abbrev pub repository_type : Project → Option String
repository_type p = elim p.repository [ none ↦ none | some r ↦ r.repository_type ]

abbrev pub repository_baseline : Project → Option String
repository_baseline p = elim p.repository [ none ↦ none | some r ↦ r.provisioning_baseline_sha ]

unfoldable pub is_existing_repository_project : Project → Bool
is_existing_repository_project p =
    reads (repository_type p) "EXISTING_LOCAL"
    || reads (repository_type p) "EXISTING_REMOTE"
    || truthy p.project_path

unfoldable pub needs_provisioning : Project → Bool
unfolding is_existing_repository_project
needs_provisioning p =
    if is_existing_repository_project p
    then false
    else elim p.provisioning [ none ↦ true | some v ↦ not (reads v.status "NOT_APPLICABLE") ]

unfoldable pub provisioning_succeeded : Project → Bool
provisioning_succeeded p = elim (latest_provisioning_run p) [
  | none ↦ false
  | some run ↦
      reads run.status "PASS" && (truthy run.baseline_sha || truthy (repository_baseline p))
]
