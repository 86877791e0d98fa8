-- ===== src/Gate/Freshness.antt =====
-- Whether runtime and visual evidence is about the latest Cursor run: `isRuntimeStale` and
-- `shouldSkipRuntime` (runtime/pipeline.js), `isVisualStale` and `shouldSkipVisual`
-- (visual/pipeline.js).
use autonomous_dev_platform.Base.{
  Bool, true, false, not, ◌&&◌, ◌||◌, Option, none, some, String, any, truthy, same_text, is_empty,
}
use autonomous_dev_platform.Project.{Project}
use autonomous_dev_platform.Project.Runs.{
  RuntimeRun, VisualRun, VerificationRun, CursorRun, Finding,
}
use autonomous_dev_platform.Project.Latest.{reads, latest_cursor_run, run_sha, latest_runtime_run}

-- Two checkpoints are both known and differ.
abbrev pub differ : Option String → Option String → Bool
differ a b = truthy a && truthy b && not (same_text a b)

unfoldable pub is_runtime_stale : Project → RuntimeRun → Bool
is_runtime_stale p run = differ (run_sha (latest_cursor_run p)) run.checkpoint_sha

abbrev own_sha : Option CursorRun → Option String
own_sha none = none
own_sha (some run) = run.checkpoint_sha

abbrev runtime_id : Option RuntimeRun → Option String
runtime_id none = none
runtime_id (some r) = some r.id

unfoldable pub is_visual_stale : Project → VisualRun → Bool
unfolding latest_runtime_run
is_visual_stale p visual =
    differ (own_sha (latest_cursor_run p)) visual.checkpoint_sha
    || differ (runtime_id (latest_runtime_run p p.iteration)) visual.runtime_run_id

abbrev verification_skips : Option VerificationRun → Bool
verification_skips none = false
verification_skips (some v) = v.mock || not (is_empty v.blocking_failures)

unfoldable pub should_skip_runtime : Project → Option VerificationRun → Bool
should_skip_runtime p verification =
    p.demo
    || (elim p.evidence [ none ↦ false | some e ↦ reads e.verification_level "MOCK" ])
    || verification_skips verification

abbrev never_started : Finding → Bool
never_started f =
    reads f.code "RUNTIME_START_FAILED"
    || reads f.code "RUNTIME_READINESS_TIMEOUT"
    || reads f.code "RUNTIME_PROCESS_EXITED"

abbrev pub runtime_skips_visual : Option RuntimeRun → Bool
runtime_skips_visual none = true
runtime_skips_visual (some r) =
    (elim r.policy [ none ↦ false | some policy ↦ reads policy.visual "NOT_APPLICABLE" ])
    || reads r.status "FAIL" && any never_started r.blocking_failures

unfoldable pub should_skip_visual : Project → Option RuntimeRun → Bool
should_skip_visual p runtime = p.demo || runtime_skips_visual runtime
