-- ===== src/Orchestrator/World.antt =====
-- What the orchestrator calls and does not itself decide: the council, the delivery's preparation, the
-- notifications, the texts of prompts, new identifiers, and its settings.
use autonomous_dev_platform.Base.{ℕ, Bool, true, Option, some, String, if◌then◌else◌}
use autonomous_dev_platform.Errors.{Thrown, ErrorCode, platform_error, known}
use autonomous_dev_platform.Project.{Project, Decision}
use autonomous_dev_platform.Project.Runs.{VerificationRun, RuntimeRun, VisualRun}
use autonomous_dev_platform.Gate.Security.{Environment}

-- An awaited call returns or throws.
pub data Answer {ℓ} (A : Type ℓ) : Type ℓ where
  answered : A → Answer A
  refused : Thrown → Answer A

pub record World : Type 0 where
  pub demo : Bool
  pub max_iterations : ℕ
  pub environment : Environment
  pub pending_revocation : Project → Bool  -- `requiredRevocationPending({ projectId }).length`
  pub sha256 : String → String
  pub new_id : Project → String
  pub review : Project → Answer (Option Decision)  -- `council.review`
  pub final_verify : Project → Answer (Option Decision)  -- `council.finalVerify`
  pub prompt_from_verification : Option VerificationRun → String
  pub prompt_from_runtime : Option RuntimeRun → String
  pub prompt_from_visual : Option VisualRun → Option RuntimeRun → String
  pub prompt_from_findings : Project → String
  pub prompt_from_blockers : Project → String
  pub prepare_delivery : Project → Answer Project  -- `prepareDeliverySnapshot`
  pub notify : Project → Option Thrown  -- `notifyReady`

-- The error that is thrown for one that is no `PlatformError`.
unfoldable pub wrapped : Thrown → ErrorCode → String → Thrown
unfolding platform_error
wrapped error code phase =
    if error.is_platform then error else platform_error (some (known code)) (some phase) (some true)
