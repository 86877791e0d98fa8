-- ===== src/Jobs/Kinds.antt =====
-- The kinds of job and the statuses of a job (jobs/types.js).
use autonomous_dev_platform.Base.{Bool, true, false, String}

pub data JobType : Type 0 where
  council_discovery project_provisioning cursor_execution platform_verification : JobType
  runtime_verification visual_verification council_review final_verification : JobType
  delivery_preparation : JobType

-- The string that stands for the type.
unfoldable pub job_type_name : JobType → String
job_type_name council_discovery = "COUNCIL_DISCOVERY"
job_type_name project_provisioning = "PROJECT_PROVISIONING"
job_type_name cursor_execution = "CURSOR_EXECUTION"
job_type_name platform_verification = "PLATFORM_VERIFICATION"
job_type_name runtime_verification = "RUNTIME_VERIFICATION"
job_type_name visual_verification = "VISUAL_VERIFICATION"
job_type_name council_review = "COUNCIL_REVIEW"
job_type_name final_verification = "FINAL_VERIFICATION"
job_type_name delivery_preparation = "DELIVERY_PREPARATION"

pub data JobStatus : Type 0 where
  queued running completed failed dead : JobStatus

abbrev pub is_queued : JobStatus → Bool
is_queued queued = true
is_queued _ = false

abbrev pub is_running : JobStatus → Bool
is_running running = true
is_running _ = false

-- `status IN ('QUEUED', 'RUNNING')`
abbrev pub is_active : JobStatus → Bool
is_active queued = true
is_active running = true
is_active _ = false
