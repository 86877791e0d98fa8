-- ===== src/Jobs/Queue.antt =====
-- jobs/queue.js: the operations of `JobQueue` on the table `jobs`. The clocks of the program and of the
-- database (one argument where no more than one of them is read on a way through an operation), the new
-- identifier and the rows that other transactions hold are arguments. The operations are in the child
-- modules.
pub mod Enqueue
pub mod Again
pub mod Claim
pub mod Handoff
pub mod Failure
pub mod Selection
pub mod Indexes
pub mod Exclusive
pub mod Outcomes
mod Examples
use autonomous_dev_platform.Base.{
  ℕ, ◌&&◌, String, ◌==◌, if◌then◌else◌, Option, none, some, List, [], ◌∷◌, leb, eqb, find,
}
use autonomous_dev_platform.Jobs.Kinds.{JobType, queued}
use autonomous_dev_platform.Jobs.Table.{
  Job, Table, is_active_job, Written, written, duplicate_key, transaction_aborted,
}

-- The settings of a `JobQueue`.
pub record Queue : Type 0 where
  pub max_attempts : ℕ
  pub lease_ms : ℕ
  pub retry_base_ms : ℕ
  pub retry_max_ms : ℕ

-- What `plannedJob` returns.
pub record Planned : Type 0 where
  pub job_type : JobType
  pub phase : String
  pub iteration : ℕ
  pub idempotency_key : String
  pub required_capabilities : List String

-- `fromJobRow`: a row whose limit is 0 is read as one with the limit 8.
abbrev pub from_job_row : Job → Job
from_job_row row = record row {
  max_attempts = if eqb row.max_attempts 0 then 8 else row.max_attempts;
}

-- The row of an INSERT of `enqueue` or `completeAndHandoff`.
abbrev pub new_row : Queue → ℕ → String → String → Planned → ℕ → ℕ → ℕ → Job
new_row q now id project_id planned priority max_attempts available_at = record {
  id = id;
  project_id = project_id;
  job_type = planned.job_type;
  phase = planned.phase;
  iteration = planned.iteration;
  idempotency_key = planned.idempotency_key;
  status = queued;
  priority = priority;
  attempts = 0;
  max_attempts = max_attempts;
  available_at = available_at;
  locked_by = none;
  lease_expires_at = none;
  heartbeat_at = none;
  created_at = now;
  started_at = none;
  completed_at = none;
  failed_at = none;
  last_error = none;
  required_capabilities = planned.required_capabilities;
}

-- `findActiveByKey`
unfoldable pub find_active_by_key : String → Table → Option Job
find_active_by_key key = find (λ j. (j.idempotency_key == key) && is_active_job j)

-- `findByKey`
unfoldable pub find_by_key : String → Table → Option Job
find_by_key key = find (λ j. j.idempotency_key == key)

-- `result.rows[0] ? fromJobRow(result.rows[0]) : null`
abbrev pub first_row : Written (List Job) → Table → Option Job × Table
first_row (written [] t') t = (none, t')
first_row (written (j ∷ js) t') t = (some (from_job_row j), t')
first_row duplicate_key t = (none, t)
first_row transaction_aborted t = (none, t)

-- `ORDER BY created_at DESC LIMIT 1` over the rows with a key.
unfoldable pub newest_by_key : String → Table → Option Job
newest_by_key key [] = none
newest_by_key key (j ∷ js) = elim (newest_by_key key js) [
  | none ↦ if j.idempotency_key == key then some j else none
  | some best ↦
      if (j.idempotency_key == key) && leb best.created_at j.created_at then some j else some best
]

-- The result of an operation that may throw: the table is then as the database left it.
pub data Done {ℓ} (A : Type ℓ) : Type ℓ where
  returned : A → Table → Done A
  thrown : Table → Done A
