-- ===== src/Jobs/Table.antt =====
-- The table `jobs` (db/schema.js, db/schema-phase6.js): its rows, its unique indexes, and the
-- statements that jobs/queue.js runs on it. Times are milliseconds, identifiers are texts; the
-- column `payload`, which nothing reads, is left out.
pub mod Updates
pub mod Rows
use autonomous_dev_platform.Base.{
  ℕ, ◌+◌, Bool, false, ◌&&◌, ◌||◌, String, ◌==◌, if◌then◌else◌, Option, List, [], ◌∷◌, ◌++◌, any,
}
use autonomous_dev_platform.Errors.{Code}
use autonomous_dev_platform.Jobs.Kinds.{JobType, JobStatus, is_active}

-- `last_error`, without its message and time.
pub record JobError : Type 0 where
  pub code : Code
  pub retryable : Bool

pub record Job : Type 0 where
  pub id : String
  pub project_id : String
  pub job_type : JobType
  pub phase : String
  pub iteration : ℕ
  pub idempotency_key : String
  pub status : JobStatus
  pub priority : ℕ
  pub attempts : ℕ
  pub max_attempts : ℕ
  pub available_at : ℕ
  pub locked_by : Option String
  pub lease_expires_at : Option ℕ
  pub heartbeat_at : Option ℕ
  pub created_at : ℕ
  pub started_at : Option ℕ
  pub completed_at : Option ℕ
  pub failed_at : Option ℕ
  pub last_error : Option JobError
  pub required_capabilities : List String

abbrev pub Table : Type 0
Table = List Job

abbrev pub is_active_job : Job → Bool
is_active_job j = is_active j.status

-- Two rows that the primary key, `jobs_one_active_per_project` or `jobs_active_idempotency` keeps
-- apart.
abbrev pub clash : Job → Job → Bool
clash a b =
    (a.id == b.id)
    || (is_active_job a && is_active_job b)
      && ((a.project_id == b.project_id) || (a.idempotency_key == b.idempotency_key))

unfoldable pub violates_index : Table → Bool
violates_index [] = false
violates_index (j ∷ js) = any (clash j) js || violates_index js

-- The result of a statement or a transaction: done, or refused with the table as it was.
pub data Written {ℓ} (A : Type ℓ) : Type ℓ where
  written : A → Table → Written A
  duplicate_key : Written A
  transaction_aborted : Written A

-- INSERT
unfoldable pub insert_row : Job → Table → Written Job
unfolding violates_index
insert_row j t = let t' = t ++ j ∷ [] in if violates_index t' then duplicate_key else written j t'

-- UPDATE … SET set WHERE cond, on the rows.
unfoldable pub update_rows : (Job → Bool) → (Job → Job) → Table → Table
update_rows cond set [] = []
update_rows cond set (j ∷ js) = (if cond j then set j else j) ∷ update_rows cond set js

-- The rows that the same statement returns (RETURNING *).
unfoldable pub updated_rows : (Job → Bool) → (Job → Job) → Table → List Job
updated_rows cond set [] = []
updated_rows cond set (j ∷ js) =
    let rest = updated_rows cond set js in if cond j then set j ∷ rest else rest

unfoldable pub update : (Job → Bool) → (Job → Job) → Table → Written (List Job)
unfolding violates_index update_rows updated_rows
update cond set t =
    let t' = update_rows cond set t in
    if violates_index t' then duplicate_key else written (updated_rows cond set t) t'
