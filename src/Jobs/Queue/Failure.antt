-- ===== src/Jobs/Queue/Failure.antt =====
-- `fail`, `recoverExpiredLeases` and `counts` of jobs/queue.js.
use autonomous_dev_platform.Base.{
  ℕ, ◌+◌, Bool, true, false, not, ◌&&◌, ◌||◌, String, ◌==◌, if◌then◌else◌, Option, none, some, List,
  [], ◌∷◌, leb, eqb, length, select, includes,
}
use autonomous_dev_platform.Errors.{Thrown}
use autonomous_dev_platform.Jobs.Classify.{classify_job_error, retry_delay_ms}
use autonomous_dev_platform.Jobs.Kinds.{
  JobStatus, queued, completed, failed, dead, is_queued, is_running,
}
use autonomous_dev_platform.Jobs.Table.{
  Job, JobError, Table, Written, written, duplicate_key, transaction_aborted, update,
}
use autonomous_dev_platform.Jobs.Queue.{Queue, from_job_row, Done, returned, thrown}
use autonomous_dev_platform.Jobs.Queue.Claim.{requeued_row}

-- `errorRecord`
abbrev job_error : Thrown → JobError
job_error error =
    let classified = classify_job_error error in
    record { code = classified.code; retryable = classified.retryable }

-- `job.maxAttempts || this.maxAttempts`
abbrev pub attempt_limit : Queue → Job → ℕ
attempt_limit q job = if eqb job.max_attempts 0 then q.max_attempts else job.max_attempts

unfoldable pub is_exhausted : Queue → Job → Thrown → Bool → Bool
unfolding classify_job_error
is_exhausted q job error terminal =
    terminal || not (classify_job_error error).retryable || leb (attempt_limit q job) job.attempts

abbrev pub dead_row : ℕ → Thrown → Job → Job
dead_row now error j = record j {
  status = dead;
  locked_by = none;
  lease_expires_at = none;
  failed_at = some now;
  last_error = some (job_error error);
}

abbrev pub retry_row : ℕ → Thrown → Job → Job
retry_row available_at error j = record j {
  status = queued;
  locked_by = none;
  lease_expires_at = none;
  available_at = available_at;
  last_error = some (job_error error);
}

pub record Failed : Type 0 where
  pub job : Option Job
  pub dead : Bool
  pub retryable : Bool
  pub available_at : Option ℕ

abbrev pub failed_result : Bool → Option ℕ → Job → Failed
failed_result is_dead at row = record {
  job = some (from_job_row row);
  dead = is_dead;
  retryable = not is_dead;
  available_at = at;
}

failed_done : Bool → Option ℕ → Table → Written (List Job) → Done Failed
failed_done is_dead at t (written (row ∷ rows) t') = returned (failed_result is_dead at row) t'
failed_done is_dead at t (written [] t') = thrown t'
failed_done is_dead at t duplicate_key = thrown t
failed_done is_dead at t transaction_aborted = thrown t

-- `job` is what the worker was given when it claimed the job; the row may have changed since.
unfoldable pub fail : Queue → ℕ → Job → Thrown → Bool → Table → Done Failed
unfolding is_exhausted retry_delay_ms failed_done
fail q now job error terminal t =
    if is_exhausted q job error terminal
    then failed_done true none t (update (λ j. j.id == job.id) (dead_row now error) t)
    else let at = now + retry_delay_ms job.attempts q.retry_base_ms q.retry_max_ms in
      failed_done false (some at) t (update (λ j. j.id == job.id) (retry_row at error) t)

-- `status = 'RUNNING' AND lease_expires_at <= NOW() AND NOT (id = ANY(except))`
abbrev pub expired : ℕ → List String → Job → Bool
expired now except_ids j =
    is_running j.status
    && (elim j.lease_expires_at [ none ↦ false | some at ↦ leb at now ])
    && not (includes j.id except_ids)

abbrev all_rows : Written (List Job) → Table → List Job × Table
all_rows (written rows t') t = (rows, t')
all_rows duplicate_key t = ([], t)
all_rows transaction_aborted t = ([], t)

unfoldable pub recover_expired_leases : ℕ → List String → Table → List Job × Table
recover_expired_leases now except_ids t =
    all_rows (update (expired now except_ids) (requeued_row now) t) t

pub record Counts : Type 0 where
  pub queued : ℕ
  pub running : ℕ
  pub failed : ℕ
  pub completed : ℕ
  pub dead : ℕ

count_status : (JobStatus → Bool) → Table → ℕ
count_status p t = length (select (λ j. p j.status) t)

-- Dead jobs are counted among the failed ones too.
unfoldable pub counts : Table → Counts
unfolding count_status
counts t =
    let n_dead = count_status (λ s. elim s [ dead ↦ true | _ ↦ false ]) t in
    record {
      queued = count_status is_queued t;
      running = count_status is_running t;
      failed = count_status (λ s. elim s [ failed ↦ true | _ ↦ false ]) t + n_dead;
      completed = count_status (λ s. elim s [ completed ↦ true | _ ↦ false ]) t;
      dead = n_dead;
    }
