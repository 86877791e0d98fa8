-- ===== src/Jobs/Queue/Enqueue.antt =====
-- `JobQueue.enqueue` of jobs/queue.js.
use autonomous_dev_platform.Base.{ℕ, String, Option, none, some}
use autonomous_dev_platform.Jobs.Table.{
  Job, Table, Written, written, duplicate_key, transaction_aborted, insert_row,
}
use autonomous_dev_platform.Jobs.Queue.{Queue, Planned, from_job_row, new_row, find_active_by_key}

abbrev pub or_number : Option ℕ → ℕ → ℕ
or_number none d = d
or_number (some n) d = n

-- The optional fields of `extras` that the INSERT reads.
pub record Extras : Type 0 where
  pub priority : Option ℕ
  pub max_attempts : Option ℕ
  pub available_at : Option ℕ

abbrev pub no_extras : Extras
no_extras = record { priority = none; max_attempts = none; available_at = none }

abbrev pub read_back : Option Job → Option Job
read_back none = none
read_back (some row) = some (from_job_row row)

unfoldable pub after_insert : Written Job → String → Table → Table → Option Job × Table
unfolding find_active_by_key
after_insert (written j t') key t later = (some (from_job_row j), t')
after_insert duplicate_key key t later = (read_back (find_active_by_key key later), t)
after_insert transaction_aborted key t later = (read_back (find_active_by_key key later), t)

-- Three statements, and no transaction: `seen` is the table that the first SELECT reads, `t` the one
-- that the INSERT meets, and `later` the one that is read after a refused INSERT. The table that
-- comes back is what the INSERT leaves.
unfoldable pub enqueue :
    Queue
    → ℕ
    → String
    → String
    → Option Planned
    → Extras
    → Table
    → Table
    → Table
    → Option Job × Table
unfolding after_insert
enqueue q now id project_id none extras seen t later = (none, t)
enqueue q now id project_id (some planned) extras seen t later =
    elim (find_active_by_key planned.idempotency_key seen) [
      | some existing ↦ (some (from_job_row existing), t)
      | none ↦
          let row =
            new_row q now id project_id planned (or_number extras.priority 100)
              (or_number extras.max_attempts q.max_attempts) (or_number extras.available_at now) in
          after_insert (insert_row row t) planned.idempotency_key t later
    ]
