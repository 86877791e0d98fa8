-- ===== src/Jobs/Queue/Handoff.antt =====
-- `completeAndHandoff` of jobs/queue.js: a finished job and its successor.
use autonomous_dev_platform.Base.{ℕ, Bool, true, false, String, ◌==◌, Option, none, some}
use autonomous_dev_platform.Jobs.Kinds.{completed}
use autonomous_dev_platform.Jobs.Table.{
  Job, Table, Written, written, duplicate_key, transaction_aborted, insert_row, update,
}
use autonomous_dev_platform.Jobs.Queue.{
  Queue, Planned, from_job_row, new_row, find_active_by_key, newest_by_key, Done, returned, thrown,
}

abbrev pub completed_row : ℕ → Job → Job
completed_row now j = record j {
  status = completed;
  locked_by = none;
  lease_expires_at = none;
  completed_at = some now;
  last_error = none;
}

abbrev read_back : Option Job → Option Job
read_back none = none
read_back (some row) = some (from_job_row row)

handoff_inserted : Bool → Written Job → String → Table → Table → Done (Option Job)
unfolding newest_by_key
handoff_inserted aborts (written j t'') key t t' = returned (some (from_job_row j)) t''
handoff_inserted true duplicate_key key t t' = thrown t
handoff_inserted false duplicate_key key t t' = returned (read_back (newest_by_key key t')) t'
handoff_inserted aborts transaction_aborted key t t' = thrown t

handoff_next :
    Queue
    → Bool
    → ℕ
    → String
    → String
    → Job
    → Option Planned
    → Bool
    → Table
    → Table
    → Done (Option Job)
unfolding handoff_inserted find_active_by_key
handoff_next q aborts now id project_id job none enqueue_next t t' = returned none t'
handoff_next q aborts now id project_id job (some planned) false t t' = returned none t'
handoff_next q aborts now id project_id job (some planned) true t t' =
    elim (find_active_by_key planned.idempotency_key t') [
      | some existing ↦ returned (some (from_job_row existing)) t'
      | none ↦
          let row = new_row q now id project_id planned 100 q.max_attempts now in
          handoff_inserted aborts (insert_row row t') planned.idempotency_key t t'
    ]

-- One transaction. `aborts` says that the database refuses every further statement of a transaction
-- in which one failed, so that the SELECT after a refused INSERT throws and all is rolled back.
unfoldable pub complete_and_handoff :
    Queue → Bool → ℕ → String → String → Job → Option Planned → Bool → Table → Done (Option Job)
unfolding handoff_next
complete_and_handoff q aborts now id project_id job planned enqueue_next t =
    elim (update (λ j. j.id == job.id) (completed_row now) t) [
      | written _ t' ↦ handoff_next q aborts now id project_id job planned enqueue_next t t'
      | duplicate_key ↦ thrown t
      | transaction_aborted ↦ thrown t
    ]
