-- ===== src/Jobs/Queue/Examples.antt =====
-- The job queue on concrete tables.
use mathlib.Core.List.{Memᴰ}
use autonomous_dev_platform.Base.{
  ◌+◌, ltb, Bool, true, false, ◌&&◌, ◌≡◌, refl, is_some, String, ◌==◌, if◌then◌else◌, none, some,
  [], ◌∷◌, Option, min, ◌*◌, ◌^◌, ◌-◌, ◌<◌, ◌≤◌, ◌⊎◌, inl, arith,
}
use autonomous_dev_platform.Errors.{Thrown, known, provider_timeout}
use autonomous_dev_platform.Jobs.Kinds.{JobStatus, cursor_execution}
use autonomous_dev_platform.Jobs.Table.{Job, JobError, Table, violates_index, insert_row, update}
use autonomous_dev_platform.Jobs.Table.Rows.{row}
use autonomous_dev_platform.Jobs.Queue.{Queue, Planned, new_row, returned, from_job_row}
use autonomous_dev_platform.Jobs.Queue.Enqueue.{enqueue, no_extras}
use autonomous_dev_platform.Jobs.Queue.Claim.{claim, claimable, first_claimable, claimed_row, owns}
use autonomous_dev_platform.Jobs.Queue.Failure.{Failed, fail, recover_expired_leases}
use autonomous_dev_platform.Jobs.Planning
use autonomous_dev_platform.Project.Samples.{sample_project}
use autonomous_dev_platform.States.{is_boot_resumable}
use autonomous_dev_platform.Jobs.Queue.Selection
use autonomous_dev_platform.Jobs.Queue.Again
use autonomous_dev_platform.Jobs.Queue.Exclusive
use autonomous_dev_platform.Jobs.Queue.Outcomes

abbrev queue : Queue
queue = record { max_attempts = 8; lease_ms = 1000; retry_base_ms = 5; retry_max_ms = 100 }

abbrev planned : Planned
planned = record {
  job_type = cursor_execution;
  phase = "CURSOR_EXECUTION";
  iteration = 1;
  idempotency_key = "k";
  required_capabilities = "linux" ∷ [];
}

abbrev waiting : Job
waiting = new_row queue 10 "j" "p" planned 100 8 10

abbrev taken : Job
taken = claimed_row queue 20 21 "w" waiting

abbrev no_locks : String → Bool
no_locks id = false

abbrev timeout : Thrown
timeout = record {
  is_platform = true;
  code = some (known provider_timeout);
  phase = none;
  retryable = some true;
}

enqueued_table : (enqueue queue 10 "j" "p" (some planned) no_extras [] [] []).1 ≡ waiting ∷ []
unfolding enqueue insert_row
enqueued_table = refl

claims :
    claim queue no_locks 20 21 "w" ("linux" ∷ []) (waiting ∷ [])
    ≡ (some (from_job_row taken), taken ∷ [])
unfolding claim first_claimable update
claims = refl

sound : violates_index (waiting ∷ []) ≡ false
unfolding violates_index
sound = refl

sound_taken : violates_index (taken ∷ []) ≡ false
unfolding violates_index
sound_taken = refl

claim_exclusive_example :
    (j : Job) × (row "j" (waiting ∷ []) ≡ some j)
    × (claimable no_locks 21 ("linux" ∷ []) j ≡ true)
    × (1 ≡ j.attempts + 1)
    × (row "j" (taken ∷ [])
        ≡ (if "j" == "j" then some (claimed_row queue 20 21 "w" j) else row "j" (waiting ∷ [])))
    × (owns 30 "j" "v" (taken ∷ []) ≡ (("v" == "w") && ltb 30 (20 + 1000)))
    × (violates_index (taken ∷ []) ≡ false)
claim_exclusive_example =
    Exclusive.claim_exclusive queue no_locks 20 21 "w" ("linux" ∷ []) (waiting ∷ []) "j" "v" 30
      sound claims

found : first_claimable no_locks 21 ("linux" ∷ []) (waiting ∷ []) ≡ some waiting
unfolding first_claimable
found = refl

first_claimable_first_example :
    (waiting.priority < waiting.priority)
    ⊎ ((waiting.priority ≡ waiting.priority) × (waiting.created_at ≤ waiting.created_at))
first_claimable_first_example =
    Selection.first_claimable_first no_locks 21 ("linux" ∷ []) (waiting ∷ []) waiting waiting found
      (Memᴰ.head refl) refl (omega arith) refl refl

enqueued_once :
    enqueue queue 10 "j" "p" (some planned) no_extras [] [] []
    ≡ (some (from_job_row waiting), waiting ∷ [])
unfolding enqueue insert_row
enqueued_once = refl

enqueue_again_example :
    enqueue queue 15 "k" "q" (some planned) no_extras (waiting ∷ []) [] []
    ≡ (some (from_job_row waiting), [])
enqueue_again_example =
    Again.enqueue_again queue queue 10 15 "j" "k" "p" "q" planned planned no_extras no_extras []
      (waiting ∷ []) [] [] (from_job_row waiting) refl enqueued_once

recover_requeues_example :
    ((1020 ≤ 2000)
      × (row "j" (recover_expired_leases 2000 [] (taken ∷ [])).1
          ≡ some (record taken {
            status = JobStatus.queued;
            locked_by = none;
            lease_expires_at = none;
            available_at = 2000;
          })))
    ⊎ ((2000 < 1020) × (row "j" (recover_expired_leases 2000 [] (taken ∷ [])).1 ≡ some taken))
recover_requeues_example =
    Outcomes.recover_requeues 2000 [] "j" (taken ∷ []) taken 1020 sound_taken refl refl refl refl

fail_dies_example :
    (f : Failed) × (t' : Table) × (e : Option JobError) × (fail queue 50 taken timeout true
        (taken ∷ [])
      ≡ returned f t')
    × (f.dead ≡ true)
    × (row "j" t' ≡ (
        if "j" == "j"
        then some (record taken {
          status = JobStatus.dead;
          locked_by = none;
          lease_expires_at = none;
          failed_at = some 50;
          last_error = e;
        })
        else row "j" (taken ∷ [])))
fail_dies_example =
    Outcomes.fail_dies queue 50 taken taken timeout true (taken ∷ []) "j" sound_taken refl refl
      (inl refl)

fail_retries_example :
    (f : Failed) × (t' : Table) × (e : Option JobError) × (fail queue 50 taken timeout false
        (taken ∷ [])
      ≡ returned f t')
    × (f.dead ≡ false)
    × (row "j" t' ≡ (
        if "j" == "j"
        then some (record taken {
          status = JobStatus.queued;
          locked_by = none;
          lease_expires_at = none;
          available_at = 50 + min 100 (5 * 2 ^ (1 - 1));
          last_error = e;
        })
        else row "j" (taken ∷ [])))
fail_retries_example =
    Outcomes.fail_retries queue 50 taken taken timeout false (taken ∷ []) "j" sound_taken refl refl
      refl refl refl (omega arith)

next_job_planned_example :
    is_some (Planning.next_job_type (sample_project none))
    ≡ is_boot_resumable (sample_project none).state
next_job_planned_example = Planning.next_job_planned (sample_project none)
