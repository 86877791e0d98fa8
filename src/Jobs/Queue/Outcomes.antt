-- ===== src/Jobs/Queue/Outcomes.antt =====
-- What becomes of a job that fails, or whose worker is gone.
use autonomous_dev_platform.Base.{
  none≢some, some_inj, if◌then◌else◌, ℕ, ◌+◌, Bool, true, false, ◌≡◌, inl, inr, refl, ◌==◌, List,
  [], ◌∷◌, arith, ◌&&◌, String, Bool-cases, Option, none, some, ap, ◌∙◌, includes, eqb, leb, leb→le,
  min, ◌*◌, ◌^◌, ◌-◌, ◌≤◌, ◌<◌, ◌⊎◌,
}
use autonomous_dev_platform.Errors.{Thrown, code_or_unexpected, not_false}
use autonomous_dev_platform.Jobs.Kinds.{queued, running, dead}
use autonomous_dev_platform.Jobs.Classify.{
  retry_delay_ms, is_terminal, is_delayed, classify_job_error,
}
use autonomous_dev_platform.Jobs.Table.{
  Job, JobError, Table, is_active_job, violates_index, update, update_rows, updated_rows, written,
}
use autonomous_dev_platform.Jobs.Table.Updates.{Calm, update_written, update_rows_indexes}
use autonomous_dev_platform.Jobs.Table.Rows.{
  has_id, row, row-update_rows, row-update_self, row-update_other, update_tested, map_row, apply_to,
  first, first_updated,
}
use autonomous_dev_platform.Jobs.Queue.{Queue, returned}
use autonomous_dev_platform.Jobs.Queue.Claim.{requeued_row}
use autonomous_dev_platform.Jobs.Queue.Exclusive.{row_everywhere}
use autonomous_dev_platform.Jobs.Queue.Failure.{
  Failed, failed_result, fail, recover_expired_leases, expired, retry_row, dead_row, is_exhausted,
}

expired-Calm :
    (now : ℕ) (ids : List String) (j : Job) → expired now ids j ≡ true → Calm j (requeued_row now j)
expired-Calm now ids j h = record {
  id = refl;
  project_id = refl;
  key = refl;
  inactive = λ a. ground arith;
}

recovered :
    (now : ℕ) (ids : List String) (id : String) (t : Table)
    → violates_index t ≡ false
    → row id (recover_expired_leases now ids t).1
      ≡ map_row (apply_to (expired now ids) (requeued_row now)) (row id t)
unfolding recover_expired_leases
recovered now ids id t s =
    let done = update_written (expired now ids) (requeued_row now) (expired-Calm now ids) t s in
    rw done (row-update_rows (expired now ids) (requeued_row now) (λ j. refl) id t)

module _ (now : ℕ) (ids : List String) (id : String) (t : Table) (r : Job) (at : ℕ)
    (sound : violates_index t ≡ false) (here : row id t ≡ some r)
    (lease : r.lease_expires_at ≡ some at) where
  is_expired : r.status ≡ running → at ≤ now → includes r.id ids ≡ false → expired now ids r ≡ true
  is_expired s l i = rw (s, lease, i) (ground arith)

  is_held : now < at → expired now ids r ≡ false
  is_held l = rw lease (ground arith)

  recovered_row :
      (b : Bool)
      → expired now ids r ≡ b
      → row id (recover_expired_leases now ids t).1 ≡ some (if b then requeued_row now r else r)
  recovered_row b e =
      recovered now ids id t sound
      ∙ ap (map_row (apply_to (expired now ids) (requeued_row now))) here
      ∙ ap (λ x. some (if x then requeued_row now r else r)) e

  by_time : (b : Bool) → leb at now ≡ b → ((at ≤ now) × (b ≡ true)) ⊎ ((now < at) × (b ≡ false))
  by_time true e = inl (leb→le at now e, refl)
  by_time false e = inr (ground arith, refl)

  -- A running job with a lease, that is not excepted, is queued again at once if the lease has ended,
  -- without an owner or a lease and whatever its number of attempts, and all else of its row is as it
  -- was; if the lease has not ended, the whole row is as it was.
  pub recover_requeues :
      r.status ≡ running
      → includes r.id ids ≡ false
      → ((at ≤ now)
          × (row id (recover_expired_leases now ids t).1
              ≡ some (record r {
                status = queued;
                locked_by = none;
                lease_expires_at = none;
                available_at = now;
              })))
        ⊎ ((now < at) × (row id (recover_expired_leases now ids t).1 ≡ some r))
  recover_requeues s i = elim (by_time (leb at now) refl) [
    | inl (l, e) ↦ inl (l, recovered_row true (is_expired s l i))
    | inr (l, e) ↦ inr (l, recovered_row false (is_held l))
  ]

-- An UPDATE of a queued or running row by its identifier.
module _ (set : Job → Job) (calm : (j : Job) → is_active_job j ≡ true → Calm j (set j)) where
  active_update :
      (id : String) (r : Job) (t : Table)
      → violates_index t ≡ false
      → row id t ≡ some r
      → is_active_job r ≡ true
      → violates_index (update_rows (has_id id) set t) ≡ false
  active_update id r t s e a =
      rw (update_tested id is_active_job set r t s e a)
        (update_rows_indexes (λ k. has_id id k && is_active_job k) set calm_if t s)
    where
      calm_if : (j : Job) → has_id id j && is_active_job j ≡ true → Calm j (set j)
      calm_if j h = calm j (ground arith)

dead-Calm :
    (now : ℕ) (error : Thrown) (j : Job) → is_active_job j ≡ true → Calm j (dead_row now error j)
dead-Calm now error j h = record { id = refl; project_id = refl; key = refl; inactive = λ a. refl }

retry-Calm :
    (at : ℕ) (error : Thrown) (j : Job) → is_active_job j ≡ true → Calm j (retry_row at error j)
retry-Calm at error j h = record {
  id = refl;
  project_id = refl;
  key = refl;
  inactive = λ a. ground arith;
}

-- The row that `fail` leaves.
abbrev pub failed_row : Queue → ℕ → Job → Thrown → Bool → Job → Job
failed_row q now job error terminal r =
    if is_exhausted q job error terminal
    then dead_row now error r
    else retry_row (now + retry_delay_ms job.attempts q.retry_base_ms q.retry_max_ms) error r

cons_of_first : (js : List Job) (j : Job) → first js ≡ some j → (ks : List Job) × (js ≡ j ∷ ks)
cons_of_first [] j h = absurd (none≢some h)
cons_of_first (k ∷ ks) j h = (ks, ap (λ (x : Job). x ∷ ks) (some_inj h))

written_at :
    (set : Job → Job) (r : Job) (id : String) (t : Table)
    → violates_index (update_rows (has_id id) set t) ≡ false
    → row id t ≡ some r
    → (js : List Job) × (update (has_id id) set t
        ≡ written (set r ∷ js) (update_rows (has_id id) set t))
unfolding update
written_at set r id t s e =
    let (js, same) =
      cons_of_first (updated_rows (has_id id) set t) (set r)
        (first_updated (has_id id) set t ∙ ap (map_row set) e) in
    (js, rw (s, same))

module _ (q : Queue) (now : ℕ) (job r : Job) (error : Thrown) (terminal : Bool) (t : Table) where
  abbrev at_retry : ℕ
  at_retry = now + retry_delay_ms job.attempts q.retry_base_ms q.retry_max_ms

  fail_dead :
      (js : List Job) (u : Table)
      → is_exhausted q job error terminal ≡ true
      → update (has_id job.id) (dead_row now error) t ≡ written (dead_row now error r ∷ js) u
      → fail q now job error terminal t
        ≡ returned (failed_result true none (dead_row now error r)) u
  unfolding fail
  fail_dead js u x w = rw (x, w)

  fail_retry :
      (js : List Job) (u : Table)
      → is_exhausted q job error terminal ≡ false
      → update (has_id job.id) (retry_row at_retry error) t
        ≡ written (retry_row at_retry error r ∷ js) u
      → fail q now job error terminal t
        ≡ returned (failed_result false (some at_retry) (retry_row at_retry error r)) u
  unfolding fail
  fail_retry js u x w = rw (x, w)

  abbrev pub fail_result : Failed
  fail_result =
      if is_exhausted q job error terminal
      then failed_result true none (dead_row now error r)
      else failed_result false (some at_retry) (retry_row at_retry error r)

  recorded :
      (set : Job → Job) (id : String)
      → ((j : Job) → (set j).id ≡ j.id)
      → row job.id t ≡ some r
      → row id (update_rows (has_id job.id) set t)
        ≡ (if id == job.id then some (set r) else row id t)
  recorded set id keeps e =
      row_everywhere id job.id t (update_rows (has_id job.id) set t) (some (set r))
        (row-update_self job.id set keeps t ∙ ap (map_row set) e)
        (λ d. row-update_other id job.id set keeps t d)

  fail_outcome :
      (id : String)
      → violates_index t ≡ false
      → row job.id t ≡ some r
      → is_active_job r ≡ true
      → (t' : Table) × (fail q now job error terminal t ≡ returned fail_result t')
        × (row id t'
            ≡ (if id == job.id then some (failed_row q now job error terminal r) else row id t))
        × (violates_index t' ≡ false)
  fail_outcome id s e a = elim (Bool-cases (is_exhausted q job error terminal)) [
    | inl x ↦
        let set = dead_row now error in
        let sound = active_update set (dead-Calm now error) job.id r t s e a in
        let (js, w) = written_at set r job.id t sound e in
        (
          update_rows (has_id job.id) set t,
          rw x (fail_dead js _ x w),
          rw x (recorded set id (λ j. refl) e),
          sound,
        )
    | inr x ↦
        let set = retry_row at_retry error in
        let sound = active_update set (retry-Calm at_retry error) job.id r t s e a in
        let (js, w) = written_at set r job.id t sound e in
        (
          update_rows (has_id job.id) set t,
          rw x (fail_retry js _ x w),
          rw x (recorded set id (λ j. refl) e),
          sound,
        )
  ]

  exhausted_by :
      (terminal ≡ true)
        ⊎ ((is_terminal (code_or_unexpected error.code) ≡ true)
            ⊎ (((error.retryable ≡ some false)
                  × (is_delayed (code_or_unexpected error.code) ≡ false))
                ⊎ ((if eqb job.max_attempts 0 then q.max_attempts else job.max_attempts)
                    ≤ job.attempts)))
      → is_exhausted q job error terminal ≡ true
  unfolding is_exhausted classify_job_error
  exhausted_by (inl h) = ground arith
  exhausted_by (inr (inl h)) = ground arith
  exhausted_by (inr (inr (inl (h, k)))) = rw (h, k) (ground arith)
  exhausted_by (inr (inr (inr h))) = ground arith

  -- A failure of a job whose row is queued or running makes it dead if the failure is terminal, its
  -- code is, the error is not retryable and its code none that always waits, or the attempts have
  -- reached the limit. The row says when, has no owner and no lease, and no other row is touched.
  pub fail_dies :
      (id : String)
      → violates_index t ≡ false
      → row job.id t ≡ some r
      → is_active_job r ≡ true
      → (terminal ≡ true)
        ⊎ ((is_terminal (code_or_unexpected error.code) ≡ true)
            ⊎ (((error.retryable ≡ some false)
                  × (is_delayed (code_or_unexpected error.code) ≡ false))
                ⊎ ((if eqb job.max_attempts 0 then q.max_attempts else job.max_attempts)
                    ≤ job.attempts)))
      → (f : Failed) × (t' : Table) × (e : Option JobError) × (fail q now job error terminal t
          ≡ returned f t')
        × (f.dead ≡ true)
        × (row id t' ≡ (
            if id == job.id
            then some (record r {
              status = dead;
              locked_by = none;
              lease_expires_at = none;
              failed_at = some now;
              last_error = e;
            })
            else row id t))
  fail_dies id s e a h =
      let x = exhausted_by h in
      let (t', done, there, sound) = fail_outcome id s e a in
      (
        failed_result true none (dead_row now error r),
        t',
        (dead_row now error r).last_error,
        done
            ∙ ap
                (λ b.
                  returned
                    (if b
                      then failed_result true none (dead_row now error r)
                      else failed_result false (some at_retry) (retry_row at_retry error r))
                    t')
                x,
        refl,
        there
            ∙ ap
                (λ b.
                  if id == job.id
                  then some (if b then dead_row now error r else retry_row at_retry error r)
                  else row id t)
                x,
      )

  attempts_left :
      terminal ≡ false
      → is_terminal (code_or_unexpected error.code) ≡ false
      → not_false error.retryable ≡ true
      → job.attempts < (if eqb job.max_attempts 0 then q.max_attempts else job.max_attempts)
      → is_exhausted q job error terminal ≡ false
  unfolding is_exhausted classify_job_error
  attempts_left k c n l = rw (k, c, n) (ground arith)

  -- A failure of a job whose row is queued or running queues it again if the failure is not terminal,
  -- nor is its code, the error is not marked as one that is not retryable, and attempts are left:
  -- after the base delay, doubled with each attempt after the first up to the largest delay. No other
  -- row is touched.
  pub fail_retries :
      (id : String)
      → violates_index t ≡ false
      → row job.id t ≡ some r
      → is_active_job r ≡ true
      → terminal ≡ false
      → is_terminal (code_or_unexpected error.code) ≡ false
      → not_false error.retryable ≡ true
      → job.attempts < (if eqb job.max_attempts 0 then q.max_attempts else job.max_attempts)
      → (f : Failed) × (t' : Table) × (e : Option JobError) × (fail q now job error terminal t
          ≡ returned f t')
        × (f.dead ≡ false)
        × (row id t' ≡ (
            if id == job.id
            then some (record r {
              status = queued;
              locked_by = none;
              lease_expires_at = none;
              available_at = now + min q.retry_max_ms (q.retry_base_ms * 2 ^ (job.attempts - 1));
              last_error = e;
            })
            else row id t))
  unfolding retry_delay_ms
  fail_retries id s e a k c n l =
      let x : is_exhausted q job error terminal ≡ false = attempts_left k c n l in
      let (t', done, there, sound) = fail_outcome id s e a in
      (
        failed_result false (some at_retry) (retry_row at_retry error r),
        t',
        (retry_row at_retry error r).last_error,
        done
            ∙ ap
                (λ b.
                  returned
                    (if b
                      then failed_result true none (dead_row now error r)
                      else failed_result false (some at_retry) (retry_row at_retry error r))
                    t')
                x,
        refl,
        there
            ∙ ap
                (λ b.
                  if id == job.id
                  then some (if b then dead_row now error r else retry_row at_retry error r)
                  else row id t)
                x,
      )
