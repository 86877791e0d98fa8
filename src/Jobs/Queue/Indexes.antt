-- ===== src/Jobs/Queue/Indexes.antt =====
-- The unique indexes of the table `jobs` under the operations of jobs/queue.js.
use mathlib.Core.List.{Memᴰ}
use mathlib.Core.Bool.{false≢true}
use autonomous_dev_platform.Base.{
  ◌∙◌, subst, ℕ, Bool, true, false, ◌≡◌, refl, ◌==◌, List, [], ◌∷◌, any, eq_comm, arith, ◌||◌, ◌&&◌,
  String, Option, none, some, sym,
}
use autonomous_dev_platform.Errors.{Thrown}
use autonomous_dev_platform.Jobs.Table.{
  Job, Table, is_active_job, clash, violates_index, update, insert_row,
}
use autonomous_dev_platform.Jobs.Queue.{Queue, Planned, Done, returned, thrown}
use autonomous_dev_platform.Jobs.Queue.Enqueue.{enqueue, Extras}
use autonomous_dev_platform.Jobs.Queue.Claim.{claim, heartbeat, release}
use autonomous_dev_platform.Jobs.Queue.Handoff.{complete_and_handoff}
use autonomous_dev_platform.Jobs.Queue.Failure.{fail, recover_expired_leases}

-- An UPDATE leaves a table that obeys the indexes, or is refused.
abbrev pub IsSound : Table → Type 0
IsSound t = violates_index t ≡ false

abbrev pub after {ℓ} : {A : Type ℓ} → Done A → Table
after (returned _ t) = t
after (thrown t) = t

pub enqueue-IsSound :
    (q : Queue) (now : ℕ) (id project_id : String) (planned : Option Planned) (extras : Extras)
    (seen t later : Table)
    → IsSound t
    → IsSound (enqueue q now id project_id planned extras seen t later).1
unfolding enqueue insert_row
enqueue-IsSound q now id project_id none extras seen t later h = h
enqueue-IsSound q now id project_id (some planned) extras seen t later h = ground arith

heartbeat-IsSound :
    (q : Queue) (now clock : ℕ) (id worker_id : String) (t : Table)
    → IsSound t
    → IsSound (heartbeat q now clock id worker_id t).1
unfolding heartbeat update
heartbeat-IsSound q now clock id worker_id t h = ground arith

claim-IsSound :
    (q : Queue) (locked : String → Bool) (now clock : ℕ) (worker_id : String) (caps : List String)
    (t : Table)
    → IsSound t
    → IsSound (claim q locked now clock worker_id caps t).1
unfolding claim update
claim-IsSound q locked now clock worker_id caps t h = ground arith

release-IsSound :
    (now : ℕ) (id worker_id : String) (t : Table) → IsSound t → IsSound (release now id worker_id t)
unfolding release update
release-IsSound now id worker_id t h = ground arith

recover-IsSound :
    (now : ℕ) (ids : List String) (t : Table)
    → IsSound t
    → IsSound (recover_expired_leases now ids t).1
unfolding recover_expired_leases update
recover-IsSound now ids t h = ground arith

fail-IsSound :
    (q : Queue) (now : ℕ) (job : Job) (error : Thrown) (terminal : Bool) (t : Table)
    → IsSound t
    → IsSound (after (fail q now job error terminal t))
unfolding fail update
fail-IsSound q now job error terminal t h = ground arith

complete-IsSound :
    (q : Queue) (aborts : Bool) (now : ℕ) (id project_id : String) (job : Job)
    (planned : Option Planned) (enqueue_next : Bool) (t : Table)
    → IsSound t
    → IsSound (after (complete_and_handoff q aborts now id project_id job planned enqueue_next t))
unfolding complete_and_handoff update insert_row
complete-IsSound q aborts now id project_id job planned enqueue_next t h = ground arith

-- One call of a `JobQueue`, at any time and with any arguments. `enqueue` may have read the table at
-- another moment than it writes it.
pub data Step (q : Queue) (aborts : Bool) (t : Table) : Table → Type 0 where
  enqueued :
      (now : ℕ) (id project_id : String) (planned : Option Planned) (extras : Extras)
      (seen later : Table)
      → Step q aborts t (enqueue q now id project_id planned extras seen t later).1
  claimed :
      (locked : String → Bool) (now clock : ℕ) (worker_id : String) (caps : List String)
      → Step q aborts t (claim q locked now clock worker_id caps t).1
  beat :
      (now clock : ℕ) (id worker_id : String)
      → Step q aborts t (heartbeat q now clock id worker_id t).1
  released : (now : ℕ) (id worker_id : String) → Step q aborts t (release now id worker_id t)
  recovered :
      (now : ℕ) (except_ids : List String)
      → Step q aborts t (recover_expired_leases now except_ids t).1
  handed_off :
      (now : ℕ) (id project_id : String) (job : Job) (planned : Option Planned)
      (enqueue_next : Bool)
      → Step q aborts t
          (after (complete_and_handoff q aborts now id project_id job planned enqueue_next t))
  failed_job :
      (now : ℕ) (job : Job) (error : Thrown) (terminal : Bool)
      → Step q aborts t (after (fail q now job error terminal t))

pub data Run (q : Queue) (aborts : Bool) : Table → Type 0 where
  start : Run q aborts []
  next : {t t' : Table} → Run q aborts t → Step q aborts t t' → Run q aborts t'

Step-IsSound :
    {q : Queue} {aborts : Bool} {t t' : Table} → Step q aborts t t' → IsSound t → IsSound t'
Step-IsSound {q} {aborts} {t} (enqueued now id p planned extras seen later) h =
    enqueue-IsSound q now id p planned extras seen t later h
Step-IsSound {q} {aborts} {t} (claimed locked now clock w caps) h =
    claim-IsSound q locked now clock w caps t h
Step-IsSound {q} {aborts} {t} (beat now clock id w) h = heartbeat-IsSound q now clock id w t h
Step-IsSound {q} {aborts} {t} (released now id w) h = release-IsSound now id w t h
Step-IsSound {q} {aborts} {t} (recovered now ids) h = recover-IsSound now ids t h
Step-IsSound {q} {aborts} {t} (handed_off now id p job planned next') h =
    complete-IsSound q aborts now id p job planned next' t h
Step-IsSound {q} {aborts} {t} (failed_job now job error terminal) h =
    fail-IsSound q now job error terminal t h

pub Run-IsSound : {q : Queue} {aborts : Bool} {t : Table} → Run q aborts t → IsSound t
unfolding violates_index
Run-IsSound start = refl
Run-IsSound (next r s) = Step-IsSound s (Run-IsSound r)

abbrev same_work : Job → Job → Bool
same_work j k =
    is_active_job j
    && is_active_job k
    && ((j.project_id == k.project_id) || (j.idempotency_key == k.idempotency_key))

clash_work : (j k : Job) → clash j k ≡ false → same_work j k ≡ false
clash_work j k h = ground arith

clash_work' : (j k : Job) → clash j k ≡ false → same_work k j ≡ false
clash_work' j k h =
    ground (arith, eq_comm k.project_id j.project_id, eq_comm k.idempotency_key j.idempotency_key)

apart_work :
    (j k : Job) (t : Table)
    → any (clash j) t ≡ false
    → Memᴰ k t
    → (same_work j k ≡ false) × (same_work k j ≡ false)
apart_work j k [] h m = elim m [ ]
apart_work j k (x ∷ t) h (Memᴰ.head e) =
    rw e (clash_work j x (ground arith), clash_work' j x (ground arith))
apart_work j k (x ∷ t) h (Memᴰ.tail m) = apart_work j k t (ground arith) m

same_row : (j k : Job) (t : Table) → IsSound t → Memᴰ j t → Memᴰ k t → same_work j k ≡ true → j ≡ k
unfolding violates_index
same_row j k [] s m n w = elim m [ ]
same_row j k (x ∷ t) s (Memᴰ.head e) (Memᴰ.head f) w = e ∙ sym f
same_row j k (x ∷ t) s (Memᴰ.head e) (Memᴰ.tail n) w = absurd (
    false≢true
      (sym (apart_work x k t (ground arith) n).0 ∙ subst (λ (y : Job). same_work y k ≡ true) e w))
same_row j k (x ∷ t) s (Memᴰ.tail m) (Memᴰ.head f) w = absurd (
    false≢true
      (sym (apart_work x j t (ground arith) m).1 ∙ subst (λ (y : Job). same_work j y ≡ true) f w))
same_row j k (x ∷ t) s (Memᴰ.tail m) (Memᴰ.tail n) w = same_row j k t (ground arith) m n w

-- After any calls of the queue, from an empty table, a project has at most one job that is queued or
-- running, and so has an idempotency key.
one_active_job :
    {q : Queue} {aborts : Bool} {t : Table} (j k : Job)
    → Run q aborts t
    → Memᴰ j t
    → Memᴰ k t
    → same_work j k ≡ true
    → j ≡ k
one_active_job {q} {aborts} {t} j k r m n w = same_row j k t (Run-IsSound r) m n w
