-- ===== src/Jobs/Queue/Again.antt =====
-- A job that is planned twice.
use text.Mathlib.TextPositions.{eq_refl}
use autonomous_dev_platform.Base.{
  ℕ, Bool, true, false, ◌&&◌, ◌≡◌, refl, sym, ap, ◌∙◌, arith, String, ◌==◌, Option, none, some, [],
  ◌∷◌, ◌++◌, find, none≢some, if◌then◌else◌,
}
use autonomous_dev_platform.Jobs.Table.{
  Job, Table, is_active_job, written, duplicate_key, violates_index, insert_row,
}
use autonomous_dev_platform.Jobs.Queue.{Queue, Planned, from_job_row, new_row, find_active_by_key}
use autonomous_dev_platform.Jobs.Queue.Enqueue.{Extras, enqueue, after_insert, or_number, read_back}

find-end :
    (p : Job → Bool) (t : Table) (j : Job)
    → find p t ≡ none
    → p j ≡ true
    → find p (t ++ (j ∷ [])) ≡ some j
find-end p [] j h k = ground arith
find-end p (x ∷ t) j h k = ground (arith, find-end p t j)

module _ (row j : Job) (key : String) (t t' : Table) (own : row.idempotency_key ≡ key)
    (active : is_active_job row ≡ true) (absent : find_active_by_key key t ≡ none) where
  is_own : ((row.idempotency_key == key) && is_active_job row) ≡ true
  is_own = rw (own, active) (ground (arith, eq_refl key))

  -- What a later search finds, by whether the row was refused.
  inserted_if :
      (b : Bool)
      → after_insert (if b then duplicate_key else written row (t ++ (row ∷ []))) key t t
        ≡ (some j, t')
      → read_back (find_active_by_key key t') ≡ some j
  unfolding find_active_by_key after_insert
  inserted_if true h =
      absurd (none≢some (ap read_back (sym absent) ∙ ap (λ (x : Option Job × Table). x.0) h))
  inserted_if false h =
      ap (λ u. read_back (find_active_by_key key u)) (sym (ap (λ (x : Option Job × Table). x.1) h))
      ∙ ap read_back
          (find-end (λ k. (k.idempotency_key == key) && is_active_job k) t row absent is_own)
      ∙ ap (λ (x : Option Job × Table). x.0) h

  inserted :
      after_insert (insert_row row t) key t t ≡ (some j, t')
      → read_back (find_active_by_key key t') ≡ some j
  unfolding insert_row
  inserted h = inserted_if (violates_index (t ++ (row ∷ []))) h

-- A search that comes first finds the job.
found_first :
    (o : Option Job) (j : Job) (t : Table) (other : Option Job × Table)
    → read_back o ≡ some j
    → (elim o [ some existing ↦ (some (from_job_row existing), t) | none ↦ other ]) ≡ (some j, t)
found_first none j t other h = absurd (none≢some h)
found_first (some k) j t other h = ap (λ x. (x, t)) h

none_case :
    (o : Option Job) (t : Table) (x y : Option Job × Table)
    → o ≡ none
    → (elim o [ some existing ↦ (some (from_job_row existing), t) | none ↦ x ]) ≡ y
    → x ≡ y
none_case none t x y e h = h
none_case (some k) t x y e h = cc

enqueued_found :
    (q : Queue) (now : ℕ) (id project_id : String) (planned : Planned) (extras : Extras)
    (t t' : Table) (j : Job) (o : Option Job)
    → find_active_by_key planned.idempotency_key t ≡ o
    → enqueue q now id project_id (some planned) extras t t t ≡ (some j, t')
    → read_back (find_active_by_key planned.idempotency_key t') ≡ some j
unfolding enqueue
enqueued_found q now id project_id planned extras t t' j none e h =
    inserted
      (new_row q now id project_id planned (or_number extras.priority 100)
        (or_number extras.max_attempts q.max_attempts) (or_number extras.available_at now))
      j planned.idempotency_key t t' refl refl e
      (none_case (find_active_by_key planned.idempotency_key t) t _ _ e h)
enqueued_found q now id project_id planned extras t t' j (some k) e h =
    let found : (some (from_job_row k), t) ≡ (some j, t') =
      sym (
        found_first (find_active_by_key planned.idempotency_key t) (from_job_row k) t _
          (ap read_back e))
      ∙ h in
    ap (λ (u : Table). read_back (find_active_by_key planned.idempotency_key u))
      (sym (ap (λ (x : Option Job × Table). x.1) found))
    ∙ ap read_back e
    ∙ ap (λ (x : Option Job × Table). x.0) found

-- A planned job that is enqueued is there once: a call with the same key, whatever else it says and
-- whatever the table is that it meets when it has searched, returns the same job and adds none. The
-- first call is not interrupted, and the second searches the table that the first leaves.
pub enqueue_again :
    (q r : Queue) (now later : ℕ) (id other project_id another : String) (planned again : Planned)
    (extras more : Extras) (t t' met last : Table) (j : Job)
    → again.idempotency_key ≡ planned.idempotency_key
    → enqueue q now id project_id (some planned) extras t t t ≡ (some j, t')
    → enqueue r later other another (some again) more t' met last ≡ (some j, met)
unfolding enqueue
enqueue_again q r now later id other project_id another planned again extras more t t' met last j k
      h =
    found_first (find_active_by_key again.idempotency_key t') j met _ (
      ap (λ x. read_back (find_active_by_key x t')) k
      ∙ enqueued_found q now id project_id planned extras t t' j _ refl h)
