-- ===== src/Jobs/Queue/Exclusive.antt =====
-- A claimed job belongs to one worker.
use text.Mathlib.TextPositions.{eq_refl}
use autonomous_dev_platform.Base.{
  ℕ, ◌+◌, ltb, eq_comm, if◌then◌else◌, Bool, true, false, ◌≡◌, refl, ◌==◌, List, [], ◌∷◌, any, find,
  arith, ◌&&◌, eq_iff, String, Bool-cases, Option-cases, inl, inr, Option, none, some, sym, ap, ◌∙◌,
  subst, some_inj, none≢some,
}
use autonomous_dev_platform.Jobs.Kinds.{is_queued}
use autonomous_dev_platform.Jobs.Table.{
  Job, Table, clash, violates_index, update, update_rows, updated_rows, written, duplicate_key,
  transaction_aborted, Written,
}
use autonomous_dev_platform.Jobs.Table.Rows.{
  other_id, apart, or_false_left, or_false_right, has_id, row, row-update_other, row-update_self,
  row_of_mem, first_updated, first, map_row,
}
use autonomous_dev_platform.Jobs.Queue.{Queue, from_job_row, first_row}
use autonomous_dev_platform.Jobs.Queue.Claim.{
  claim, claim_steps, claim_nothing, claimable, first_claimable, claimed_row, held_by, lease_valid,
  owns,
}
use autonomous_dev_platform.Jobs.Queue.Selection.{first_claimable_sound}

-- What one row says of a worker's right to a job.
abbrev row_owns : ℕ → String → String → Option Job → Bool
row_owns now id worker_id none = false
row_owns now id worker_id (some j) = held_by id worker_id j && lease_valid now j

not_held : (id worker_id : String) (j : Job) → (j.id == id) ≡ false → held_by id worker_id j ≡ false
not_held id worker_id j h = rw h

owns_apart :
    (now : ℕ) (id worker_id : String) (j : Job) (t : Table)
    → (j.id == id) ≡ true
    → any (clash j) t ≡ false
    → owns now id worker_id t ≡ false
unfolding owns
owns_apart now id worker_id j [] e h = refl
owns_apart now id worker_id j (k ∷ t) e h =
    let differs = other_id j.id k.id id e (apart j k (or_false_left _ _ h)) in
    rw (not_held id worker_id k differs) (owns_apart now id worker_id j t e (or_false_right _ _ h))

pub owns-row :
    (now : ℕ) (id worker_id : String) (t : Table)
    → violates_index t ≡ false
    → owns now id worker_id t ≡ row_owns now id worker_id (row id t)
unfolding owns violates_index
owns-row now id worker_id [] h = refl
owns-row now id worker_id (j ∷ t) h = elim (Bool-cases (j.id == id)) [
  | inl e ↦ rw (e, owns_apart now id worker_id j t e (or_false_left _ _ h)) (ground arith)
  | inr e ↦ rw (e) (owns-row now id worker_id t (or_false_right _ _ h))
]

first_row_inv :
    (w : Written (List Job)) (t : Table) {job : Job} {t' : Table}
    → first_row w t ≡ (some job, t')
    → (j : Job) × (js : List Job) × (w ≡ written (j ∷ js) t') × (job ≡ from_job_row j)
first_row_inv (written [] t'') t h = cc
first_row_inv (written (j ∷ js) t'') t h = (j, js, ground arith, ground arith)
first_row_inv duplicate_key t h = cc
first_row_inv transaction_aborted t h = cc

update_inv :
    (cond : Job → Bool) (set : Job → Job) (t : Table) {js : List Job} {t' : Table}
    → update cond set t ≡ written js t'
    → (js ≡ updated_rows cond set t) × (t' ≡ update_rows cond set t) × (violates_index t' ≡ false)
unfolding update
update_inv cond set t h = ground arith

found_inv :
    (set : Job → Job) (o : Option Job) (j : Job)
    → map_row set o ≡ some j
    → (k : Job) × (o ≡ some k) × (j ≡ set k)
found_inv set none j h = cc
found_inv set (some k) j h = (k, refl, ground arith)

-- The branches of `claim` that return a job.
first_row_written :
    (cond : Job → Bool) (set : Job → Job) (t : Table) {job : Job} {t' : Table}
    → first_row (update cond set t) t ≡ (some job, t')
    → (j : Job) × (find cond t ≡ some j)
      × (job ≡ from_job_row (set j))
      × (t' ≡ update_rows cond set t)
      × (violates_index t' ≡ false)
first_row_written cond set t h =
    let (j, js, e, same) = first_row_inv (update cond set t) t h in
    let (rows, table, sound) = update_inv cond set t e in
    let (k, found, made) =
      found_inv set (find cond t) j (sym (first_updated cond set t) ∙ ap first (sym rows)) in
    (k, found, same ∙ ap from_job_row made, table, sound)

module _ (q : Queue) (now clock : ℕ) (worker_id : String) (j : Job) where
  row_claimed :
      (t : Table)
      → row j.id t ≡ some j
      → row j.id (update_rows (has_id j.id) (claimed_row q now clock worker_id) t)
        ≡ some (claimed_row q now clock worker_id j)
  row_claimed t e =
      row-update_self j.id (claimed_row q now clock worker_id) (λ k. refl) t
      ∙ ap (map_row (claimed_row q now clock worker_id)) e

  claimed_owner :
      (id other : String) (at : ℕ)
      → (j.id == id) ≡ true
      → row_owns at id other (some (claimed_row q now clock worker_id j))
        ≡ ((other == worker_id) && ltb at (now + q.lease_ms))
  claimed_owner id other at e = ground (arith, e, eq_comm other worker_id)

row_at : {a b : String} (t : Table) {o : Option Job} → a ≡ b → row b t ≡ o → row a t ≡ o
row_at t e h = rw e h

eq_text : (a b : String) → (a == b) ≡ true → a ≡ b
eq_text a b h = ground (arith, eq_iff a b, h)

-- A table that differs from another in one row.
pub row_everywhere :
    (id own : String) (t t' : Table) (r : Option Job)
    → row own t' ≡ r
    → ((id == own) ≡ false → row id t' ≡ row id t)
    → row id t' ≡ (if id == own then r else row id t)
row_everywhere id own t t' r h k = elim (Bool-cases (id == own)) [
  | inl e ↦ rw e (row_at t' (eq_text id own e) h)
  | inr e ↦ rw e (k e)
]

id_at : {a b : String} (id : String) → a ≡ b → (id == a) ≡ false → (id == b) ≡ false
id_at id e h = subst (λ (x : String). (id == x) ≡ false) e h

is_queued_of :
    (locked : String → Bool) (now : ℕ) (caps : List String) (j : Job)
    → claimable locked now caps j ≡ true
    → is_queued j.status ≡ true
is_queued_of locked now caps j h = ground arith

module _ (q : Queue) (locked : String → Bool) (now clock : ℕ) (worker_id : String)
    (caps : List String) where
  -- A claim that returns a job took a queued row that this worker may take, and changed that row
  -- alone.
  pub claim_inv :
      (t : Table) {job : Job} {t' : Table}
      → violates_index t ≡ false
      → claim q locked now clock worker_id caps t ≡ (some job, t')
      → (j : Job) × (first_claimable locked clock caps t ≡ some j)
        × (row j.id t ≡ some j)
        × (job ≡ from_job_row (claimed_row q now clock worker_id j))
        × (t' ≡ update_rows (has_id j.id) (claimed_row q now clock worker_id) t)
        × (violates_index t' ≡ false)
  claim_inv t {job} {t'} s h = elim (Option-cases (first_claimable locked clock caps t)) [
    | inl e ↦ absurd (
        none≢some (
          ap (λ (r : Option Job × Table). r.0)
            (sym (claim_nothing q locked now clock worker_id caps t e) ∙ h)))
    | inr (j, e) ↦
        let (passes, m) = first_claimable_sound locked clock caps t j e in
        let here = row_of_mem j t s m in
        let steps =
          claim_steps q locked now clock worker_id caps t j e here
            (is_queued_of locked clock caps j passes) in
        let (k, found, made, table, sound) =
          first_row_written (has_id j.id) (claimed_row q now clock worker_id) t (sym steps ∙ h) in
        let same : k ≡ j = some_inj (sym found ∙ here) in
        (
          j,
          e,
          here,
          made ∙ ap (λ (x : Job). from_job_row (claimed_row q now clock worker_id x)) same,
          table,
          sound,
        )
  ]

  -- A claim returns a job only if its row was queued, available, within the worker's capabilities
  -- and not locked by another transaction. Afterwards that row is the claimed one, which is running and
  -- has one attempt more, all other rows are as before, the job is owned by this worker and by no other, exactly until the lease
  -- ends, and the unique indexes hold.
  pub claim_exclusive :
      (t : Table) (id other : String) (at : ℕ) {job : Job} {t' : Table}
      → violates_index t ≡ false
      → claim q locked now clock worker_id caps t ≡ (some job, t')
      → (j : Job) × (row job.id t ≡ some j)
        × (claimable locked clock caps j ≡ true)
        × (job.attempts ≡ j.attempts + 1)
        × (row id t'
            ≡ (if id == job.id then some (claimed_row q now clock worker_id j) else row id t))
        × (owns at job.id other t' ≡ ((other == worker_id) && ltb at (now + q.lease_ms)))
        × (violates_index t' ≡ false)
  claim_exclusive t id other at {job} {t'} s h =
      let (j, e, here, made, table, sound) = claim_inv t s h in
      let (passes, m) = first_claimable_sound locked clock caps t j e in
      let same : job.id ≡ j.id = ap (λ (x : Job). x.id) made in
      let there : row job.id t' ≡ some (claimed_row q now clock worker_id j) =
        row_at t' same (ap (row j.id) table ∙ row_claimed q now clock worker_id j t here) in
      (
        j,
        row_at t same here,
        passes,
        ap (λ (x : Job). x.attempts) made,
        row_everywhere id job.id t t' (some (claimed_row q now clock worker_id j)) there (λ d.
            ap (row id) table
            ∙ row-update_other id j.id (claimed_row q now clock worker_id) (λ k. refl) t
                (id_at id same d)),
        rw (owns-row at job.id other t' sound, there)
            (claimed_owner q now clock worker_id j job.id other at (rw same (eq_refl j.id))),
        sound,
      )
