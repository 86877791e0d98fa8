-- ===== src/Jobs/Queue/Claim.antt =====
-- `claim`, `heartbeat`, `owns` and `release` of jobs/queue.js: who works on a job.
use autonomous_dev_platform.Base.{
  ap, ◌∙◌, ◌≡◌, ℕ, ◌+◌, Bool, true, false, not, ◌&&◌, ◌||◌, String, ◌==◌, if◌then◌else◌, Option,
  none, some, List, [], ◌∷◌, ltb, leb, eqb, any, find, includes, same_text,
}
use autonomous_dev_platform.Jobs.Kinds.{queued, running, is_queued, is_running}
use autonomous_dev_platform.Jobs.Table.{
  Job, Table, Written, written, duplicate_key, transaction_aborted, update,
}
use autonomous_dev_platform.Jobs.Queue.{Queue, first_row}

-- The tests of the SELECT in `claim`; `caps @> required_capabilities` is containment.
abbrev pub contains_all : List String → List String → Bool
contains_all caps [] = true
contains_all caps (r ∷ rs) = includes r caps && contains_all caps rs

abbrev pub claimable : (String → Bool) → ℕ → List String → Job → Bool
claimable locked now caps j =
    is_queued j.status
    && leb j.available_at now
    && contains_all caps j.required_capabilities
    && not (locked j.id)

-- ORDER BY priority ASC, created_at ASC
abbrev pub goes_before : Job → Job → Bool
goes_before a b =
    ltb a.priority b.priority || eqb a.priority b.priority && ltb a.created_at b.created_at

-- The earlier row in the order, of a row and the best of those behind it.
abbrev pub prefer : Bool → Job → Option Job → Option Job
prefer passes j none = if passes then some j else none
prefer passes j (some best) = if passes && not (goes_before best j) then some j else some best

-- The first row of the ordered selection.
unfoldable pub first_claimable : (String → Bool) → ℕ → List String → Table → Option Job
first_claimable locked now caps [] = none
first_claimable locked now caps (j ∷ js) =
    prefer (claimable locked now caps j) j (first_claimable locked now caps js)

abbrev pub claimed_row : Queue → ℕ → ℕ → String → Job → Job
claimed_row q now clock worker_id j = record j {
  status = running;
  locked_by = some worker_id;
  lease_expires_at = some (now + q.lease_ms);
  heartbeat_at = some clock;
  started_at = elim j.started_at [ none ↦ some clock | some at ↦ some at ];
  attempts = j.attempts + 1;
}

claim_current : Queue → ℕ → ℕ → String → String → Table → Option Job → Option Job × Table
claim_current q now clock worker_id id t none = (none, t)
claim_current q now clock worker_id id t (some current) =
    if is_queued current.status
    then first_row (update (λ j. j.id == id) (claimed_row q now clock worker_id) t) t
    else (none, t)

claim_found : Queue → ℕ → ℕ → String → Table → Option Job → Option Job × Table
unfolding claim_current
claim_found q now clock worker_id t none = (none, t)
claim_found q now clock worker_id t (some found) =
    claim_current q now clock worker_id found.id t (find (λ j. j.id == found.id) t)

-- `now` is the time of the program, from which the lease runs, and `clock` that of the database. One
-- transaction; `locked` are the rows that other transactions hold (SKIP LOCKED).
unfoldable pub claim :
    Queue → (String → Bool) → ℕ → ℕ → String → List String → Table → Option Job × Table
unfolding claim_found
claim q locked now clock worker_id caps t =
    claim_found q now clock worker_id t (first_claimable locked clock caps t)

-- A successful claim, by what the two SELECTs returned.
pub claim_steps :
    (q : Queue) (locked : String → Bool) (now clock : ℕ) (worker_id : String) (caps : List String)
    (t : Table) (j : Job)
    → first_claimable locked clock caps t ≡ some j
    → find (λ k. k.id == j.id) t ≡ some j
    → is_queued j.status ≡ true
    → claim q locked now clock worker_id caps t
      ≡ first_row (update (λ k. k.id == j.id) (claimed_row q now clock worker_id) t) t
unfolding claim
claim_steps q locked now clock worker_id caps t j e f g =
    ap (claim_found q now clock worker_id t) e
    ∙ ap (claim_current q now clock worker_id j.id t) f
    ∙ ap
        (λ (b : Bool).
          if b
          then first_row (update (λ k. k.id == j.id) (claimed_row q now clock worker_id) t) t
          else (none, t))
        g

pub claim_nothing :
    (q : Queue) (locked : String → Bool) (now clock : ℕ) (worker_id : String) (caps : List String)
    (t : Table)
    → first_claimable locked clock caps t ≡ none
    → claim q locked now clock worker_id caps t ≡ (none, t)
unfolding claim
claim_nothing q locked now clock worker_id caps t e = ap (claim_found q now clock worker_id t) e

-- `id = $1 AND locked_by = $2 AND status = 'RUNNING'`
abbrev pub held_by : String → String → Job → Bool
held_by id worker_id j =
    (j.id == id) && same_text j.locked_by (some worker_id) && is_running j.status

unfoldable pub heartbeat : Queue → ℕ → ℕ → String → String → Table → Option Job × Table
heartbeat q now clock id worker_id t =
    first_row
      (update (held_by id worker_id)
        (λ j. record j { heartbeat_at = some clock; lease_expires_at = some (now + q.lease_ms) }) t)
      t

abbrev pub lease_valid : ℕ → Job → Bool
lease_valid now j = elim j.lease_expires_at [ none ↦ false | some at ↦ ltb now at ]

unfoldable pub owns : ℕ → String → String → Table → Bool
owns now id worker_id = any (λ j. held_by id worker_id j && lease_valid now j)

-- A job that its worker gives up.
abbrev pub requeued_row : ℕ → Job → Job
requeued_row now j = record j {
  status = queued;
  locked_by = none;
  lease_expires_at = none;
  available_at = now;
}

abbrev table_after : Written (List Job) → Table → Table
table_after (written _ t') t = t'
table_after duplicate_key t = t
table_after transaction_aborted t = t

unfoldable pub release : ℕ → String → String → Table → Table
release now id worker_id t = table_after (update (held_by id worker_id) (requeued_row now) t) t
