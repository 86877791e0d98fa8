-- ===== src/Document/Stable.antt =====
-- A run that was stored, read and stored again has the same row.
use mathlib.Core.Bool.{false≢true}
use autonomous_dev_platform.Base.{
  ℕ, Bool, true, false, not, Option, none, some, String, ◌≡◌, refl, ap, ◌∙◌, ◌==◌, arith,
  if◌then◌else◌, or_else, or_text, or_object, truthy,
}
use autonomous_dev_platform.Document.Texts.{
  is_uuid, as_uuid_stable, prompt_preview_stable, or_else_stable, to_iso, Stamp, Column, json_value,
}
use autonomous_dev_platform.Document.CursorRows.{
  RunItem, RunResult, CursorRow, StoredRow, Script, to_cursor_row, from_cursor_row, or_first,
  completion_time, default_status, result_stop, result_evidence,
}

or_first_stable : (a : Option ℕ) → or_first (some (or_first (some (or_first a)))) ≡ or_first a
or_first_stable none = refl
or_first_stable (some n) = ground arith

or_else_if :
    (b : Bool) (s : String) (t : Option String)
    → (s == "") ≡ b
    → or_else t t ≡ t
    → or_else (if b then t else some s) t ≡ (if b then t else some s)
or_else_if true s t e h = h
or_else_if false s t e h = ap (λ b. if b then t else some s) e

or_else_self : (t : Option String) → or_else t t ≡ t
or_else_self none = refl
or_else_self (some s) = ground arith

or_else_absorb : (a t : Option String) → or_else (or_else a t) t ≡ or_else a t
or_else_absorb none t = or_else_self t
or_else_absorb (some s) t = or_else_if (s == "") s t refl (or_else_self t)

twice_if :
    (c : Bool) (s : String) (b : Option String)
    → (s == "") ≡ c
    → or_else (if c then or_else b none else some s) none ≡ (if c then or_else b none else some s)
twice_if true s b e = or_else_stable b
twice_if false s b e = ap (λ c. if c then none else some s) e

or_else_twice :
    (a b : Option String) → or_else (or_else a (or_else b none)) none ≡ or_else a (or_else b none)
or_else_twice none b = or_else_stable b
or_else_twice (some s) b = twice_if (s == "") s b refl

or_object_absorb {ℓ} :
    {A : Type ℓ} (a b : Option A) → or_object (or_object (or_object a b) b) b ≡ or_object a b
or_object_absorb none none = refl
or_object_absorb none (some b) = refl
or_object_absorb (some a) b = refl

text_if :
    (b : Bool) (s d e : String)
    → (s == "") ≡ b
    → (d == "") ≡ false
    → or_text (some (if b then d else s)) e ≡ (if b then d else s)
text_if true s d e h k = ap (λ b. if b then e else d) k
text_if false s d e h k = ap (λ b. if b then e else s) h

status_stable :
    (o : Option String) (d e : String)
    → (d == "") ≡ false
    → or_text (some (or_text o d)) e ≡ or_text o d
status_stable none d e h = ap (λ b. if b then e else d) h
status_stable (some s) d e h = text_if (s == "") s d e refl h

default_not_empty :
    {J : Type 0} (r : Option (RunResult J)) (e : Option J) → (default_status r e == "") ≡ false
default_not_empty (some r) e = refl
default_not_empty none (some e) = refl
default_not_empty none none = refl

-- A time that is there is kept.
kept_if :
    (b : Bool) (s : String) (y : Option String)
    → (s == "") ≡ b
    → not b ≡ true
    → or_else (or_else (some s) none) y ≡ some s
kept_if true s y e h = cc
kept_if false s y e h =
    ap (λ b. or_else (if b then none else some s) y) e ∙ ap (λ b. if b then y else some s) e

time_kept : (a y : Option String) → truthy a ≡ true → or_else (or_else a none) y ≡ a
time_kept none y h = cc
time_kept (some s) y h = kept_if (s == "") s y refl h

truthy_if :
    (c : Bool) (s : String) (b : Option String)
    → (s == "") ≡ c
    → truthy b ≡ true
    → truthy (if c then b else some s) ≡ true
truthy_if true s b e h = h
truthy_if false s b e h = ap not e

truthy_or : (a b : Option String) → truthy b ≡ true → truthy (or_else a b) ≡ true
truthy_or none b h = h
truthy_or (some s) b h = truthy_if (s == "") s b refl h

-- The time of completion, by whether the run is completed.
abbrev times : Bool → Option String → Option String → String → Option String
times done c at now = if done then or_else c (or_else at (some now)) else or_else c none

times-truthy :
    (c at : Option String) (now : String)
    → (now == "") ≡ false
    → truthy (times true c at now) ≡ true
times-truthy c at now h = truthy_or c _ (truthy_or at (some now) (ap not h))

-- What the database makes of a row's texts and values.
pub record Database (J Instant : Type 0) : Type 0 where
  pub instant : String → Instant
  pub column : J → Column J
  pub result_column : RunResult J → Column (RunResult J)

abbrev map_option {ℓ m} : {A : Type ℓ} {B : Type m} → (A → B) → Option A → Option B
map_option f none = none
map_option f (some a) = some (f a)

unfoldable pub stored_row :
    {J Instant : Type 0} → Database J Instant → CursorRow J → StoredRow J Instant
stored_row db row = record {
  id = row.id;
  project_id = row.project_id;
  iteration = row.iteration;
  attempt = row.attempt;
  session_id = row.session_id;
  execution_mode = row.execution_mode;
  prompt_preview = row.prompt_preview;
  status = row.status;
  stop_reason = row.stop_reason;
  output = map_option db.result_column row.output;
  evidence = map_option db.column row.evidence;
  error = map_option db.column row.error;
  started_at = map_option (λ s. Stamp.as_date (db.instant s)) row.started_at;
  completed_at = map_option (λ s. Stamp.as_date (db.instant s)) row.completed_at;
}

module _ {J Instant : Type 0} (script : Script J Instant) (db : Database J Instant)
    (same_instant : (d : Instant) → db.instant (script.iso d) ≡ d)
    (never_empty : (d : Instant) → (script.iso d == "") ≡ false)
    (same_value : (j : J) (f : Option J) → json_value script.parse (some (db.column j)) f ≡ some j)
    (same_result : (r : RunResult J)
      → json_value script.parse_result (some (db.result_column r)) none ≡ some r) where
  abbrev stamped : Option String → Option (Stamp Instant)
  stamped = map_option (λ s. Stamp.as_date (db.instant s))

  value_again :
      (a f : Option J) → json_value script.parse (map_option db.column a) f ≡ or_object a f
  value_again none f = refl
  value_again (some j) f = same_value j f

  result_again :
      (r : Option (RunResult J))
      → json_value script.parse_result (map_option db.result_column r) none ≡ r
  result_again none = refl
  result_again (some r) = same_result r

  or_object-none {ℓ} : {A : Type ℓ} (a : Option A) → or_object a none ≡ a
  or_object-none none = refl
  or_object-none (some a) = refl

  -- A time that was read is kept, whatever stands behind it.
  read_kept :
      (d : Instant) (y : Option String) → or_else (some (script.iso d)) y ≡ some (script.iso d)
  read_kept d y = ap (λ b. if b then y else some (script.iso d)) (never_empty d)

  started_again :
      (t y : Option String)
      → truthy t ≡ true
      → stamped (or_else (to_iso script.iso (stamped t)) y) ≡ stamped t
  started_again none y h = cc
  started_again (some s) y h =
      ap stamped (read_kept (db.instant s) y)
      ∙ ap (λ d. some (Stamp.as_date d)) (same_instant (db.instant s))

  completed_again :
      (done : Bool) (t at : Option String) (later : String)
      → (done ≡ true → truthy t ≡ true)
      → stamped (times done (to_iso script.iso (stamped t)) at later) ≡ stamped t
  completed_again true none at later h = absurd (false≢true (h refl))
  completed_again false none at later h = refl
  completed_again true (some s) at later h =
      ap stamped (read_kept (db.instant s) _)
      ∙ ap (λ d. some (Stamp.as_date d)) (same_instant (db.instant s))
  completed_again false (some s) at later h =
      ap stamped (read_kept (db.instant s) none)
      ∙ ap (λ d. some (Stamp.as_date d)) (same_instant (db.instant s))

  done_time :
      (done : Bool) (c at : Option String) (now : String)
      → (now == "") ≡ false
      → done ≡ true
      → truthy (times done c at now) ≡ true
  done_time true c at now h e = times-truthy c at now h
  done_time false c at now h e = cc

  -- A run of the agent that was stored, read back and stored again, at another time and position, has
  -- the same row in the database, in every column. The run has a time at which it started, or one for
  -- all of it; the identifier that it is given where it has none is a proper one, and the time is not
  -- empty. The database gives back texts and numbers as they were, a time as a date, of which the text
  -- that `toISOString` makes is not empty and stands for the same instant, and a JSON value, which is
  -- no mere text, as it was or as a text that parses to it.
  pub stored_again :
      (item : RunItem J) (project_id fresh other now later : String) (index position : ℕ)
      → is_uuid fresh ≡ true
      → (now == "") ≡ false
      → truthy (or_else item.started_at (or_else item.at none)) ≡ true
      → stored_row db (
          to_cursor_row other later project_id
            (from_cursor_row script (stored_row db (to_cursor_row fresh now project_id item index)))
            position)
        ≡ stored_row db (to_cursor_row fresh now project_id item index)
  unfolding to_cursor_row from_cursor_row stored_row
  stored_again item project_id fresh other now later index position valid present started =
      let row = to_cursor_row fresh now project_id item index in
      let back = from_cursor_row script (stored_row db row) in
      let result : back.result ≡ row.output = result_again item.result in
      let error : back.error ≡ row.error =
        value_again item.error none ∙ or_object-none item.error in
      let status : or_text (some row.status) (default_status back.result back.error) ≡ row.status =
        status_stable item.status (default_status item.result item.error)
          (default_status back.result back.error) (default_not_empty item.result item.error) in
      λ i. record {
        id = as_uuid_stable fresh other item.id valid i;
        project_id = project_id;
        iteration = row.iteration;
        attempt = or_first_stable item.attempt i;
        session_id = or_else_stable item.session_id i;
        execution_mode = or_else_twice item.execution_mode item.mode i;
        prompt_preview = prompt_preview_stable item.prompt i;
        status = status i;
        stop_reason =
            (ap (λ r. or_else row.stop_reason (or_else (result_stop r) none)) result
                ∙ or_else_absorb item.stop_reason (or_else (result_stop item.result) none))
              i;
        output = map_option db.result_column (result i);
        evidence = map_option db.column (
            (ap
                  (λ r.
                    or_object
                      (json_value script.parse (map_option db.column row.evidence)
                        (result_evidence r))
                      (result_evidence r))
                  result
                ∙ ap (λ e. or_object e (result_evidence item.result))
                    (value_again row.evidence (result_evidence item.result))
                ∙ or_object_absorb item.evidence (result_evidence item.result))
              i);
        error = map_option db.column (error i);
        started_at =
            started_again (or_else item.started_at (or_else item.at none)) (or_else back.at none)
              started i;
        completed_at =
            (ap (λ (s : String). stamped (completion_time s back.completed_at back.at later)) status
                ∙ completed_again (row.status == "COMPLETED") row.completed_at back.at later
                    (done_time (row.status == "COMPLETED") item.completed_at item.at now present))
              i;
      }
