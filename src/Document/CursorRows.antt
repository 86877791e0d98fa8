-- ===== src/Document/CursorRows.antt =====
-- storage/project-document.js: the runs of the agent and the rows of the table `cursor_runs`.
use autonomous_dev_platform.Base.{
  ℕ, ◌+◌, Option, none, some, String, List, [], ◌==◌, eqb, if◌then◌else◌, or_else, or_text,
  or_object,
}
use autonomous_dev_platform.Document.Texts.{
  as_uuid, to_iso, prompt_preview, Stamp, Column, json_value, or_stamp,
}

-- What a run returned, by the fields that are read, and all of it.
pub record RunResult (J : Type 0) : Type 0 where
  pub stop_reason : Option String
  pub evidence : Option J
  pub git : Option J
  pub changed_files : Option (List String)
  pub checkpoint_sha : Option String
  pub uncertainty : Option String
  pub agent_id : Option String
  pub run_id : Option String
  pub whole : J

-- A run of the document: what is stored of it, and what is read out of its result.
pub record RunItem (J : Type 0) : Type 0 where
  pub id : Option String
  pub iteration : Option ℕ
  pub attempt : Option ℕ
  pub at : Option String
  pub started_at : Option String
  pub completed_at : Option String
  pub prompt : Option String
  pub result : Option (RunResult J)
  pub session_id : Option String
  pub execution_mode : Option String
  pub mode : Option String
  pub status : Option String
  pub stop_reason : Option String
  pub evidence : Option J
  pub error : Option J
  pub git : Option J
  pub changed_files : List String
  pub checkpoint_sha : Option String
  pub uncertainty : Option String
  pub agent_id : Option String
  pub cloud_run_id : Option String

pub record CursorRow (J : Type 0) : Type 0 where
  pub id : String
  pub project_id : String
  pub iteration : ℕ
  pub attempt : ℕ
  pub session_id : Option String
  pub execution_mode : Option String
  pub prompt_preview : Option String
  pub status : String
  pub stop_reason : Option String
  pub output : Option (RunResult J)
  pub evidence : Option J
  pub error : Option J
  pub started_at : Option String
  pub completed_at : Option String

-- `n ?? default`, and `n || 1`
abbrev pub or_number : Option ℕ → ℕ → ℕ
or_number none default = default
or_number (some n) default = n

abbrev pub or_first : Option ℕ → ℕ
or_first none = 1
or_first (some n) = if eqb n 0 then 1 else n

-- `status === 'COMPLETED' ? completedAt || at || now : completedAt || null`
abbrev pub completion_time : String → Option String → Option String → String → Option String
completion_time status completed at now =
    if status == "COMPLETED"
    then or_else completed (or_else at (some now))
    else or_else completed none

module _ {J : Type 0} where
  abbrev pub result_stop : Option (RunResult J) → Option String
  result_stop none = none
  result_stop (some r) = r.stop_reason

  abbrev pub result_evidence : Option (RunResult J) → Option J
  result_evidence none = none
  result_evidence (some r) = r.evidence

  abbrev pub default_status : Option (RunResult J) → Option J → String
  default_status (some r) error = "COMPLETED"
  default_status none (some e) = "FAILED"
  default_status none none = "STARTED"

  -- The row of a run of a project at a position, with a fresh identifier and the time.
  unfoldable pub to_cursor_row : String → String → String → RunItem J → ℕ → CursorRow J
  unfolding as_uuid prompt_preview
  to_cursor_row fresh now project_id item index =
      let status = or_text item.status (default_status item.result item.error) in
      record {
        id = as_uuid fresh item.id;
        project_id = project_id;
        iteration = or_number item.iteration (index + 1);
        attempt = or_first item.attempt;
        session_id = or_else item.session_id none;
        execution_mode = or_else item.execution_mode (or_else item.mode none);
        prompt_preview = prompt_preview item.prompt;
        status = status;
        stop_reason = or_else item.stop_reason (or_else (result_stop item.result) none);
        output = item.result;
        evidence = or_object item.evidence (result_evidence item.result);
        error = item.error;
        started_at = or_else item.started_at (or_else item.at none);
        completed_at = completion_time status item.completed_at item.at now;
      }

  abbrev result_git : Option (RunResult J) → Option J
  result_git none = none
  result_git (some r) = r.git

  abbrev result_files : Option (RunResult J) → List String
  result_files none = []
  result_files (some r) = elim r.changed_files [ none ↦ [] | some files ↦ files ]

  abbrev result_text : (RunResult J → Option String) → Option (RunResult J) → Option String
  result_text field none = none
  result_text field (some r) = or_else (field r) none

-- A row as the database's driver returns it.
pub record StoredRow (J Instant : Type 0) : Type 0 where
  pub id : String
  pub project_id : String
  pub iteration : ℕ
  pub attempt : ℕ
  pub session_id : Option String
  pub execution_mode : Option String
  pub prompt_preview : Option String
  pub status : String
  pub stop_reason : Option String
  pub output : Option (Column (RunResult J))
  pub evidence : Option (Column J)
  pub error : Option (Column J)
  pub started_at : Option (Stamp Instant)
  pub completed_at : Option (Stamp Instant)

-- `JSON.parse`, for results and for other values, and `toISOString`.
pub record Script (J Instant : Type 0) : Type 0 where
  pub parse : String → Option (Option J)
  pub parse_result : String → Option (Option (RunResult J))
  pub iso : Instant → String

module _ {J Instant : Type 0} (script : Script J Instant) where
  -- The table has no column `git`, so that `row.git` is absent.
  unfoldable pub from_cursor_row : StoredRow J Instant → RunItem J
  from_cursor_row row =
      let result = json_value script.parse_result row.output none in
      record {
        id = some row.id;
        iteration = some row.iteration;
        attempt = some (or_first (some row.attempt));
        at = to_iso script.iso (or_stamp row.completed_at row.started_at);
        started_at = to_iso script.iso row.started_at;
        completed_at = to_iso script.iso row.completed_at;
        prompt = row.prompt_preview;
        result = result;
        session_id = row.session_id;
        execution_mode = row.execution_mode;
        mode = none;
        status = some row.status;
        stop_reason = row.stop_reason;
        evidence = json_value script.parse row.evidence (result_evidence result);
        error = json_value script.parse row.error none;
        git = result_git result;
        changed_files = result_files result;
        checkpoint_sha = result_text (λ r. r.checkpoint_sha) result;
        uncertainty = result_text (λ r. r.uncertainty) result;
        agent_id = result_text (λ r. r.agent_id) result;
        cloud_run_id = result_text (λ r. r.run_id) result;
      }
