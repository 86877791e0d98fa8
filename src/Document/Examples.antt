-- ===== src/Document/Examples.antt =====
-- A run that is under way.
use autonomous_dev_platform.Base.{Bool, true, false, ◌==◌, none, some, String, [], ◌≡◌, refl}
use autonomous_dev_platform.Document.Texts.{is_uuid, hex_run, parsed}
use autonomous_dev_platform.Document.CursorRows.{RunItem, Script, to_cursor_row, from_cursor_row}
use autonomous_dev_platform.Document.Stable.{Database, stored_row, stored_again}

abbrev item : RunItem String
item = record {
  id = some "run";
  iteration = some 2;
  attempt = none;
  at = some "2025-01-01T00:00:00Z";
  started_at = none;
  completed_at = none;
  prompt = some "Build it";
  result = none;
  session_id = some "";
  execution_mode = none;
  mode = some "LOCAL_CLI";
  status = none;
  stop_reason = none;
  evidence = none;
  error = none;
  git = none;
  changed_files = [];
  checkpoint_sha = none;
  uncertainty = none;
  agent_id = none;
  cloud_run_id = none;
}

abbrev fresh : String
fresh = "0123abcd-0123-4567-89ab-0123456789AB"

not_uuid : is_uuid "0123abcd-0123-4567-89ab" ≡ false
unfolding is_uuid hex_run
not_uuid = refl

-- A clock of two instants, the first of which reads as the start of the run.
abbrev instants : Bool → String
instants true = "2025-01-01T00:00:00.000Z"
instants false = "2025-01-02T00:00:00.000Z"

abbrev script : Script String Bool
script = record { parse = λ s. none; parse_result = λ s. none; iso = instants }

abbrev database : Database String Bool
database = record {
  instant = λ s. s == "2025-01-01T00:00:00.000Z";
  column = parsed;
  result_column = parsed;
}

same_instant : (d : Bool) → database.instant (script.iso d) ≡ d
same_instant true = refl
same_instant false = refl

never_empty : (d : Bool) → (script.iso d == "") ≡ false
never_empty true = refl
never_empty false = refl

stored_again_example :
    stored_row database (
      to_cursor_row "x" "2025-01-03" "p1"
        (from_cursor_row script
          (stored_row database (to_cursor_row fresh "2025-01-02" "p1" item 0)))
        1)
    ≡ stored_row database (to_cursor_row fresh "2025-01-02" "p1" item 0)
unfolding is_uuid hex_run
stored_again_example =
    stored_again script database same_instant never_empty (λ j f. refl) (λ r. refl) item "p1" fresh
      "x" "2025-01-02" "2025-01-03" 0 1 refl refl refl
