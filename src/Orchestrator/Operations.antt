-- ===== src/Orchestrator/Operations.antt =====
-- orchestrator/checkpoint.js: the operation that a project is engaged in. An operation of the list is
-- known by its identifier; times are left out.
use autonomous_dev_platform.Base.{
  true, false, Option, none, some, String, List, [], ◌∷◌, ◌++◌, ◌==◌, find, map, if◌then◌else◌,
  truthy,
}
use autonomous_dev_platform.Errors.{ErrorRecord}
use autonomous_dev_platform.Project.{Project, Operation, Checkpoint}

abbrev pub empty_checkpoint : Checkpoint
empty_checkpoint = record {
  type = none;
  status = "not_started";
  iteration = 0;
  operation_id = none;
  completed = false;
  error = none;
  sha = none;
}

-- `id` is the new operation's identifier.
unfoldable pub begin_operation : String → String → Project → Project
begin_operation id type p = record p {
  operations =
      p.operations
      ++ record {
        id = id;
        type = type;
        status = "started";
        iteration = p.iteration;
        completed = false;
        error = none;
      }
        ∷ [];
  checkpoint = some record {
    type = some type;
    status = "started";
    iteration = p.iteration;
    operation_id = some id;
    completed = false;
    error = none;
    sha = none;
  };
}

abbrev or_empty : Option Checkpoint → Checkpoint
or_empty none = empty_checkpoint
or_empty (some c) = c

abbrev end_operation : Option String → (Operation → Operation) → List Operation → List Operation
end_operation none set ops = ops
end_operation (some id) set ops = map (λ o. if o.id == id then set o else o) ops

-- The operation is absent where none is known.
unfoldable pub complete_operation : Option String → Project → Project
complete_operation op p = record p {
  operations =
      end_operation op (λ o. record o { status = "completed"; completed = true }) p.operations;
  checkpoint =
      some
        (record (or_empty p.checkpoint) { status = "completed"; completed = true; error = none });
}

unfoldable pub fail_operation : Option String → ErrorRecord → Project → Project
fail_operation op error p = record p {
  operations =
      end_operation op (λ o. record o { status = "failed"; completed = true; error = some error })
        p.operations;
  checkpoint =
      some (record (or_empty p.checkpoint) {
        status = "failed";
        completed = true;
        error = some error;
      });
}

abbrev find_operation : String → List Operation → Option Operation
find_operation id = find (λ o. o.id == id)

abbrev current_id : Option Checkpoint → Option String
current_id none = none
current_id (some c) = c.operation_id

unfoldable pub current_operation : Project → Option Operation
current_operation p = elim (current_id p.checkpoint) [
  | none ↦ none
  | some id ↦ if truthy (some id) then find_operation id p.operations else none
]
