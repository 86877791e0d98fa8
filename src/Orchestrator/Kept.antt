-- ===== src/Orchestrator/Kept.antt =====
-- A method that keeps the history, whatever it returns.
use autonomous_dev_platform.Base.{Bool, true, false, if◌then◌else◌}
use autonomous_dev_platform.States.{ProjectState}
use autonomous_dev_platform.Errors.{Thrown}
use autonomous_dev_platform.Project.{Project}
use autonomous_dev_platform.Orchestrator.Transition.{Result, ok, raised, stored, next, transition}
use autonomous_dev_platform.Orchestrator.History.{IsRecorded, transition-IsRecorded}

-- What a method leaves in the store has a history that leads to its state.
pub record Recorded (r : Result) : Type 0 where
  pub proof : IsRecorded (stored r)

-- Both branches keep the history.
pub branch : (b : Bool) (x y : Result) → Recorded x → Recorded y → Recorded (if b then x else y)
branch true x y h k = h
branch false x y h k = k

pub kept : (p : Project) → IsRecorded p → Recorded (ok p)
kept p h = record { proof = h }

pub thrown : (p : Project) (e : Thrown) → IsRecorded p → Recorded (raised p e)
thrown p e h = record { proof = h }

pub moves :
    (saved p : Project) (to : ProjectState)
    → IsRecorded saved
    → IsRecorded p
    → Recorded (transition saved p to)
moves saved p to s h = record { proof = transition-IsRecorded saved p to s h }

pub then_next :
    {r : Result} {f : Project → Result}
    → Recorded r
    → ((p : Project) → IsRecorded p → Recorded (f p))
    → Recorded (next r f)
then_next {r = ok p} h k = k p h.proof
then_next {r = raised p e} h k = record { proof = h.proof }
