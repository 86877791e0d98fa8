-- ===== src/Project.antt =====
-- The project document that the orchestrator reads and writes (storage/json-store.js creates it).
-- A text that may be absent is an optional text, and a status is kept as the text that it is, since
-- parts of the document come from outside. A field that is present and `null` is read as absent.
-- Fields that no modelled operation reads are left out.
pub mod Runs
pub mod Latest
pub mod Samples
use autonomous_dev_platform.Base.{ℕ, Bool, Option, String, List}
use autonomous_dev_platform.States.{ProjectState}
use autonomous_dev_platform.Errors.{ErrorRecord}
use Runs.{
  Evidence, CursorRun, VerificationRun, RuntimeRun, VisualRun, ProvisioningRun, Delivery, Aspect,
}

pub record Spec : Type 0 where
  pub cursor_prompt : Option String  -- present only if it is a string
  pub product_name : Option String
  pub nested_name : Option String  -- `product.name`

-- The Chair's decision, of a review or of the final verification.
pub record Decision : Type 0 where
  pub decision : Option String
  pub next_cursor_prompt : Option String

pub record Review : Type 0 where
  pub iteration : ℕ  -- the number in the key `review<iteration>`
  pub decision : Option Decision

pub record Final : Type 0 where
  pub decision : Option Decision
  pub cursor_count : Option ℕ

pub record Council : Type 0 where
  pub spec : Option Spec  -- `discovery.spec`
  pub reviews : List Review
  pub final : Option Final
  pub final_history : List Final

pub record Repository : Type 0 where
  pub repository_type : Option String
  pub provisioning_baseline_sha : Option String
  pub lifecycle_status : Option String

-- `project.provisioning`
pub record Provisioning : Type 0 where
  pub status : Option String
  pub baseline_sha : Option String

pub record RuntimePolicy : Type 0 where
  pub runtime : Option String
  pub visual : Option String

pub record SandboxProvenance : Type 0 where
  pub sandbox_mode : Option String
  pub hardened : Bool  -- `hardened === true`
  pub checkpoint_sha : Option String

pub record SecurityFinding : Type 0 where
  pub blocking : Option Bool
  pub kind : Option String
  pub code : Option String
  pub confidence : Option String

pub record HistoryEntry : Type 0 where
  pub from : ProjectState
  pub to : ProjectState

pub record OwnerReview : Type 0 where
  pub id : String
  pub delivery_id : String
  pub decision : String
  pub feedback : Option String

pub record PendingFeedback : Type 0 where
  pub review_id : String
  pub delivery_id : String
  pub feedback : Option String

pub record Completion : Type 0 where
  pub delivery_version : ℕ
  pub final_checkpoint : Option String
  pub owner_review_id : String
  pub artifact_hashes : List (Option String)

-- An entry of `operations`, and the document's `checkpoint`.
pub record Operation : Type 0 where
  pub id : String
  pub type : String
  pub status : String
  pub iteration : ℕ
  pub completed : Bool  -- `completedAt` is set
  pub error : Option ErrorRecord

pub record Checkpoint : Type 0 where
  pub type : Option String
  pub status : String
  pub iteration : ℕ
  pub operation_id : Option String
  pub completed : Bool
  pub error : Option ErrorRecord
  pub sha : Option String

pub record Project : Type 0 where
  pub id : String
  pub project_path : Option String
  pub demo : Bool
  pub state : ProjectState
  pub iteration : ℕ
  pub history : List HistoryEntry
  pub council : Council
  pub active_prompt : Option String
  pub cursor_runs : List CursorRun
  pub verification_runs : List VerificationRun
  pub runtime_runs : List RuntimeRun
  pub visual_review_runs : List VisualRun
  pub provisioning_runs : List ProvisioningRun
  pub provisioning : Option Provisioning
  pub provisioning_plan : Bool  -- `provisioningPlan` is set
  pub repository : Option Repository
  pub evidence : Option Evidence
  pub verification_level : Option String
  pub runtime_policy : Option RuntimePolicy
  pub security_profile : Option String  -- `securityPolicy.profile`
  pub security : Option Aspect
  pub sandbox_provenance : Option SandboxProvenance
  pub security_findings : List SecurityFinding
  pub secret_scan_findings : List SecurityFinding
  pub deliveries : List Delivery
  pub owner_reviews : List OwnerReview
  pub owner_feedback : List OwnerReview
  pub pending_owner_feedback : Option PendingFeedback
  pub completion : Option Completion
  pub operations : List Operation
  pub checkpoint : Option Checkpoint
  pub error : Option ErrorRecord
  pub errors : List ErrorRecord
