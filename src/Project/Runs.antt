-- ===== src/Project/Runs.antt =====
-- The runs and the evidence that a project document holds.
use autonomous_dev_platform.Base.{ℕ, Bool, Option, String, List}

-- One aspect of the evidence, or `project.security`.
pub record Aspect : Type 0 where
  pub status : Option String
  pub provenance : Option String
  pub mock : Bool  -- `mock === true`
  pub sandbox_mode : Option String
  pub hardened : Bool  -- `hardened === true`

pub record Evidence : Type 0 where
  pub verification_level : Option String
  pub execution : Option Aspect
  pub git : Option Aspect
  pub build : Option Aspect
  pub tests : Option Aspect
  pub lint : Option Aspect
  pub runtime : Option Aspect
  pub functional : Option Aspect
  pub accessibility : Option Aspect
  pub visual : Option Aspect
  pub security : Option Aspect
  pub provisioning : Option Aspect

pub record GitInfo : Type 0 where
  pub checkpoint_sha : Option String
  pub after_sha : Option String

pub record CursorResult : Type 0 where
  pub execution_mode : Option String
  pub checkpoint_sha : Option String
  pub git : Option GitInfo

pub record CursorRun : Type 0 where
  pub id : String
  pub iteration : ℕ
  pub attempt : ℕ
  pub status : Option String
  pub checkpoint_sha : Option String
  pub git : Option GitInfo
  pub result : Option CursorResult
  pub evidence : Option Evidence
  pub execution_mode : Option String
  pub mock : Bool

pub record VerificationPolicy : Type 0 where
  pub build : Option String
  pub tests : Option String
  pub lint : Option String

-- A blocking failure of a run, by its code.
pub record Finding : Type 0 where
  pub code : Option String

pub record VerificationRun : Type 0 where
  pub id : String
  pub iteration : ℕ
  pub status : Option String
  pub checkpoint_sha : Option String
  pub completed : Bool  -- `completedAt` is set
  pub policy : Option VerificationPolicy
  pub blocking_failures : List Finding
  pub evidence_patch : Option Evidence
  pub mock : Bool

pub record RunPolicy : Type 0 where
  pub runtime : Option String
  pub visual : Option String
  pub accessibility : Option String

pub record AccessibilityItem : Type 0 where
  pub status : Option String
  pub findings : List Bool  -- `finding.blocking`

pub record Screenshot : Type 0 where
  pub sha256 : Option String
  pub checkpoint_sha : Option String

pub record RuntimeRun : Type 0 where
  pub id : String
  pub iteration : ℕ
  pub status : Option String
  pub checkpoint_sha : Option String
  pub completed : Bool
  pub policy : Option RunPolicy
  pub accessibility : List AccessibilityItem
  pub blocking_failures : List Finding
  pub screenshots : List Screenshot
  pub screenshot_set_hash : Option String
  pub evidence_patch : Option Evidence
  pub adapter : Option String
  pub mock : Bool

pub record VisualRun : Type 0 where
  pub id : String
  pub iteration : ℕ
  pub status : Option String
  pub decision : Option String
  pub checkpoint_sha : Option String
  pub runtime_run_id : Option String
  pub screenshot_set_hash : Option String
  pub completed : Bool
  pub blocking_findings : List Finding
  pub evidence_patch : Option Evidence
  pub heuristic_only : Bool
  pub ai_reviewed : Option Bool
  pub chair_provider : Option String
  pub mock : Bool

pub record ProvisioningRun : Type 0 where
  pub id : String
  pub status : Option String
  pub baseline_sha : Option String

pub record Artifact : Type 0 where
  pub kind : Option String
  pub sha256 : Option String

pub record Delivery : Type 0 where
  pub id : String
  pub version : ℕ
  pub status : String
  pub current : Bool
  pub demo : Bool
  pub verification_level : Option String
  pub checkpoint_sha : Option String
  pub verification_set_hash : Option String
  pub manifest : Bool  -- present
  pub manifest_hash : Option String
  pub owner_report : Bool  -- present
  pub verification_report : Bool  -- present
  pub secret_scan : Option String
  pub artifacts : List Artifact
