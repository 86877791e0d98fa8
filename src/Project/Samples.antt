-- ===== src/Project/Samples.antt =====
-- Projects on which the tests run.
use autonomous_dev_platform.Base.{true, false, none, some, String, Option, [], ◌∷◌}
use autonomous_dev_platform.States.{final_verification}
use autonomous_dev_platform.Project.{Project, Decision}
use autonomous_dev_platform.Project.Runs.{
  Aspect, Evidence, CursorRun, VerificationRun, RuntimeRun, VisualRun, Delivery,
}

-- An aspect that the platform found to pass.
abbrev pub verified_aspect : Option Aspect
verified_aspect = some record {
  status = some "PASS";
  provenance = some "PLATFORM_VERIFIED";
  mock = false;
  sandbox_mode = some "CONTAINER_HARDENED";
  hardened = true;
}

abbrev pub sample_evidence : Evidence
sample_evidence = record {
  verification_level = some "PLATFORM_VERIFIED";
  execution = verified_aspect;
  git = verified_aspect;
  build = verified_aspect;
  tests = verified_aspect;
  lint = none;
  runtime = verified_aspect;
  functional = none;
  accessibility = none;
  visual = verified_aspect;
  security = verified_aspect;
  provisioning = none;
}

abbrev pub sample_cursor_run : CursorRun
sample_cursor_run = record {
  id = "c1";
  iteration = 1;
  attempt = 1;
  status = some "COMPLETED";
  checkpoint_sha = some "abc";
  git = none;
  result = none;
  evidence = some sample_evidence;
  execution_mode = some "LOCAL_CLI";
  mock = false;
}

abbrev pub sample_verification_run : VerificationRun
sample_verification_run = record {
  id = "v1";
  iteration = 1;
  status = some "PASS";
  checkpoint_sha = some "abc";
  completed = true;
  policy = some record { build = some "REQUIRED"; tests = some "REQUIRED"; lint = some "OPTIONAL" };
  blocking_failures = [];
  evidence_patch = none;
  mock = false;
}

abbrev pub sample_runtime_run : RuntimeRun
sample_runtime_run = record {
  id = "r1";
  iteration = 1;
  status = some "PASS";
  checkpoint_sha = some "abc";
  completed = true;
  policy = some record {
    runtime = some "REQUIRED";
    visual = some "REQUIRED";
    accessibility = some "REQUIRED";
  };
  accessibility = [];
  blocking_failures = [];
  screenshots = [];
  screenshot_set_hash = none;
  evidence_patch = none;
  adapter = some "WEB";
  mock = false;
}

abbrev pub sample_visual_run : VisualRun
sample_visual_run = record {
  id = "w1";
  iteration = 1;
  status = some "PASS";
  decision = some "COMPLETE";
  checkpoint_sha = some "abc";
  runtime_run_id = some "r1";
  screenshot_set_hash = none;
  completed = true;
  blocking_findings = [];
  evidence_patch = none;
  heuristic_only = false;
  ai_reviewed = some true;
  chair_provider = some "OPENAI";
  mock = false;
}

abbrev complete : Option Decision
complete = some record { decision = some "COMPLETE"; next_cursor_prompt = none }

abbrev pub sample_delivery : String → String → Delivery
sample_delivery status hash = record {
  id = "d1";
  version = 1;
  status = status;
  current = true;
  demo = false;
  verification_level = some "PLATFORM_VERIFIED";
  checkpoint_sha = some "abc";
  verification_set_hash = some hash;
  manifest = true;
  manifest_hash = some "m";
  owner_report = true;
  verification_report = true;
  secret_scan = some "PASS";
  artifacts = record { kind = some "SOURCE_ARCHIVE"; sha256 = some "s" } ∷ [];
}

-- A project that passes the completion gate, with its deliveries as an argument.
abbrev pub sample_project : Option Delivery → Project
sample_project delivery = record {
  id = "p1";
  project_path = some "/work";
  demo = false;
  state = final_verification;
  iteration = 1;
  history = [];
  council = record {
    spec =
        some record {
          cursor_prompt = some "Build it";
          product_name = some "Notes";
          nested_name = none;
        };
    reviews = record { iteration = 1; decision = complete } ∷ [];
    final = some record { decision = complete; cursor_count = some 1 };
    final_history = [];
  };
  active_prompt = some "Build it";
  cursor_runs = sample_cursor_run ∷ [];
  verification_runs = sample_verification_run ∷ [];
  runtime_runs = sample_runtime_run ∷ [];
  visual_review_runs = sample_visual_run ∷ [];
  provisioning_runs = [];
  provisioning = none;
  provisioning_plan = false;
  repository = none;
  evidence = some sample_evidence;
  verification_level = some "PLATFORM_VERIFIED";
  runtime_policy = none;
  security_profile = none;
  security = verified_aspect;
  sandbox_provenance = none;
  security_findings = [];
  secret_scan_findings = [];
  deliveries = elim delivery [ none ↦ [] | some d ↦ d ∷ [] ];
  owner_reviews = [];
  owner_feedback = [];
  pending_owner_feedback = none;
  completion = none;
  operations = [];
  checkpoint = none;
  error = none;
  errors = [];
}
