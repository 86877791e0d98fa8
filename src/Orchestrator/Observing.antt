-- ===== src/Orchestrator/Observing.antt =====
-- A project whose earlier runs are used again.
use autonomous_dev_platform.Base.{false, none, refl, ◌≡◌}
use autonomous_dev_platform.States.{runtime_verification}
use autonomous_dev_platform.Project.{Project}
use autonomous_dev_platform.Project.Samples.{sample_project, sample_runtime_run, sample_visual_run}
use autonomous_dev_platform.Orchestrator.World.{World, answered}
use autonomous_dev_platform.Orchestrator.Observation.{Observer, finish_runtime_verification}
use autonomous_dev_platform.Orchestrator.Onward.{Counted, Leads, runtime-Leads}
use autonomous_dev_platform.Orchestrator.Transition.{ok, stored}
use autonomous_dev_platform.Project.Runs.{RuntimeRun}

abbrev observed : Project
observed = record (sample_project none) { state = runtime_verification }

abbrev quiet_world : World
quiet_world = record {
  demo = false;
  max_iterations = 12;
  environment = record { demo_mode = false; security_profile = none };
  pending_revocation = λ p. false;
  sha256 = λ s. s;
  new_id = λ p. "o1";
  review = λ p. answered none;
  final_verify = λ p. answered none;
  prompt_from_verification = λ r. "";
  prompt_from_runtime = λ r. "";
  prompt_from_visual = λ v r. "";
  prompt_from_findings = λ p. "";
  prompt_from_blockers = λ p. "";
  prepare_delivery = λ p. answered p;
  notify = λ p. none;
}

abbrev observer : Observer
observer = record {
  run_runtime = λ p. answered sample_runtime_run;
  run_visual = λ p. answered sample_visual_run;
}

-- With a queue the pictures are the next job's.
abbrev to_look : Project
to_look = stored (finish_runtime_verification quiet_world observer none observed)

leaves : finish_runtime_verification quiet_world observer none observed ≡ ok to_look
unfolding finish_runtime_verification
leaves = refl

runtime-Leads_example :
    (r : RuntimeRun) × Counted quiet_world observer observed r × Leads observed r to_look
runtime-Leads_example = runtime-Leads quiet_world observer observed to_look leaves
