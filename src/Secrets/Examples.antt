-- ===== src/Secrets/Examples.antt =====
-- A secret of the control plane that is asked for.
use autonomous_dev_platform.Base.{true, none, some, [], ◌≡◌, refl}
use autonomous_dev_platform.Orchestrator.World.{answered}
use autonomous_dev_platform.Secrets.{Backend, Broker, SecretClass, issue}
use autonomous_dev_platform.Secrets.Leases.{
  no_call, and_call, issuing, after_issue, all_of_projects, leases_stay_of_projects,
}

abbrev backend : Backend
backend = record {
  get = λ ref project cls.
      answered
        record { secret_ref = ref; value = "v"; cls = cls; expires_at = none; lease_id = none };
  revoke = none;
}

abbrev no_leases : Broker
no_leases = record { leases = []; events = [] }

abbrev built : Broker
built =
    after_issue
      (issue backend "l1" 5 10 "p1" "npm" (some SecretClass.project_build_secret) none no_leases)

abbrev asked : Broker
asked =
    after_issue
      (issue backend "l2" 6 10 "p1" "key" (some SecretClass.control_plane_secret) none built)

leases_stay_of_projects_example : all_of_projects asked.leases ≡ true
leases_stay_of_projects_example =
    leases_stay_of_projects
      (and_call
        (and_call no_call
          (issuing backend "l1" 5 10 "p1" "npm" (some SecretClass.project_build_secret) none))
        (issuing backend "l2" 6 10 "p1" "key" (some SecretClass.control_plane_secret) none))
      refl
