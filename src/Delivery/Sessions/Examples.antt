-- ===== src/Delivery/Sessions/Examples.antt =====
-- An application that is opened for the first time, and closed.
use autonomous_dev_platform.Base.{true, false, none, some, [], ◌∷◌, ◌≡◌, refl, arith, decimal}
use autonomous_dev_platform.Project.{Project}
use autonomous_dev_platform.Project.Runs.{Delivery}
use autonomous_dev_platform.Project.Samples.{sample_project, sample_delivery}
use autonomous_dev_platform.Gate.MockPolicy.{current_delivery}
use autonomous_dev_platform.Delivery.Sessions.{
  Session, Sessions, ReviewWorld, active, stopped, stop_review_session, stop_active,
  expire_sessions,
}
use autonomous_dev_platform.Delivery.Sessions.Opening.{
  start_review_session, open_or_reuse, open_new, attach_live, serve, is_ready,
}
use autonomous_dev_platform.Delivery.Sessions.Serving.{
  FileWorld, not_found, hydrate_review_session, read_review_file,
}
use autonomous_dev_platform.Delivery.Sessions.Single.{is_single}
use autonomous_dev_platform.Delivery.Sessions.Opened.{
  sessions_of, Shows, one_session, opened_artifact,
}
use autonomous_dev_platform.Delivery.Sessions.Closed.{stopped_stays_closed}

abbrev world : ReviewWorld
world = record {
  root_for = λ d. "/deliveries/1/app";
  exists = λ path. true;
  start_server = λ root. some 4000;
  new_id = "s2";
  without_slash = λ url. url;
}

abbrev files : FileWorld
files = record { decode = λ path. some path; resolve = λ root path. root; readable = λ path. true }

abbrev project : Project
project = sample_project (some (sample_delivery "READY" "h"))

-- An open session of another artifact.
abbrev other_session : Session
other_session = record {
  id = "s1";
  delivery_id = "d0";
  artifact_hash = some "m0";
  checkpoint_sha = none;
  backend = "verified-static";
  review_url = none;
  url = none;
  status = active;
  expires_at = 900;
  ended = false;
}

abbrev before : Sessions
before = record { sessions = other_session ∷ []; live = [] }

abbrev opened_session : Session
opened_session = record {
  id = "s2";
  delivery_id = "d1";
  artifact_hash = some "m";
  checkpoint_sha = some "abc";
  backend = "verified-static";
  review_url = some "http://127.0.0.1:4000/";
  url = some "http://127.0.0.1:4000/";
  status = active;
  expires_at = 150;
  ended = false;
}

abbrev after : Sessions
after = record {
  sessions = record other_session { status = stopped; ended = true } ∷ (opened_session ∷ []);
  live =
      record {
        session_id = "s2";
        root = "/deliveries/1/app";
        backend = "verified-static";
        server = true;
      }
      ∷ [];
}

one_session_example :
    is_single (sessions_of (start_review_session world 100 50 none project before)) ≡ true
one_session_example = one_session world 100 50 none project before refl refl (omega arith)

opened_artifact_example :
    (d : Delivery) × (current_delivery project ≡ some d)
    × (is_ready d ≡ true)
    × Shows 100 d opened_session after
unfolding start_review_session current_delivery open_or_reuse open_new attach_live serve stop_active
    stop_review_session expire_sessions decimal
opened_artifact_example =
    opened_artifact world 100 50 none project before refl refl (omega arith) opened_session after
      refl

stopped_stays_closed_example :
    (hydrate_review_session world 100 project "s1" (stop_review_session "s1" before).1
      ≡ some (none, (stop_review_session "s1" before).1))
    × (read_review_file files "s1" "/" (stop_review_session "s1" before).1.live ≡ not_found)
stopped_stays_closed_example =
    stopped_stays_closed world files 100 project "s1" "/" before other_session refl
