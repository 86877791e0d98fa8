-- ===== src/Delivery/Sessions/Opening.antt =====
-- delivery/session.js: a session is opened, or one that is open is used again.
use Prim.Native.String.{◌++◌ as concat}
use autonomous_dev_platform.Base.{
  ℕ, ◌+◌, Bool, true, false, not, ◌&&◌, ◌||◌, Option, none, some, String, List, [], ◌∷◌, ◌++◌, ◌==◌,
  if◌then◌else◌, truthy, or_else, same_text, find, decimal,
}
use autonomous_dev_platform.Errors.{Thrown, ErrorCode, known, platform_error}
use autonomous_dev_platform.Project.{Project}
use autonomous_dev_platform.Project.Runs.{Delivery}
use autonomous_dev_platform.Gate.MockPolicy.{current_delivery}
use autonomous_dev_platform.Delivery.Sessions.{
  Held, ReviewWorld, Session, Sessions, change_session, expire_sessions, hold, is_active, is_held,
  stop_active, held, active,
}

pub data Opening : Type 0 where
  opened : Session → Sessions → Opening
  refused : Thrown → Sessions → Opening

unfoldable pub stale_delivery : Thrown
unfolding platform_error
stale_delivery =
    platform_error (some (known ErrorCode.stale_delivery)) (some "READY_FOR_OWNER_REVIEW")
      (some false)

unfoldable pub missing_artifact : Thrown
unfolding platform_error
missing_artifact =
    platform_error (some (known ErrorCode.delivery_preparation_failed))
      (some "READY_FOR_OWNER_REVIEW") (some true)

-- The error of a server that does not start.
abbrev pub server_failure : Thrown
server_failure = record { is_platform = false; code = none; phase = none; retryable = none }

abbrev pub public_session : Session → Session
public_session s =
    let url = or_else s.url s.review_url in
    record s { url = url; review_url = or_else s.review_url url }

-- What `attachLive` comes to: the session and the map, or an error.
pub data Attached : Type 0 where
  attached : Session → List Held → Attached
  unattached : Thrown → Attached

abbrev pub is_ready : Delivery → Bool
is_ready d = d.status == "READY" || d.status == "APPROVED"

abbrev pub served_at : String → String → Session → Session
served_at backend url s = record s { backend = backend; review_url = some url; url = some url }

-- The address of a session that the platform itself serves.
abbrev pub demo_url : (String → String) → Session → String → String
demo_url without_slash s base = concat (without_slash base) (concat "/review/" (concat s.id "/"))

module _ (w : ReviewWorld) where
  unfoldable pub serve : Session → String → List Held → Option ℕ → Attached
  unfolding decimal
  serve s root live none = unattached server_failure
  serve s root live (some port) =
      attached
        (served_at "verified-static" (concat "http://127.0.0.1:" (concat (decimal port) "/")) s)
        (hold (held s root "verified-static" true) live)

  unfoldable pub attach_live : Session → String → Option String → Bool → Bool → List Held → Attached
  unfolding serve
  attach_live s root base demo create live =
      if is_held s.id live && truthy s.review_url
      then attached (record s { url = or_else s.url s.review_url }) live
      else if not (w.exists root)
      then unattached missing_artifact
      else if truthy base && demo
      then attached
          (served_at "demo-static"
            (demo_url w.without_slash s (elim base [ none ↦ "" | some b ↦ b ])) s)
          (hold (held s root "demo-static" false) live)
      else if not create && is_held s.id live
      then attached s live
      else serve s root live (w.start_server root)

  -- The session that is found is changed where it stands.
  abbrev pub reattached : Sessions → Attached → Opening
  reattached r (attached s live) =
      opened (public_session s)
        (record { sessions = change_session s.id (λ _. s) r.sessions; live = live })
  reattached r (unattached e) = refused e r

  abbrev pub pushed : Sessions → Attached → Opening
  pushed r (attached s live) =
      opened (public_session s) (record { sessions = r.sessions ++ (s ∷ []); live = live })
  pushed r (unattached e) = refused e r

  abbrev pub new_session : Delivery → ℕ → Session
  new_session d expires = record {
    id = w.new_id;
    delivery_id = d.id;
    artifact_hash = d.manifest_hash;
    checkpoint_sha = d.checkpoint_sha;
    backend = "verified-static";
    review_url = none;
    url = none;
    status = active;
    expires_at = expires;
    ended = false;
  }

  -- A session of the delivery's artifact that is still open.
  abbrev pub reusable : Delivery → Session → Bool
  reusable d s = is_active s && (s.delivery_id == d.id && same_text s.artifact_hash d.manifest_hash)

  unfoldable pub open_new : Delivery → ℕ → Option String → Bool → Sessions → Opening
  unfolding stop_active attach_live
  open_new d expires base demo r =
      let s = new_session d expires in
      let quiet = stop_active r.sessions r in
      if not (w.exists (w.root_for d))
      then refused missing_artifact quiet
      else pushed quiet (attach_live s (w.root_for d) base demo true quiet.live)

  unfoldable pub open_or_reuse :
      Delivery → ℕ → Option String → Bool → Sessions → Option Session → Opening
  unfolding open_new attach_live
  open_or_reuse d expires base demo r none = open_new d expires base demo r
  open_or_reuse d expires base demo r (some s) =
      reattached r (attach_live s (w.root_for d) base demo false r.live)

  -- `startReviewSession` at a time.
  unfoldable pub start_review_session : ℕ → ℕ → Option String → Project → Sessions → Opening
  unfolding current_delivery expire_sessions open_or_reuse stale_delivery
  start_review_session now ttl base p r = elim (current_delivery p) [
    | none ↦ refused stale_delivery r
    | some d ↦
        if not (is_ready d)
        then refused stale_delivery r
        else let fresh = expire_sessions now r in
          open_or_reuse d (now + ttl) base p.demo fresh (find (reusable d) fresh.sessions)
  ]
