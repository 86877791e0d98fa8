-- ===== src/Delivery/Sessions.antt =====
-- delivery/session.js: the sessions in which the owner opens a delivered application. What the file
-- system, the clock and the static server answer are arguments of the operations. The map `live` of
-- the process is kept for the sessions of one project.
pub mod Opening
pub mod Serving
pub mod Single
pub mod Quiet
pub mod Reopened
pub mod Attaching
pub mod Opened
pub mod Closed
mod Examples
use autonomous_dev_platform.Base.{
  ℕ, Bool, true, false, ◌&&◌, ◌||◌, Option, none, some, String, List, [], ◌∷◌, ◌==◌, leb,
  if◌then◌else◌, map,
}
use autonomous_dev_platform.Project.Runs.{Delivery}

pub data SessionStatus : Type 0 where
  active expired stopped : SessionStatus

pub record Session : Type 0 where
  pub id : String
  pub delivery_id : String
  pub artifact_hash : Option String
  pub checkpoint_sha : Option String
  pub backend : String
  pub review_url : Option String
  pub url : Option String
  pub status : SessionStatus
  pub expires_at : ℕ
  pub ended : Bool  -- `stoppedAt` is set

-- What the process serves for a session.
pub record Held : Type 0 where
  pub session_id : String
  pub root : String
  pub backend : String
  pub server : Bool  -- a server of its own

pub record Sessions : Type 0 where
  pub sessions : List Session
  pub live : List Held

-- What is outside: the directory of a delivery's review page, whether a directory exists, the port of
-- a server that is started for it, which fails where there is none, and a new session's identifier.
pub record ReviewWorld : Type 0 where
  pub root_for : Delivery → String
  pub exists : String → Bool
  pub start_server : String → Option ℕ
  pub new_id : String
  pub without_slash : String → String  -- `replace(/\/$/, '')`

abbrev pub is_active : Session → Bool
is_active s = elim s.status [ active ↦ true | expired ↦ false | stopped ↦ false ]

-- `live.has(id)`
abbrev pub is_held : String → List Held → Bool
is_held id [] = false
is_held id (h ∷ hs) = h.session_id == id || is_held id hs

-- `live.delete(id)`
abbrev pub close_live : String → List Held → List Held
close_live id [] = []
close_live id (h ∷ hs) =
    let rest = close_live id hs in if h.session_id == id then rest else h ∷ rest

-- `live.set(id, held)`
abbrev pub hold : Held → List Held → List Held
hold h hs = h ∷ close_live h.session_id hs

abbrev pub end_session : SessionStatus → Session → Session
end_session status s = record s { status = status; ended = true }

abbrev pub find_session : String → List Session → Option Session
find_session id [] = none
find_session id (s ∷ ss) = let rest = find_session id ss in if s.id == id then some s else rest

-- A change to the session that `find` returns.
abbrev pub change_session : String → (Session → Session) → List Session → List Session
change_session id f [] = []
change_session id f (s ∷ ss) =
    let rest = change_session id f ss in if s.id == id then f s ∷ ss else s ∷ rest

unfoldable pub stop_review_session : String → Sessions → Option Session × Sessions
stop_review_session id r = elim (find_session id r.sessions) [
  | none ↦ (none, r)
  | some s ↦ (
    some (end_session stopped s),
    record {
      sessions = change_session id (end_session stopped) r.sessions;
      live = close_live id r.live;
    },
  )
]

abbrev pub is_over : ℕ → Session → Bool
is_over now s = is_active s && leb s.expires_at now

abbrev pub expire_one : ℕ → Session → Session
expire_one now s = if is_over now s then end_session expired s else s

abbrev pub close_over : ℕ → List Session → List Held → List Held
close_over now [] live = live
close_over now (s ∷ ss) live =
    close_over now ss (if is_over now s then close_live s.id live else live)

unfoldable pub expire_sessions : ℕ → Sessions → Sessions
expire_sessions now r = record {
  sessions = map (expire_one now) r.sessions;
  live = close_over now r.sessions r.live;
}

-- `for (const session of project.reviewSessions) if (session.status === ACTIVE) await stop(session.id)`
unfoldable pub stop_active : List Session → Sessions → Sessions
unfolding stop_review_session
stop_active [] r = r
stop_active (s ∷ ss) r = stop_active ss (if is_active s then (stop_review_session s.id r).1 else r)

abbrev pub held : Session → String → String → Bool → Held
held s root backend server = record {
  session_id = s.id;
  root = root;
  backend = backend;
  server = server;
}
