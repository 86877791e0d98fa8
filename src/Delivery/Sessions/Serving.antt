-- ===== src/Delivery/Sessions/Serving.antt =====
-- delivery/session.js: the pages of a session that is open.
use Prim.Native.String.{◌++◌ as concat}
use text.Mathlib.Text.{starts_with}
use autonomous_dev_platform.Base.{
  ℕ, Bool, false, not, ◌||◌, Option, none, some, String, List, [], ◌∷◌, ◌==◌, leb, if◌then◌else◌,
  find, exact, begins,
}
use autonomous_dev_platform.Project.{Project}
use autonomous_dev_platform.Gate.MockPolicy.{current_delivery}
use autonomous_dev_platform.Delivery.Sessions.{
  Held, ReviewWorld, Session, Sessions, find_session, hold, is_active, is_held, held,
}

module _ (w : ReviewWorld) where
  -- `hydrateReviewSession`: a process that has started anew serves a session that is still open.
  abbrev session_root : Project → Session → Option String
  session_root p s = elim (find (λ d. d.id == s.delivery_id) p.deliveries) [
    | some d ↦ some (w.root_for d)
    | none ↦ elim (current_delivery p) [ none ↦ none | some d ↦ some (w.root_for d) ]
  ]

  -- An operation that throws an error of JavaScript has no result.
  hydrated : ℕ → String → Sessions → Session → Option String → Option (Option Session × Sessions)
  hydrated now id r s none = none
  hydrated now id r s (some root) =
      if not (w.exists root)
      then some (none, r)
      else if is_held id r.live
      then some (some s, r)
      else some (some s, record r { live = hold (held s root s.backend false) r.live })

  unfoldable pub hydrate_review_session :
      ℕ → Project → String → Sessions → Option (Option Session × Sessions)
  unfolding hydrated current_delivery
  hydrate_review_session now p id r = elim (find_session id r.sessions) [
    | none ↦ some (none, r)
    | some s ↦
        if not (is_active s)
        then some (none, r)
        else if leb s.expires_at now
        then some (none, r)
        else hydrated now id r s (session_root p s)
  ]

pub data Served : Type 0 where
  file : String → Served
  forbidden not_found crashed : Served

-- What `readReviewFile` asks of node: the decoded path, which may throw, a path resolved against a
-- directory, and whether a file can be read.
pub record FileWorld : Type 0 where
  pub decode : String → Option String
  pub resolve : String → String → String
  pub readable : String → Bool

unfoldable pub find_held : String → List Held → Option Held
find_held id [] = none
find_held id (h ∷ hs) = let rest = find_held id hs in if h.session_id == id then some h else rest

-- `/` in front, and the page's name behind it.
abbrev request_path : String → String
request_path rel =
    if rel == "" || rel == "/"
    then "/index.html"
    else if begins exact "/" rel
    then rel
    else concat "/" rel

module _ (f : FileWorld) where
  file_below : String → String → Served
  file_below root rel =
      let path = f.resolve root (concat "." (request_path rel)) in
      if not (starts_with path root)
      then forbidden
      else if f.readable path
      then file path
      else if f.readable (concat root "/index.html")
      then file (concat root "/index.html")
      else not_found

  abbrev root_of : Held → String
  root_of h = f.resolve h.root ""

  unfoldable pub read_review_file : String → String → List Held → Served
  unfolding file_below find_held
  read_review_file id path live = elim (find_held id live) [
    | none ↦ not_found
    | some h ↦
        if h.root == "" then not_found else elim (f.decode (if path == "" then "/" else path)) [
          | none ↦ crashed
          | some rel ↦ file_below (root_of h) rel
        ]
  ]
