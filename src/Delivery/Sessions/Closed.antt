-- ===== src/Delivery/Sessions/Closed.antt =====
-- A session that was stopped stays closed.
use autonomous_dev_platform.Base.{ℕ, none, some, String, List, [], ◌∷◌, ◌≡◌, refl, ap, ◌∙◌, arith}
use autonomous_dev_platform.Project.{Project}
use autonomous_dev_platform.Delivery.Sessions.{
  Session, Sessions, Held, ReviewWorld, stopped, find_session, change_session, close_live,
  stop_review_session, end_session,
}
use autonomous_dev_platform.Delivery.Sessions.Serving.{
  FileWorld, not_found, read_review_file, hydrate_review_session, find_held,
}

find-change :
    (id : String) (f : Session → Session) (ss : List Session) (s : Session)
    → ((t : Session) → (f t).id ≡ t.id)
    → find_session id ss ≡ some s
    → find_session id (change_session id f ss) ≡ some (f s)
find-change id f [] s k h = cc
find-change id f (t ∷ ss) s k h = ground (arith, find-change id f ss s k, k t)

find-close : (id : String) (hs : List Held) → find_held id (close_live id hs) ≡ none
unfolding find_held
find-close id [] = refl
find-close id (h ∷ hs) = ground (arith, find-close id hs)

stop-found :
    (id : String) (r : Sessions) (s : Session)
    → find_session id r.sessions ≡ some s
    → (stop_review_session id r).1 ≡ record {
      sessions = change_session id (end_session stopped) r.sessions;
      live = close_live id r.live;
    }
unfolding stop_review_session
stop-found id r s h = rw (h, stop_review_session) refl

hydrate-ended :
    (w : ReviewWorld) (now : ℕ) (p : Project) (id : String) (q : Sessions) (s : Session)
    → find_session id q.sessions ≡ some (end_session stopped s)
    → hydrate_review_session w now p id q ≡ some (none, q)
unfolding hydrate_review_session
hydrate-ended w now p id q s h = rw (h, hydrate_review_session) refl

read-absent :
    (f : FileWorld) (id path : String) (live : List Held)
    → find_held id live ≡ none
    → read_review_file f id path live ≡ not_found
unfolding read_review_file
read-absent f id path live h = rw (h, read_review_file) refl

module _ (w : ReviewWorld) (f : FileWorld) (now : ℕ) (p : Project) (id path : String) (r : Sessions)
    (s : Session) (found : find_session id r.sessions ≡ some s) where
  -- After a session of a project is stopped, an attempt to serve it again, at any time, finds no open
  -- session and changes nothing, and no page of it is found.
  pub stopped_stays_closed :
      (hydrate_review_session w now p id (stop_review_session id r).1
        ≡ some (none, (stop_review_session id r).1))
      × (read_review_file f id path (stop_review_session id r).1.live ≡ not_found)
  stopped_stays_closed =
      let e = stop-found id r s found in
      (
        hydrate-ended w now p id (stop_review_session id r).1 s (
            ap (λ (q : Sessions). find_session id q.sessions) e
            ∙ find-change id (end_session stopped) r.sessions s (λ t. refl) found),
        read-absent f id path (stop_review_session id r).1.live
            (ap (λ (q : Sessions). find_held id q.live) e ∙ find-close id r.live),
      )
