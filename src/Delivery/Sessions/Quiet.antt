-- ===== src/Delivery/Sessions/Quiet.antt =====
-- The sessions that are open are closed before a new one is opened.
use autonomous_dev_platform.Base.{
  Bool, true, false, ◌||◌, Option, none, some, String, List, [], ◌∷◌, ◌++◌, ◌≡◌, refl, sym, ap, ◌∙◌,
  ◌==◌, eq_iff, arith, if◌then◌else◌, map, includes,
}
use autonomous_dev_platform.Delivery.Sessions.{
  Session, Sessions, stopped, is_active, end_session, change_session, find_session,
  stop_review_session, stop_active,
}
use autonomous_dev_platform.Delivery.Sessions.Single.{
  flags, ids, all_false, at_most_one, distinct, is_single, all_false-one, and_left, and_true,
}

self : (a : String) → (a == a) ≡ true
self a = ground (arith, eq_iff a a)

or_false : (a b : Bool) → (a || b) ≡ false → (a ≡ false) × (b ≡ false)
or_false a b h = (ground arith, ground arith)

-- Where the session that is changed does not stand among the first ones.
change_session-append :
    (f : Session → Session) (done : List Session) (x : Session) (todo : List Session)
    → includes x.id (ids done) ≡ false
    → change_session x.id f (done ++ (x ∷ todo)) ≡ done ++ (f x ∷ todo)
change_session-append f [] x todo h =
    ap (λ b. if b then f x ∷ todo else x ∷ change_session x.id f todo) (self x.id)
change_session-append f (d ∷ done) x todo h =
    let e = or_false (d.id == x.id) (includes x.id (ids done)) h in
    ap
      (λ b.
        if b then f d ∷ (done ++ (x ∷ todo)) else d ∷ change_session x.id f (done ++ (x ∷ todo)))
      e.0
    ∙ ap (λ (ss : List Session). d ∷ ss) (change_session-append f done x todo e.1)

absent_if :
    (b : Bool) (s : Session) (o : Option Session)
    → (if b then some s else o) ≡ none
    → (b ≡ false) × (o ≡ none)
absent_if true s o h = cc
absent_if false s o h = (refl, h)

change_session-absent :
    (id : String) (f : Session → Session) (ss : List Session)
    → find_session id ss ≡ none
    → change_session id f ss ≡ ss
change_session-absent id f [] h = refl
change_session-absent id f (s ∷ ss) h =
    let e = absent_if (s.id == id) s (find_session id ss) h in
    ap (λ b. if b then f s ∷ ss else s ∷ change_session id f ss) e.0
    ∙ ap (λ (ss : List Session). s ∷ ss) (change_session-absent id f ss e.1)

-- The clauses of `stop_review_session`.
stop_found :
    (id : String) (r : Sessions) (o : Option Session)
    → find_session id r.sessions ≡ o
    → (stop_review_session id r).1.sessions ≡ change_session id (end_session stopped) r.sessions
unfolding stop_review_session
stop_found id r none e =
    rw (e, stop_review_session) (sym (change_session-absent id (end_session stopped) r.sessions e))
stop_found id r (some s) e = rw (e, stop_review_session) refl

stop-sessions :
    (id : String) (r : Sessions)
    → (stop_review_session id r).1.sessions ≡ change_session id (end_session stopped) r.sessions
stop-sessions id r = stop_found id r (find_session id r.sessions) refl

abbrev stop_one : Session → Session
stop_one s = if is_active s then end_session stopped s else s

append_one :
    (xs : List Session) (x : Session) (ys : List Session) → (xs ++ (x ∷ [])) ++ ys ≡ xs ++ (x ∷ ys)
append_one [] x ys = refl
append_one (y ∷ xs) x ys = ap (λ (zs : List Session). y ∷ zs) (append_one xs x ys)

ids-append : (xs ys : List Session) → ids (xs ++ ys) ≡ ids xs ++ ids ys
ids-append [] ys = refl
ids-append (x ∷ xs) ys = ap (λ (zs : List String). x.id ∷ zs) (ids-append xs ys)

includes-append :
    (a : String) (xs ys : List String) → includes a (xs ++ ys) ≡ (includes a xs || includes a ys)
includes-append a [] ys = refl
includes-append a (x ∷ xs) ys = ground (arith, includes-append a xs ys)

-- An identifier that stands behind others differs from them.
distinct-apart :
    (xs : List String) (a : String) (ys : List String)
    → distinct (xs ++ (a ∷ ys)) ≡ true
    → includes a xs ≡ false
distinct-apart [] a ys h = refl
distinct-apart (x ∷ xs) a ys h =
    ground (arith, distinct-apart xs a ys, includes-append x xs (a ∷ ys), eq_iff x a, eq_iff a x)

stop_one-id : (s : Session) → (stop_one s).id ≡ s.id
stop_one-id s = ground arith

ids_step :
    (done : List Session) (x : Session) (todo : List Session)
    → ids (done ++ (stop_one x ∷ [])) ++ ids todo ≡ ids done ++ (x.id ∷ ids todo)
ids_step [] x todo = ap (λ (a : String). a ∷ ids todo) (stop_one-id x)
ids_step (d ∷ done) x todo = ap (λ (xs : List String). d.id ∷ xs) (ids_step done x todo)

-- One round of the loop over the open sessions.
stop_step :
    (b : Bool) (r : Sessions) (done : List Session) (x : Session) (todo : List Session)
    → b ≡ is_active x
    → r.sessions ≡ done ++ (x ∷ todo)
    → includes x.id (ids done) ≡ false
    → (if b then (stop_review_session x.id r).1 else r).sessions
      ≡ (done ++ (stop_one x ∷ [])) ++ todo
stop_step true r done x todo e h apart =
    stop-sessions x.id r
    ∙ ap (change_session x.id (end_session stopped)) h
    ∙ change_session-append (end_session stopped) done x todo apart
    ∙ ap (λ b. done ++ ((if b then end_session stopped x else x) ∷ todo)) e
    ∙ sym (append_one done (stop_one x) todo)
stop_step false r done x todo e h apart =
    h
    ∙ ap (λ b. done ++ ((if b then end_session stopped x else x) ∷ todo)) e
    ∙ sym (append_one done (stop_one x) todo)

stop_active-sessions :
    (todo done : List Session) (r : Sessions)
    → r.sessions ≡ done ++ todo
    → distinct (ids done ++ ids todo) ≡ true
    → (stop_active todo r).sessions ≡ done ++ map stop_one todo
unfolding stop_active
stop_active-sessions [] done r h u = h
stop_active-sessions (x ∷ todo) done r h u =
    let next = if is_active x then (stop_review_session x.id r).1 else r in
    stop_active-sessions todo (done ++ (stop_one x ∷ [])) next
      (stop_step (is_active x) r done x todo refl h (distinct-apart (ids done) x.id (ids todo) u))
      (ap (λ xs. distinct xs) (ids_step done x todo) ∙ u)
    ∙ append_one done (stop_one x) (map stop_one todo)

-- With all sessions closed, a new one is the only one that is open.
stopped_flags : (ss : List Session) → all_false (flags (map stop_one ss)) ≡ true
stopped_flags [] = refl
stopped_flags (s ∷ ss) = ground (arith, stopped_flags ss)

push_flags :
    (ss : List Session) (s : Session)
    → all_false (flags ss) ≡ true
    → at_most_one (flags (ss ++ (s ∷ []))) ≡ true
push_flags [] s h = ground arith
push_flags (x ∷ ss) s h = ground (arith, push_flags ss s)

stopped_ids : (ss : List Session) → ids (map stop_one ss) ≡ ids ss
stopped_ids [] = refl
stopped_ids (s ∷ ss) =
    ap (λ (x : String). x ∷ ids (map stop_one ss)) (stop_one-id s)
    ∙ ap (λ (xs : List String). s.id ∷ xs) (stopped_ids ss)

distinct-push :
    (xs : List String) (a : String)
    → includes a xs ≡ false
    → distinct xs ≡ true
    → distinct (xs ++ (a ∷ [])) ≡ true
distinct-push [] a h u = refl
distinct-push (x ∷ xs) a h u =
    ground (arith, distinct-push xs a, includes-append x xs (a ∷ []), eq_iff x a, eq_iff a x)

pub quiet_sessions :
    (r : Sessions)
    → is_single r.sessions ≡ true
    → (stop_active r.sessions r).sessions ≡ map stop_one r.sessions
quiet_sessions r h =
    stop_active-sessions r.sessions [] r refl (and_left (distinct (ids r.sessions)) _ h)

pub is_single-quiet :
    (r : Sessions)
    → is_single r.sessions ≡ true
    → is_single (stop_active r.sessions r).sessions ≡ true
is_single-quiet r h =
    ap is_single (quiet_sessions r h)
    ∙ and_true
        (ap (λ xs. distinct xs) (stopped_ids r.sessions) ∙ and_left (distinct (ids r.sessions)) _ h)
        (all_false-one (flags (map stop_one r.sessions)) (stopped_flags r.sessions))

pub is_single-push :
    (r : Sessions) (s : Session)
    → is_single r.sessions ≡ true
    → includes s.id (ids r.sessions) ≡ false
    → is_single ((stop_active r.sessions r).sessions ++ (s ∷ [])) ≡ true
is_single-push r s h fresh =
    ap (λ ss. is_single (ss ++ (s ∷ []))) (quiet_sessions r h)
    ∙ and_true
        (ap (λ xs. distinct xs)
            (ids-append (map stop_one r.sessions) (s ∷ [])
              ∙ ap (λ xs. xs ++ (s.id ∷ [])) (stopped_ids r.sessions))
          ∙ distinct-push (ids r.sessions) s.id fresh (and_left (distinct (ids r.sessions)) _ h))
        (push_flags (map stop_one r.sessions) s (stopped_flags r.sessions))
