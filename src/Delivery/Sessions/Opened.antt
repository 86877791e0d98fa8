-- ===== src/Delivery/Sessions/Opened.antt =====
-- What the owner gets who opens a delivered application.
use autonomous_dev_platform.Base.{
  ℕ, ◌+◌, ◌<◌, Bool, true, false, not, ◌&&◌, Option, none, some, String, List, ◌≡◌, refl, ap, ◌∙◌,
  ◌==◌, ◌⊎◌, eq_iff, arith, if◌then◌else◌, leb, find, find_sound, includes, same_text, subst, inl,
  inr,
}
use autonomous_dev_platform.Project.{Project}
use autonomous_dev_platform.Project.Runs.{Delivery}
use autonomous_dev_platform.Gate.MockPolicy.{current_delivery}
use autonomous_dev_platform.Delivery.Sessions.{
  Session, Sessions, ReviewWorld, is_active, is_held, expire_sessions, stop_active, change_session,
}
use autonomous_dev_platform.Delivery.Sessions.Opening.{
  Opening, opened, refused, Attached, attached, unattached, start_review_session, open_new,
  open_or_reuse, reusable, new_session, pushed, reattached, is_ready, stale_delivery,
}
use autonomous_dev_platform.Delivery.Sessions.Single.{
  is_single, is_single-expire, ids, ids-expire, flags, distinct, at_most_one, and_left,
}
use autonomous_dev_platform.Delivery.Sessions.Quiet.{is_single-quiet, is_single-push}
use autonomous_dev_platform.Delivery.Sessions.Reopened.{reopened_flags, reopened_ids, find-expire}
use autonomous_dev_platform.Delivery.Sessions.Attaching.{Keeps, attach_live-Keeps, if_holds}

abbrev pub sessions_of : Opening → List Session
sessions_of (opened s q) = q.sessions
sessions_of (refused e q) = q.sessions

-- A session that the owner may use at a time: it shows the delivery's artifact, and is served.
abbrev pub Shows : ℕ → Delivery → Session → Sessions → Type 0
Shows now d s q =
    (s.delivery_id ≡ d.id)
    × (same_text s.artifact_hash d.manifest_hash ≡ true)
    × (is_active s ≡ true)
    × (leb s.expires_at now ≡ false)
    × (is_held s.id q.live ≡ true)

-- What opening a delivery comes to.
abbrev Fine : ℕ → Delivery → Opening → Type 0
Fine now d (refused e q) = is_single q.sessions ≡ true
Fine now d (opened s q) = (is_single q.sessions ≡ true) × Shows now d s q

same_self : (o : Option String) → same_text o o ≡ true
same_self none = refl
same_self (some a) = ground (arith, eq_iff a a)

later : (now ttl : ℕ) → 0 < ttl → leb (now + ttl) now ≡ false
later now ttl h = ground arith

same_single :
    (ss rs : List Session)
    → ids ss ≡ ids rs
    → flags ss ≡ flags rs
    → is_single rs ≡ true
    → is_single ss ≡ true
same_single ss rs i f h =
    ap (λ x. distinct x && at_most_one (flags ss)) i
    ∙ ap (λ x. distinct (ids rs) && at_most_one x) f
    ∙ h

reuse_parts : (a b c : Bool) → (a && (b && c)) ≡ true → (a ≡ true) × (b ≡ true) × (c ≡ true)
reuse_parts a b c h = (ground arith, ground arith, ground arith)

module _ (w : ReviewWorld) (now : ℕ) (d : Delivery) (r : Sessions)
    (single : is_single r.sessions ≡ true) where
  pushed-Fine :
      (expires : ℕ)
      → includes w.new_id (ids r.sessions) ≡ false
      → leb expires now ≡ false
      → (a : Attached) → Keeps (new_session w d expires) a
      → Fine now d (pushed w (stop_active r.sessions r) a)
  pushed-Fine expires fresh soon (unattached e) k = is_single-quiet r single
  pushed-Fine expires fresh soon (attached t live) (i, j, hash, act, at, held) = (
    is_single-push r t single (ap (λ x. includes x (ids r.sessions)) i ∙ fresh),
    (
      j,
      ap (λ h. same_text h d.manifest_hash) hash ∙ same_self d.manifest_hash,
      act,
      ap (λ e. leb e now) at ∙ soon,
      ap (λ x. is_held x live) i ∙ held,
    ),
  )

  reattached-Fine :
      (s : Session)
      → find (reusable w d) r.sessions ≡ some s
      → leb s.expires_at now ≡ false
      → (a : Attached) → Keeps s a
      → Fine now d (reattached w r a)
  reattached-Fine s h soon (unattached e) k = single
  reattached-Fine s h soon (attached t live) (i, j, hash, act, at, held) =
      let e =
        reuse_parts (is_active s) (s.delivery_id == d.id)
          (same_text s.artifact_hash d.manifest_hash) (find_sound (reusable w d) r.sessions s h) in
      (
        same_single (change_session t.id (λ _. t) r.sessions) r.sessions (reopened_ids t r.sessions)
            (reopened_flags (reusable w d) s t i r.sessions h
              (and_left (distinct (ids r.sessions)) _ single) act)
            single,
        (
          j ∙ (eq_iff s.delivery_id d.id).0 e.1,
          ap (λ h. same_text h d.manifest_hash) hash ∙ e.2,
          act ∙ e.0,
          ap (λ e. leb e now) at ∙ soon,
          ap (λ x. is_held x live) i ∙ held,
        ),
      )

  open_new-Fine :
      (expires : ℕ) (base : Option String) (demo : Bool)
      → includes w.new_id (ids r.sessions) ≡ false
      → leb expires now ≡ false
      → Fine now d (open_new w d expires base demo r)
  unfolding open_new
  open_new-Fine expires base demo fresh soon =
      if_holds (Fine now d) (not (w.exists (w.root_for d))) _ _ (λ _. is_single-quiet r single)
        (λ _. pushed-Fine expires fresh soon _ (
          attach_live-Keeps w (new_session w d expires) (w.root_for d) base demo true
            (stop_active r.sessions r).live))

  open_or_reuse-Fine :
      (expires : ℕ) (base : Option String) (demo : Bool)
      → includes w.new_id (ids r.sessions) ≡ false
      → leb expires now ≡ false
      → ((s : Session) → find (reusable w d) r.sessions ≡ some s → leb s.expires_at now ≡ false)
      → (o : Option Session) → find (reusable w d) r.sessions ≡ o
      → Fine now d (open_or_reuse w d expires base demo r o)
  unfolding open_or_reuse
  open_or_reuse-Fine expires base demo fresh soon left none e =
      open_new-Fine expires base demo fresh soon
  open_or_reuse-Fine expires base demo fresh soon left (some s) e =
      reattached-Fine s e (left s e) _ (attach_live-Keeps w s (w.root_for d) base demo false r.live)

module _ (w : ReviewWorld) (now ttl : ℕ) (base : Option String) (p : Project) (r : Sessions)
    (single : is_single r.sessions ≡ true) (fresh : includes w.new_id (ids r.sessions) ≡ false)
    (lasting : 0 < ttl) where
  -- Opening the application, in each of its outcomes.
  opened_for :
      (d : Delivery)
      → Fine now d (
          open_or_reuse w d
            (now + ttl)
            base
            p.demo
            (expire_sessions now r)
            (find (reusable w d) (expire_sessions now r).sessions))
  unfolding expire_sessions
  opened_for d =
      open_or_reuse-Fine w now d (expire_sessions now r) (is_single-expire now r single) (now + ttl)
        base p.demo (ap (includes w.new_id) (ids-expire now r.sessions) ∙ fresh)
        (later now ttl lasting)
        (λ s h.
          find-expire now (reusable w d) r.sessions s h
            (reuse_parts (is_active s) (s.delivery_id == d.id)
              (same_text s.artifact_hash d.manifest_hash)
              (find_sound (reusable w d) (expire_sessions now r).sessions s h)).0)
        _ refl

  abbrev FineFor : Option Delivery → Opening → Type 0
  FineFor none o = o ≡ refused stale_delivery r
  FineFor (some d) o = (o ≡ refused stale_delivery r) ⊎ ((is_ready d ≡ true) × Fine now d o)

  started_if :
      (d : Delivery) (b : Bool) (o : Opening)
      → is_ready d ≡ b
      → Fine now d o
      → FineFor (some d) (if not b then refused stale_delivery r else o)
  started_if d true o e f = inr (e, f)
  started_if d false o e f = inl refl

  started_with :
      (o : Option Delivery)
      → FineFor o (elim o [
        | none ↦ refused stale_delivery r
        | some d ↦
            if not (is_ready d)
            then refused stale_delivery r
            else open_or_reuse w d
                (now + ttl)
                base
                p.demo
                (expire_sessions now r)
                (find (reusable w d) (expire_sessions now r).sessions)
      ])
  started_with none = refl
  started_with (some d) = started_if d (is_ready d) _ refl (opened_for d)

  single_if : (o : Option Delivery) (t : Opening) → FineFor o t → is_single (sessions_of t) ≡ true
  single_if none t h = ap (λ u. is_single (sessions_of u)) h ∙ single
  single_if (some d) t (inl h) = ap (λ u. is_single (sessions_of u)) h ∙ single
  single_if (some d) (opened s q) (inr h) = h.1.0
  single_if (some d) (refused e q) (inr h) = h.1

  -- However the opening of the application ends, with a session or with an error, the identifiers of
  -- the project's sessions differ and at most one session is open, if this was so before, the new
  -- session's identifier is new, and a session lasts for some time.
  pub one_session : is_single (sessions_of (start_review_session w now ttl base p r)) ≡ true
  unfolding start_review_session
  one_session = single_if (current_delivery p) _ (started_with (current_delivery p))

  artifact_if :
      (o : Option Delivery) (t : Opening) (s : Session) (q : Sessions)
      → FineFor o t
      → t ≡ opened s q
      → (d : Delivery) × (o ≡ some d) × (is_ready d ≡ true) × Shows now d s q
  artifact_if none t s q h e = cc
  artifact_if (some d) t s q (inl h) e = cc
  artifact_if (some d) t s q (inr h) e = (d, refl, h.0, (subst (Fine now d) e h.1).1)

  -- If the identifiers of the project's sessions differ and at most one is open, the new session's
  -- identifier is new, and a session lasts for some time, then a session that the owner gets is a
  -- session of the project's current delivery, which is ready or approved, and of its very artifact; it
  -- is open, has not run out, and is served.
  pub opened_artifact :
      (s : Session) (q : Sessions)
      → start_review_session w now ttl base p r ≡ opened s q
      → (d : Delivery) × (current_delivery p ≡ some d) × (is_ready d ≡ true) × Shows now d s q
  unfolding start_review_session
  opened_artifact s q e =
      artifact_if (current_delivery p) _ s q (started_with (current_delivery p)) e
