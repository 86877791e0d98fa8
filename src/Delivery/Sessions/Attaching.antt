-- ===== src/Delivery/Sessions/Attaching.antt =====
-- What serving a session keeps of it.
use autonomous_dev_platform.Base.{
  ℕ, Bool, true, false, not, ◌&&◌, ◌||◌, Option, none, some, String, List, ◌≡◌, refl, ◌==◌, eq_iff,
  arith, if◌then◌else◌, truthy,
}
use autonomous_dev_platform.Delivery.Sessions.{Session, Held, ReviewWorld, is_active, is_held}
use autonomous_dev_platform.Delivery.Sessions.Opening.{
  Attached, attached, unattached, attach_live, serve,
}

pub if_holds {ℓ m} :
    {A : Type ℓ} (P : A → Type m) (b : Bool) (x y : A)
    → (b ≡ true → P x)
    → (b ≡ false → P y)
    → P (if b then x else y)
if_holds P true x y f g = f refl
if_holds P false x y f g = g refl

-- A session that is served is the one that was to be served, with another address.
abbrev pub Keeps : Session → Attached → Type 0
Keeps s (attached t live) =
    (t.id ≡ s.id)
    × (t.delivery_id ≡ s.delivery_id)
    × (t.artifact_hash ≡ s.artifact_hash)
    × (is_active t ≡ is_active s)
    × (t.expires_at ≡ s.expires_at)
    × (is_held s.id live ≡ true)
Keeps s (unattached e) = Unit {0}

self : (a : String) (b : Bool) → ((a == a) || b) ≡ true
self a b = ground (arith, eq_iff a a)

and_left : (a b : Bool) → (a && b) ≡ true → a ≡ true
and_left a b h = ground arith

and_right : (a b : Bool) → (a && b) ≡ true → b ≡ true
and_right a b h = ground arith

module _ (w : ReviewWorld) (s : Session) (root : String) (base : Option String) (demo create : Bool)
    (live : List Held) where
  serve-Keeps : (port : Option ℕ) → Keeps s (serve w s root live port)
  unfolding serve
  serve-Keeps none = tt
  serve-Keeps (some port) = (refl, refl, refl, refl, refl, self s.id _)

  pub attach_live-Keeps : Keeps s (attach_live w s root base demo create live)
  unfolding attach_live
  attach_live-Keeps =
      if_holds (Keeps s) (is_held s.id live && truthy s.review_url) _ _
        (λ h. (refl, refl, refl, refl, refl, and_left (is_held s.id live) _ h))
        (λ _.
          if_holds (Keeps s) (not (w.exists root)) _ _ (λ _. tt)
            (λ _.
              if_holds (Keeps s) (truthy base && demo) _ _
                (λ _. (refl, refl, refl, refl, refl, self s.id _))
                (λ _.
                  if_holds (Keeps s) (not create && is_held s.id live) _ _
                    (λ h. (refl, refl, refl, refl, refl, and_right (not create) _ h))
                    (λ _. serve-Keeps (w.start_server root)))))
