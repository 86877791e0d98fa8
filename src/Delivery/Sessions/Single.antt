-- ===== src/Delivery/Sessions/Single.antt =====
-- A project has at most one open review session.
use autonomous_dev_platform.Base.{
  ℕ, Bool, true, false, not, ◌&&◌, String, List, [], ◌∷◌, ◌≡◌, refl, ap, ◌∙◌, arith, if◌then◌else◌,
  map, includes,
}
use autonomous_dev_platform.Delivery.Sessions.{
  Session, Sessions, is_active, expire_one, expire_sessions,
}

abbrev pub flags : List Session → List Bool
flags [] = []
flags (s ∷ ss) = is_active s ∷ flags ss

abbrev pub ids : List Session → List String
ids [] = []
ids (s ∷ ss) = s.id ∷ ids ss

abbrev pub all_false : List Bool → Bool
all_false [] = true
all_false (b ∷ bs) = not b && all_false bs

abbrev pub at_most_one : List Bool → Bool
at_most_one [] = true
at_most_one (b ∷ bs) = if b then all_false bs else at_most_one bs

abbrev pub distinct : List String → Bool
distinct [] = true
distinct (x ∷ xs) = not (includes x xs) && distinct xs

-- The sessions have different identifiers, and at most one of them is open.
abbrev pub is_single : List Session → Bool
is_single ss = distinct (ids ss) && at_most_one (flags ss)

expire_one-id : (now : ℕ) (s : Session) → (expire_one now s).id ≡ s.id
expire_one-id now s = ground arith

expire_one-active :
    (now : ℕ) (s : Session) → is_active s ≡ false → is_active (expire_one now s) ≡ false
expire_one-active now s h = ground arith

fewer :
    (b c x y : Bool)
    → (b ≡ false → c ≡ false)
    → (x ≡ true → y ≡ true)
    → (not b && x) ≡ true
    → (not c && y) ≡ true
fewer b c x y f g h = ground arith

pub all_false-one : (bs : List Bool) → all_false bs ≡ true → at_most_one bs ≡ true
all_false-one [] h = refl
all_false-one (true ∷ bs) h = cc
all_false-one (false ∷ bs) h = all_false-one bs h

fewer_one :
    (b c x y u v : Bool)
    → (b ≡ false → c ≡ false)
    → (x ≡ true → y ≡ true)
    → (u ≡ true → v ≡ true)
    → (y ≡ true → v ≡ true)
    → (if b then x else u) ≡ true
    → (if c then y else v) ≡ true
fewer_one b c x y u v f g k l h = ground arith

pub both :
    (a b c d : Bool)
    → (a ≡ true → c ≡ true)
    → (b ≡ true → d ≡ true)
    → (a && b) ≡ true
    → (c && d) ≡ true
both a b c d f g h = ground arith

pub ids-expire : (now : ℕ) (ss : List Session) → ids (map (expire_one now) ss) ≡ ids ss
ids-expire now [] = refl
ids-expire now (s ∷ ss) =
    ap (λ (x : String). x ∷ ids (map (expire_one now) ss)) (expire_one-id now s)
    ∙ ap (λ (xs : List String). s.id ∷ xs) (ids-expire now ss)

all_false-expire :
    (now : ℕ) (ss : List Session)
    → all_false (flags ss) ≡ true
    → all_false (flags (map (expire_one now) ss)) ≡ true
all_false-expire now [] h = refl
all_false-expire now (s ∷ ss) h =
    fewer (is_active s) (is_active (expire_one now s)) _ _ (expire_one-active now s)
      (all_false-expire now ss) h

at_most_one-expire :
    (now : ℕ) (ss : List Session)
    → at_most_one (flags ss) ≡ true
    → at_most_one (flags (map (expire_one now) ss)) ≡ true
at_most_one-expire now [] h = refl
at_most_one-expire now (s ∷ ss) h =
    fewer_one (is_active s) (is_active (expire_one now s)) _ _ _ _ (expire_one-active now s)
      (all_false-expire now ss) (at_most_one-expire now ss)
      (all_false-one (flags (map (expire_one now) ss))) h

pub is_single-expire :
    (now : ℕ) (r : Sessions)
    → is_single r.sessions ≡ true
    → is_single (expire_sessions now r).sessions ≡ true
unfolding expire_sessions
is_single-expire now r h =
    both (distinct (ids r.sessions)) _ _ _
      (λ e. ap (λ xs. distinct xs) (ids-expire now r.sessions) ∙ e)
      (at_most_one-expire now r.sessions) h

pub and_left : (a b : Bool) → (a && b) ≡ true → a ≡ true
and_left a b h = ground arith

pub and_true : {a b : Bool} → a ≡ true → b ≡ true → (a && b) ≡ true
and_true h k = ground arith
