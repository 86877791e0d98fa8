-- ===== src/Delivery/Sessions/Reopened.antt =====
-- A session that is used again stays where it stands.
use autonomous_dev_platform.Base.{
  ℕ, Bool, true, false, not, ◌&&◌, ◌||◌, Option, some, String, List, [], ◌∷◌, ◌≡◌, refl, sym, ap,
  ◌∙◌, ◌==◌, ◌⊎◌, eq_iff, arith, if◌then◌else◌, inl, inr, Bool-cases, find, includes, some_inj, leb,
  map, none≢some, subst,
}
use autonomous_dev_platform.Delivery.Sessions.{Session, is_active, change_session, expire_one}
use autonomous_dev_platform.Delivery.Sessions.Single.{flags, ids, distinct}

-- The first session that satisfies a test, at the head or behind it.
found_if :
    (b : Bool) (x : Session) (o : Option Session) (s : Session)
    → (if b then some x else o) ≡ some s
    → ((b ≡ true) × (x ≡ s)) ⊎ ((b ≡ false) × (o ≡ some s))
found_if true x o s h = inl (refl, some_inj h)
found_if false x o s h = inr (refl, h)

-- What a change at the head, or behind it, keeps.
ids_if :
    (b : Bool) (x t : Session) (xs rest : List Session)
    → (b ≡ true → x.id ≡ t.id)
    → ids rest ≡ ids xs
    → ids (if b then t ∷ xs else x ∷ rest) ≡ x.id ∷ ids xs
ids_if true x t xs rest h k = ap (λ (a : String). a ∷ ids xs) (sym (h refl))
ids_if false x t xs rest h k = ap (λ (ys : List String). x.id ∷ ys) k

flags_here :
    (b : Bool) (x t : Session) (xs rest : List Session)
    → b ≡ true
    → is_active t ≡ is_active x
    → flags (if b then t ∷ xs else x ∷ rest) ≡ is_active x ∷ flags xs
flags_here true x t xs rest e k = ap (λ (a : Bool). a ∷ flags xs) k
flags_here false x t xs rest e k = cc

flags_later :
    (b : Bool) (x t : Session) (xs rest : List Session)
    → b ≡ false
    → flags rest ≡ flags xs
    → flags (if b then t ∷ xs else x ∷ rest) ≡ is_active x ∷ flags xs
flags_later true x t xs rest e k = cc
flags_later false x t xs rest e k = ap (λ (ys : List Bool). is_active x ∷ ys) k

or_true : (a b : Bool) → (a ≡ true) ⊎ (b ≡ true) → (a || b) ≡ true
or_true a b h = ground arith

tail_distinct : (a b : Bool) → (not a && b) ≡ true → b ≡ true
tail_distinct a b h = ground arith

clash : (a b : Bool) → a ≡ true → (not a && b) ≡ true → ⊥
clash a b h k = ground arith

same_ids : (a b : String) → a ≡ b → (a == b) ≡ true
same_ids a b e = ground (arith, eq_iff a b)

apart :
    (a b : String) (xs : List String)
    → includes b xs ≡ true
    → distinct (a ∷ xs) ≡ true
    → (a == b) ≡ false
apart a b xs h u = elim (Bool-cases (a == b)) [
  | inl e ↦
      let p = subst (λ c. includes c xs ≡ true) (sym ((eq_iff a b).0 e)) h in
      absurd (clash (includes a xs) (distinct xs) p u)
  | inr e ↦ e
]

module _ (p : Session → Bool) (s t : Session) (same : t.id ≡ s.id) where
  find-includes : (xs : List Session) → find p xs ≡ some s → includes t.id (ids xs) ≡ true
  find-includes [] h = absurd (none≢some h)
  find-includes (x ∷ xs) h = elim (found_if (p x) x (find p xs) s h) [
    | inl e ↦
        or_true (x.id == t.id) _
          (inl (same_ids x.id t.id (ap (λ (y : Session). y.id) e.1 ∙ sym same)))
    | inr e ↦ or_true (x.id == t.id) _ (inr (find-includes xs e.1))
  ]

  pub reopened_flags :
      (xs : List Session)
      → find p xs ≡ some s
      → distinct (ids xs) ≡ true
      → is_active t ≡ is_active s
      → flags (change_session t.id (λ _. t) xs) ≡ flags xs
  reopened_flags [] h u k = refl
  reopened_flags (x ∷ xs) h u k = elim (found_if (p x) x (find p xs) s h) [
    | inl e ↦
        flags_here (x.id == t.id) x t xs _
          (same_ids x.id t.id (ap (λ (y : Session). y.id) e.1 ∙ sym same))
          (k ∙ ap is_active (sym e.1))
    | inr e ↦
        flags_later (x.id == t.id) x t xs _ (apart x.id t.id (ids xs) (find-includes xs e.1) u)
          (reopened_flags xs e.1 (tail_distinct (includes x.id (ids xs)) _ u) k)
  ]

pub reopened_ids :
    (t : Session) (xs : List Session) → ids (change_session t.id (λ _. t) xs) ≡ ids xs
reopened_ids t [] = refl
reopened_ids t (x ∷ xs) =
    ids_if (x.id == t.id) x t xs _ (λ e. (eq_iff x.id t.id).0 e) (reopened_ids t xs)

not_over :
    (now : ℕ) (x : Session)
    → is_active (expire_one now x) ≡ true
    → leb (expire_one now x).expires_at now ≡ false
not_over now x h = ground arith

-- A session that is open after the others were ended has not run out.
pub find-expire :
    (now : ℕ) (p : Session → Bool) (ss : List Session) (s : Session)
    → find p (map (expire_one now) ss) ≡ some s
    → is_active s ≡ true
    → leb s.expires_at now ≡ false
find-expire now p [] s h k = absurd (none≢some h)
find-expire now p (x ∷ ss) s h k = elim (found_if (p (expire_one now x)) (expire_one now x) _ s h) [
  | inl e ↦
      subst (λ (y : Session). leb y.expires_at now ≡ false) e.1
        (not_over now x (ap is_active e.1 ∙ k))
  | inr e ↦ find-expire now p ss s e.1 k
]
