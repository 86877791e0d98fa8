-- ===== src/Jobs/Table/Updates.antt =====
-- When an UPDATE of the table `jobs` meets no unique index.
use autonomous_dev_platform.Base.{
  Bool, true, false, ◌≡◌, refl, if◌then◌else◌, [], ◌∷◌, any, arith, ◌||◌, ◌&&◌, Bool-cases, inl,
  inr,
}
use autonomous_dev_platform.Jobs.Table.{
  Job, Table, is_active_job, clash, violates_index, update_rows, updated_rows, update, written,
}

-- `b` is `a` with the columns of the unique indexes as they were, and not active anew.
pub record Calm (a b : Job) : Type 0 where
  pub id : b.id ≡ a.id
  pub project_id : b.project_id ≡ a.project_id
  pub key : b.idempotency_key ≡ a.idempotency_key
  pub inactive : is_active_job a ≡ false → is_active_job b ≡ false

still_apart :
    (p x y x' y' q : Bool)
    → (x ≡ false → x' ≡ false)
    → (y ≡ false → y' ≡ false)
    → p || (x && y) && q ≡ false
    → p || (x' && y') && q ≡ false
still_apart true x y x' y' q f g h = cc
still_apart false false y x' y' q f g h = rw (f refl)
still_apart false true false x' y' q f g h = ground (arith, g refl)
still_apart false true true x' y' true f g h = cc
still_apart false true true x' y' false f g h = ground arith

clash-Calm : (a b a' b' : Job) → Calm a a' → Calm b b' → clash a b ≡ false → clash a' b' ≡ false
clash-Calm a b a' b' c d h =
    rw (c.id, d.id, c.project_id, d.project_id, c.key, d.key)
      (still_apart _ _ _ _ _ _ c.inactive d.inactive h)

Calm-refl : (j : Job) → Calm j j
Calm-refl j = record { id = refl; project_id = refl; key = refl; inactive = λ h. h }

module _ (cond : Job → Bool) (set : Job → Job)
    (c : (j : Job) → cond j ≡ true → Calm j (set j)) where
  Calm-step : (j : Job) → Calm j (if cond j then set j else j)
  Calm-step j = elim (Bool-cases (cond j)) [ inl e ↦ rw e (c j e) | inr e ↦ rw e (Calm-refl j) ]

  any_update :
      (j : Job) (t : Table)
      → any (clash j) t ≡ false
      → any (clash (if cond j then set j else j)) (update_rows cond set t) ≡ false
  unfolding update_rows
  any_update j [] h = refl
  any_update j (k ∷ t) h =
      ground (arith, clash-Calm j k _ _ (Calm-step j) (Calm-step k), any_update j t)

  pub update_rows_indexes :
      (t : Table) → violates_index t ≡ false → violates_index (update_rows cond set t) ≡ false
  unfolding update_rows violates_index
  update_rows_indexes [] h = refl
  update_rows_indexes (j ∷ t) h = ground (arith, any_update j t, update_rows_indexes t)

  -- Such an UPDATE is never refused.
  pub update_written :
      (t : Table)
      → violates_index t ≡ false
      → update cond set t ≡ written (updated_rows cond set t) (update_rows cond set t)
  unfolding update
  update_written t h = rw (update_rows_indexes t h)
