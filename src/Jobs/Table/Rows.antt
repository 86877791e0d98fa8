-- ===== src/Jobs/Table/Rows.antt =====
-- Rows of the table `jobs` by their identifiers, before and after an UPDATE.
use text.Mathlib.TextPositions.{eq_refl}
use mathlib.Core.List.{Memᴰ}
use autonomous_dev_platform.Base.{
  ◌&&◌, ◌||◌, subst, sym, ap, ◌∙◌, Bool, true, false, ◌≡◌, refl, ◌==◌, if◌then◌else◌, List, [], ◌∷◌,
  any, find, arith, eq_iff, String, Bool-cases, inl, inr, Option, none, some,
}
use autonomous_dev_platform.Jobs.Table.{
  Job, Table, clash, violates_index, update_rows, updated_rows,
}

abbrev pub has_id : String → Job → Bool
has_id id j = j.id == id

-- The row with an identifier.
abbrev pub row : String → Table → Option Job
row id = find (has_id id)

abbrev pub map_row : (Job → Job) → Option Job → Option Job
map_row f none = none
map_row f (some j) = some (f j)

abbrev pub apply_to : (Job → Bool) → (Job → Job) → Job → Job
apply_to cond set j = if cond j then set j else j

abbrev pub first : List Job → Option Job
first [] = none
first (j ∷ js) = some j

pub row-update_rows :
    (cond : Job → Bool) (set : Job → Job) (keeps : (j : Job) → (set j).id ≡ j.id) (id : String)
    (t : Table)
    → row id (update_rows cond set t) ≡ map_row (apply_to cond set) (row id t)
unfolding update_rows
row-update_rows cond set keeps id [] = refl
row-update_rows cond set keeps id (j ∷ t) =
    ground (arith, keeps j, row-update_rows cond set keeps id t)

pub first_updated :
    (cond : Job → Bool) (set : Job → Job) (t : Table)
    → first (updated_rows cond set t) ≡ map_row set (find cond t)
unfolding updated_rows
first_updated cond set [] = refl
first_updated cond set (j ∷ t) = ground (arith, first_updated cond set t)

-- No row of `t` shares its identifier with `j`.
apart_ids : (j k : Job) (t : Table) → any (clash j) t ≡ false → Memᴰ k t → (j.id == k.id) ≡ false
apart_ids j k [] h m = elim m [ ]
apart_ids j k (x ∷ t) h (Memᴰ.head e) = rw e (ground arith)
apart_ids j k (x ∷ t) h (Memᴰ.tail m) = ground (arith, apart_ids j k t)

-- A row of a table that obeys its primary key is found by its identifier.
pub row_of_mem : (k : Job) (t : Table) → violates_index t ≡ false → Memᴰ k t → row k.id t ≡ some k
unfolding violates_index
row_of_mem k [] h m = elim m [ ]
row_of_mem k (x ∷ t) h (Memᴰ.head e) = rw e (ground (arith, eq_refl x.id))
row_of_mem k (x ∷ t) h (Memᴰ.tail m) = ground (arith, apart_ids x k t, row_of_mem k t)

pub other_id : (a b c : String) → (a == c) ≡ true → (a == b) ≡ false → (b == c) ≡ false
other_id a b c e h = ground (arith, eq_iff a b, eq_iff b c, eq_iff a c)

pub apart : (j k : Job) → clash j k ≡ false → (j.id == k.id) ≡ false
apart j k h = ground arith

pub or_false_left : (a b : Bool) → (a || b) ≡ false → a ≡ false
or_false_left a b h = ground arith

pub or_false_right : (a b : Bool) → (a || b) ≡ false → b ≡ false
or_false_right a b h = ground arith

and_true : (b : Bool) → (b && true) ≡ b
and_true b = ground arith

always_true :
    (id : String) (set : Job → Job) (t : Table)
    → update_rows (has_id id) set t ≡ update_rows (λ k. has_id id k && true) set t
unfolding update_rows
always_true id set [] = refl
always_true id set (j ∷ t) = rw (and_true (j.id == id), always_true id set t)

third_differs : (a b c : String) → (a == c) ≡ true → (b == c) ≡ false → (a == b) ≡ false
third_differs a b c e h = ground (arith, eq_iff a b, eq_iff b c, eq_iff a c)

-- An UPDATE of one row by its identifier leaves the other rows.
pub row-update_other :
    (id id' : String) (set : Job → Job) (keeps : (j : Job) → (set j).id ≡ j.id) (t : Table)
    → (id == id') ≡ false
    → row id (update_rows (has_id id') set t) ≡ row id t
unfolding update_rows
row-update_other id id' set keeps [] h = refl
row-update_other id id' set keeps (j ∷ t) h = elim (Bool-cases (j.id == id')) [
  | inl e ↦ rw (e, keeps j, third_differs j.id id id' e h) (row-update_other id id' set keeps t h)
  | inr e ↦ rw (e, row-update_other id id' set keeps t h)
]

-- An UPDATE of one row by its identifier changes that row.
pub row-update_self :
    (id : String) (set : Job → Job) (keeps : (j : Job) → (set j).id ≡ j.id) (t : Table)
    → row id (update_rows (has_id id) set t) ≡ map_row set (row id t)
unfolding update_rows
row-update_self id set keeps [] = refl
row-update_self id set keeps (j ∷ t) = ground (arith, keeps j, row-update_self id set keeps t)

-- An UPDATE by an identifier that no row has changes nothing.
update_none :
    (id : String) (p : Job → Bool) (set : Job → Job) (j : Job) (t : Table)
    → (j.id == id) ≡ true
    → any (clash j) t ≡ false
    → update_rows (λ k. has_id id k && p k) set t ≡ t
unfolding update_rows
update_none id p set j [] e h = refl
update_none id p set j (k ∷ t) e h =
    let differs = other_id j.id k.id id e (apart j k (or_false_left _ _ h)) in
    let rest = update_none id p set j t e (or_false_right (clash j k) _ h) in rw (differs, rest)

-- Under the primary key, an UPDATE by identifier may as well test what holds of the row it changes.
pub update_tested :
    (id : String) (p : Job → Bool) (set : Job → Job) (r : Job) (t : Table)
    → violates_index t ≡ false
    → row id t ≡ some r
    → p r ≡ true
    → update_rows (has_id id) set t ≡ update_rows (λ k. has_id id k && p k) set t
unfolding update_rows violates_index
update_tested id p set r [] v e h = refl
update_tested id p set r (j ∷ t) v e h = elim (Bool-cases (j.id == id)) [
  | inl same ↦
      let is_r : j ≡ r = ground arith in
      let passes : p j ≡ true = subst (λ (k : Job). p k ≡ true) (sym is_r) h in
      rw (same, passes)
        (ap (λ (u : Table). set j ∷ u)
          (always_true id set t
            ∙ update_none id (λ k. true) set j t same (or_false_left _ _ v)
            ∙ sym (update_none id p set j t same (or_false_left _ _ v))))
  | inr differs ↦
      let rest : row id t ≡ some r = ground arith in
      rw differs
        (ap (λ (u : Table). j ∷ u) (update_tested id p set r t (or_false_right _ _ v) rest h))
]
