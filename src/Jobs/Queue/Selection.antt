-- ===== src/Jobs/Queue/Selection.antt =====
-- Which row the SELECT of `claim` picks.
use mathlib.Core.List.{Memᴰ}
use mathlib.Core.Bool.{false≢true}
use autonomous_dev_platform.Base.{
  ℕ, Bool, true, false, ◌≡◌, refl, List, [], ◌∷◌, arith, String, Bool-cases, Option-cases, inl, inr,
  Option, none, some, sym, ap, ◌∙◌, subst, ◌⊎◌, ◌≤◌, ◌<◌,
}
use autonomous_dev_platform.Jobs.Table.{Job, Table}
use autonomous_dev_platform.Jobs.Queue.Claim.{
  claimable, contains_all, first_claimable, goes_before, prefer,
}
use autonomous_dev_platform.Jobs.Kinds.{queued}

not_before_trans :
    (a b c : Job) → goes_before a b ≡ false → goes_before b c ≡ false → goes_before a c ≡ false
not_before_trans a b c h k = ground arith

before_asym : (a b : Job) → goes_before a b ≡ true → goes_before b a ≡ false
before_asym a b h = ground arith

not_before_refl : (a : Job) → goes_before a a ≡ false
not_before_refl a = ground arith

prefer_head :
    (x j : Job) (rest : Option Job) → prefer true x rest ≡ some j → goes_before x j ≡ false
prefer_head x j none h = ground (arith, not_before_refl x)
prefer_head x j (some best) h = ground (arith, not_before_refl x, before_asym best x)

prefer_tail :
    (passes : Bool) (x j k best : Job)
    → goes_before k best ≡ false
    → prefer passes x (some best) ≡ some j
    → goes_before k j ≡ false
prefer_tail passes x j k best b h = ground (arith, not_before_trans k best x b)

prefer_sound :
    (P : Job → Type 0) (passes : Bool) (x j : Job) (rest : Option Job)
    → (passes ≡ true → P x)
    → ((best : Job) → rest ≡ some best → P best)
    → prefer passes x rest ≡ some j
    → P j
prefer_sound P true x j none f g h = subst P (ground arith) (f refl)
prefer_sound P false x j none f g h = cc
prefer_sound P true x j (some best) f g h = elim (Bool-cases (goes_before best x)) [
  | inl b ↦ subst P (ground arith) (g best refl)
  | inr b ↦ subst P (ground arith) (f refl)
]
prefer_sound P false x j (some best) f g h = subst P (ground arith) (g best refl)

-- The order of the rows, by their numbers.
in_order :
    (k j : Job)
    → goes_before k j ≡ false
    → (j.priority < k.priority) ⊎ ((j.priority ≡ k.priority) × (j.created_at ≤ k.created_at))
in_order k j h = ground arith

passes_tests :
    (locked : String → Bool) (now : ℕ) (caps : List String) (k : Job)
    → k.status ≡ queued
    → k.available_at ≤ now
    → contains_all caps k.required_capabilities ≡ true
    → locked k.id ≡ false
    → claimable locked now caps k ≡ true
passes_tests locked now caps k s a c l = rw (s, c, l) (ground arith)

module _ (locked : String → Bool) (now : ℕ) (caps : List String) where
  pub first_claimable_sound :
      (t : Table) (j : Job)
      → first_claimable locked now caps t ≡ some j
      → (claimable locked now caps j ≡ true) × Memᴰ j t
  unfolding first_claimable
  first_claimable_sound [] j h = cc
  first_claimable_sound (x ∷ t) j h =
      prefer_sound (λ k. (claimable locked now caps k ≡ true) × Memᴰ k (x ∷ t)) _ x j
        (first_claimable locked now caps t) (λ c. (c, Memᴰ.head refl))
        (λ best e. let (c, m) = first_claimable_sound t best e in (c, Memᴰ.tail m)) h

  -- If some row can be claimed, one is found.
  pub first_claimable-none :
      (t : Table) (k : Job)
      → first_claimable locked now caps t ≡ none
      → Memᴰ k t
      → claimable locked now caps k ≡ false
  unfolding first_claimable
  first_claimable-none [] k h m = elim m [ ]
  first_claimable-none (x ∷ t) k h (Memᴰ.head e) = rw e (ground arith)
  first_claimable-none (x ∷ t) k h (Memᴰ.tail m) = first_claimable-none t k (ground arith) m

  first_in_order :
      (t : Table) (j k : Job)
      → first_claimable locked now caps t ≡ some j
      → Memᴰ k t
      → claimable locked now caps k ≡ true
      → goes_before k j ≡ false
  unfolding first_claimable
  first_in_order [] j k h m c = elim m [ ]
  first_in_order (x ∷ t) j k h (Memᴰ.head e) c =
      rw e (prefer_head x j (first_claimable locked now caps t) (rw (← c, e) h))
  first_in_order (x ∷ t) j k h (Memᴰ.tail m) c =
      elim (Option-cases (first_claimable locked now caps t)) [
        | inl e ↦ absurd (false≢true (sym (first_claimable-none t k e m) ∙ c))
        | inr (best, e) ↦
            prefer_tail (claimable locked now caps x) x j k best (first_in_order t best k e m c)
              (ap (prefer (claimable locked now caps x) x) (sym e) ∙ h)
      ]

  -- Of the queued rows that are available, ask for no capability that the worker lacks and are not
  -- locked, the one that is found has the smallest priority, and is the oldest of that priority.
  pub first_claimable_first :
      (t : Table) (j k : Job)
      → first_claimable locked now caps t ≡ some j
      → Memᴰ k t
      → k.status ≡ queued
      → k.available_at ≤ now
      → contains_all caps k.required_capabilities ≡ true
      → locked k.id ≡ false
      → (j.priority < k.priority) ⊎ ((j.priority ≡ k.priority) × (j.created_at ≤ k.created_at))
  first_claimable_first t j k h m s a c l =
      in_order k j (first_in_order t j k h m (passes_tests locked now caps k s a c l))
