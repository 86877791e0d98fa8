-- ===== src/Providers/Attempts.antt =====
-- How a repeated call ends, and how long it waits.
use autonomous_dev_platform.Base.{
  ℕ, zero, suc, ◌+◌, ◌≤◌, ◌<◌, Bool, true, false, not, ◌&&◌, ◌||◌, ◌≡◌, refl, sym, ap, ◌∙◌, inl,
  inr, Bool-cases, subst, ltb, eqb, if◌then◌else◌, arith,
}
use autonomous_dev_platform.Providers.Classify.{classify_provider_error}
use autonomous_dev_platform.Providers.Retry.{
  Attempt, answered, failed, Ending, returned, thrown, Called, RetryPolicy, after_attempt,
  attempt_from, with_retry, wait_after, ended, after_wait,
}

-- A failure that may pass.
abbrev pub may_pass {ℓ} : {A : Type ℓ} → Attempt A → Bool
may_pass (answered a) = false
may_pass (failed e) = (classify_provider_error e).retryable

-- The end of a call that stops at an attempt.
abbrev pub ending_of {ℓ} : {A : Type ℓ} → Attempt A → Ending A
ending_of (answered a) = returned a
ending_of (failed e) = thrown e (classify_provider_error e).status

-- A call that is made from an attempt on and stops at attempt k, counted from 0: the earlier ones
-- failed in a way that may pass, and this one did not, or was the last that the policy grants.
abbrev pub StopsAt {ℓ} : {A : Type ℓ} → (ℕ → Attempt A) → RetryPolicy → ℕ → ℕ → Called A → Type ℓ
StopsAt operation policy from k c =
    (from ≤ k)
    × (k ≤ policy.max_retries)
    × ((j : ℕ) → from ≤ j → j < k → may_pass (operation (suc j)) ≡ true)
    × ((may_pass (operation (suc k)) && ltb k policy.max_retries) ≡ false)
    × (c.attempts ≡ suc k)
    × (c.ending ≡ ending_of (operation (suc k)))

equal : (a j : ℕ) → eqb a j ≡ true → a ≡ j
equal a j e = ground arith

later_le : (a j : ℕ) → a ≤ j → eqb a j ≡ false → suc a ≤ j
later_le a j le e = ground arith

from_here {ℓ} : (P : ℕ → Type ℓ) (a j : ℕ) → a ≤ j → P a → (suc a ≤ j → P j) → P j
from_here P a j le here later = elim (Bool-cases (eqb a j)) [
  | inl e ↦ subst P (equal a j e) here
  | inr e ↦ later (later_le a j le e)
]

give_up : (r : Bool) (a m : ℕ) → a ≤ m → (r && ltb a m) ≡ false → (not r || eqb a m) ≡ true
give_up r a m le h = ground arith

go_on : (r : Bool) (a m : ℕ) → (r && ltb a m) ≡ true → (not r || eqb a m) ≡ false
go_on r a m h = ground arith

below : (r : Bool) (a m : ℕ) → (r && ltb a m) ≡ true → suc a ≤ m
below r a m h = ground arith

passing : (r b : Bool) → (r && b) ≡ true → r ≡ true
passing r b h = ground arith

module _ {ℓ} {A : Type ℓ} (operation : ℕ → Attempt A) (policy : RetryPolicy) (jitter : ℕ → ℕ) where
  stops_here :
      (attempt : ℕ) (o : Attempt A) (rest : Called A)
      → operation (suc attempt) ≡ o
      → attempt ≤ policy.max_retries
      → (may_pass o && ltb attempt policy.max_retries) ≡ false
      → StopsAt operation policy attempt attempt
          (after_attempt policy (wait_after policy jitter attempt) attempt o rest)
  stops_here attempt (answered a) rest e le h =
      (omega arith, le, λ j p q. absurd (omega arith), rw e refl, refl, ap ending_of (sym e))
  stops_here attempt (failed f) rest e le h =
      let g = give_up (classify_provider_error f).retryable attempt policy.max_retries le h in
      let wait = wait_after policy jitter attempt in
      let c = λ (b : Bool).
        if b
        then ended (thrown f (classify_provider_error f).status) (suc attempt)
        else after_wait wait rest in
      (
        omega arith,
        le,
        λ j p q. absurd (omega arith),
        rw e h,
        ap (λ b. (c b).attempts) g,
        ap (λ b. (c b).ending) g ∙ ap ending_of (sym e),
      )

  stops_later :
      (attempt k : ℕ) (o : Attempt A) (rest : Called A)
      → operation (suc attempt) ≡ o
      → (may_pass o && ltb attempt policy.max_retries) ≡ true
      → StopsAt operation policy (suc attempt) k rest
      → StopsAt operation policy attempt k
          (after_attempt policy (wait_after policy jitter attempt) attempt o rest)
  stops_later attempt k (answered a) rest e h s = cc
  stops_later attempt k (failed f) rest e h (le, last, earlier, stop, attempts, ending) =
      let g = go_on (classify_provider_error f).retryable attempt policy.max_retries h in
      let wait = wait_after policy jitter attempt in
      let c = λ (b : Bool).
        if b
        then ended (thrown f (classify_provider_error f).status) (suc attempt)
        else after_wait wait rest in
      (
        omega arith,
        last,
        λ j p q.
            from_here (λ i. may_pass (operation (suc i)) ≡ true) attempt j p
              (rw e (passing (classify_provider_error f).retryable _ h)) (λ r. earlier j r q),
        stop,
        ap (λ b. (c b).attempts) g ∙ attempts,
        ap (λ b. (c b).ending) g ∙ ending,
      )

  attempt_from-StopsAt :
      (fuel attempt : ℕ)
      → fuel + attempt ≡ suc policy.max_retries
      → attempt ≤ policy.max_retries
      → (k : ℕ) × StopsAt operation policy attempt k
          (attempt_from operation policy jitter fuel attempt)
  unfolding attempt_from
  attempt_from-StopsAt zero attempt e le = absurd (omega arith)
  attempt_from-StopsAt (suc fuel) attempt e le =
      elim (Bool-cases (may_pass (operation (suc attempt)) && ltb attempt policy.max_retries)) [
        | inl h ↦
            let ih =
              attempt_from-StopsAt fuel (suc attempt) (omega arith)
                (below _ attempt policy.max_retries h) in
            (ih.0, stops_later attempt ih.0 (operation (suc attempt)) _ refl h ih.1)
        | inr h ↦ (attempt, stops_here attempt (operation (suc attempt)) _ refl le h)
      ]

  -- A repeated call ends at an attempt k of the `max_retries + 1` that the policy grants, with what
  -- that attempt came to, an answer or an error that is thrown: all attempts before it failed in a
  -- way that may pass, and it did not, or it is the last one. The loop never runs out of fuel.
  pub with_retry_terminates :
      (k : ℕ) × StopsAt operation policy 0 k (with_retry operation policy jitter)
  unfolding with_retry
  with_retry_terminates =
      attempt_from-StopsAt (suc policy.max_retries) 0 (omega arith) (omega arith)
