-- ===== src/Orchestrator/Rounds.antt =====
-- The loop over a project's stages ends.
use autonomous_dev_platform.Base.{
  ℕ, zero, suc, ◌+◌, ◌-◌, ◌*◌, ◌≤◌, ◌<◌, Bool, true, false, not, ◌&&◌, ◌||◌, Option, some, ltb,
  if◌then◌else◌, ◌≡◌, refl, ap, ◌∙◌, sym, subst, ◌⊎◌, inl, inr, arith,
}
use autonomous_dev_platform.States.{
  ProjectState, same_state, is_owner_terminal, legal_targets, is_legal_transition, failed,
  state_name,
}
use autonomous_dev_platform.Errors.{Thrown, ErrorRecord, to_error_record}
use autonomous_dev_platform.Project.{Project}
use autonomous_dev_platform.Orchestrator.Operations.{fail_operation}
use autonomous_dev_platform.Orchestrator.Transition.{
  Result, ok, raised, stored, transition, transition_legal, fail_project, with_failure, is_started,
}
use autonomous_dev_platform.Orchestrator.Dispatch.{
  Stages, round_by, too_many, run_rounds, after_round,
}

-- How far the autonomous work is, within an iteration.
abbrev pub rank : ProjectState → ℕ
rank ProjectState.owner_changes_requested = 0
rank ProjectState.idea_submitted = 1
rank ProjectState.council_discovery = 2
rank ProjectState.specification_ready = 3
rank ProjectState.project_provisioning = 4
rank ProjectState.cursor_executing = 5
rank ProjectState.platform_verification = 6
rank ProjectState.runtime_verification = 7
rank ProjectState.visual_verification = 8
rank ProjectState.council_review = 9
rank ProjectState.final_verification = 10
rank ProjectState.delivery_preparation = 11
rank ProjectState.ready_for_owner_review = 12
rank ProjectState.owner_approved = 13
rank ProjectState.done = 14
rank ProjectState.failed = 15

-- The work is over for the platform: the owner has it, or it failed.
abbrev pub is_over : ProjectState → Bool
is_over s = is_owner_terminal s || same_state s failed

-- A stage goes ahead within the iteration, or starts a later one.
abbrev pub Advances : Project → Project → Type 0
Advances p q =
    ((rank p.state < rank q.state) × (q.iteration ≡ p.iteration)) ⊎ (p.iteration < q.iteration)

-- The rounds that may be left.
abbrev rounds_left : ℕ → Project → ℕ
rounds_left max p = 16 * (suc max - p.iteration) + (16 - rank p.state)

rank_bound : (s : ProjectState) → rank s < 16
rank_bound ProjectState.idea_submitted = omega arith
rank_bound ProjectState.council_discovery = omega arith
rank_bound ProjectState.specification_ready = omega arith
rank_bound ProjectState.project_provisioning = omega arith
rank_bound ProjectState.cursor_executing = omega arith
rank_bound ProjectState.platform_verification = omega arith
rank_bound ProjectState.runtime_verification = omega arith
rank_bound ProjectState.visual_verification = omega arith
rank_bound ProjectState.council_review = omega arith
rank_bound ProjectState.final_verification = omega arith
rank_bound ProjectState.delivery_preparation = omega arith
rank_bound ProjectState.ready_for_owner_review = omega arith
rank_bound ProjectState.owner_changes_requested = omega arith
rank_bound ProjectState.owner_approved = omega arith
rank_bound ProjectState.done = omega arith
rank_bound ProjectState.failed = omega arith

rounds_decrease :
    (max : ℕ) (p q : Project)
    → p.iteration ≤ max
    → Advances p q
    → rounds_left max q < rounds_left max p
rounds_decrease max p q le (inl (r, i)) = omega (arith, rank_bound q.state)
rounds_decrease max p q le (inr i) = omega (arith, rank_bound q.state, rank_bound p.state)

failure_follows :
    (s : ProjectState)
    → (not (same_state s failed) && not (is_owner_terminal s)) ≡ true
    → is_legal_transition s failed ≡ true
unfolding is_legal_transition legal_targets is_owner_terminal
failure_follows ProjectState.idea_submitted h = refl
failure_follows ProjectState.council_discovery h = refl
failure_follows ProjectState.specification_ready h = refl
failure_follows ProjectState.project_provisioning h = refl
failure_follows ProjectState.cursor_executing h = refl
failure_follows ProjectState.platform_verification h = refl
failure_follows ProjectState.runtime_verification h = refl
failure_follows ProjectState.visual_verification h = refl
failure_follows ProjectState.council_review h = refl
failure_follows ProjectState.final_verification h = refl
failure_follows ProjectState.delivery_preparation h = refl
failure_follows ProjectState.ready_for_owner_review h = cc
failure_follows ProjectState.owner_changes_requested h = refl
failure_follows ProjectState.owner_approved h = cc
failure_follows ProjectState.done h = cc
failure_follows ProjectState.failed h = cc

same_if :
    (b : Bool) (x y : Project) (s : ProjectState)
    → x.state ≡ s
    → y.state ≡ s
    → (if b then x else y).state ≡ s
same_if true x y s h k = h
same_if false x y s h k = k

failure_state : (e : ErrorRecord) (p : Project) → (with_failure e p).state ≡ p.state
unfolding with_failure fail_operation
failure_state e p = same_if (is_started p.checkpoint) _ _ p.state refl refl

over_parts : (f t : Bool) → (not f && not t) ≡ false → (t || f) ≡ true
over_parts f t h = ground arith

over_if :
    (b : Bool) (p q : Project)
    → (not (same_state p.state failed) && not (is_owner_terminal p.state)) ≡ b
    → q.state ≡ p.state
    → is_over (stored (if b then transition p q failed else ok q)).state ≡ true
unfolding is_owner_terminal
over_if true p q h e =
    subst (λ r. is_over (stored r).state ≡ true)
      (sym (
        transition_legal p q failed
          (ap (λ s. is_legal_transition s failed) e ∙ failure_follows p.state h)))
      refl
over_if false p q h e =
    ap is_over e ∙ over_parts (same_state p.state failed) (is_owner_terminal p.state) h

-- `fail` leaves a project that is over.
fail_over : (e : Thrown) (p : Project) → is_over (stored (fail_project e p)).state ≡ true
unfolding fail_project
fail_over e p =
    over_if (not (same_state p.state failed) && not (is_owner_terminal p.state)) p
      (with_failure (to_error_record e (some (state_name p.state))) p) refl
      (failure_state (to_error_record e (some (state_name p.state))) p)

abbrev Over : Option Result → Type 0
Over o = (r : Result) × (o ≡ some r) × (is_over (stored r).state ≡ true)

module _ (h : Stages) (max : ℕ)
    (advances : (p q : Project)
      → p.iteration ≤ max
      → round_by h p.state p ≡ ok q
      → Advances p q) where
  after_round-Over :
      (fuel : ℕ) (p : Project) (r : Result)
      → p.iteration ≤ max
      → round_by h p.state p ≡ r
      → rounds_left max p ≤ fuel
      → ((q : Project) → rounds_left max q < fuel → Over (run_rounds h max fuel q))
      → Over (after_round r (run_rounds h max fuel))
  unfolding after_round
  after_round-Over fuel p (raised q e) le eq left go = (fail_project e q, refl, fail_over e q)
  after_round-Over fuel p (ok q) le eq left go =
      go q (omega (arith, rounds_decrease max p q le (advances p q le eq)))

  round_if :
      (over exceeded : Bool) (p : Project) (rest : Option Result)
      → is_over p.state ≡ over
      → ltb max p.iteration ≡ exceeded
      → (exceeded ≡ false → Over rest)
      → Over (
          if over
          then some (ok p)
          else if exceeded
          then some (fail_project (too_many p) p)
          else rest)
  round_if true exceeded p rest e x k = (ok p, refl, e)
  round_if false true p rest e x k = (fail_project (too_many p) p, refl, fail_over (too_many p) p)
  round_if false false p rest e x k = k refl

  not_exceeded : (p : Project) → ltb max p.iteration ≡ false → p.iteration ≤ max
  not_exceeded p e = ground arith

  run-Over : (fuel : ℕ) (p : Project) → rounds_left max p < fuel → Over (run_rounds h max fuel p)
  unfolding run_rounds
  run-Over zero p left = absurd (omega arith)
  run-Over (suc fuel) p left = round_if (is_over p.state) (ltb max p.iteration) p _ refl refl (λ x.
      after_round-Over fuel p (round_by h p.state p) (not_exceeded p x) refl (omega arith)
        (λ q l. run-Over fuel q l))

  -- If every stage that ends without an error goes ahead within the iteration or starts a later one,
  -- the loop ends within `16 * (max + 3)` rounds, and leaves a project that is failed or in a state
  -- that is the owner's.
  run_terminates :
      (fuel : ℕ) (p : Project)
      → 16 * (max + 3) ≤ fuel
      → (r : Result) × (run_rounds h max fuel p ≡ some r) × (is_over (stored r).state ≡ true)
  run_terminates fuel p enough = run-Over fuel p (omega (arith, rank_bound p.state))
