-- ===== src/Orchestrator/Release.antt =====
-- `finishFinal`, `enterDeliveryPreparation` and `finishDelivery` of orchestrator/orchestrator.js: the
-- way from the final verification to the owner's review.
use autonomous_dev_platform.Base.{
  ℕ, Bool, true, false, not, Option, none, some, String, List, [], ◌∷◌, ◌++◌, eqb, length, or_else,
  if◌then◌else◌,
}
use autonomous_dev_platform.States.{delivery_preparation, ready_for_owner_review, same_state}
use autonomous_dev_platform.Errors.{
  Thrown, platform_error, known, completion_gate_rejected, chair_failure, to_error_record,
}
use autonomous_dev_platform.Project.{Project, Final}
use autonomous_dev_platform.Gate.Completion.{
  Verdict, can_complete_autonomous_work, can_enter_owner_review, final_decides,
}
use autonomous_dev_platform.Orchestrator.Operations.{
  begin_operation, complete_operation, fail_operation,
}
use autonomous_dev_platform.Orchestrator.Transition.{Result, ok, raised, next, transition}
use autonomous_dev_platform.Orchestrator.World.{World, Answer, answered, refused, wrapped}
use autonomous_dev_platform.Orchestrator.Implementation.{request_cursor_run}

unfoldable pub gate_error : String → Thrown
unfolding platform_error
gate_error phase = platform_error (some (known completion_gate_rejected)) (some phase) (some true)

-- `canEnterOwnerReview` with the orchestrator's settings.
unfoldable pub owner_gate : World → Project → Verdict
unfolding can_enter_owner_review
owner_gate w p =
    can_enter_owner_review w.environment (w.pending_revocation p) w.max_iterations w.sha256 p

unfoldable pub completion_gate : World → Project → Verdict
unfolding can_complete_autonomous_work
completion_gate w p =
    can_complete_autonomous_work w.environment (w.pending_revocation p) w.max_iterations p

abbrev pub leveled : Verdict → Project → Project
leveled gate p = record p { verification_level = gate.verification_level }

-- The step into the owner's review; a project that is there already is only saved.
unfoldable pub notified : Project → Project → Option Thrown → Result
unfolding transition
notified saved q (some error) = raised saved error
notified saved q none =
    if not (same_state q.state ready_for_owner_review)
    then transition saved q ready_for_owner_review
    else ok q

unfoldable pub prepared : World → Project → Answer Project → Result
unfolding owner_gate notified gate_error
prepared w saved (refused error) = raised saved error
prepared w saved (answered q) =
    if not (owner_gate w q).ok
    then raised saved (gate_error "DELIVERY_PREPARATION")
    else notified saved (leveled (owner_gate w q) q) (w.notify (leveled (owner_gate w q) q))

unfoldable pub finish_delivery : World → Project → Project → Result
unfolding prepared
finish_delivery w saved p = prepared w saved (w.prepare_delivery p)

unfoldable pub enter_delivery_preparation : World → Project → Project → Result
unfolding completion_gate finish_delivery transition gate_error
enter_delivery_preparation w saved p =
    if not (completion_gate w p).ok
    then raised saved (gate_error "FINAL_VERIFICATION")
    else if not (same_state p.state delivery_preparation)
    then next (transition saved p delivery_preparation) (λ q. finish_delivery w q q)
    else finish_delivery w saved p

abbrev cursor_count : Option Final → Option ℕ
cursor_count none = none
cursor_count (some f) = f.cursor_count

abbrev counts_runs : Option ℕ → ℕ → Bool
counts_runs none n = false
counts_runs (some m) n = eqb m n

abbrev with_final : Option Final → Project → Project
with_final f p = record p { council = record p.council { final = f } }

-- The final verification, unless one of the same Cursor runs is there.
unfoldable pub verified_final : World → Project → Result
unfolding begin_operation complete_operation fail_operation to_error_record wrapped
verified_final w p =
    if counts_runs (cursor_count p.council.final) (length p.cursor_runs)
    then ok p
    else let id = w.new_id p in
      let started = begin_operation id "final_verification" p in
      elim (w.final_verify started) [
        | answered decision ↦ ok (
            complete_operation (some id) (
              with_final
                (some record { decision = decision; cursor_count = some (length p.cursor_runs) })
                started))
        | refused error ↦
            raised
              (fail_operation (some id) (to_error_record error (some "FINAL_VERIFICATION")) started)
              (wrapped error chair_failure "FINAL_VERIFICATION")
      ]

abbrev next_prompt : Option Final → Option String
next_prompt none = none
next_prompt (some f) = elim f.decision [ none ↦ none | some d ↦ d.next_cursor_prompt ]

abbrev listed : Option Final → List Final
listed none = []
listed (some f) = f ∷ []

-- The final verification is put aside, and its findings are worked on.
abbrev pub reopened : Project → Project
reopened p = record p {
  council = record p.council {
    final = none;
    final_history = p.council.final_history ++ listed p.council.final;
  };
}

unfoldable pub after_final : World → Option (Project → Result) → Project → Result
unfolding request_cursor_run enter_delivery_preparation
after_final w execute p =
    if final_decides p.council.final "CHANGES_REQUIRED"
    then request_cursor_run w execute p (reopened p) true
        (or_else (next_prompt p.council.final) (some (w.prompt_from_blockers p)))
    else enter_delivery_preparation w p p

unfoldable pub finish_final : World → Option (Project → Result) → Project → Result
unfolding verified_final after_final
finish_final w execute p = next (verified_final w p) (after_final w execute)
