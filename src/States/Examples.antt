-- ===== src/States/Examples.antt =====
-- Paths through the state machine.
use autonomous_dev_platform.Base.{true, ◌≡◌, refl, List, [], ◌∷◌}
use autonomous_dev_platform.States.{
  ProjectState, is_legal_transition, is_owner_terminal, delivery_preparation,
  ready_for_owner_review, owner_approved, done, failed,
}
use autonomous_dev_platform.States.Graph

done_needs_approval_example :
    Graph.ends_approved
      (failed ∷ delivery_preparation ∷ ready_for_owner_review ∷ owner_approved ∷ done ∷ [])
    ≡ true
unfolding Graph.legal_trace is_owner_terminal is_legal_transition
done_needs_approval_example =
    Graph.done_needs_approval failed
      (delivery_preparation ∷ ready_for_owner_review ∷ owner_approved ∷ done ∷ []) refl refl refl

done_reachable_example :
    (ts : List ProjectState) × (Graph.legal_trace failed ts ≡ true)
    × (Graph.final_state failed ts ≡ done)
done_reachable_example = Graph.done_reachable failed
