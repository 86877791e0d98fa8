-- ===== src/States/Graph.antt =====
-- What the table of orchestrator/states.js allows, over whole sequences of transitions.
use autonomous_dev_platform.Base.{
  ℕ, zero, suc, Bool, true, false, ◌≡◌, refl, ◌⊎◌, List, [], ◌∷◌, arith, ◌&&◌, ◌||◌,
}
use autonomous_dev_platform.States.{
  ProjectState, idea_submitted, council_discovery, specification_ready, project_provisioning,
  cursor_executing, platform_verification, runtime_verification, visual_verification,
  council_review, final_verification, delivery_preparation, ready_for_owner_review,
  owner_changes_requested, owner_approved, done, failed, same_state, is_legal_transition,
  is_boot_resumable, is_owner_terminal,
}

pub same_state→≡ : (a b : ProjectState) → same_state a b ≡ true → a ≡ b
same_state→≡ a b h = ground arith

-- Every state is of exactly one kind: one that boot resumes, one that waits for the owner or is
-- finished, or FAILED.
states_partition :
    (s : ProjectState)
    → ((is_boot_resumable s ≡ true) × (is_owner_terminal s ≡ false) × (same_state s failed ≡ false))
      ⊎ ((is_boot_resumable s ≡ false)
          × (is_owner_terminal s ≡ true)
          × (same_state s failed ≡ false))
      ⊎ ((is_boot_resumable s ≡ false)
          × (is_owner_terminal s ≡ false)
          × (same_state s failed ≡ true))
unfolding is_boot_resumable is_owner_terminal
states_partition s = ground arith

-- `ts` are the states that follow `s`, each by a legal transition.
unfoldable pub legal_trace : ProjectState → List ProjectState → Bool
legal_trace s [] = true
legal_trace s (t ∷ ts) = is_legal_transition s t && legal_trace t ts

abbrev pub final_state : ProjectState → List ProjectState → ProjectState
final_state s [] = s
final_state s (t ∷ ts) = final_state t ts

abbrev same_states : List ProjectState → List ProjectState → Bool
same_states [] [] = true
same_states [] (_ ∷ _) = false
same_states (_ ∷ _) [] = false
same_states (a ∷ rest) (b ∷ bs) = same_state a b && same_states rest bs

-- The trace ends in DELIVERY_PREPARATION, READY_FOR_OWNER_REVIEW, OWNER_APPROVED, DONE.
unfoldable pub ends_approved : List ProjectState → Bool
ends_approved [] = false
ends_approved (s ∷ ts) =
    same_states (s ∷ ts)
      (delivery_preparation ∷ ready_for_owner_review ∷ owner_approved ∷ done ∷ [])
    || ends_approved ts

claim : ProjectState → List ProjectState → Bool
claim done ts = same_states ts []
claim owner_approved ts = same_states ts (done ∷ [])
claim ready_for_owner_review ts =
    same_states ts (owner_approved ∷ done ∷ []) || ends_approved (ready_for_owner_review ∷ ts)
claim s ts = ends_approved (s ∷ ts)

claim_step :
    (s t : ProjectState) (ts : List ProjectState)
    → is_legal_transition s t ≡ true
    → claim t ts ≡ true
    → claim s (t ∷ ts) ≡ true
unfolding is_legal_transition claim ends_approved
claim_step idea_submitted t ts l c = ground arith
claim_step _ t ts l c = ground arith

claim_trace :
    (s : ProjectState) (ts : List ProjectState)
    → legal_trace s ts ≡ true
    → final_state s ts ≡ done
    → claim s ts ≡ true
unfolding legal_trace
claim_trace s [] l e = rw e (unfold claim in refl)
claim_trace s (t ∷ ts) l e = ground (arith, claim_step s t ts, claim_trace t ts)

-- A project that the platform is still working on, or that failed, can reach DONE only through
-- DELIVERY_PREPARATION, READY_FOR_OWNER_REVIEW and OWNER_APPROVED, in this order and at the end.
pub done_needs_approval :
    (s : ProjectState) (ts : List ProjectState)
    → is_owner_terminal s ≡ false
    → legal_trace s ts ≡ true
    → final_state s ts ≡ done
    → ends_approved (s ∷ ts) ≡ true
unfolding is_owner_terminal claim
done_needs_approval s ts w l e = ground (arith, claim_trace s ts l e)

-- One transition on the way from each state to DONE.
abbrev next_towards_done : ProjectState → ProjectState
next_towards_done idea_submitted = council_discovery
next_towards_done council_discovery = specification_ready
next_towards_done specification_ready = cursor_executing
next_towards_done project_provisioning = cursor_executing
next_towards_done cursor_executing = platform_verification
next_towards_done platform_verification = council_review
next_towards_done runtime_verification = council_review
next_towards_done visual_verification = council_review
next_towards_done council_review = final_verification
next_towards_done final_verification = delivery_preparation
next_towards_done delivery_preparation = ready_for_owner_review
next_towards_done ready_for_owner_review = owner_approved
next_towards_done owner_changes_requested = council_discovery
next_towards_done owner_approved = done
next_towards_done done = done
next_towards_done failed = council_discovery

route : ℕ → ProjectState → List ProjectState
route zero s = []
route (suc n) done = []
route (suc n) s = next_towards_done s ∷ route n (next_towards_done s)

-- No state is a dead end: from each of them some sequence of legal transitions ends in DONE.
pub done_reachable :
    (s : ProjectState)
    → (ts : List ProjectState) × (legal_trace s ts ≡ true) × (final_state s ts ≡ done)
unfolding legal_trace route is_legal_transition
done_reachable idea_submitted = (route 16 idea_submitted, refl, refl)
done_reachable s = (route 16 s, refl, refl)
