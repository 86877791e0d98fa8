-- ===== src/Orchestrator/History.antt =====
-- The history that `transition` writes.
use autonomous_dev_platform.Base.{
  Bool, true, ◌&&◌, ◌≡◌, arith, List, [], ◌∷◌, ◌++◌, Bool-cases, inl, inr,
}
use autonomous_dev_platform.States.{ProjectState, idea_submitted, is_legal_transition, same_state}
use autonomous_dev_platform.Project.{Project, HistoryEntry}
use autonomous_dev_platform.Orchestrator.Transition.{
  Result, ok, raised, stored, next, transition, transition_legal, transition_illegal,
}

-- The history leads from one state to another by legal transitions, each from where the one before
-- it ended.
abbrev pub walk : ProjectState → List HistoryEntry → ProjectState → Bool
walk s [] t = same_state s t
walk s (h ∷ hs) t = same_state s h.from && is_legal_transition h.from h.to && walk h.to hs t

abbrev pub IsRecorded : Project → Type 0
IsRecorded p = walk idea_submitted p.history p.state ≡ true

same_state_refl : (s : ProjectState) → same_state s s ≡ true
same_state_refl s = ground arith

walk-append :
    (s t u : ProjectState) (hs : List HistoryEntry)
    → walk s hs t ≡ true
    → is_legal_transition t u ≡ true
    → walk s (hs ++ record { from = t; to = u } ∷ []) u ≡ true
walk-append s t u [] w l = ground (arith, same_state_refl u)
walk-append s t u (h ∷ hs) w l = ground (arith, walk-append h.to t u hs)

pub transition-IsRecorded :
    (saved p : Project) (to : ProjectState)
    → IsRecorded saved
    → IsRecorded p
    → IsRecorded (stored (transition saved p to))
transition-IsRecorded saved p to s h = elim (Bool-cases (is_legal_transition p.state to)) [
  | inl l ↦
      rw (transition_legal saved p to l, stored)
        (walk-append idea_submitted p.state to p.history h l)
  | inr l ↦ rw (transition_illegal saved p to l, stored) s
]

-- What the next call keeps, if the first one kept it.
pub next-IsRecorded :
    (r : Result) (f : Project → Result)
    → IsRecorded (stored r)
    → ((p : Project) → IsRecorded p → IsRecorded (stored (f p)))
    → IsRecorded (stored (next r f))
next-IsRecorded (ok p) f h k = k p h
next-IsRecorded (raised p e) f h k = h
