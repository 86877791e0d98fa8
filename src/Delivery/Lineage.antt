-- ===== src/Delivery/Lineage.antt =====
-- delivery/lineage.js: which checkpoint and which verification a delivery stands for. `sha256` is
-- the hash of node's crypto library.
use Prim.Native.String.{◌++◌ as concat}
use autonomous_dev_platform.Base.{
  ℕ, Bool, false, not, ◌&&◌, ◌||◌, Option, none, some, String, List, [], ◌∷◌, ◌==◌, eqb, or_else,
  or_text, same_text, if◌then◌else◌, decimal,
}
use autonomous_dev_platform.Project.{Project}
use autonomous_dev_platform.Project.Runs.{
  CursorRun, CursorResult, VerificationRun, RuntimeRun, VisualRun, Delivery,
}
use autonomous_dev_platform.Project.Latest.{
  latest_cursor_run, run_iteration, run_sha, git_checkpoint, latest_verification_run,
  latest_runtime_run, latest_visual_run,
}

abbrev result_sha : Option CursorResult → Option String
result_sha none = none
result_sha (some r) = or_else r.checkpoint_sha (git_checkpoint r.git)

abbrev cursor_result : Option CursorRun → Option CursorResult
cursor_result none = none
cursor_result (some run) = run.result

-- `n || 1`
abbrev pub or_one : ℕ → ℕ
or_one n = if eqb n 0 then 1 else n

abbrev or_iteration : Option CursorRun → ℕ → ℕ
or_iteration none n = or_one n
or_iteration (some run) n = if eqb run.iteration 0 then or_one n else run.iteration

-- `parts.join(':')`
abbrev join : List String → String
join [] = ""
join (s ∷ []) = s
join (s ∷ (t ∷ rest)) = concat s (concat ":" (join (t ∷ rest)))

-- The checkpoint of the latest Cursor run, or a text that says that there is none.
unfoldable pub final_checkpoint_sha : Project → String
unfolding decimal
final_checkpoint_sha p =
    let run = latest_cursor_run p in
    let sha = or_else (run_sha run) (result_sha (cursor_result run)) in
    or_text sha (
      if p.demo
      then join ("mock" ∷ p.id ∷ decimal (or_one p.iteration) ∷ [])
      else join ("unverified" ∷ p.id ∷ decimal (or_iteration run p.iteration) ∷ []))

abbrev or_none : Option String → String
or_none o = or_text o "none"

abbrev verification_id : Option VerificationRun → Option String
verification_id none = none
verification_id (some v) = some v.id

abbrev verification_status : Option VerificationRun → Option String
verification_status none = none
verification_status (some v) = v.status

abbrev runtime_id : Option RuntimeRun → Option String
runtime_id none = none
runtime_id (some r) = some r.id

abbrev runtime_status : Option RuntimeRun → Option String
runtime_status none = none
runtime_status (some r) = r.status

abbrev visual_id : Option VisualRun → Option String
visual_id none = none
visual_id (some v) = some v.id

abbrev visual_decision : Option VisualRun → Option String
visual_decision none = none
visual_decision (some v) = v.decision

abbrev security_mark : Project → Option String
security_mark p =
    or_else (elim p.sandbox_provenance [ none ↦ none | some s ↦ s.sandbox_mode ])
      (elim p.evidence [
        | none ↦ none
        | some e ↦ elim e.security [ none ↦ none | some a ↦ a.status ]
      ])

unfoldable pub verification_material : Project → String
unfolding final_checkpoint_sha latest_verification_run latest_runtime_run latest_visual_run
verification_material p =
    let n = run_iteration p (latest_cursor_run p) in
    join (
      or_none (some (final_checkpoint_sha p))
      ∷ or_none (verification_id (latest_verification_run p n))
      ∷ or_none (verification_status (latest_verification_run p n))
      ∷ or_none (runtime_id (latest_runtime_run p n))
      ∷ or_none (runtime_status (latest_runtime_run p n))
      ∷ or_none (visual_id (latest_visual_run p n))
      ∷ or_none (visual_decision (latest_visual_run p n))
      ∷ or_none (security_mark p)
      ∷ [])

module _ (sha256 : String → String) where
  unfoldable pub verification_set_hash : Project → String
  unfolding verification_material
  verification_set_hash p = sha256 (verification_material p)

  unfoldable pub delivery_idempotency_key : Project → String
  unfolding verification_set_hash
  delivery_idempotency_key p = join (
      "project"
      ∷ p.id
      ∷ "delivery"
      ∷ or_none (some (final_checkpoint_sha p))
      ∷ verification_set_hash p
      ∷ [])

  unfoldable pub delivery_is_current : Project → Option Delivery → Bool
  delivery_is_current p none = false
  delivery_is_current p (some d) =
      not (d.status == "STALE" || d.status == "SUPERSEDED")
      && same_text d.checkpoint_sha (some (final_checkpoint_sha p))
      && same_text d.verification_set_hash (some (verification_set_hash p))
