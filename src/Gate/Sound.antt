-- ===== src/Gate/Sound.antt =====
-- What the gates of orchestrator/gate.js guarantee of a project that they let pass.
use autonomous_dev_platform.Base.{
  ℕ, Bool, true, false, not, ◌&&◌, ◌||◌, Option, none, some, [], ◌++◌, ◌≡◌, refl, sym, ◌∙◌, ◌≤◌,
  arith, if◌then◌else◌, unique, is_empty, is_some, ltb, unique_empty, is_empty-append,
  is_empty-when, not-not, not-or, and_assoc, is_none_inv, Option-cases, inl, inr,
}
use autonomous_dev_platform.Project.{Project, Review, Final}
use autonomous_dev_platform.Project.Runs.{CursorRun}
use autonomous_dev_platform.Project.Latest.{
  reads, latest_cursor_run, latest_runtime_run, latest_visual_run, run_iteration,
}
use autonomous_dev_platform.Gate.MockPolicy.{
  merged_evidence, collect_real_project_mock_violations, collect_deterministic_visual_violations,
  looks_mock, mock_reasons, judged_checkpoint, is_mock_checkpoint, is_synthetic_checkpoint,
}
use autonomous_dev_platform.Gate.Security.{Environment, security_reasons}
use autonomous_dev_platform.Gate.Canonical.{is_canonical_evidence}
use autonomous_dev_platform.Gate.{
  has_valid_spec, review_for_iteration, decides, status_of, platform_reasons, runtime_reasons,
  visual_reasons,
}
use autonomous_dev_platform.Gate.Completion.{
  can_complete_autonomous_work, completion_reasons, review_decides, final_decides,
  requires_platform_verification, requires_runtime_verification, requires_visual_verification,
  run_review,
}

-- Thirteen conjuncts, one by one.
conjuncts :
    (a b c d e f g h i j k l m : Bool)
    → (a && b && c && d && e && f && g && h && i && j && k && l && m) ≡ true
    → (a ≡ true)
      × (b ≡ true)
      × (c ≡ true)
      × (d ≡ true)
      × (e ≡ true)
      × (f ≡ true)
      × (g ≡ true)
      × (h ≡ true)
      × (i ≡ true)
      × (j ≡ true)
      × (k ≡ true)
      × (l ≡ true)
      × (m ≡ true)
conjuncts a b c d e f g h i j k l m q = ground arith

genuine_lem :
    (p : Project)
    → is_empty (mock_reasons p)
      ≡ not (
          looks_mock p
          || is_mock_checkpoint (judged_checkpoint p)
          || is_synthetic_checkpoint (judged_checkpoint p))
unfolding mock_reasons looks_mock
genuine_lem p = simp (is_empty-append, is_empty-when, not-or, and_assoc) refl

decided_review :
    (p : Project) (r : Option CursorRun)
    → review_decides (run_review p r) "COMPLETE" ≡ true
    → (run : CursorRun) × (review : Review) × (r ≡ some run)
      × (review_for_iteration p run.iteration ≡ some review)
      × (decides review.decision "COMPLETE" ≡ true)
decided_review p none h = cc
decided_review p (some run) h = elim (Option-cases (review_for_iteration p run.iteration)) [
  | inl e ↦ ground (arith, e, h)
  | inr (review, e) ↦ (run, review, refl, e, ground (arith, e, h))
]

decided_final :
    (f : Option Final)
    → final_decides f "COMPLETE" ≡ true
    → (final : Final) × (f ≡ some final) × (decides final.decision "COMPLETE" ≡ true)
decided_final none h = cc
decided_final (some f) h = (f, refl, h)

genuine_parts : (a b c : Bool) → not (a || b || c) ≡ true → (a ≡ false) × (b ≡ false) × (c ≡ false)
genuine_parts a b c h = ground arith

not-true : (b : Bool) → not b ≡ true → b ≡ false
not-true b h = ground arith

not-ltb : (m n : ℕ) → not (ltb m n) ≡ true → n ≤ m
not-ltb m n h = ground arith

real_reasons :
    (p : Project)
    → is_empty (collect_real_project_mock_violations p) ≡ true
    → p.demo ≡ false
    → is_empty (unique (mock_reasons p)) ≡ true
unfolding collect_real_project_mock_violations
real_reasons p h real = rw real at h

module _ (env : Environment) (pending : Bool) (max_iterations : ℕ) (p : Project) where
  -- The reasons of the gate, one conjunct for each.
  gate_conjuncts : (can_complete_autonomous_work env pending max_iterations p).ok ≡ (
      let run = latest_cursor_run p in
      let evidence = merged_evidence p in
      let runtime = latest_runtime_run p (run_iteration p run) in
      let visual = latest_visual_run p (run_iteration p run) in
      is_empty (collect_real_project_mock_violations p)
      && has_valid_spec p
      && is_some run
      && is_canonical_evidence evidence
      && not (reads (status_of (λ e. e.execution) evidence) "FAIL")
      && is_empty (if requires_platform_verification p then platform_reasons p evidence else [])
      && is_empty (if requires_runtime_verification p then runtime_reasons p runtime else [])
      && is_empty (
          if requires_visual_verification p
          then visual_reasons p runtime visual ++ collect_deterministic_visual_violations p true
          else [])
      && review_decides (run_review p run) "COMPLETE"
      && final_decides p.council.final "COMPLETE"
      && is_empty (security_reasons env pending p)
      && not (is_some p.error)
      && not (ltb max_iterations p.iteration))
  unfolding can_complete_autonomous_work completion_reasons
  gate_conjuncts = simp (unique_empty, is_empty-append, is_empty-when, not-not) refl

  -- What each group of the gate's checks leaves.
  pub record Accepted : Type 0 where
    pub genuine : is_empty (collect_real_project_mock_violations p) ≡ true
    pub spec : has_valid_spec p ≡ true
    pub ran : is_some (latest_cursor_run p) ≡ true
    pub canonical : is_canonical_evidence (merged_evidence p) ≡ true
    pub executed : not (reads (status_of (λ e. e.execution) (merged_evidence p)) "FAIL") ≡ true
    pub platform :
        is_empty
          (if requires_platform_verification p then platform_reasons p (merged_evidence p) else [])
        ≡ true
    pub runtime :
        is_empty (
          if requires_runtime_verification p
          then runtime_reasons p (latest_runtime_run p (run_iteration p (latest_cursor_run p)))
          else [])
        ≡ true
    pub visual :
        is_empty (
          if requires_visual_verification p
          then visual_reasons p
              (latest_runtime_run p (run_iteration p (latest_cursor_run p)))
              (latest_visual_run p (run_iteration p (latest_cursor_run p)))
            ++ collect_deterministic_visual_violations p true
          else [])
        ≡ true
    pub reviewed : review_decides (run_review p (latest_cursor_run p)) "COMPLETE" ≡ true
    pub final : final_decides p.council.final "COMPLETE" ≡ true
    pub secure : is_empty (security_reasons env pending p) ≡ true
    pub no_error : not (is_some p.error) ≡ true
    pub bounded : not (ltb max_iterations p.iteration) ≡ true

  pub accepted : (can_complete_autonomous_work env pending max_iterations p).ok ≡ true → Accepted
  accepted h =
      let (a, b, c, d, e, f, g, i, j, k, l, m, n) =
        conjuncts _ _ _ _ _ _ _ _ _ _ _ _ _ (sym gate_conjuncts ∙ h) in
      record {
        genuine = a;
        spec = b;
        ran = c;
        canonical = d;
        executed = e;
        platform = f;
        runtime = g;
        visual = i;
        reviewed = j;
        final = k;
        secure = l;
        no_error = m;
        bounded = n;
      }

  -- A project that is no demo and passes the completion gate shows no sign of simulation where the
  -- mock policy looks for one: in its merged evidence, its verification level, its current delivery,
  -- its latest Cursor run, the last of its verification, its runtime and its visual runs, and its
  -- sandbox; and the checkpoint that the mock policy judges is neither a mock nor a synthetic one.
  -- Earlier runs, and those of the provisioning, are not looked at.
  pub accepted_is_genuine :
      (can_complete_autonomous_work env pending max_iterations p).ok ≡ true
      → p.demo ≡ false
      → (looks_mock p ≡ false)
        × (is_mock_checkpoint (judged_checkpoint p) ≡ false)
        × (is_synthetic_checkpoint (judged_checkpoint p) ≡ false)
  unfolding collect_real_project_mock_violations
  accepted_is_genuine h real =
      genuine_parts (looks_mock p) (is_mock_checkpoint (judged_checkpoint p))
        (is_synthetic_checkpoint (judged_checkpoint p))
        (sym (genuine_lem p)
          ∙ sym (unique_empty (mock_reasons p))
          ∙ real_reasons p (accepted h).genuine real)

  -- A project that passes the completion gate, a demo too, has a specification with a prompt and a
  -- product name, a Cursor run, canonical evidence in which the execution did not fail, a review of
  -- that run's iteration and a final verification that both decide COMPLETE, no unresolved error,
  -- and no more iterations than the limit.
  pub accepted_is_complete :
      (can_complete_autonomous_work env pending max_iterations p).ok ≡ true
      → (has_valid_spec p ≡ true)
        × (is_canonical_evidence (merged_evidence p) ≡ true)
        × (reads (status_of (λ e. e.execution) (merged_evidence p)) "FAIL" ≡ false)
        × ((run : CursorRun) × (review : Review) × (latest_cursor_run p ≡ some run)
            × (review_for_iteration p run.iteration ≡ some review)
            × (decides review.decision "COMPLETE" ≡ true))
        × ((final : Final) × (p.council.final ≡ some final)
            × (decides final.decision "COMPLETE" ≡ true))
        × (p.error ≡ none)
        × (p.iteration ≤ max_iterations)
  accepted_is_complete h = (
    (accepted h).spec,
    (accepted h).canonical,
    not-true _ (accepted h).executed,
    decided_review p (latest_cursor_run p) (accepted h).reviewed,
    decided_final p.council.final (accepted h).final,
    is_none_inv p.error (accepted h).no_error,
    not-ltb max_iterations p.iteration (accepted h).bounded,
  )
