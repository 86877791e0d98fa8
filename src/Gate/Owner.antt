-- ===== src/Gate/Owner.antt =====
-- What the owner gate of orchestrator/gate.js guarantees, and how it refines the completion gate.
use autonomous_dev_platform.Base.{
  ℕ, Bool, true, false, not, ◌&&◌, ◌||◌, Option, none, some, String, List, [], ◌∷◌, ◌++◌, ◌==◌, any,
  ◌≡◌, refl, sym, ◌∙◌, arith, truthy, if◌then◌else◌, when, unique, is_empty, unique_empty, includes,
  includes-unique, includes-append, append_empty, append_empty_left, same_text, eq_iff,
}
use autonomous_dev_platform.Project.{Project}
use autonomous_dev_platform.Project.Runs.{Delivery}
use autonomous_dev_platform.Project.Latest.{reads}
use autonomous_dev_platform.Delivery.Lineage.{
  delivery_is_current, final_checkpoint_sha, verification_set_hash,
}
use autonomous_dev_platform.Gate.MockPolicy.{current_delivery}
use autonomous_dev_platform.Gate.Security.{Environment}
use autonomous_dev_platform.Gate.Completion.{
  can_complete_autonomous_work, can_enter_owner_review, delivery_reasons,
}

abbrev pub has_source_archive : Delivery → Bool
has_source_archive d = any (λ a. reads a.kind "SOURCE_ARCHIVE") d.artifacts

delivery_outcome :
    (ready sha current manifest hash owner verification scan source : Bool)
    → is_empty (
        if not ready
        then "missing_delivery_snapshot" ∷ []
        else when (not sha) "missing_final_checkpoint"
          ++ when (not current) "stale_delivery_lineage"
          ++ when (not manifest || not hash) "missing_delivery_manifest"
          ++ when (not owner) "missing_owner_report"
          ++ when (not verification) "missing_verification_report"
          ++ when (not scan) "delivery_secret_scan_failed"
          ++ when (not source) "missing_source_archive")
      ≡ true
    → (ready ≡ true)
      × (current ≡ true)
      × ((manifest && hash) ≡ true)
      × (owner ≡ true)
      × (verification ≡ true)
      × (scan ≡ true)
      × (source ≡ true)
delivery_outcome a b c d e f g h i q = ground arith

includes-longer :
    (r : String) (xs ys : List String)
    → includes r xs ≡ true
    → includes r (unique (xs ++ ys)) ≡ true
includes-longer r xs ys h = simp (includes-unique, includes-append) (ground (arith, h))

lineage_outcome :
    (old : Bool) (a b : Option String) (c d : String)
    → (not old && same_text a (some c) && same_text b (some d)) ≡ true
    → (a ≡ some c) × (b ≡ some d)
lineage_outcome true a b c d h = cc
lineage_outcome false none b c d h = cc
lineage_outcome false (some a) none c d h = ground arith
lineage_outcome false (some a) (some b) c d h = ground (arith, eq_iff a c, eq_iff b d)

-- The delivery names the project's own checkpoint and verification set.
current_lineage :
    (sha256 : String → String) (p : Project) (d : Delivery)
    → delivery_is_current sha256 p (some d) ≡ true
    → (d.checkpoint_sha ≡ some (final_checkpoint_sha p))
      × (d.verification_set_hash ≡ some (verification_set_hash sha256 p))
unfolding delivery_is_current
current_lineage sha256 p d h =
    lineage_outcome (d.status == "STALE" || d.status == "SUPERSEDED") d.checkpoint_sha
      d.verification_set_hash (final_checkpoint_sha p) (verification_set_hash sha256 p) h

module _ (env : Environment) (pending : Bool) (max_iterations : ℕ) (sha256 : String → String)
    (p : Project) where
  snapshot :
      (d : Option Delivery)
      → is_empty (delivery_reasons sha256 p d) ≡ true
      → (delivery : Delivery) × (d ≡ some delivery)
        × ((delivery.status == "READY") ≡ true)
        × (delivery.checkpoint_sha ≡ some (final_checkpoint_sha p))
        × (delivery.verification_set_hash ≡ some (verification_set_hash sha256 p))
        × ((delivery.manifest && truthy delivery.manifest_hash) ≡ true)
        × (delivery.owner_report ≡ true)
        × (delivery.verification_report ≡ true)
        × (reads delivery.secret_scan "PASS" ≡ true)
        × (has_source_archive delivery ≡ true)
  unfolding delivery_reasons
  snapshot none h = cc
  snapshot (some d) h =
      let (ready, current, manifest, owner, verification, scan, source) =
        delivery_outcome (d.status == "READY") (truthy d.checkpoint_sha)
          (delivery_is_current sha256 p (some d)) d.manifest (truthy d.manifest_hash) d.owner_report
          d.verification_report (reads d.secret_scan "PASS") (has_source_archive d) h in
      let (sha, hash) = current_lineage sha256 p d current in
      (d, refl, ready, sha, hash, manifest, owner, verification, scan, source)

  autonomous_reasons : List String
  autonomous_reasons = (can_complete_autonomous_work env pending max_iterations p).reasons

  ours : List String
  ours = delivery_reasons sha256 p (current_delivery p)

  -- A project may enter the owner's review only if it passes the completion gate and its current
  -- delivery is READY, names the project's checkpoint and verification set, has a manifest with its
  -- hash, both reports and a source archive, and passed the secret scan.
  pub owner_review_is_backed :
      (can_enter_owner_review env pending max_iterations sha256 p).ok ≡ true
      → ((can_complete_autonomous_work env pending max_iterations p).ok ≡ true)
        × ((delivery : Delivery) × (current_delivery p ≡ some delivery)
            × ((delivery.status == "READY") ≡ true)
            × (delivery.checkpoint_sha ≡ some (final_checkpoint_sha p))
            × (delivery.verification_set_hash ≡ some (verification_set_hash sha256 p))
            × ((delivery.manifest && truthy delivery.manifest_hash) ≡ true)
            × (delivery.owner_report ≡ true)
            × (delivery.verification_report ≡ true)
            × (reads delivery.secret_scan "PASS" ≡ true)
            × (has_source_archive delivery ≡ true))
  unfolding can_enter_owner_review can_complete_autonomous_work autonomous_reasons ours
  owner_review_is_backed h =
      let empty = sym (unique_empty (autonomous_reasons ++ ours)) ∙ h in
      (
        append_empty_left autonomous_reasons ours empty,
        snapshot (current_delivery p) (append_empty autonomous_reasons ours empty),
      )

  -- The owner gate gives every reason that the completion gate gives.
  pub owner_reasons_extend :
      (r : String)
      → includes r (can_complete_autonomous_work env pending max_iterations p).reasons ≡ true
      → includes r (can_enter_owner_review env pending max_iterations sha256 p).reasons ≡ true
  unfolding can_enter_owner_review autonomous_reasons ours
  owner_reasons_extend r h = includes-longer r autonomous_reasons ours h
