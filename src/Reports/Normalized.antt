-- ===== src/Reports/Normalized.antt =====
-- The evidence that the platform keeps is canonical, and claims no more than it shows.
use autonomous_dev_platform.Base.{
  Bool, true, false, not, ◌&&◌, ◌||◌, Option, none, some, String, ◌≡◌, refl, arith, if◌then◌else◌,
}
use autonomous_dev_platform.Project.Runs.{Aspect, Evidence}
use autonomous_dev_platform.Project.Latest.{reads}
use autonomous_dev_platform.Gate.Canonical.{
  is_status, is_provenance, is_level, is_canonical_evidence,
}
use autonomous_dev_platform.Reports.{
  Raw, execution_of, inner_evidence, is_mock_level, known_or, make_aspect, create_evidence,
  mock_evidence, checked_level, downgraded, self_reported, normalize_seen, normalize_evidence,
  evidence_from_cursor_result, has_platform_verified_aspect, seen_as,
}

-- Evidence that claims the platform's verification shows an aspect that the platform verified.
abbrev pub is_backed : Evidence → Bool
is_backed e = not (reads e.verification_level "PLATFORM_VERIFIED") || has_platform_verified_aspect e

known_if :
    (is_known : Option String → Bool) (b : Bool) (s unknown : String)
    → is_known (some s) ≡ b
    → is_known (some unknown) ≡ true
    → is_known (some (if b then s else unknown)) ≡ true
known_if is_known true s unknown e u = e
known_if is_known false s unknown e u = u

known_or-known :
    (is_known : Option String → Bool) (o : Option String) (default unknown : String)
    → is_known (some default) ≡ true
    → is_known (some unknown) ≡ true
    → is_known (some (known_or is_known o default unknown)) ≡ true
known_or-known is_known none default unknown d u = d
known_or-known is_known (some s) default unknown d u =
    known_if is_known (is_known (some s)) s unknown refl u

abbrev is_known_aspect : Aspect → Bool
is_known_aspect a = is_status a.status && is_provenance a.provenance

and_true : {a b : Bool} → a ≡ true → b ≡ true → (a && b) ≡ true
and_true h k = ground arith

and_second : (a b : Bool) → (a && b) ≡ true → b ≡ true
and_second a b h = ground arith

make_aspect-known : (o : Option Aspect) → is_known_aspect (make_aspect o) ≡ true
unfolding make_aspect
make_aspect-known none = refl
make_aspect-known (some a) =
    and_true (known_or-known is_status a.status "NOT_RUN" "UNKNOWN" refl refl)
      (known_or-known is_provenance a.provenance "CURSOR_REPORTED" "CURSOR_REPORTED" refl refl)

create_evidence-canonical : (e : Evidence) → is_canonical_evidence (some (create_evidence e)) ≡ true
unfolding create_evidence is_canonical_evidence
create_evidence-canonical e =
    and_true
      (known_or-known is_level e.verification_level "SELF_REPORTED" "SELF_REPORTED" refl refl)
      (make_aspect-known
        (execution_of e (known_or is_level e.verification_level "SELF_REPORTED" "SELF_REPORTED")))

downgraded-canonical :
    (e : Evidence)
    → is_canonical_evidence (some e) ≡ true
    → is_canonical_evidence (some (downgraded e)) ≡ true
unfolding is_canonical_evidence
downgraded-canonical e h = and_second (is_level e.verification_level) _ h

checked_if :
    (claims shows : Bool) (e : Evidence)
    → is_canonical_evidence (some e) ≡ true
    → is_backed e ≡ (not claims || shows)
    → (is_canonical_evidence (some (if claims && not shows then downgraded e else e))
        && is_backed (if claims && not shows then downgraded e else e))
      ≡ true
checked_if true true e h b = and_true h b
checked_if true false e h b = and_true (downgraded-canonical e h) refl
checked_if false shows e h b = and_true h b

abbrev is_sound : Evidence → Bool
is_sound e = is_canonical_evidence (some e) && is_backed e

checked_level_sound :
    (e : Evidence) → is_canonical_evidence (some e) ≡ true → is_sound (checked_level e) ≡ true
unfolding checked_level
checked_level_sound e h =
    checked_if (reads e.verification_level "PLATFORM_VERIFIED") (has_platform_verified_aspect e) e h
      refl

self_reported_sound : (raw : Option Raw) → is_sound (create_evidence (self_reported raw)) ≡ true
unfolding create_evidence
self_reported_sound raw = and_true (create_evidence-canonical (self_reported raw)) refl

seen_if :
    (b : Bool) (raw : Option Raw) (e : Evidence)
    → is_sound
        (if b then checked_level (create_evidence e) else create_evidence (self_reported raw))
      ≡ true
seen_if true raw e = checked_level_sound (create_evidence e) (create_evidence-canonical e)
seen_if false raw e = self_reported_sound raw

normalize_seen_sound :
    (raw : Option Raw) (o : Option Evidence) → is_sound (normalize_seen raw o) ≡ true
unfolding normalize_seen
normalize_seen_sound raw none = self_reported_sound raw
normalize_seen_sound raw (some e) = seen_if (is_canonical_evidence (some e)) raw e

normalize_evidence_sound :
    (raw : Option Raw) (demo : Bool) → is_sound (normalize_evidence raw demo) ≡ true
unfolding normalize_evidence
normalize_evidence_sound raw true = refl
normalize_evidence_sound raw false = normalize_seen_sound raw (seen_as raw)

both_parts : (a b : Bool) → (a && b) ≡ true → (a ≡ true) × (b ≡ true)
both_parts a b h = (ground arith, ground arith)

inner_if :
    (demo canonical : Bool) (result : Option Raw) (inner : Option Evidence) (is_demo : Bool)
    → is_sound (
        if demo
        then mock_evidence
        else if canonical
        then normalize_seen none inner
        else normalize_evidence result is_demo)
      ≡ true
unfolding mock_evidence create_evidence is_canonical_evidence
inner_if true canonical result inner is_demo = refl
inner_if false true result inner is_demo = normalize_seen_sound none inner
inner_if false false result inner is_demo = normalize_evidence_sound result is_demo

-- Whatever the agent returns, the evidence that the platform keeps of it is canonical: its level, and
-- the status and the provenance of its execution, are known ones. If it claims the level
-- PLATFORM_VERIFIED, it shows an aspect that the platform verified.
pub evidence_is_canonical :
    (result : Option Raw) (demo : Bool)
    → (is_canonical_evidence (some (evidence_from_cursor_result result demo)) ≡ true)
      × (is_backed (evidence_from_cursor_result result demo) ≡ true)
unfolding evidence_from_cursor_result
evidence_is_canonical result demo =
    both_parts (is_canonical_evidence (some (evidence_from_cursor_result result demo)))
      (is_backed (evidence_from_cursor_result result demo))
      (inner_if (demo || is_mock_level (inner_evidence result))
        (is_canonical_evidence (inner_evidence result)) result (inner_evidence result) demo)
