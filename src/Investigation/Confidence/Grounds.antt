-- ===== src/Investigation/Confidence/Grounds.antt =====
-- What a confidence rests on.
use ops_incident_core.Prelude.{
  ◌≡◌, Bool, true, false, ◌&&◌, ◌||◌, String, List, length, leb, non_empty,
}
use ops_incident_core.Retrieval.Packing.{EvidenceItem}
use ops_incident_core.Retrieval.Intent.{Intent, has_type}
use ops_incident_core.Investigation.Findings.{Entities}
use ops_incident_core.Investigation.Hypotheses.{Confidence, high, is_low}
use ops_incident_core.Investigation.Confidence.{source_types_of, strong_deploy_match}

abbrev pub is_high : Confidence → Bool
is_high high = true
is_high _ = false

-- The evidence that a high confidence requires.
abbrev pub well_grounded : Entities → List EvidenceItem → Bool
well_grounded entities evidence =
    let types = source_types_of evidence in
    leb 3 (length types)
    && strong_deploy_match entities evidence
    && has_type "logs" types
    && (has_type "code" types || has_type "deploy" types)

-- What holds of a confidence and its reasons, by the tests that they are made from.
abbrev IsJustified : Bool → Bool → Bool → Confidence × List String → Type 0
IsJustified supported logged grounded result =
    (is_high result.0 ≡ (supported && grounded))
    × (is_low result.0 ≡ false → (supported ≡ true) × (logged ≡ true))
    × (non_empty result.1 ≡ true)
