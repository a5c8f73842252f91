-- ===== src/Investigation/Confidence.antt =====
-- `_score_confidence` of incidentops/investigation/service.py.
pub mod Grounds
use ops_incident_core.Prelude.{
  ℕ, Bool, true, false, not, ◌&&◌, ◌||◌, Option, none, some, String, List, [], ◌∷◌, ◌++◌, any, map,
  if◌then◌else◌, leb, ltb, ◌==◌, length, non_empty, select, when, or_default,
}
use text.Mathlib.Text.{◌==◌ as str_eq}
use ops_incident_core.Retrieval.Packing.{EvidenceItem}
use ops_incident_core.Retrieval.Intent.{Intent, is_incident_like, has_type}
use ops_incident_core.Investigation.Findings.{
  Entities, LogFindings, IncidentMatch, truthy, opt_eq, unique,
}
use ops_incident_core.Investigation.Hypotheses.{Confidence, low, medium, high}

-- The set of the source types of the evidence.
unfoldable pub source_types_of : List EvidenceItem → List String
unfolding unique
source_types_of evidence =
    unique
      (select (λ t. not (str_eq t "")) (map (λ (item : EvidenceItem). item.source_type) evidence))

unfoldable pub strong_deploy_match : Entities → List EvidenceItem → Bool
strong_deploy_match entities evidence =
    truthy entities.deploy_hash
    && any (λ (item : EvidenceItem). opt_eq item.deploy_hash entities.deploy_hash) evidence

unfoldable pub strong_endpoint_match : Entities → List EvidenceItem → Bool
strong_endpoint_match entities evidence =
    truthy entities.endpoint
    && any (λ (item : EvidenceItem). truthy item.endpoint && opt_eq item.endpoint entities.endpoint)
        evidence

-- `if not reasons: reasons.append(reason)`
abbrev pub or_reason : List String → String → List String
or_reason [] reason = reason ∷ []
or_reason (r ∷ rs) reason = r ∷ rs

unfoldable pub score_confidence :
    Intent
    → Bool
    → List String
    → Entities
    → List EvidenceItem
    → LogFindings
    → List IncidentMatch
    → List String
    → Confidence × List String
unfolding source_types_of strong_deploy_match strong_endpoint_match is_incident_like
score_confidence intent supported support_reasons entities evidence logs incidents missing_data =
    let types = source_types_of evidence in
    let deploy_match : Bool = strong_deploy_match entities evidence in
    let has_logs : Bool = has_type "logs" types in
    let context : List String =
      when (leb 3 (length types)) "multiple source types agree on relevant context"
      ++ when deploy_match "deploy hash matches retrieved evidence"
      ++ when (strong_endpoint_match entities evidence) "endpoint match found in retrieved evidence"
      ++ when (ltb 0 logs.timestamped_logs) "timestamped logs support ordering"
      ++ when (non_empty incidents) "previous incident evidence is available for comparison" in
    let reasons = support_reasons ++ context in
    if not supported
    then (
      low,
      or_reason support_reasons "investigation evidence class is not supported for this query"
          ++ when (ltb 1 (length missing_data)) "multiple operational evidence sources are missing",
    )
    else if is_incident_like intent && not has_logs
    then (low, support_reasons ++ "runtime investigation is missing timestamped logs" ∷ [])
    else if leb 3 (length types)
        && deploy_match
        && has_logs
        && (has_type "code" types || has_type "deploy" types)
    then (high, reasons)
    else if non_empty evidence && leb 2 (length types) && leb (length missing_data) 2
    then (medium, or_reason reasons "relevant evidence exists but one key source is missing")
    else (
      low,
      or_reason reasons "retrieval is weak or missing key deploy/log/code context"
          ++ when (ltb 2 (length missing_data)) "multiple key evidence sources are missing",
    )
