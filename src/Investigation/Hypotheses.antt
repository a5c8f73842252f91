-- ===== src/Investigation/Hypotheses.antt =====
-- incidentops/investigation/hypothesis_generator.py and root_cause_selector.py, with scores in
-- hundredths.
pub mod Ranking
use ops_incident_core.Prelude.{
  ℕ, Bool, true, false, not, ◌&&◌, ◌||◌, String, List, [], ◌∷◌, ◌++◌, any, map, if◌then◌else◌, leb,
  ltb, ◌==◌, take, non_empty, sort_by, when,
}
use ops_incident_core.Prelude.Text.{codes, lower, contains}
use ops_incident_core.Retrieval.Packing.{EvidenceItem}
use ops_incident_core.Investigation.Findings.{LogFindings, DeployFindings, IncidentMatch}

pub data Confidence : Type 0 where
  low medium high : Confidence

pub record Hypothesis : Type 0 where
  pub hypothesis_id : String
  pub summary : String
  pub score : ℕ
  pub confidence : Confidence
  pub evidence_chunk_ids : List String
  pub supporting_reasons : List String

-- Where in a ranking a score stands: `reverse=True` on the key `score`.
abbrev pub ranks_before : Hypothesis → Hypothesis → Bool
ranks_before a b = leb b.score a.score

abbrev pub deploy_hypothesis : List String → Hypothesis
deploy_hypothesis ids = record {
  hypothesis_id = "deploy_related_behavior_change";
  summary =
      "a recent deploy may have changed request-path behavior and coincides with the observed symptom";
  score = 72;
  confidence = medium;
  evidence_chunk_ids = ids;
  supporting_reasons =
      "logs show the reported symptom" ∷ "deployment evidence exists near the incident context"
      ∷ [];
}

abbrev pub timeout_hypothesis : List String → Hypothesis
timeout_hypothesis ids = record {
  hypothesis_id = "timeout_amplification";
  summary =
      "timeouts in a downstream dependency or critical path may be amplifying incident impact";
  score = 66;
  confidence = medium;
  evidence_chunk_ids = ids;
  supporting_reasons = "logs contain timeout evidence" ∷ [];
}

abbrev pub error_hypothesis : List String → Hypothesis
error_hypothesis ids = record {
  hypothesis_id = "error_path_regression";
  summary =
      "error-path behavior appears elevated and may indicate a regression or failing dependency";
  score = 62;
  confidence = medium;
  evidence_chunk_ids = ids;
  supporting_reasons = "logs contain elevated error markers" ∷ [];
}

abbrev pub incident_hypothesis : IncidentMatch → Hypothesis
incident_hypothesis top = record {
  hypothesis_id = "previous_incident_pattern";
  summary = "a previous incident appears similar and may provide a matching operational pattern";
  score = 58;
  confidence = medium;
  evidence_chunk_ids = top.chunk_id ∷ [];
  supporting_reasons = "previous incident evidence was found" ∷ [];
}

abbrev pub weak_hypothesis : List String → Hypothesis
weak_hypothesis ids = record {
  hypothesis_id = "weak_evidence";
  summary = "available evidence is insufficient to support a confident root-cause determination";
  score = 25;
  confidence = low;
  evidence_chunk_ids = ids;
  supporting_reasons = "retrieval returned weak or sparse evidence" ∷ [];
}

abbrev pub incident_hypotheses : List IncidentMatch → List Hypothesis
incident_hypotheses [] = []
incident_hypotheses (top ∷ rest) = incident_hypothesis top ∷ []

unfoldable pub generate_hypotheses :
    List EvidenceItem → LogFindings → DeployFindings → List IncidentMatch → List Hypothesis
generate_hypotheses evidence logs deploys incidents =
    let ids = map (λ (item : EvidenceItem). item.chunk_id) (take 6 evidence) in
    let found =
      when (ltb 0 logs.slow_requests && ltb 0 deploys.diff_count) (deploy_hypothesis ids)
      ++ when (ltb 0 logs.timeouts) (timeout_hypothesis ids)
      ++ when (ltb 0 logs.errors) (error_hypothesis ids)
      ++ incident_hypotheses incidents in
    sort_by ranks_before (if non_empty found then found else weak_hypothesis ids ∷ [])

-- What `select_root_cause` returns: an object of its own, or the first of the list that it is
-- given, as it has changed it in place.
pub data Selection : Type 0 where
  fresh first : Hypothesis → Selection

abbrev unsupported_claims : List String
unsupported_claims = "database outage" ∷ "payment provider outage" ∷ "auth service failure" ∷ []

abbrev pub insufficient : String
insufficient = "Evidence is insufficient to identify a confident root cause."

abbrev no_cause : List String → Hypothesis
no_cause reasons = record {
  hypothesis_id = "weak_evidence";
  summary = insufficient;
  score = 0;
  confidence = low;
  evidence_chunk_ids = [];
  supporting_reasons = reasons;
}

abbrev pub is_low : Confidence → Bool
is_low low = true
is_low _ = false

abbrev pub with_assessment : Hypothesis → String → Confidence → Hypothesis
with_assessment h s c = record {
  hypothesis_id = h.hypothesis_id;
  summary = s;
  score = h.score;
  confidence = c;
  evidence_chunk_ids = h.evidence_chunk_ids;
  supporting_reasons = h.supporting_reasons;
}

unfoldable pub makes_unsupported_claim : String → Bool
unfolding lower contains
makes_unsupported_claim summary =
    any (λ claim. contains (lower (codes summary)) (codes claim)) unsupported_claims

unfoldable pub select_root_cause : List Hypothesis → Selection
unfolding makes_unsupported_claim
select_root_cause [] = fresh (no_cause [])
select_root_cause (best ∷ others) =
    if makes_unsupported_claim best.summary
    then fresh (no_cause ("top hypothesis contained an unsupported claim" ∷ []))
    else if ltb best.score 70 || is_low best.confidence
    then first (with_assessment best insufficient low)
    else first best
