-- ===== src/Investigation/Service.antt =====
-- `investigate` of incidentops/investigation/service.py, from the evidence on: what the search
-- and the reranker return is packed before.
pub mod Answers
use ops_incident_core.Prelude.{
  ℕ, suc, Bool, true, false, not, ◌&&◌, ◌||◌, Option, none, some, String, List, [], ◌∷◌, ◌++◌, any,
  map, if◌then◌else◌, leb, ltb, ◌==◌, length, take, non_empty, when,
}
use text.Mathlib.Text.{◌==◌ as str_eq}
use ops_incident_core.Prelude.Text.{Text}
use ops_incident_core.Retrieval.Packing.{EvidenceItem}
use ops_incident_core.Retrieval.Intent.{
  Intent, code_location, config_lookup, api_contract, architecture, is_repo_lookup,
  investigate_supported,
}
use ops_incident_core.Investigation.Findings.{
  Entities, LogFindings, DeployFindings, IncidentMatch, is_of_type, listed, sorted_set,
}
use ops_incident_core.Investigation.Hypotheses.{
  Confidence, Hypothesis, Selection, fresh, first, is_low, with_assessment, generate_hypotheses,
  select_root_cause,
}
use ops_incident_core.Investigation.Timeline.{TimelineEvent, build_timeline}
use ops_incident_core.Investigation.Confidence.{source_types_of, score_confidence}

-- The answer: the sentence and what is filled in, with `[1]`, `[2]`, … as their numbers.
pub data Answer : Type 0 where
  no_evidence : Answer
  repository_lookup : List String → List ℕ → Answer
  hedged_assessment leading_assessment : String → List ℕ → Answer

-- The labels that `build_citations` gives to the items.
abbrev pub labels_from : ℕ → List EvidenceItem → List ℕ
labels_from n [] = []
labels_from n (item ∷ items) = suc n ∷ labels_from (suc n) items

unfoldable pub build_cited_answer : List EvidenceItem → Hypothesis → Bool → List String → Answer
build_cited_answer [] h supported missing = no_evidence
build_cited_answer (item ∷ items) h supported missing =
    let cited = take 3 (item ∷ items) in
    if not supported
    then repository_lookup (map (λ (i : EvidenceItem). i.document_path) cited) (labels_from 0 cited)
    else if is_low h.confidence || non_empty missing
    then hedged_assessment h.summary (labels_from 0 cited)
    else leading_assessment h.summary (labels_from 0 cited)

unfoldable pub unsupported_investigation_guidance : Intent → List String → String
unsupported_investigation_guidance code_location missing =
    "Use cited evidence search or answer mode for code-location questions; incident investigation is not the right mode for this query."
unsupported_investigation_guidance config_lookup missing =
    "Use cited evidence search or answer mode for config/API questions; incident investigation requires runtime evidence."
unsupported_investigation_guidance api_contract missing =
    "Use cited evidence search or answer mode for config/API questions; incident investigation requires runtime evidence."
unsupported_investigation_guidance architecture missing =
    "Use cited evidence search or answer mode for architecture questions; incident investigation requires runtime or change evidence."
unsupported_investigation_guidance intent missing =
    if non_empty missing
    then "Add the missing runtime, deploy, or incident evidence before expecting a confident root-cause investigation."
    else "Incident investigation is not supported for this evidence mix."

unfoldable pub missing_data :
    List EvidenceItem → LogFindings → DeployFindings → List IncidentMatch → List String
missing_data evidence logs deploys incidents =
    when (deploys.diff_count == 0) "deployment history not found"
    ++ when (logs.timestamped_logs == 0) "logs missing timestamps"
    ++ when (not (non_empty incidents)) "no previous incident reports"
    ++ when (not (any (is_of_type "deploy") evidence)) "no code diff found"
    ++ when (not (any (λ item. is_of_type "runbook" item || is_of_type "api_doc" item) evidence))
        "no service ownership docs"

-- The fields of `InvestigationResult` that this part of the function fills.
pub record Investigation : Type 0 where
  pub investigation_supported : Bool
  pub timeline : List TimelineEvent
  pub hypotheses : List Hypothesis
  pub likely_root_cause : Hypothesis
  pub confidence : Confidence
  pub confidence_reasons : List String
  pub affected_services : List String
  pub suggested_fix : Option String
  pub unknowns : List String
  pub answer : Answer

-- The selected object, before and after the assignments to it.
abbrev selected_object : Selection → Hypothesis
selected_object (fresh h) = h
selected_object (first h) = h

-- The list of hypotheses once its first object, if that is the one selected, has been assigned to.
abbrev pub replace_first : Selection → Hypothesis → List Hypothesis → List Hypothesis
replace_first (fresh _) h hypotheses = hypotheses
replace_first (first _) h [] = []
replace_first (first _) h (_ ∷ others) = h ∷ others

unfoldable pub investigate :
    Intent
    → Entities
    → List EvidenceItem
    → LogFindings
    → DeployFindings
    → List IncidentMatch
    → Investigation
unfolding generate_hypotheses select_root_cause build_timeline missing_data investigate_supported
    score_confidence build_cited_answer unsupported_investigation_guidance sorted_set
    source_types_of
investigate intent entities evidence logs deploys incidents =
    let generated = generate_hypotheses evidence logs deploys incidents in
    let selection = select_root_cause generated in
    let missing = missing_data evidence logs deploys incidents in
    let support = investigate_supported intent (source_types_of evidence) in
    let supported : Bool = support.0 in
    let scored =
      score_confidence intent supported support.1 entities evidence logs incidents missing in
    let before = selected_object selection in
    let summary =
      if not supported && is_repo_lookup intent
      then "This query is better handled as cited evidence lookup than as a runtime root-cause investigation."
      else before.summary in
    let after = with_assessment before summary scored.0 in
    record {
      investigation_supported = supported;
      timeline = build_timeline evidence incidents;
      hypotheses = replace_first selection after generated;
      likely_root_cause = after;
      confidence = scored.0;
      confidence_reasons = scored.1;
      affected_services = sorted_set (listed entities.service_name ++ logs.services);
      suggested_fix =
          if not supported
          then some (unsupported_investigation_guidance intent missing)
          else if not (is_low scored.0)
          then some
              "Validate the leading hypothesis against deploy history, recent logs, and ownership documentation before taking action."
          else none;
      unknowns = missing;
      answer = build_cited_answer evidence after supported missing;
    }
