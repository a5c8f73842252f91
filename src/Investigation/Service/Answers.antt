-- ===== src/Investigation/Service/Answers.antt =====
-- What an investigation claims, and on which evidence.
use ops_incident_core.Prelude.{
  ◌≤◌, ◌≡◌, refl, ap, ◌∙◌, Bool, true, false, not, ◌&&◌, ◌||◌, Option, none, some, String, List, [],
  ◌∷◌, arith, any, length, if◌then◌else◌, ltb, non_empty, is_some,
}
use ops_incident_core.Retrieval.Packing.{EvidenceItem}
use ops_incident_core.Retrieval.Intent.{Intent}
use ops_incident_core.Investigation.Findings.{
  Entities, LogFindings, DeployFindings, IncidentMatch, is_of_type,
}
use ops_incident_core.Investigation.Hypotheses.{
  Hypothesis, is_low, generate_hypotheses, select_root_cause, Selection, fresh, first,
}
use ops_incident_core.Investigation.Hypotheses.Ranking.{generate_hypotheses_lem, is_first}
use ops_incident_core.Investigation.Service.{
  Answer, leading_assessment, investigate, build_cited_answer, missing_data, replace_first,
}

-- An answer that states its assessment without reserve.
abbrev pub is_leading : Answer → Bool
is_leading (leading_assessment s labels) = true
is_leading _ = false

-- Every kind of evidence that an assessment is checked against.
abbrev pub complete_evidence :
    List EvidenceItem → LogFindings → DeployFindings → List IncidentMatch → Bool
complete_evidence evidence logs deploys incidents =
    ltb 0 deploys.diff_count
    && ltb 0 logs.timestamped_logs
    && non_empty incidents
    && any (is_of_type "deploy") evidence
    && any (λ item. is_of_type "runbook" item || is_of_type "api_doc" item) evidence

missing_data_lem :
    (evidence : List EvidenceItem) (logs : LogFindings) (deploys : DeployFindings)
    (incidents : List IncidentMatch)
    → not (non_empty (missing_data evidence logs deploys incidents))
      ≡ complete_evidence evidence logs deploys incidents
unfolding missing_data
missing_data_lem evidence logs deploys incidents = ground arith

is_leading-build_cited_answer :
    (evidence : List EvidenceItem) (h : Hypothesis) (supported : Bool) (missing : List String)
    → is_leading (build_cited_answer evidence h supported missing)
      ≡ (non_empty evidence && supported && not (is_low h.confidence) && not (non_empty missing))
unfolding build_cited_answer
is_leading-build_cited_answer [] h supported missing = refl
is_leading-build_cited_answer (item ∷ items) h supported missing = ground arith

abbrev pub head : List Hypothesis → Option Hypothesis
head [] = none
head (h ∷ hs) = some h

head-replace_first :
    (s : Selection) (h : Hypothesis) (hypotheses : List Hypothesis)
    → is_first s ≡ true
    → 1 ≤ length hypotheses
    → head (replace_first s h hypotheses) ≡ some h
head-replace_first (fresh _) h hypotheses e l = ground arith
head-replace_first (first _) h [] e l = ground arith
head-replace_first (first _) h (x ∷ xs) e l = refl

suggests :
    (supported confident : Bool) (a b : String)
    → is_some (if not supported then some a else if confident then some b else none)
      ≡ (not supported || confident)
suggests supported confident a b = ground arith

-- An investigation states its assessment without reserve exactly when there is evidence, the query
-- is supported by its types, the confidence is above low and no kind of evidence is missing; it
-- suggests nothing exactly when it is supported and the confidence is low; and the root cause that
-- it reports is the first of the hypotheses that it lists.
pub investigate_lem :
    (intent : Intent) (entities : Entities) (evidence : List EvidenceItem) (logs : LogFindings)
    (deploys : DeployFindings) (incidents : List IncidentMatch)
    → let result = investigate intent entities evidence logs deploys incidents in
      (is_leading result.answer ≡ (
        non_empty evidence
        && result.investigation_supported
        && not (is_low result.confidence)
        && complete_evidence evidence logs deploys incidents))
      × (is_some result.suggested_fix
          ≡ (not result.investigation_supported || not (is_low result.confidence)))
      × (head result.hypotheses ≡ some result.likely_root_cause)
unfolding investigate
investigate_lem intent entities evidence logs deploys incidents =
    let result = investigate intent entities evidence logs deploys incidents in
    let generated = generate_hypotheses evidence logs deploys incidents in
    let ranking = generate_hypotheses_lem evidence logs deploys incidents in
    (
      is_leading-build_cited_answer evidence result.likely_root_cause result.investigation_supported
            result.unknowns
          ∙ ap
              (λ complete.
                non_empty evidence
                && result.investigation_supported
                && not (is_low result.confidence)
                && complete)
              (missing_data_lem evidence logs deploys incidents),
      suggests result.investigation_supported (not (is_low result.confidence)) _ _,
      head-replace_first (select_root_cause generated) result.likely_root_cause generated ranking.3
          ranking.1,
    )
