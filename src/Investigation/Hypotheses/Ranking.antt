-- ===== src/Investigation/Hypotheses/Ranking.antt =====
-- The ranking of the generated hypotheses and the one that is selected.
use ops_incident_core.Prelude.{
  ◌≤◌, ◌≡◌, refl, Bool, true, false, not, ◌&&◌, ◌||◌, String, List, [], ◌∷◌, ◌++◌, arith, map,
  if◌then◌else◌, ltb, take, length, non_empty, sort_by, when, IsOrder, IsSortedBy,
  sort_by-IsSortedBy,
}
use ops_incident_core.Retrieval.Packing.{EvidenceItem}
use ops_incident_core.Investigation.Findings.{LogFindings, DeployFindings, IncidentMatch}
use ops_incident_core.Investigation.Hypotheses.{
  Hypothesis, ranks_before, generate_hypotheses, select_root_cause, Selection, deploy_hypothesis,
  timeout_hypothesis, error_hypothesis, incident_hypotheses, weak_hypothesis, fresh, first,
  insufficient, is_low, makes_unsupported_claim,
}

ranks_before-IsOrder : IsOrder ranks_before
ranks_before-IsOrder = record {
  total = λ (a b : Hypothesis) (h : ranks_before a b ≡ false). ground arith;
  trans = λ (a b c : Hypothesis) (h : ranks_before a b ≡ true) (k : ranks_before b c ≡ true).
      ground arith;
}

-- What was found for a deploy, and whether there is anything to make a hypothesis of.
abbrev pub deploy_suspected : LogFindings → DeployFindings → Bool
deploy_suspected logs deploys = ltb 0 logs.slow_requests && ltb 0 deploys.diff_count

abbrev pub anything_found : LogFindings → DeployFindings → List IncidentMatch → Bool
anything_found logs deploys incidents =
    deploy_suspected logs deploys || ltb 0 logs.timeouts || ltb 0 logs.errors || non_empty incidents

-- The selected hypothesis, however it was made.
abbrev pub selected : Selection → Hypothesis
selected (fresh h) = h
selected (first h) = h

abbrev pub is_first : Selection → Bool
is_first (fresh h) = false
is_first (first h) = true

-- The hypotheses, by what was found.
abbrev candidates : Bool → Bool → Bool → List String → List IncidentMatch → List Hypothesis
candidates d t e ids incidents =
    let found =
      when d (deploy_hypothesis ids)
      ++ when t (timeout_hypothesis ids)
      ++ when e (error_hypothesis ids)
      ++ incident_hypotheses incidents in
    if non_empty found then found else weak_hypothesis ids ∷ []

abbrev ranked : Bool → Bool → Bool → List String → List IncidentMatch → List Hypothesis
ranked d t e ids incidents = sort_by ranks_before (candidates d t e ids incidents)

abbrev IsRanked : Bool → List Hypothesis → Type 0
IsRanked d hypotheses =
    (1 ≤ length hypotheses)
    × (length hypotheses ≤ 4)
    × (is_first (select_root_cause hypotheses) ≡ true)
    × (is_low (selected (select_root_cause hypotheses)).confidence ≡ not d)
    × (d ≡ false → (selected (select_root_cause hypotheses)).summary ≡ insufficient)

ranked-IsRanked :
    (d t e : Bool) (ids : List String) (incidents : List IncidentMatch)
    → IsRanked d (ranked d t e ids incidents)
unfolding select_root_cause makes_unsupported_claim
ranked-IsRanked true true true ids [] =
    (omega arith, omega arith, refl, refl, λ (h : true ≡ false). ground arith)
ranked-IsRanked true true true ids (top ∷ rest) =
    (omega arith, omega arith, refl, refl, λ (h : true ≡ false). ground arith)
ranked-IsRanked true true false ids [] =
    (omega arith, omega arith, refl, refl, λ (h : true ≡ false). ground arith)
ranked-IsRanked true true false ids (top ∷ rest) =
    (omega arith, omega arith, refl, refl, λ (h : true ≡ false). ground arith)
ranked-IsRanked true false true ids [] =
    (omega arith, omega arith, refl, refl, λ (h : true ≡ false). ground arith)
ranked-IsRanked true false true ids (top ∷ rest) =
    (omega arith, omega arith, refl, refl, λ (h : true ≡ false). ground arith)
ranked-IsRanked true false false ids [] =
    (omega arith, omega arith, refl, refl, λ (h : true ≡ false). ground arith)
ranked-IsRanked true false false ids (top ∷ rest) =
    (omega arith, omega arith, refl, refl, λ (h : true ≡ false). ground arith)
ranked-IsRanked false true true ids [] = (omega arith, omega arith, refl, refl, λ _. refl)
ranked-IsRanked false true true ids (top ∷ rest) = (omega arith, omega arith, refl, refl, λ _. refl)
ranked-IsRanked false true false ids [] = (omega arith, omega arith, refl, refl, λ _. refl)
ranked-IsRanked false true false ids (top ∷ rest) =
    (omega arith, omega arith, refl, refl, λ _. refl)
ranked-IsRanked false false true ids [] = (omega arith, omega arith, refl, refl, λ _. refl)
ranked-IsRanked false false true ids (top ∷ rest) =
    (omega arith, omega arith, refl, refl, λ _. refl)
ranked-IsRanked false false false ids [] = (omega arith, omega arith, refl, refl, λ _. refl)
ranked-IsRanked false false false ids (top ∷ rest) =
    (omega arith, omega arith, refl, refl, λ _. refl)

-- There are between one and four hypotheses, the best first. The selected one is always the best
-- of them, which makes no unsupported claim; it is assessed above low exactly when the logs show
-- slow requests and a deploy was found, and as insufficient otherwise.
pub generate_hypotheses_lem :
    (evidence : List EvidenceItem) (logs : LogFindings) (deploys : DeployFindings)
    (incidents : List IncidentMatch)
    → let hypotheses = generate_hypotheses evidence logs deploys incidents in
      let selection = select_root_cause hypotheses in
      IsSortedBy ranks_before hypotheses
      × (1 ≤ length hypotheses)
      × (length hypotheses ≤ 4)
      × (is_first selection ≡ true)
      × (is_low (selected selection).confidence ≡ not (deploy_suspected logs deploys))
      × (deploy_suspected logs deploys ≡ false → (selected selection).summary ≡ insufficient)
unfolding generate_hypotheses
generate_hypotheses_lem evidence logs deploys incidents =
    let ids = map (λ (item : EvidenceItem). item.chunk_id) (take 6 evidence) in
    let t : Bool = ltb 0 logs.timeouts in
    let e : Bool = ltb 0 logs.errors in
    let h =
      ranked-IsRanked (deploy_suspected logs deploys) (ltb 0 logs.timeouts) (ltb 0 logs.errors) ids
        incidents in
    (
      sort_by-IsSortedBy ranks_before ranks_before-IsOrder
          (candidates (deploy_suspected logs deploys) t e ids incidents),
      h.0,
      h.1,
      h.2,
      h.3,
      h.4,
    )
