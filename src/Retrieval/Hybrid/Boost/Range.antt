-- ===== src/Retrieval/Hybrid/Boost/Range.antt =====
-- How far metadata moves a candidate.
use ops_incident_core.Prelude.{
  ℕ, ◌+◌, ◌≤◌, ◌≡◌, Bool, true, false, List, [], ◌∷◌, ◌++◌, arith, when,
}
use ops_incident_core.Prelude.Int.{pos, pos_part, neg_part, sub_ℕ, min_ℤ}
use ops_incident_core.Prelude.Text.{Text, codes, lower, text_eq}
use ops_incident_core.Retrieval.Intent.{
  Intent, code_location, config_lookup, api_contract, QueryIntent,
}
use ops_incident_core.Retrieval.Hybrid.Sources.{Found, path_of, chunk_source_type}
use ops_incident_core.Retrieval.Hybrid.Boost.{
  QueryInfo, Reason, gains, penalties, runbook_penalties, should_penalize_readme, sum_reasons,
  metadata_boost, capped_boost,
}

sum_reasons-append :
    (xs ys : List Reason) → sum_reasons (xs ++ ys) ≡ sum_reasons xs + sum_reasons ys
unfolding sum_reasons
sum_reasons-append [] ys = omega arith
sum_reasons-append (x ∷ xs) ys = omega (arith, sum_reasons-append xs ys)

sum_when : (b : Bool) (r : Reason) → sum_reasons (when b r) ≤ r.1
unfolding sum_reasons
sum_when true r = omega arith
sum_when false r = omega arith

runbook_bound :
    (intent : Intent) (source_type : Text) → sum_reasons (runbook_penalties intent source_type) ≤ 24
unfolding runbook_penalties sum_reasons
runbook_bound code_location source_type = sum_when (text_eq source_type (codes "runbook")) _
runbook_bound api_contract source_type = sum_when (text_eq source_type (codes "runbook")) _
runbook_bound config_lookup source_type =
    omega (
      arith,
      sum_when (text_eq source_type (codes "runbook")) (codes "generic_runbook_penalty", 12),
    )
runbook_bound _ source_type = omega arith

penalties_bound : (intent : QueryIntent) (found : Found) → sum_reasons (penalties intent found) ≤ 34
unfolding penalties
penalties_bound intent found =
    let readme : List Reason =
      when (should_penalize_readme intent.intent (lower (path_of found.chunk)))
        (codes "readme_penalty", 10) in
    omega (
      arith,
      sum_reasons-append readme (runbook_penalties intent.intent (chunk_source_type found.chunk)),
      sum_when (should_penalize_readme intent.intent (lower (path_of found.chunk)))
          (codes "readme_penalty", 10),
      runbook_bound intent.intent (chunk_source_type found.chunk),
    )

capped :
    (gain penalty : ℕ)
    → penalty ≤ 34
    → (pos_part (min_ℤ (sub_ℕ gain penalty) (pos 45)) ≤ 45)
      × (neg_part (min_ℤ (sub_ℕ gain penalty) (pos 45)) ≤ 34)
unfolding min_ℤ
capped gain penalty h = ground arith

-- Metadata lifts the fused score of a candidate by 0.45 at most, however many reasons there are,
-- and lowers it by 0.34 at most.
pub capped_boost_lem :
    (info : QueryInfo) (intent : QueryIntent) (found : Found)
    → (pos_part (capped_boost info intent found) ≤ 45)
      × (neg_part (capped_boost info intent found) ≤ 34)
unfolding capped_boost metadata_boost
capped_boost_lem info intent found =
    capped (sum_reasons (gains info intent found)) (sum_reasons (penalties intent found))
      (penalties_bound intent found)
