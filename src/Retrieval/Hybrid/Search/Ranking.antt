-- ===== src/Retrieval/Hybrid/Search/Ranking.antt =====
-- What a search returns of its candidates, and what its report counts.
use mathlib.Core.List.Perm
use ops_incident_core.Prelude.{
  ℕ, ◌+◌, ◌≡◌, refl, ap, ◌∙◌, subst, true, false, String, List, [], ◌∷◌, ◌++◌, arith, map, length,
  length-map, length-take, take, drop, take-append-drop, min, sort_by, sort_by-perm, length-sort_by,
  Perm, IsOrder, IsSortedBy, sort_by-IsSortedBy,
}
use ops_incident_core.Prelude.Text.{Text}
use ops_incident_core.Ingestion.Failures.{increment}
use ops_incident_core.Ingestion.Failures.Taxonomy.{total, total-increment}
use ops_incident_core.Retrieval.Intent.{QueryIntent}
use ops_incident_core.Retrieval.Hybrid.Boost.{QueryInfo}
use ops_incident_core.Retrieval.Hybrid.Fusion.{Entry, Branches, FusionSettings, weighted_rrf}
use ops_incident_core.Retrieval.Hybrid.Search.{
  Scored, score_entry, ranks_ahead, rank_all, count_types, evidence_mix, rank_branches,
}

ranks_ahead-IsOrder : IsOrder ranks_ahead
ranks_ahead-IsOrder = record {
  total = λ (a b : Scored) (h : ranks_ahead a b ≡ false). ground arith;
  trans =
      λ (a b c : Scored) (h : ranks_ahead a b ≡ true) (k : ranks_ahead b c ≡ true). ground arith;
}

entries-score_entry :
    (info : QueryInfo) (intent : QueryIntent) (entries : List Entry)
    → map Scored.entry (map (score_entry info intent) entries) ≡ entries
unfolding score_entry
entries-score_entry info intent [] = refl
entries-score_entry info intent (e ∷ es) = ap (λ xs. e ∷ xs) (entries-score_entry info intent es)

total-count_types :
    (key : Scored → Text) (items : List Scored) (counts : List (Text × ℕ))
    → total (count_types key items counts) ≡ length items + total counts
unfolding count_types
total-count_types key [] counts = omega arith
total-count_types key (item ∷ items) counts = omega (
  arith,
  total-count_types key items (increment (key item) counts),
  total-increment (key item) counts,
)

rank_all_lem :
    (settings : FusionSettings) (info : QueryInfo) (intent : QueryIntent) (branches : Branches)
    → let ranked = rank_all settings info intent branches in
      IsSortedBy ranks_ahead ranked
      × Perm (map Scored.entry ranked) (weighted_rrf settings branches)
unfolding rank_all
rank_all_lem settings info intent branches =
    let scored = map (score_entry info intent) (weighted_rrf settings branches) in
    (
      sort_by-IsSortedBy ranks_ahead ranks_ahead-IsOrder scored,
      subst (λ es. Perm (map Scored.entry (sort_by ranks_ahead scored)) es)
          (entries-score_entry info intent (weighted_rrf settings branches))
          (Perm.map Scored.entry (sort_by-perm ranks_ahead scored)),
    )

length-rank_all :
    (settings : FusionSettings) (info : QueryInfo) (intent : QueryIntent) (branches : Branches)
    → length (rank_all settings info intent branches) ≡ length (weighted_rrf settings branches)
unfolding rank_all
length-rank_all settings info intent branches =
    length-sort_by ranks_ahead (map (score_entry info intent) (weighted_rrf settings branches))
    ∙ length-map (weighted_rrf settings branches) (score_entry info intent)

-- The results are the best candidates: followed by the candidates that are left out they are all
-- the candidates, each once, in the order of the fused scores, and there are as many of them as
-- were asked for or as there are candidates. The report counts every result under one type of
-- source and one type of chunk.
pub rank_branches_lem :
    (settings : FusionSettings) (info : QueryInfo) (intent : QueryIntent) (top_k : ℕ)
    (found : Branches × List (String × String))
    → let (results, debug) = rank_branches settings info intent top_k found in
      let left_out = drop top_k (rank_all settings info intent found.0) in
      IsSortedBy ranks_ahead (results ++ left_out)
      × Perm (map Scored.entry (results ++ left_out)) (weighted_rrf settings found.0)
      × (length results ≡ min top_k debug.merged_candidates_count)
      × (total debug.mix.source_types ≡ length results)
      × (total debug.mix.chunk_types ≡ length results)
unfolding rank_branches evidence_mix
rank_branches_lem settings info intent top_k found =
    let ranked = rank_all settings info intent found.0 in
    let (sorted, same) = rank_all_lem settings info intent found.0 in
    (
      rw (take-append-drop top_k ranked) sorted,
      rw (take-append-drop top_k ranked) same,
      length-take top_k ranked
          ∙ ap (λ n. min top_k n) (length-rank_all settings info intent found.0),
      total-count_types _ (take top_k ranked) [] ∙ omega arith,
      total-count_types _ (take top_k ranked) [] ∙ omega arith,
    )
