-- ===== src/Examples/Searches.antt =====
-- A search with a branch that fails.
use ops_incident_core.Prelude.{
  ℕ, true, false, ◌+◌, min, ◌≡◌, refl, ◌||◌, none, some, String, [], ◌∷◌, ◌++◌, map, length, drop,
  Perm, IsSortedBy,
}
use ops_incident_core.Prelude.Int.{pos}
use ops_incident_core.Ingestion.Failures.Taxonomy.{total}
use ops_incident_core.Retrieval.Intent.{classify_query_intent}
use ops_incident_core.Retrieval.Hybrid.Sources.{Found}
use ops_incident_core.Retrieval.Hybrid.Boost.{QueryInfo}
use ops_incident_core.Retrieval.Hybrid.Fusion.{
  Branches, FusionSettings, weighted_rrf, add_hits, add_hit, count_hit, new_entry, set_score,
  set_rank, share,
}
use ops_incident_core.Retrieval.Hybrid.Fusion.Sums.{
  shares, score_of, is_candidate, is_hit, HasUniqueChunks, weighted_rrf_lem,
}
use ops_incident_core.Retrieval.Hybrid.Search.{
  Services, returned, raised, Scored, ranks_ahead, rank_all, rank_branches, query_embedding,
  hybrid_search,
}
use ops_incident_core.Retrieval.Hybrid.Search.Ranking.{rank_branches_lem}
use ops_incident_core.Retrieval.Hybrid.Search.Failing.{absorbed, is_returned, hybrid_search_lem}
use ops_incident_core.Examples.Evidence.{log_chunk, query}

abbrev found : Found
found = record {
  chunk = log_chunk;
  metadata = record { texts = []; lists = []; has_runtime = true; has_incident = false };
}

abbrev other_found : Found
other_found = record found { chunk = record log_chunk { id = "c2" } }

abbrev fusion_settings : FusionSettings
fusion_settings = record {
  vector_weight = pos 650000;
  lexical_weight = pos 350000;
  metadata_weight = pos 200000;
  rag_graph_weight = pos 100000;
  rag_rrf_k = 60;
  rag_candidate_multiplier = 4;
}

abbrev some_branches : Branches
some_branches = record {
  vector_results = record { found = found; score = some (pos 9) } ∷ [];
  lexical_results =
      record { found = other_found; score = some (pos 7) }
      ∷ record { found = found; score = none }
      ∷ [];
  metadata_results = [];
  graph_results = [];
}

-- The chunk of both branches comes first, with 65/61 + 35/62 of its weights.
fuses_ranks :
    map {B = String × ℕ}
      (λ e. (e.found.chunk.id, e.rrf_score))
      (weighted_rrf fusion_settings some_branches)
    ≡ ("c1", 1630089) ∷ ("c2", 573770) ∷ []
unfolding weighted_rrf add_hits add_hit count_hit new_entry set_score set_rank share
fuses_ranks = refl

weighted_rrf_lem_example :
    HasUniqueChunks (weighted_rrf fusion_settings some_branches)
    × (is_candidate "c1" (weighted_rrf fusion_settings some_branches) ≡ (
        is_hit "c1" some_branches.vector_results
        || is_hit "c1" some_branches.lexical_results
        || is_hit "c1" []
        || is_hit "c1" []))
    × (score_of "c1" (weighted_rrf fusion_settings some_branches)
        ≡ shares (pos 650000) 60 1 some_branches.vector_results "c1"
          + shares (pos 350000) 60 1 some_branches.lexical_results "c1"
          + shares (pos 200000) 60 1 [] "c1"
          + shares (pos 100000) 60 1 [] "c1")
weighted_rrf_lem_example = weighted_rrf_lem fusion_settings some_branches "c1"

abbrev info : QueryInfo
info = record { services = []; deploy_hashes = []; endpoints = []; query_terms = [] }

rank_branches_lem_example :
    let (results, debug) =
      rank_branches fusion_settings info (classify_query_intent query) 1 (some_branches, []) in
    let left_out =
      drop 1 (rank_all fusion_settings info (classify_query_intent query) some_branches) in
    IsSortedBy ranks_ahead (results ++ left_out)
    × Perm (map Scored.entry (results ++ left_out)) (weighted_rrf fusion_settings some_branches)
    × (length results ≡ min 1 debug.merged_candidates_count)
    × (total debug.mix.source_types ≡ length results)
    × (total debug.mix.chunk_types ≡ length results)
rank_branches_lem_example =
    rank_branches_lem fusion_settings info (classify_query_intent query) 1 (some_branches, [])

-- The search by words is late.
abbrev services : Services
services = record {
  embed_query = returned (pos 1 ∷ []);
  vector_search = λ embedding k. returned some_branches.vector_results;
  lexical_search = λ k. raised "timeout";
  metadata_search = λ k. returned [];
  graph_search = λ k. returned [];
}

hybrid_search_lem_example :
    (is_returned (hybrid_search services fusion_settings info query 5)
      ≡ is_returned (query_embedding services (classify_query_intent query).intent))
    × (hybrid_search services fusion_settings info query 5
        ≡ hybrid_search (absorbed services) fusion_settings info query 5)
hybrid_search_lem_example = hybrid_search_lem services fusion_settings info query 5
