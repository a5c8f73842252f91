-- ===== src/Retrieval/Hybrid/Search.antt =====
-- `hybrid_search_with_debug` and the functions that it calls: the branches with their failures, the
-- fallback, the ranking and the report on it. Metrics, latencies and the cache of `query_info` are
-- left out, and so is the choice between one session and one for each branch.
pub mod Ranking
pub mod Failing
use ops_incident_core.Prelude.{
  ℕ, ◌+◌, ◌*◌, max, Bool, true, false, not, ◌&&◌, ◌||◌, Option, none, some, String, List, [], ◌∷◌,
  ◌++◌, map, select, take, drop, if◌then◌else◌, length, non_empty, sort_by,
}
use ops_incident_core.Prelude.Int.{ℤ, pos, pos_part, neg_part, sub_ℕ, leb_ℤ}
use ops_incident_core.Prelude.Text.{Text, codes, contains}
use ops_incident_core.Ingestion.Failures.{increment, key_leb}
use ops_incident_core.Retrieval.Packing.{text_leb}
use ops_incident_core.Retrieval.Intent.{
  Intent, code_location, architecture, config_lookup, api_contract, runtime_incident,
  deploy_regression, QueryIntent, classify_query_intent,
}
use ops_incident_core.Retrieval.Hybrid.Sources.{Found, chunk_source_type}
use ops_incident_core.Retrieval.Hybrid.Boost.{QueryInfo, metadata_boost, capped_boost}
use ops_incident_core.Retrieval.Hybrid.Fusion.{Hit, Entry, Branches, FusionSettings, weighted_rrf}

-- What an awaited call does: it returns, or it raises; a time-out is an error of the name
-- `timeout`.
pub data Outcome {ℓ} (A : Type ℓ) : Type ℓ where
  returned : A → Outcome A
  raised : String → Outcome A

-- What a search calls: the embedding of its query, and each branch by the number of results asked.
pub record Services : Type 0 where
  pub embed_query : Outcome (List ℤ)
  pub vector_search : List ℤ → ℕ → Outcome (List Hit)
  pub lexical_search : ℕ → Outcome (List Hit)
  pub metadata_search : ℕ → Outcome (List Hit)
  pub graph_search : ℕ → Outcome (List Hit)

abbrev pub is_exact_lookup : Intent → Bool
is_exact_lookup code_location = true
is_exact_lookup config_lookup = true
is_exact_lookup api_contract = true
is_exact_lookup _ = false

abbrev is_architecture : Intent → Bool
is_architecture architecture = true
is_architecture _ = false

unfoldable pub fetch_budget : FusionSettings → ℕ → Intent → ℕ
fetch_budget settings top_k runtime_incident =
    max (top_k * max (max 1 settings.rag_candidate_multiplier) 4) 30
fetch_budget settings top_k deploy_regression =
    max (top_k * max (max 1 settings.rag_candidate_multiplier) 4) 30
fetch_budget settings top_k intent =
    max (top_k * (if is_exact_lookup intent then 3 else max 1 settings.rag_candidate_multiplier)) 30

-- `_run`: the results of a branch, and the entry of `errors` for it.
abbrev pub hits_of : Outcome (List Hit) → List Hit
hits_of (returned hits) = hits
hits_of (raised error) = []

abbrev error_of : String → Outcome (List Hit) → List (String × String)
error_of name (returned hits) = []
error_of name (raised error) = (name, error) ∷ []

unfoldable pub retrieve_branches :
    Services → Intent → List ℤ → ℕ → Branches × List (String × String)
retrieve_branches services intent embedding fetch_k =
    let vector =
      if non_empty embedding then services.vector_search embedding fetch_k else returned [] in
    let lexical = services.lexical_search fetch_k in
    let metadata = services.metadata_search fetch_k in
    let graph = if is_architecture intent then services.graph_search fetch_k else returned [] in
    (
      record {
        vector_results = hits_of vector;
        lexical_results = hits_of lexical;
        metadata_results = hits_of metadata;
        graph_results = hits_of graph;
      },
      error_of "vector" vector
          ++ error_of "lexical" lexical
          ++ error_of "metadata" metadata
          ++ error_of "graph" graph,
    )

unfoldable pub should_vector_fallback : Bool → Branches → Bool
should_vector_fallback skip_vector branches =
    skip_vector
    && not (
        non_empty branches.lexical_results
        || non_empty branches.metadata_results
        || non_empty branches.graph_results)

-- The lookup of the fallback: the embedding, then the branch of vectors.
abbrev pub lookup_vector : Outcome (List ℤ) → (List ℤ → Outcome (List Hit)) → Outcome (List Hit)
lookup_vector (returned embedding) search = search embedding
lookup_vector (raised error) search = raised error

abbrev pub with_fallback :
    Outcome (List Hit) → Branches × List (String × String) → Branches × List (String × String)
with_fallback (returned hits) (branches, errors) =
    (record branches { vector_results = hits }, errors)
with_fallback (raised error) (branches, errors) =
    (branches, errors ++ (("vector_fallback", error) ∷ []))

abbrev pub fall_back :
    Bool → Services → ℕ → Branches × List (String × String) → Branches × List (String × String)
fall_back needed services fetch_k found =
    if needed
    then with_fallback (lookup_vector services.embed_query (λ e. services.vector_search e fetch_k))
        found
    else found

unfoldable pub gather : Services → Intent → List ℤ → ℕ → Branches × List (String × String)
unfolding retrieve_branches should_vector_fallback
gather services intent embedding fetch_k =
    let found = retrieve_branches services intent embedding fetch_k in
    fall_back (should_vector_fallback (is_exact_lookup intent) found.0) services fetch_k found

-- An entry with its boost, in hundredths, its reasons and its score, in millionths.
pub record Scored : Type 0 where
  pub entry : Entry
  pub metadata_boost : ℤ
  pub metadata_boost_reasons : List Text
  pub fused_score : ℤ

unfoldable pub fuse_score : ℕ → ℤ → ℤ
fuse_score rrf boost = sub_ℕ (rrf + pos_part boost * 10000) (neg_part boost * 10000)

unfoldable pub score_entry : QueryInfo → QueryIntent → Entry → Scored
unfolding fuse_score metadata_boost capped_boost
score_entry info intent entry =
    let boost = capped_boost info intent entry.found in
    record {
      entry = entry;
      metadata_boost = boost;
      metadata_boost_reasons = (metadata_boost info intent entry.found).1;
      fused_score = fuse_score entry.rrf_score boost;
    }

abbrev pub ranks_ahead : Scored → Scored → Bool
ranks_ahead a b = leb_ℤ b.fused_score a.fused_score

unfoldable pub rank_all : FusionSettings → QueryInfo → QueryIntent → Branches → List Scored
unfolding weighted_rrf score_entry
rank_all settings info intent branches =
    sort_by ranks_ahead (map (score_entry info intent) (weighted_rrf settings branches))

-- `_evidence_mix`
pub record EvidenceMix : Type 0 where
  pub source_types : List (Text × ℕ)
  pub chunk_types : List (Text × ℕ)

unfoldable pub count_types : (Scored → Text) → List Scored → List (Text × ℕ) → List (Text × ℕ)
unfolding increment
count_types key [] counts = counts
count_types key (item ∷ items) counts = count_types key items (increment (key item) counts)

abbrev chunk_type_or_unknown : Text → Text
chunk_type_or_unknown [] = codes "unknown"
chunk_type_or_unknown (c ∷ cs) = c ∷ cs

unfoldable pub evidence_mix : List Scored → EvidenceMix
unfolding count_types chunk_source_type
evidence_mix ranked = record {
  source_types = count_types (λ item. chunk_source_type item.entry.found.chunk) ranked [];
  chunk_types =
      count_types (λ item. chunk_type_or_unknown (codes item.entry.found.chunk.chunk_type)) ranked
        [];
}

unfoldable pub count_reasons : Bool → List Text → List (Text × ℕ) → List (Text × ℕ)
unfolding increment contains
count_reasons positive [] counts = counts
count_reasons positive (reason ∷ reasons) counts =
    let is_penalty : Bool = contains reason (codes "penalty") in
    count_reasons positive reasons (
      if (positive && not is_penalty) || (not positive && is_penalty)
      then increment reason counts
      else counts)

abbrev reasons_of : List Scored → List Text
reasons_of [] = []
reasons_of (item ∷ items) = item.metadata_boost_reasons ++ reasons_of items

unfoldable pub reason_counts : List Scored → Bool → List (Text × ℕ)
unfolding count_reasons text_leb
reason_counts ranked positive = sort_by key_leb (count_reasons positive (reasons_of ranked) [])

-- `_top_rejected_candidates`: the id of the chunk and whether its score is low.
unfoldable pub top_rejected_candidates : List Scored → ℕ → List (String × Bool)
top_rejected_candidates ranked top_k =
    map (λ (item : Scored). (item.entry.found.chunk.id, not (leb_ℤ (pos 150000) item.fused_score)))
      (take 5 (drop top_k ranked))

pub record SearchDebug : Type 0 where
  pub merged_candidates_count : ℕ
  pub retrieval_branch_failures : List (String × String)
  pub mix : EvidenceMix
  pub applied_boosts : List (Text × ℕ)
  pub applied_penalties : List (Text × ℕ)
  pub top_rejected : List (String × Bool)

unfoldable pub rank_branches :
    FusionSettings
    → QueryInfo
    → QueryIntent
    → ℕ
    → Branches × List (String × String)
    → List Scored × SearchDebug
unfolding weighted_rrf rank_all evidence_mix reason_counts top_rejected_candidates
rank_branches settings info intent top_k (branches, errors) =
    let ranked_all = rank_all settings info intent branches in
    let ranked = take top_k ranked_all in
    (
      ranked,
      record {
        merged_candidates_count = length (weighted_rrf settings branches);
        retrieval_branch_failures = errors;
        mix = evidence_mix ranked;
        applied_boosts = reason_counts ranked true;
        applied_penalties = reason_counts ranked false;
        top_rejected = top_rejected_candidates ranked_all top_k;
      },
    )

-- The embedding of the query: none for an exact lookup; an error of it ends the search.
abbrev pub query_embedding : Services → Intent → Outcome (List ℤ)
query_embedding services intent =
    if is_exact_lookup intent then returned [] else services.embed_query

abbrev pub and_then {ℓ κ} : {A : Type ℓ} {B : Type κ} → Outcome A → (A → B) → Outcome B
and_then (returned a) f = returned (f a)
and_then (raised error) f = raised error

unfoldable pub hybrid_search_with_debug :
    Services → FusionSettings → QueryInfo → Text → ℕ → Outcome (List Scored × SearchDebug)
unfolding classify_query_intent fetch_budget gather rank_branches
hybrid_search_with_debug services settings info query top_k =
    let intent = classify_query_intent query in
    and_then (query_embedding services intent.intent) (λ embedding.
      rank_branches settings info intent top_k
        (gather services intent.intent embedding (fetch_budget settings top_k intent.intent)))

unfoldable pub hybrid_search :
    Services → FusionSettings → QueryInfo → Text → ℕ → Outcome (List Scored)
unfolding hybrid_search_with_debug
hybrid_search services settings info query top_k =
    and_then (hybrid_search_with_debug services settings info query top_k)
      (λ (r : List Scored × SearchDebug). r.0)
