-- ===== src/Retrieval/Reranking.antt =====
-- incidentops/retrieval/reranker.py: `rerank_with_debug` and `rerank_with_debug_async`, with
-- `remote_rerank` of incidentops/retrieval/model_gateway.py. Scores are thousandths here. The model
-- of the process and the answer of the remote server to a list of results are parameters.
pub mod Order
use ops_incident_core.Prelude.{
  ℕ, Bool, true, false, not, ◌&&◌, ◌||◌, Option, none, some, String, List, [], ◌∷◌, ◌++◌, any, map,
  if◌then◌else◌, leb, length, take, drop, min, or_default, sort_by, non_empty, ◌==◌,
}
use text.Mathlib.Text.{◌==◌ as str_eq}
use ops_incident_core.Prelude.Int.{ℤ, pos, ◌-ℤ◌, leb_ℤ}
use ops_incident_core.Prelude.Text.{codes, starts_with}
use ops_incident_core.Retrieval.Chunk.{Result, is_in}
use ops_incident_core.Retrieval.Hybrid.Search.{Outcome, returned, raised, and_then}

-- `settings.rag_rerank_mode`
pub data RerankMode : Type 0 where
  disabled conditional always : RerankMode

abbrev pub is_conditional : RerankMode → Bool
is_conditional conditional = true
is_conditional _ = false

pub record RerankSettings : Type 0 where
  pub rag_rerank_mode : RerankMode
  pub has_reranker_endpoint : Bool
  pub has_managed_identity : Bool
  pub has_remote_api_key : Bool
  pub rag_rerank_max_candidates : ℕ

-- An entry of the server's scores: a number, or what `float` raises on it.
pub data ScoreValue : Type 0 where
  number : ℤ → ScoreValue
  not_number : String → ScoreValue

-- What the request of `remote_rerank` comes to: an error of the HTTP library, another exception, as
-- of `json` and of `get`, or an answer, without a list of scores or with one.
pub data RerankResponse : Type 0 where
  http_error no_scores : RerankResponse
  request_raised : String → RerankResponse
  given_scores : List ScoreValue → RerankResponse

-- How `remote_rerank` ends: with scores, with a `RemoteModelError`, or with another exception.
pub data RemoteOutcome : Type 0 where
  has_scores : List ℤ → RemoteOutcome
  remote_model_error : RemoteOutcome
  remote_raised : String → RemoteOutcome

-- `[float(score) for score in scores]`
unfoldable pub floats : List ScoreValue → RemoteOutcome
floats [] = has_scores []
floats (not_number error ∷ values) = remote_raised error
floats (number s ∷ values) =
    let rest = floats values in
    elim rest [
      | has_scores scores ↦ has_scores (s ∷ scores)
      | remote_model_error ↦ remote_model_error
      | remote_raised error ↦ remote_raised error
    ]

unfoldable pub remote_rerank :
    RerankSettings → (List Result → RerankResponse) → List Result → RemoteOutcome
unfolding floats
remote_rerank settings post results =
    let candidates = take settings.rag_rerank_max_candidates results in
    if not settings.has_reranker_endpoint
      || not settings.has_managed_identity && not settings.has_remote_api_key
    then remote_model_error
    else elim (post candidates) [
      | http_error ↦ remote_model_error
      | no_scores ↦ remote_model_error
      | request_raised error ↦ remote_raised error
      | given_scores values ↦
          if length values == length candidates then floats values else remote_model_error
    ]

-- The entries "mode" of the second value returned, and the empty result.
pub data Mode : Type 0 where
  skipped heuristic cross_encoder fallback turned_off remote_cross_encoder : Mode

-- `r["rerank_score"] = score`
unfoldable pub with_score : Result → ℤ → Result
with_score r s = record {
  chunk = r.chunk;
  fused_score = r.fused_score;
  rerank_score = some s;
  vector_score = r.vector_score;
  lexical_score = r.lexical_score;
  metadata_boost_reasons = r.metadata_boost_reasons;
}

-- `for r, score in zip(results, scores)`: what has no score keeps what it had.
unfoldable pub assign_scores : List Result → List ℤ → List Result
unfolding with_score
assign_scores [] scores = []
assign_scores (r ∷ rs) [] = r ∷ rs
assign_scores (r ∷ rs) (s ∷ scores) = with_score r s ∷ assign_scores rs scores

-- The order by `x.get("rerank_score", 0)`, and the one by `fused_score`, the highest first.
abbrev pub reranked_before : Result → Result → Bool
reranked_before a b = leb_ℤ (or_default b.rerank_score (pos 0)) (or_default a.rerank_score (pos 0))

abbrev pub fused_before : Result → Result → Bool
fused_before a b = leb_ℤ b.fused_score a.fused_score

-- `_fallback_sort`
unfoldable pub fallback_sort : List Result → List Result
unfolding with_score
fallback_sort results = sort_by reranked_before (map (λ r. with_score r r.fused_score) results)

unfoldable pub should_skip_cross_encoder : List Result → Bool
unfolding starts_with ◌-ℤ◌
should_skip_cross_encoder [] = true
should_skip_cross_encoder (top ∷ []) = true
should_skip_cross_encoder (top ∷ second ∷ rest) =
    let score_gap = top.fused_score -ℤ second.fused_score in
    let reasons = top.metadata_boost_reasons in
    if leb_ℤ (pos 180) score_gap
    then true
    else if any
          (λ reason. is_in reason (
            "endpoint_match" ∷ "service_name_match" ∷ "code_path_match" ∷ "config_path_match"
            ∷ "api_contract_path_match" ∷ "deploy_hash_match" ∷ []))
          reasons
        && leb_ℤ (pos 80) score_gap
    then true
    else any (λ reason. starts_with (codes reason) (codes "metadata_terms:")) reasons
      && leb_ℤ (pos 100) score_gap

-- The model of the process: none where it is not loaded; the inner none where `predict` raises.
module _ (encoder : Option (List Result → Option (List ℤ))) where
  -- All the results in their new order, before the cut to `top_k`, and the mode.
  unfoldable pub rerank_locally : List Result → List Result × Mode
  unfolding assign_scores fallback_sort
  rerank_locally results = elim encoder [
    | none ↦ (fallback_sort results, fallback)
    | some predict ↦ elim (predict results) [
      | none ↦ (fallback_sort results, fallback)
      | some scores ↦ (sort_by reranked_before (assign_scores results scores), cross_encoder)
    ]
  ]

  unfoldable pub order_results : List Result → List Result × Mode
  unfolding rerank_locally fallback_sort should_skip_cross_encoder
  order_results [] = ([], skipped)
  order_results (r ∷ rs) =
      if should_skip_cross_encoder (r ∷ rs)
      then (fallback_sort (r ∷ rs), heuristic)
      else rerank_locally (r ∷ rs)

  unfoldable pub rerank_with_debug : ℕ → List Result → List Result × Mode
  unfolding order_results
  rerank_with_debug top_k results =
      let (ordered, mode) = order_results results in (take top_k ordered, mode)

  -- `post`: what the server makes of the candidates. An exception that is no `RemoteModelError` is
  -- caught neither by `remote_rerank` nor here.
  module _ (post : List Result → RerankResponse) (settings : RerankSettings) where
    unfoldable pub rerank_remotely : List Result → Outcome (List Result × Mode)
    unfolding assign_scores fallback_sort remote_rerank
    rerank_remotely results =
        let candidate_limit = min (length results) settings.rag_rerank_max_candidates in
        let candidates = take candidate_limit results in
        elim (remote_rerank settings post candidates) [
          | remote_raised error ↦ raised error
          | remote_model_error ↦ returned (fallback_sort results, fallback)
          | has_scores scores ↦ returned (
            sort_by reranked_before (assign_scores candidates scores)
                ++ sort_by fused_before (drop candidate_limit results),
            remote_cross_encoder,
          )
        ]

    -- The branches on results that there are, by the mode of the settings.
    unfoldable pub order_in_mode : RerankMode → String → List Result → Outcome (List Result × Mode)
    unfolding order_results rerank_remotely fallback_sort should_skip_cross_encoder starts_with
    order_in_mode disabled model_name results = returned (fallback_sort results, turned_off)
    order_in_mode mode model_name results =
        if starts_with (codes model_name) (codes "azure-ml") || settings.has_reranker_endpoint
        then if is_conditional mode && should_skip_cross_encoder results
          then returned (fallback_sort results, heuristic)
          else rerank_remotely results
        else returned (order_results results)

    unfoldable pub order_results_async : String → List Result → Outcome (List Result × Mode)
    unfolding order_in_mode
    order_results_async model_name [] = returned ([], skipped)
    order_results_async model_name (r ∷ rs) =
        order_in_mode settings.rag_rerank_mode model_name (r ∷ rs)

    unfoldable pub rerank_with_debug_async : ℕ → String → List Result → Outcome (List Result × Mode)
    unfolding order_results_async
    rerank_with_debug_async top_k model_name results =
        and_then (order_results_async model_name results)
          (λ (r : List Result × Mode). (take top_k r.0, r.1))
