-- ===== src/Examples/Evidence.antt =====
-- Queries, search results and the investigation of them.
use ops_incident_core.Prelude.{
  take, ◌≤◌, ◌≡◌, refl, true, false, not, ◌&&◌, ◌||◌, Option, none, some, String, List, [], ◌∷◌,
  length, non_empty, is_some, IsSortedBy,
}
use ops_incident_core.Prelude.Int.{pos, ◌-ℤ◌}
use ops_incident_core.Prelude.Text.{Text, codes, starts_with}
use ops_incident_core.Retrieval.Words.{strip, strip_left, strip_right}
use ops_incident_core.Retrieval.Intent.{runtime_incident}
use ops_incident_core.Retrieval.Chunk.{Chunk, Result}
use ops_incident_core.Retrieval.Compact.{
  compact_text, cleaned_text, truncated_text, split_lines, join_lines,
}
use ops_incident_core.Retrieval.Packing.{EvidenceItem, pack_evidence}
use ops_incident_core.Retrieval.Packing.Budget.{IsPackedWithin, pack_evidence_lem}
use ops_incident_core.Retrieval.Hybrid.Search.{Outcome, raised, and_then}
use ops_incident_core.Retrieval.Reranking.{
  RerankSettings, conditional, rerank_with_debug_async, Mode, RerankResponse, given_scores, number,
  not_number, order_results_async, order_in_mode, rerank_remotely, remote_rerank, floats,
  should_skip_cross_encoder,
}
use ops_incident_core.Retrieval.Reranking.Order.{IsAnswer, rerank_with_debug_async_lem}
use ops_incident_core.Investigation.Findings.{Entities, LogFindings, DeployFindings, IncidentMatch}
use ops_incident_core.Investigation.Hypotheses.{
  ranks_before, generate_hypotheses, select_root_cause, insufficient, is_low,
}
use ops_incident_core.Investigation.Hypotheses.Ranking.{
  selected, is_first, deploy_suspected, generate_hypotheses_lem,
}
use ops_incident_core.Investigation.Confidence.{source_types_of, strong_deploy_match}
use ops_incident_core.Investigation.Confidence.Grounds.{well_grounded}
use ops_incident_core.Investigation.Service.{investigate}
use ops_incident_core.Investigation.Service.Answers.{
  is_leading, complete_evidence, head, investigate_lem,
}

abbrev pub query : Text
query = codes "Why did latency spike after the Deploy?"

-- The limit of seven characters is passed by two.
passes_limit : compact_text (codes "timeouts") 7 ≡ codes "timeou..."
unfolding compact_text cleaned_text truncated_text split_lines join_lines strip strip_left
    strip_right
passes_limit = refl

abbrev pub log_chunk : Chunk
log_chunk = record {
  id = "c1";
  document_path = some "logs/app.log";
  chunk_type = "log_window";
  service_name = some "checkout";
  endpoint = none;
  deploy_hash = none;
  timestamp_start = some 100;
  timestamp_end = none;
  section_title = none;
  start_line = some 1;
  end_line = some 9;
  text = codes "checkout took 900ms";
  meta_source_type = some "logs";
  meta_document_path = none;
}

abbrev result : Result
result = record {
  chunk = log_chunk;
  fused_score = pos 5;
  rerank_score = none;
  vector_score = none;
  lexical_score = none;
  metadata_boost_reasons = [];
}

pack_evidence_lem_example :
    IsPackedWithin 12 1600 10000 (pack_evidence (λ text. text) 12 1600 10000 (result ∷ result ∷ []))
pack_evidence_lem_example = pack_evidence_lem (λ text. text) 12 1600 10000 (result ∷ result ∷ [])

abbrev item_of : String → String → Option String → EvidenceItem
item_of id source_type hash = record {
  chunk_id = id;
  source_type = source_type;
  chunk_type = "log_window";
  document_path = "logs/app.log";
  service_name = some "checkout";
  deploy_hash = hash;
  endpoint = none;
  section_title = none;
  start_line = some 1;
  end_line = some 9;
  timestamp_start = some 100;
  timestamp_end = none;
  text = codes "checkout took 900ms";
  score = pos 5;
  vector_score = none;
  lexical_score = none;
  injection_flags = [];
  why_retrieved = [];
}

abbrev evidence : List EvidenceItem
evidence =
    item_of "c1" "logs" none
    ∷ item_of "c2" "deploy" (some "abc1234")
    ∷ item_of "c3" "runbook" none
    ∷ item_of "c4" "incident" none
    ∷ []

abbrev entities : Entities
entities = record {
  service_name = some "checkout";
  endpoint = none;
  deploy_hash = some "abc1234";
  symptom = some "latency";
}

abbrev logs : LogFindings
logs = record {
  slow_requests = 1;
  errors = 0;
  timeouts = 0;
  max_latency_ms = 900;
  services = "checkout" ∷ [];
  timestamped_logs = 1;
}

abbrev deploys : DeployFindings
deploys = record {
  deploy_hash = some "abc1234";
  changed_files = [];
  blocking_points = 0;
  diff_count = 1;
}

abbrev incidents : List IncidentMatch
incidents =
    record {
      chunk_id = "c4";
      document_path = "incidents/1.md";
      score = 60;
      summary = codes "outage";
    }
    ∷ []

generate_hypotheses_lem_example :
    let hypotheses = generate_hypotheses evidence logs deploys incidents in
    let selection = select_root_cause hypotheses in
    IsSortedBy ranks_before hypotheses
    × (1 ≤ length hypotheses)
    × (length hypotheses ≤ 4)
    × (is_first selection ≡ true)
    × (is_low (selected selection).confidence ≡ not (deploy_suspected logs deploys))
    × (deploy_suspected logs deploys ≡ false → (selected selection).summary ≡ insufficient)
generate_hypotheses_lem_example = generate_hypotheses_lem evidence logs deploys incidents

investigate_lem_example :
    let result = investigate runtime_incident entities evidence logs deploys incidents in
    (is_leading result.answer ≡ (
      non_empty evidence
      && result.investigation_supported
      && not (is_low result.confidence)
      && complete_evidence evidence logs deploys incidents))
    × (is_some result.suggested_fix
        ≡ (not result.investigation_supported || not (is_low result.confidence)))
    × (head result.hypotheses ≡ some result.likely_root_cause)
investigate_lem_example = investigate_lem runtime_incident entities evidence logs deploys incidents

-- The evidence is enough for a high confidence.
grounded_evidence : well_grounded entities evidence ≡ true
unfolding strong_deploy_match source_types_of
grounded_evidence = refl

-- A remote model that gives one score, and no model in the process.
abbrev rerank_settings : RerankSettings
rerank_settings = record {
  rag_rerank_mode = conditional;
  has_reranker_endpoint = true;
  has_managed_identity = true;
  has_remote_api_key = false;
  rag_rerank_max_candidates = 1;
}

abbrev one_score : List Result → RerankResponse
one_score candidates = given_scores (number (pos 7) ∷ [])

rerank_with_debug_async_lem_example :
    (whole : Outcome (List Result × Mode)) × (rerank_with_debug_async none one_score rerank_settings
        1 "azure-ml"
        (result ∷ result ∷ [])
      ≡ and_then whole (λ (r : List Result × Mode). (take 1 r.0, r.1)))
    × IsAnswer none one_score rerank_settings (result ∷ result ∷ []) whole
rerank_with_debug_async_lem_example =
    rerank_with_debug_async_lem none one_score rerank_settings 1 "azure-ml" (result ∷ result ∷ [])

-- A score that is no number is not caught.
raises_on_text :
    rerank_with_debug_async none
      (λ candidates. given_scores (not_number "ValueError" ∷ []))
      rerank_settings
      1
      "azure-ml"
      (result ∷ result ∷ [])
    ≡ raised "ValueError"
unfolding rerank_with_debug_async order_results_async order_in_mode rerank_remotely remote_rerank
    floats starts_with should_skip_cross_encoder ◌-ℤ◌
raises_on_text = refl
