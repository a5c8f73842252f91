-- ===== src/Retrieval/Hybrid/Boost.antt =====
-- `_metadata_boost`, in hundredths: the gains and the penalties, each with its reason.
pub mod Range
use ops_incident_core.Prelude.{
  ℕ, ◌+◌, ◌*◌, Bool, true, false, not, ◌&&◌, ◌||◌, Option, none, some, String, List, [], ◌∷◌, ◌++◌,
  any, select, map, when, take, min, if◌then◌else◌, length, non_empty, or_default, sort_by,
}
use ops_incident_core.Prelude.Int.{ℤ, pos, sub_ℕ, min_ℤ}
use ops_incident_core.Prelude.Text.{Text, codes, lower, contains, text_eq}
use ops_incident_core.Ingestion.SourceTypes.{is_one_of_names, contains_any_of}
use ops_incident_core.Retrieval.Intent.{
  Intent, code_location, architecture, config_lookup, api_contract, runtime_incident,
  deploy_regression, previous_incident, runbook_lookup, generic, QueryIntent,
}
use ops_incident_core.Retrieval.Chunk.{Chunk}
use ops_incident_core.Retrieval.Packing.{text_leb}
use ops_incident_core.Retrieval.Hybrid.Sources.{
  Found, ChunkMetadata, path_of, chunk_source_type, metadata_terms,
}

-- What `analyze_query` finds in the query by its regular expressions.
pub record QueryInfo : Type 0 where
  pub services : List Text
  pub deploy_hashes : List Text
  pub endpoints : List Text
  pub query_terms : List Text

-- A reason with its hundredths.
abbrev pub Reason : Type 0
Reason = Text × ℕ

-- `_CHUNK_TYPE_BOOSTS.get(chunk_type, 0.08)`
unfoldable pub chunk_type_boost : Text → ℕ
unfolding is_one_of_names
chunk_type_boost chunk_type =
    if is_one_of_names chunk_type (
      "go_function" ∷ "go_method" ∷ "python_function" ∷ "ts_function" ∷ "java_method"
      ∷ "config_service_block" ∷ "openapi_endpoint" ∷ "proto_rpc" ∷ "error_cluster"
      ∷ "log_error_burst" ∷ "incident_root_cause" ∷ [])
    then 14
    else if is_one_of_names chunk_type (
        "go_type" ∷ "go_struct" ∷ "go_interface" ∷ "python_class" ∷ "ts_class" ∷ "ts_interface"
        ∷ "java_class" ∷ "java_interface" ∷ "function" ∷ "class" ∷ "config_section"
        ∷ "env_var_block" ∷ "dependency_block" ∷ "proto_service" ∷ "markdown_procedure"
        ∷ "log_window" ∷ "log_time_window" ∷ "deploy_diff" ∷ "deploy_commit" ∷ "incident_section"
        ∷ "incident_symptom" ∷ "incident_timeline" ∷ "incident_action" ∷ [])
    then 12
    else if is_one_of_names chunk_type ("api_endpoint" ∷ "openapi_schema" ∷ "release_note" ∷ [])
    then 10
    else if is_one_of_names chunk_type ("code_file" ∷ [])
    then 5
    else if is_one_of_names chunk_type
        ("go_fallback" ∷ "python_fallback" ∷ "ts_fallback" ∷ "js_fallback" ∷ "java_fallback" ∷ [])
    then 4
    else 8

-- `value and value.lower() in known`
unfoldable pub is_known : Option String → List Text → Bool
unfolding lower text_eq
is_known value known =
    let text = codes (or_default value "") in non_empty text && any (text_eq (lower text)) known

unfoldable pub matches_endpoint : Option String → List Text → Bool
unfolding contains
matches_endpoint value endpoints =
    let text = codes (or_default value "") in
    non_empty text && any (λ e. contains text e || contains e text) endpoints

-- `sorted(query_terms & metadata_terms)[:4]`
unfoldable pub distinct : List Text → List Text
unfolding text_eq
distinct [] = []
distinct (t ∷ ts) = let rest = distinct ts in if any (text_eq t) rest then rest else t ∷ rest

unfoldable pub matched_terms : List Text → List Text → List Text
unfolding distinct text_eq text_leb
matched_terms query_terms terms =
    take 4 (sort_by text_leb (select (λ t. any (text_eq t) terms) (distinct query_terms)))

unfoldable pub join : List Text → Text
join [] = []
join (t ∷ []) = t
join (t ∷ u ∷ ts) = let rest = join (u ∷ ts) in t ++ (codes "," ++ rest)

unfoldable pub term_reasons : List Text → List Reason
unfolding join
term_reasons matched =
    when (non_empty matched) (codes "metadata_terms:" ++ join matched, 5 * min (length matched) 3)

-- The tests on the intent, the class of the source and the path in lower case.
unfoldable pub intent_reasons : Intent → Text → Text → ChunkMetadata → List Reason
unfolding contains_any_of text_eq
intent_reasons config_lookup source_type lower_path metadata =
    when
      (contains_any_of lower_path (
        "docker" ∷ "compose" ∷ "helm" ∷ "openapi" ∷ "swagger" ∷ "config" ∷ ".env" ∷ ".yaml" ∷ ".yml"
        ∷ ".toml" ∷ ".ini" ∷ ".json" ∷ []))
      (codes "config_path_match", 12)
intent_reasons api_contract source_type lower_path metadata =
    when
      (contains_any_of lower_path
        ("api" ∷ "openapi" ∷ "swagger" ∷ ".proto" ∷ "proto/" ∷ "routes" ∷ "router" ∷ []))
      (codes "api_contract_path_match", 12)
intent_reasons architecture source_type lower_path metadata =
    when
      (contains_any_of lower_path
        ("docs/" ∷ "/docs" ∷ "architecture" ∷ "design" ∷ "overview" ∷ "readme" ∷ []))
      (codes "architecture_doc_match", 10)
intent_reasons code_location source_type lower_path metadata =
    when
      (contains_any_of lower_path
        ("service/" ∷ "services/" ∷ "src/" ∷ "pkg/" ∷ "internal/" ∷ "cmd/" ∷ "app/" ∷ []))
      (codes "code_path_match", 6)
intent_reasons runtime_incident source_type lower_path metadata =
    when (text_eq source_type (codes "logs") && metadata.has_runtime)
      (codes "runtime_log_metadata", 8)
intent_reasons deploy_regression source_type lower_path metadata =
    when (text_eq source_type (codes "deploy")) (codes "deploy_regression_source", 8)
intent_reasons previous_incident source_type lower_path metadata =
    when (text_eq source_type (codes "incident") && metadata.has_incident)
      (codes "incident_metadata", 8)
intent_reasons runbook_lookup source_type lower_path metadata =
    when (text_eq source_type (codes "runbook")) (codes "runbook_source", 8)
intent_reasons generic source_type lower_path metadata = []

-- `_should_penalize_readme`
unfoldable pub should_penalize_readme : Intent → Text → Bool
unfolding contains_any_of
should_penalize_readme architecture lower_path = false
should_penalize_readme generic lower_path = false
should_penalize_readme intent lower_path =
    contains_any_of lower_path ("readme.md" ∷ "/readme.md" ∷ [])

unfoldable pub runbook_penalties : Intent → Text → List Reason
unfolding text_eq
runbook_penalties code_location source_type =
    when (text_eq source_type (codes "runbook")) (codes "wrong_intent_runbook_penalty", 24)
runbook_penalties api_contract source_type =
    when (text_eq source_type (codes "runbook")) (codes "wrong_intent_runbook_penalty", 24)
runbook_penalties config_lookup source_type =
    when (text_eq source_type (codes "runbook")) (codes "generic_runbook_penalty", 12)
runbook_penalties intent source_type = []

-- `boost += ...; reasons.append(...)`, in the order of the function.
unfoldable pub gains : QueryInfo → QueryIntent → Found → List Reason
gains info intent found =
    let chunk = found.chunk in
    let source_type = chunk_source_type chunk in
    let chunk_type = lower (codes chunk.chunk_type) in
    when (is_known chunk.deploy_hash info.deploy_hashes) (codes "deploy_hash_match", 18)
    ++ when (is_known chunk.service_name info.services) (codes "service_name_match", 12)
    ++ when (matches_endpoint chunk.endpoint info.endpoints) (codes "endpoint_match", 12)
    ++ when (is_one_of_names source_type intent.preferred_source_types)
        (codes "intent_source:" ++ source_type, 16)
    ++ when (is_one_of_names chunk_type intent.preferred_chunk_types)
        (codes "intent_chunk:" ++ chunk_type, chunk_type_boost chunk_type)
    ++ term_reasons (matched_terms info.query_terms (metadata_terms found.metadata))
    ++ intent_reasons intent.intent source_type (lower (path_of chunk)) found.metadata

unfoldable pub penalties : QueryIntent → Found → List Reason
penalties intent found =
    when (should_penalize_readme intent.intent (lower (path_of found.chunk)))
      (codes "readme_penalty", 10)
    ++ runbook_penalties intent.intent (chunk_source_type found.chunk)

unfoldable pub sum_reasons : List Reason → ℕ
sum_reasons [] = 0
sum_reasons (reason ∷ reasons) = reason.1 + sum_reasons reasons

unfoldable pub metadata_boost : QueryInfo → QueryIntent → Found → ℤ × List Text
metadata_boost info intent found = (
  sub_ℕ (sum_reasons (gains info intent found)) (sum_reasons (penalties intent found)),
  map (λ (reason : Reason). reason.0) (gains info intent found ++ penalties intent found),
)

-- `min(boost, 0.45)`
unfoldable pub capped_boost : QueryInfo → QueryIntent → Found → ℤ
capped_boost info intent found = min_ℤ (metadata_boost info intent found).0 (pos 45)
