-- ===== src/Retrieval/Chunk.antt =====
-- The chunks that a search returns, and the class of evidence of each: incidentops/db/models.py
-- and `_source_type_from_chunk` of incidentops/retrieval/evidence_packer.py.
use ops_incident_core.Prelude.{
  ℕ, Bool, ◌||◌, Option, String, List, [], ◌∷◌, any, if◌then◌else◌, or_default,
}
use text.Mathlib.Text.{◌==◌ as str_eq}
use ops_incident_core.Prelude.Int.{ℤ}
use ops_incident_core.Prelude.Text.{Text, codes, lower, contains, ends_with}

-- The columns of `Chunk` that retrieval reads. `document_path` is the path of the chunk's
-- document, where it has one; the two `meta_` fields are entries of `metadata_json`.
pub record Chunk : Type 0 where
  pub id : String
  pub document_path : Option String
  pub chunk_type : String
  pub service_name : Option String
  pub endpoint : Option String
  pub deploy_hash : Option String
  pub timestamp_start : Option ℕ
  pub timestamp_end : Option ℕ
  pub section_title : Option String
  pub start_line : Option ℕ
  pub end_line : Option ℕ
  pub text : Text
  pub meta_source_type : Option String
  pub meta_document_path : Option String

-- One result of the search: the dictionary with the chunk and its scores, in thousandths.
pub record Result : Type 0 where
  pub chunk : Chunk
  pub fused_score : ℤ
  pub rerank_score : Option ℤ
  pub vector_score : Option ℤ
  pub lexical_score : Option ℤ
  pub metadata_boost_reasons : List String

-- `value in {...}`
abbrev pub is_in : String → List String → Bool
is_in value options = any (str_eq value) options

abbrev code_chunk_types : List String
code_chunk_types =
    "function" ∷ "class" ∷ "module" ∷ "code_file" ∷ "go_fallback" ∷ "python_fallback"
    ∷ "ts_fallback" ∷ "js_fallback" ∷ "java_fallback" ∷ "go_function" ∷ "go_method" ∷ "go_type"
    ∷ "go_struct" ∷ "go_interface" ∷ "go_module" ∷ "python_function" ∷ "python_class"
    ∷ "ts_function" ∷ "ts_class" ∷ "ts_interface" ∷ "java_method" ∷ "java_class" ∷ "java_interface"
    ∷ []

-- The types that a chunk of a Markdown file has by its path.
unfoldable pub markdown_source_type : Text → String
unfolding contains ends_with
markdown_source_type path =
    if contains path (codes "runbook")
    then "runbook"
    else if contains path (codes "api")
        || contains path (codes "openapi")
        || contains path (codes "swagger")
    then "api_doc"
    else if any (λ suffix. ends_with path (codes suffix))
        (".yaml" ∷ ".yml" ∷ ".json" ∷ ".toml" ∷ ".ini" ∷ [])
    then "config"
    else "runbook"

-- The class of evidence by the type of the chunk.
unfoldable pub source_type_of_chunk_type : String → Text → String
unfolding markdown_source_type
source_type_of_chunk_type ct path =
    if is_in ct ("deploy_diff" ∷ "deploy_commit" ∷ [])
    then "deploy"
    else if is_in ct ("log_window" ∷ "error_cluster" ∷ "log_time_window" ∷ "log_error_burst" ∷ [])
    then "logs"
    else if is_in ct code_chunk_types
    then "code"
    else if is_in ct (
        "incident_section" ∷ "incident_symptom" ∷ "incident_timeline" ∷ "incident_root_cause"
        ∷ "incident_action" ∷ [])
    then "incident"
    else if is_in ct (
        "api_endpoint" ∷ "openapi_endpoint" ∷ "openapi_schema" ∷ "proto_service" ∷ "proto_rpc"
        ∷ "proto_message" ∷ "proto_enum" ∷ "proto_preamble" ∷ "proto_fallback" ∷ [])
    then "api_doc"
    else if is_in ct (
        "config_section" ∷ "config_service_block" ∷ "env_var_block" ∷ "dependency_block"
        ∷ "config_fallback" ∷ [])
    then "config"
    else if is_in ct (
        "markdown_section" ∷ "markdown_heading_section" ∷ "markdown_procedure" ∷ "markdown_table"
        ∷ "markdown_faq" ∷ [])
    then markdown_source_type path
    else "runbook"

-- `_source_type_from_chunk`; a chunk has no path of its own, so it is the one of its metadata.
unfoldable pub source_type_from_chunk : Chunk → String
unfolding source_type_of_chunk_type lower
source_type_from_chunk chunk =
    let raw : String = or_default chunk.meta_source_type "" in
    if is_in raw ("deploy" ∷ "logs" ∷ "code" ∷ "incident" ∷ "runbook" ∷ "api_doc" ∷ "config" ∷ [])
    then raw
    else if str_eq raw "incident_report"
    then "incident"
    else if str_eq raw "deploy_history"
    then "deploy"
    else source_type_of_chunk_type chunk.chunk_type
        (lower (codes (or_default chunk.meta_document_path "")))
