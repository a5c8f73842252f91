-- ===== src/Retrieval/Hybrid/Sources.antt =====
-- What a boost reads of a chunk: `_chunk_source_type`, `_metadata_terms` and `_tokenize`.
use ops_incident_core.Prelude.{
  ℕ, Bool, ◌&&◌, ◌||◌, none, some, String, List, [], ◌∷◌, ◌++◌, select, if◌then◌else◌, leb, ◌==◌,
  length, non_empty, or_default,
}
use mathlib.Core.List.{reverse}
use ops_incident_core.Prelude.Text.{Text, codes, lower}
use ops_incident_core.Ingestion.SourceTypes.{is_one_of_names, resolve_alias, contains_any_of}
use ops_incident_core.Retrieval.Chunk.{Chunk}

-- Entries of `metadata_json`: the values of the single keys that are texts and the texts in the
-- values that are lists, in the order of the keys, and whether the entries that tell a log with
-- times, levels or traces and a dated or analysed incident are there.
pub record ChunkMetadata : Type 0 where
  pub texts : List Text
  pub lists : List Text
  pub has_runtime : Bool
  pub has_incident : Bool

-- A chunk with its metadata, as the branches return it.
pub record Found : Type 0 where
  pub chunk : Chunk
  pub metadata : ChunkMetadata

-- `getattr(chunk.document, "path", "") or metadata.get("document_path", "") or ""`
unfoldable pub path_of : Chunk → Text
path_of chunk =
    let path = codes (or_default chunk.document_path "") in
    if non_empty path then path else codes (or_default chunk.meta_document_path "")

-- `_SOURCE_TYPE_ALIASES`
abbrev pub source_aliases : List (String × String)
source_aliases =
    ("deploy_history", "deploy")
    ∷ ("patch", "deploy")
    ∷ ("incident_report", "incident")
    ∷ ("markdown", "runbook")
    ∷ ("unknown", "unknown_text")
    ∷ []

abbrev code_types : List String
code_types =
    "function" ∷ "class" ∷ "module" ∷ "code_file" ∷ "go_fallback" ∷ "python_fallback"
    ∷ "ts_fallback" ∷ "js_fallback" ∷ "java_fallback" ∷ "go_function" ∷ "go_method" ∷ "go_type"
    ∷ "go_struct" ∷ "go_interface" ∷ "go_module" ∷ "python_function" ∷ "python_class"
    ∷ "ts_function" ∷ "ts_class" ∷ "ts_interface" ∷ "java_method" ∷ "java_class" ∷ "java_interface"
    ∷ []

abbrev api_types : List String
api_types =
    "api_endpoint" ∷ "openapi_endpoint" ∷ "openapi_schema" ∷ "proto_service" ∷ "proto_rpc"
    ∷ "proto_message" ∷ "proto_enum" ∷ "proto_preamble" ∷ "proto_fallback" ∷ []

abbrev incident_types : List String
incident_types =
    "incident_section" ∷ "incident_symptom" ∷ "incident_timeline" ∷ "incident_root_cause"
    ∷ "incident_action" ∷ []

abbrev config_types : List String
config_types =
    "config_section" ∷ "config_service_block" ∷ "env_var_block" ∷ "dependency_block"
    ∷ "config_fallback" ∷ []

abbrev markdown_types : List String
markdown_types =
    "markdown_section" ∷ "markdown_heading_section" ∷ "markdown_procedure" ∷ "markdown_table"
    ∷ "markdown_faq" ∷ []

-- By the type of the chunk, in lower case, and by the path.
unfoldable pub source_type_of : Text → Text → String
unfolding is_one_of_names contains_any_of
source_type_of chunk_type path =
    if is_one_of_names chunk_type ("deploy_diff" ∷ "deploy_commit" ∷ [])
    then "deploy"
    else if is_one_of_names chunk_type
        ("log_window" ∷ "error_cluster" ∷ "log_time_window" ∷ "log_error_burst" ∷ [])
    then "logs"
    else if is_one_of_names chunk_type code_types
    then "code"
    else if is_one_of_names chunk_type incident_types
    then "incident"
    else if is_one_of_names chunk_type api_types
    then "api_doc"
    else if is_one_of_names chunk_type config_types
    then "config"
    else if is_one_of_names chunk_type markdown_types
    then (if contains_any_of (lower path) ("api" ∷ "openapi" ∷ "swagger" ∷ [])
        then "api_doc"
        else "runbook")
    else "unknown_text"

unfoldable pub chunk_source_type : Chunk → Text
unfolding resolve_alias source_type_of path_of lower
chunk_source_type chunk = elim chunk.meta_source_type [
  | some raw ↦ resolve_alias (codes raw) source_aliases
  | none ↦ codes (source_type_of (lower (codes chunk.chunk_type)) (path_of chunk))
]

-- A character of a token: `[a-z0-9_./-]`.
abbrev pub is_token_part : ℕ → Bool
is_token_part c =
    (leb b'a' c && leb c b'z')
    || (leb b'0' c && leb c b'9')
    || c == b'_'
    || c == b'.'
    || c == b'/'
    || c == b'-'

-- `re.split` on what is no such character, with the token that is being read in reverse.
unfoldable pub split_tokens : Text → Text → List Text
split_tokens token [] = reverse token ∷ []
split_tokens token (c ∷ cs) =
    let longer = split_tokens (c ∷ token) cs in
    let ended = split_tokens [] cs in if is_token_part c then longer else reverse token ∷ ended

unfoldable pub tokenize : Text → List Text
unfolding split_tokens lower
tokenize value = select (λ token. leb 3 (length token)) (split_tokens [] (lower value))

unfoldable pub tokenize_all : List Text → List Text
unfolding tokenize
tokenize_all [] = []
tokenize_all (value ∷ values) = tokenize value ++ tokenize_all values

unfoldable pub metadata_terms : ChunkMetadata → List Text
unfolding tokenize_all
metadata_terms metadata = tokenize_all metadata.texts ++ tokenize_all metadata.lists
