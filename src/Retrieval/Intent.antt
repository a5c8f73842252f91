-- ===== src/Retrieval/Intent.antt =====
-- `classify_query_intent` and `investigate_supported` of incidentops/retrieval/query_intent.py.
pub mod Support
pub mod Terms
use ops_incident_core.Prelude.{
  Bool, true, false, not, ◌&&◌, ◌||◌, String, List, [], ◌∷◌, ◌++◌, any, if◌then◌else◌, when,
}
use text.Mathlib.Text.{◌==◌ as str_eq}
use ops_incident_core.Prelude.Text.{Text, codes, lower, contains}
use ops_incident_core.Retrieval.Words.{
  strip, query_terms_of, contains_any, looks_like_code_location, config_terms, api_terms,
  architecture_terms, runtime_terms, deploy_terms, incident_history_terms, runbook_terms,
  root_cause_terms,
}

-- The `INTENT_*` constants.
pub data Intent : Type 0 where
  code_location architecture config_lookup api_contract runtime_incident : Intent
  deploy_regression previous_incident runbook_lookup generic : Intent

pub record QueryIntent : Type 0 where
  pub intent : Intent
  pub secondary_intents : List Intent
  pub preferred_source_types : List String
  pub preferred_chunk_types : List String
  pub query_terms : List Text
  pub explanation : String

-- The property of that name.
unfoldable pub is_incident_like : Intent → Bool
is_incident_like runtime_incident = true
is_incident_like deploy_regression = true
is_incident_like previous_incident = true
is_incident_like _ = false

-- The preferences and the explanation that go with the answer of one branch.
abbrev answer : List Text → Intent → List Intent → List String → List String → String → QueryIntent
answer terms i secondary sources chunks why = record {
  intent = i;
  secondary_intents = secondary;
  preferred_source_types = sources;
  preferred_chunk_types = chunks;
  query_terms = terms;
  explanation = why;
}

-- The branches of the function, on the text in lower case.
unfoldable pub classify_text : Text → QueryIntent
unfolding query_terms_of contains_any looks_like_code_location contains
classify_text text =
    let terms = query_terms_of text in
    let implemented : Bool = contains text (codes "implemented") in
    if contains_any text incident_history_terms
    then answer terms previous_incident [] ("incident" ∷ "runbook" ∷ "logs" ∷ [])
        ("incident_section" ∷ "incident_root_cause" ∷ "incident_timeline"
          ∷ "markdown_heading_section" ∷ "log_time_window" ∷ [])
        "query asks for previous incidents or historical comparisons"
    else if contains_any text runbook_terms
    then answer terms runbook_lookup [] ("runbook" ∷ "incident" ∷ "deploy" ∷ "config" ∷ [])
        ("markdown_procedure" ∷ "markdown_heading_section" ∷ "incident_action" ∷ "deploy_commit"
          ∷ "deploy_diff" ∷ "config_section" ∷ [])
        "query asks for runbooks, remediation, or operational procedures"
    else if looks_like_code_location text && not (contains_any text (api_terms ++ config_terms))
    then answer terms code_location [] ("code" ∷ "api_doc" ∷ "config" ∷ [])
        ("go_function" ∷ "go_method" ∷ "go_type" ∷ "go_struct" ∷ "go_interface" ∷ "python_function"
          ∷ "python_class" ∷ "ts_function" ∷ "ts_class" ∷ "ts_interface" ∷ "java_method"
          ∷ "java_class" ∷ "java_interface" ∷ "function" ∷ "class" ∷ "module" ∷ "go_module"
          ∷ "code_file" ∷ "openapi_endpoint" ∷ "openapi_schema" ∷ "proto_service" ∷ "proto_rpc"
          ∷ "proto_message" ∷ [])
        "query asks where behavior, modules, or symbols are implemented"
    else if contains_any text root_cause_terms
    then answer terms runtime_incident
        (when (contains_any text runtime_terms) runtime_incident
          ++ when (contains_any text deploy_terms) deploy_regression
          ++ when (contains_any text incident_history_terms) previous_incident)
        ("logs" ∷ "deploy" ∷ "incident" ∷ "runbook" ∷ "code" ∷ [])
        ("log_time_window" ∷ "log_error_burst" ∷ "deploy_commit" ∷ "deploy_diff"
          ∷ "incident_root_cause" ∷ "incident_section" ∷ "go_function" ∷ "markdown_heading_section"
          ∷ [])
        "query asks for incident explanation, causality, or investigation support"
    else if contains_any text deploy_terms
        && not (contains_any text ("where is" ∷ "where are" ∷ []))
    then answer terms deploy_regression [] ("deploy" ∷ "logs" ∷ "incident" ∷ "code" ∷ [])
        ("deploy_commit" ∷ "deploy_diff" ∷ "release_note" ∷ "log_time_window" ∷ "go_function"
          ∷ "config_service_block" ∷ "config_section" ∷ [])
        "query asks about deploys, releases, diffs, or changes before an incident"
    else if contains_any text runtime_terms
    then answer terms runtime_incident [] ("logs" ∷ "runbook" ∷ "deploy" ∷ "incident" ∷ [])
        ("log_time_window" ∷ "log_error_burst" ∷ "markdown_procedure" ∷ "deploy_commit"
          ∷ "deploy_diff" ∷ [])
        "query asks for runtime symptoms, errors, traces, or timeouts"
    else if contains_any text api_terms
    then answer terms api_contract (when implemented code_location)
        ("api_doc" ∷ "code" ∷ "config" ∷ [])
        ("openapi_endpoint" ∷ "openapi_schema" ∷ "proto_service" ∷ "proto_rpc" ∷ "proto_message"
          ∷ "proto_enum" ∷ "go_function" ∷ "markdown_heading_section" ∷ [])
        "query asks about API, route, RPC, protobuf, or endpoint contracts"
    else if contains_any text config_terms
    then answer terms config_lookup (when implemented code_location)
        ("config" ∷ "deploy" ∷ "code" ∷ [])
        ("config_service_block" ∷ "env_var_block" ∷ "dependency_block" ∷ "config_section"
          ∷ "deploy_commit" ∷ "deploy_diff" ∷ "markdown_heading_section" ∷ "go_function" ∷ [])
        "query asks about configuration, deployment config, environment, or dependency settings"
    else if contains_any text architecture_terms
    then answer terms architecture [] ("runbook" ∷ "api_doc" ∷ "code" ∷ "config" ∷ [])
        ("markdown_heading_section" ∷ "markdown_table" ∷ "python_module" ∷ "go_module"
          ∷ "proto_service" ∷ "proto_message" ∷ "config_service_block" ∷ "config_section" ∷ [])
        "query asks for architecture, boundaries, or design context"
    else answer terms generic [] ("runbook" ∷ "code" ∷ "config" ∷ "api_doc" ∷ [])
        ("markdown_heading_section" ∷ "python_module" ∷ "go_module" ∷ "go_function"
          ∷ "config_section" ∷ [])
        "balanced retrieval because query intent is ambiguous"

unfoldable pub classify_query_intent : Text → QueryIntent
unfolding lower strip classify_text
classify_query_intent query = classify_text (strip (lower query))

-- `{...} in` a set of source types.
abbrev pub has_type : String → List String → Bool
has_type t types = any (str_eq t) types

abbrev pub is_repo_lookup : Intent → Bool
is_repo_lookup code_location = true
is_repo_lookup config_lookup = true
is_repo_lookup architecture = true
is_repo_lookup api_contract = true
is_repo_lookup generic = true
is_repo_lookup _ = false

unfoldable pub investigate_supported : Intent → List String → Bool × List String
investigate_supported runtime_incident types =
    if not (has_type "logs" types)
    then (false, "runtime investigation requires logs" ∷ [])
    else (true, [])
investigate_supported deploy_regression types =
    if not (has_type "deploy" types)
    then (false, "deploy analysis requires deploy history or diffs" ∷ [])
    else (true, [])
investigate_supported previous_incident types =
    if not (has_type "incident" types)
    then (false, "incident history lookup requires incident reports or postmortems" ∷ [])
    else (true, [])
investigate_supported intent types =
    if is_repo_lookup intent
    then (false, "query intent is repo lookup rather than runtime incident investigation" ∷ [])
    else (true, [])
