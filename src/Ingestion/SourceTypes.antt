-- ===== src/Ingestion/SourceTypes.antt =====
-- The type of a document: `classify_source_type` of incidentops/ingestion/chunking/metadata.py
-- and `normalize_source_type` of incidentops/ingestion/normalized.py.
use ops_incident_core.Prelude.{
  Bool, ◌&&◌, ◌||◌, String, List, [], ◌∷◌, any, if◌then◌else◌, ltb, length, ◌==◌,
}
use ops_incident_core.Prelude.Text.{Text, codes, lower, contains, ends_with, text_eq}
use ops_incident_core.Retrieval.Words.{strip}

-- `lower.endswith((...))`, and `any(token in lower for token in (...))`
unfoldable pub ends_with_any : Text → List String → Bool
unfolding ends_with
ends_with_any text names = any (λ name. ends_with text (codes name)) names

unfoldable pub contains_any_of : Text → List String → Bool
unfolding contains
contains_any_of text names = any (λ name. contains text (codes name)) names

-- The tests in their order, on the path in lower case.
unfoldable pub classify_lower : Text → String
unfolding ends_with_any contains_any_of
classify_lower lower =
    if ends_with_any lower (".py" ∷ ".js" ∷ ".ts" ∷ ".jsx" ∷ ".tsx" ∷ ".go" ∷ ".java" ∷ ".rb" ∷ [])
    then "code"
    else if ends_with_any lower (".proto" ∷ [])
    then "api_doc"
    else if ends_with_any lower (".log" ∷ []) || contains_any_of lower ("/logs/" ∷ [])
    then "logs"
    else if ends_with_any lower (".patch" ∷ ".diff" ∷ [])
    then "deploy"
    else if ends_with_any lower (".json" ∷ [])
        && contains_any_of lower ("deploy" ∷ "release" ∷ "commit" ∷ [])
    then "deploy"
    else if contains_any_of lower ("incident" ∷ "postmortem" ∷ [])
    then "incident"
    else if contains_any_of lower ("openapi" ∷ "swagger" ∷ [])
    then "api_doc"
    else if ends_with_any lower (".yaml" ∷ ".yml" ∷ [])
    then (if contains_any_of lower ("openapi" ∷ "swagger" ∷ []) then "api_doc" else "config")
    else if ends_with_any lower (".toml" ∷ ".ini" ∷ [])
    then "config"
    else if ends_with_any lower (".json" ∷ []) && contains_any_of lower ("openapi" ∷ "swagger" ∷ [])
    then "api_doc"
    else if ends_with_any lower (".md" ∷ ".txt" ∷ [])
    then "runbook"
    else if ends_with_any lower (".json" ∷ [])
    then "config"
    else "unknown"

unfoldable pub classify_source_type : Text → String
unfolding classify_lower
classify_source_type path = classify_lower (lower path)

-- `KNOWN_SOURCE_TYPES`
abbrev pub known_source_types : List String
known_source_types =
    "logs" ∷ "code" ∷ "deploy" ∷ "incident" ∷ "runbook" ∷ "api_doc" ∷ "config" ∷ "unknown_text" ∷ []

-- `SOURCE_TYPE_ALIASES`
abbrev pub source_type_aliases : List (String × String)
source_type_aliases =
    ("log", "logs")
    ∷ ("text", "unknown_text")
    ∷ ("txt", "unknown_text")
    ∷ ("markdown", "runbook")
    ∷ ("md", "runbook")
    ∷ ("docs", "runbook")
    ∷ ("doc", "runbook")
    ∷ ("postmortem", "incident")
    ∷ ("incident_report", "incident")
    ∷ ("incidents", "incident")
    ∷ ("deploy_history", "deploy")
    ∷ ("diff", "deploy")
    ∷ ("patch", "deploy")
    ∷ ("yaml", "config")
    ∷ ("yml", "config")
    ∷ ("json", "config")
    ∷ []

-- `SOURCE_TYPE_ALIASES.get(raw, raw)`
unfoldable pub resolve_alias : Text → List (String × String) → Text
unfolding text_eq
resolve_alias raw [] = raw
resolve_alias raw (entry ∷ entries) =
    if text_eq raw (codes entry.0) then codes entry.1 else resolve_alias raw entries

unfoldable pub is_one_of_names : Text → List String → Bool
unfolding text_eq
is_one_of_names text names = any (λ name. text_eq text (codes name)) names

-- The part that ends a path so far: an empty part and `.` are none.
unfoldable pub close_part : Text → Text → Text
close_part last [] = last
close_part last (c ∷ []) = if c == b'.' then last else c ∷ []
close_part last (c ∷ d ∷ cs) = c ∷ d ∷ cs

-- The last part of a path, read backwards: the last one closed by a `/`, and the one being read.
unfoldable pub last_part : Text → Text → Text → Text
unfolding close_part
last_part last part [] = close_part last part
last_part last part (c ∷ cs) =
    let (last', part') = if c == b'/' then (close_part last part, []) else (last, c ∷ part) in
    last_part last' part' cs

-- `PurePosixPath(...).suffix in {...}`: a name that is a suffix only has none.
unfoldable pub has_suffix : Text → List String → Bool
unfolding last_part
has_suffix path suffixes =
    let name = reversed (last_part [] [] path) in
    any (λ suffix. ends_with name (codes suffix) && ltb (length (codes suffix)) (length name))
      suffixes
  where
    reversed : Text → Text
    reversed = mathlib.Core.List.reverse

-- The type that the path suggests.
unfoldable pub infer_source_type : Text → Text
unfolding classify_source_type has_suffix is_one_of_names
infer_source_type path =
    let inferred = codes (classify_source_type path) in
    if is_one_of_names inferred
      ("logs" ∷ "code" ∷ "deploy" ∷ "incident" ∷ "api_doc" ∷ "runbook" ∷ [])
    then inferred
    else if has_suffix (lower path) (".json" ∷ ".yaml" ∷ ".yml" ∷ [])
    then codes "config"
    else codes "unknown_text"

unfoldable pub normalize_source_type : Text → Text → Text
unfolding resolve_alias infer_source_type is_one_of_names strip lower
normalize_source_type source_type path =
    let normalized = resolve_alias (lower (strip source_type)) source_type_aliases in
    if is_one_of_names normalized known_source_types then normalized else infer_source_type path
