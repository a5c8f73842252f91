-- ===== src/Readiness/Counts.antt =====
-- `_normalized_counts` and `_coverage`. A counter is an association list of texts and numbers.
pub mod Laws
use ops_incident_core.Prelude.{
  ℕ, ◌+◌, Bool, true, false, not, ◌&&◌, ◌||◌, List, [], ◌∷◌, any, if◌then◌else◌, ltb, non_empty,
  String,
}
use ops_incident_core.Prelude.Text.{Text, codes, lower, contains, text_eq}
use ops_incident_core.Readiness.Score.{Coverage}

abbrev pub Counter : Type 0
Counter = List (Text × ℕ)

-- `counts[key] += n`
unfoldable pub add_count : Text → ℕ → Counter → Counter
unfolding text_eq
add_count k n [] = (k, n) ∷ []
add_count k n (e ∷ counts) =
    if text_eq e.0 k then (e.0, e.1 + n) ∷ counts else e ∷ add_count k n counts

-- `counts.get(key, 0)`
unfoldable pub get_count : Text → Counter → ℕ
unfolding text_eq
get_count k [] = 0
get_count k (e ∷ counts) = if text_eq e.0 k then e.1 else get_count k counts

-- `key in {a, b}`
abbrev pub is_one_of : Text → List String → Bool
is_one_of key [] = false
is_one_of key (name ∷ names) = text_eq key (codes name) || is_one_of key names

-- `str(key or "unknown_text").lower()`, then the four renamings in their order.
unfoldable pub base_name : Text → Text
unfolding lower
base_name key = if non_empty key then lower key else codes "unknown_text"

abbrev pub rename : List String → String → Text → Text
rename names target key = if is_one_of key names then codes target else key

unfoldable pub normal_name : Text → Text
unfolding base_name text_eq
normal_name key = rename ("logs_folder" ∷ "log" ∷ []) "logs" (
    rename ("runbooks" ∷ "runbook" ∷ []) "runbook" (
      rename ("incidents" ∷ "incident_report" ∷ []) "incident"
        (rename ("deploy_history" ∷ "patch" ∷ []) "deploy" (base_name key))))

unfoldable pub normalize_from : Counter → Counter → Counter
unfolding normal_name add_count
normalize_from normalized [] = normalized
normalize_from normalized (e ∷ counts) =
    normalize_from (add_count (normal_name e.0) e.1 normalized) counts

unfoldable pub normalized_counts : Counter → Counter
unfolding normalize_from
normalized_counts counts = normalize_from [] counts

-- `source_type_counts.get(kind, 0) > 0`
abbrev pub present : String → Counter → Bool
present kind counts = ltb 0 (get_count (codes kind) counts)

-- `_coverage`; the hints are the coverage that the latest sync reported.
unfoldable pub coverage : Counter → Counter → Coverage → Coverage
unfolding get_count contains
coverage source_types chunk_types hints =
    let has_markdown = any (λ e. contains e.0 (codes "markdown")) chunk_types in
    let has_text_docs = present "unknown_text" source_types || present "runbook" source_types in
    record {
      has_code = hints.has_code || present "code" source_types;
      has_docs = hints.has_docs || has_markdown || has_text_docs;
      has_logs = hints.has_logs || present "logs" source_types;
      has_deploys = hints.has_deploys || present "deploy" source_types;
      has_runbooks = hints.has_runbooks || present "runbook" source_types;
      has_incidents = hints.has_incidents || present "incident" source_types;
      has_api_docs = hints.has_api_docs || present "api_doc" source_types;
      has_configs = hints.has_configs || present "config" source_types;
    }
