-- ===== src/Retrieval/Words.antt =====
-- The words of a query: `_TOKEN_RE`, the term sets and the term search of
-- incidentops/retrieval/query_intent.py.
use ops_incident_core.Prelude.{
  ℕ, Bool, true, false, not, ◌&&◌, ◌||◌, String, List, [], ◌∷◌, ◌++◌, map, any, if◌then◌else◌, leb,
  ◌==◌, length, take, drop, select,
}
use mathlib.Core.List.{reverse}
use ops_incident_core.Prelude.Text.{Text, codes, contains, text_eq, starts_with}

-- `str.isspace` on the ASCII characters.
abbrev pub is_space : ℕ → Bool
is_space c = (leb 9 c && leb c 13) || (leb 28 c && leb c 32)

unfoldable pub strip_left : Text → Text
strip_left [] = []
strip_left (c ∷ cs) = if is_space c then strip_left cs else c ∷ cs

-- `str.rstrip` and `str.strip`
unfoldable pub strip_right : Text → Text
unfolding strip_left
strip_right text = reverse (strip_left (reverse text))

unfoldable pub strip : Text → Text
unfolding strip_left strip_right
strip text = strip_right (strip_left text)

abbrev pub is_word_char : ℕ → Bool
is_word_char c = (leb b'a' c && leb c b'z') || (leb b'0' c && leb c b'9') || c == b'_'

-- A character of `_TOKEN_RE`.
abbrev pub is_token_char : ℕ → Bool
is_token_char c = is_word_char c || c == b'.' || c == b'/' || c == b'-'

-- `if token: tokens.append(token)`, with the token collected from its last character on.
abbrev pub flush : Text → List Text
flush [] = []
flush (c ∷ cs) = reverse (c ∷ cs) ∷ []

-- `_TOKEN_RE.findall`: the longest runs of token characters, from left to right.
unfoldable pub find_tokens_from : Text → Text → List Text
find_tokens_from token [] = flush token
find_tokens_from token (c ∷ cs) =
    let inside = find_tokens_from (c ∷ token) cs in
    let outside = find_tokens_from [] cs in
    if is_token_char c then inside else flush token ++ outside

unfoldable pub find_tokens : Text → List Text
unfolding find_tokens_from
find_tokens text = find_tokens_from [] text

-- `_QUERY_STOPWORDS`
unfoldable pub query_stopwords : List Text
query_stopwords = map codes (
    "a" ∷ "an" ∷ "are" ∷ "be" ∷ "can" ∷ "does" ∷ "for" ∷ "how" ∷ "is" ∷ "it" ∷ "of" ∷ "the" ∷ "this"
    ∷ "was" ∷ "what" ∷ "where" ∷ "which" ∷ "who" ∷ [])

abbrev pub is_query_term : Text → Bool
is_query_term token = leb 3 (length token) && not (any (text_eq token) query_stopwords)

-- The list comprehension at the head of `classify_query_intent`, of at most thirty terms.
unfoldable pub query_terms_of : Text → List Text
unfolding find_tokens
query_terms_of lower_text = take 30 (select is_query_term (find_tokens lower_text))

abbrev pub starts_with_word_char : Text → Bool
starts_with_word_char [] = false
starts_with_word_char (c ∷ cs) = is_word_char c

-- The term at the head of the text, with no word character after it.
abbrev pub term_here : Text → Text → Bool
term_here text term = starts_with text term && not (starts_with_word_char (drop (length term) text))

-- `re.search` for the term with no word character before or after it; `inside` tells whether the
-- character before the text is one.
unfoldable pub contains_term : Bool → Text → Text → Bool
contains_term inside [] term = not inside && term_here [] term
contains_term inside (c ∷ cs) term =
    (not inside && term_here (c ∷ cs) term) || contains_term (is_word_char c) cs term

-- `_contains_any`
unfoldable pub contains_any : Text → List String → Bool
unfolding contains_term
contains_any text terms = any (λ term. contains_term false text (codes term)) terms

abbrev pub config_terms : List String
config_terms =
    "config" ∷ "configuration" ∷ "env" ∷ "environment" ∷ "yaml" ∷ "yml" ∷ "json" ∷ "toml" ∷ "ini"
    ∷ "docker" ∷ "compose" ∷ "helm" ∷ "kustomize" ∷ "settings" ∷ "deployment" ∷ "deployments"
    ∷ "database" ∷ "databases" ∷ "db" ∷ []

abbrev pub api_terms : List String
api_terms =
    "api" ∷ "apis" ∷ "openapi" ∷ "swagger" ∷ "endpoint" ∷ "endpoints" ∷ "route" ∷ "routes" ∷ "rpc"
    ∷ "proto" ∷ "protobuf" ∷ "contract" ∷ "schema" ∷ []

abbrev pub code_terms : List String
code_terms =
    "implemented" ∷ "implementation" ∷ "defined" ∷ "definition" ∷ "handler" ∷ "handlers"
    ∷ "function" ∷ "functions" ∷ "class" ∷ "classes" ∷ "method" ∷ "methods" ∷ "module" ∷ "package"
    ∷ "source" ∷ "code" ∷ []

abbrev pub architecture_terms : List String
architecture_terms =
    "architecture" ∷ "design" ∷ "diagram" ∷ "overview" ∷ "boundary" ∷ "boundaries" ∷ "component"
    ∷ "components" ∷ "how does" ∷ "how is" ∷ "service map" ∷ []

abbrev pub runtime_terms : List String
runtime_terms =
    "logs" ∷ "log" ∷ "trace" ∷ "traces" ∷ "request id" ∷ "trace id" ∷ "error" ∷ "errors" ∷ "timeout"
    ∷ "timeouts" ∷ "runtime" ∷ "symptom" ∷ "symptoms" ∷ "latency" ∷ "spike" ∷ "slow" ∷ "slower"
    ∷ "slowdown" ∷ "outage" ∷ []

abbrev pub deploy_terms : List String
deploy_terms =
    "deploy" ∷ "deployed" ∷ "release" ∷ "rollback" ∷ "diff" ∷ "patch" ∷ "commit" ∷ "revision"
    ∷ "what changed" ∷ "changed before" ∷ []

abbrev pub incident_history_terms : List String
incident_history_terms =
    "happened before" ∷ "similar incident" ∷ "previous incident" ∷ "postmortem" ∷ "postmortems"
    ∷ "seen this before" ∷ []

abbrev pub runbook_terms : List String
runbook_terms =
    "runbook" ∷ "playbook" ∷ "remediation" ∷ "mitigation" ∷ "rollback steps" ∷ "fix steps"
    ∷ "operator guide" ∷ []

abbrev pub root_cause_terms : List String
root_cause_terms =
    "why did" ∷ "root cause" ∷ "relevant to investigating" ∷ "investigating" ∷ "investigate"
    ∷ "caused by" ∷ "cause of" ∷ []

-- `_looks_like_code_location`
unfoldable pub looks_like_code_location : Text → Bool
unfolding contains_any contains
looks_like_code_location text =
    if contains_any text code_terms
    then true
    else any (λ phrase. contains text (codes phrase))
        ("where is" ∷ "where are" ∷ "which file" ∷ "which files" ∷ "what file" ∷ "what files" ∷ [])
