-- ===== src/Investigation/Findings.antt =====
-- What evidence shows: incidentops/investigation/log_analyzer.py, deploy_analyzer.py,
-- incident_matcher.py and scope_resolver.py, with the entities of schemas.py. The scans of a text
-- by regular expressions are parameters.
use ops_incident_core.Prelude.{
  ℕ, suc, ◌+◌, Bool, true, false, not, ◌&&◌, ◌||◌, Option, none, some, String, List, [], ◌∷◌, ◌++◌,
  any, map, if◌then◌else◌, leb, length, take, or_default, is_some, sort_by, select, when, min, max,
}
use text.Mathlib.Text.{◌==◌ as str_eq}
use ops_incident_core.Prelude.Text.{Text, codes, lower, contains, replace_char}
use ops_incident_core.Retrieval.Packing.{EvidenceItem, text_leb}

-- The truth of an optional string: there, and not empty.
abbrev pub truthy : Option String → Bool
truthy none = false
truthy (some s) = not (str_eq s "")

-- `item.get("source_type") == t`
abbrev pub is_of_type : String → EvidenceItem → Bool
is_of_type t item = str_eq item.source_type t

abbrev pub opt_eq : Option String → Option String → Bool
opt_eq none none = true
opt_eq (some a) (some b) = str_eq a b
opt_eq _ _ = false

-- `set(items)`, as a list of the different items.
unfoldable pub unique : List String → List String
unique [] = []
unique (x ∷ xs) = let rest = unique xs in if any (str_eq x) rest then rest else x ∷ rest

unfoldable pub sorted_set : List String → List String
unfolding unique text_leb
sorted_set items = sort_by (λ a b. text_leb (codes a) (codes b)) (unique items)

abbrev pub listed : Option String → List String
listed o = elim o [ none ↦ [] | some s ↦ when (not (str_eq s "")) s ]

-- The fields of `InvestigationEntities` that the investigation reads.
pub record Entities : Type 0 where
  pub service_name : Option String
  pub endpoint : Option String
  pub deploy_hash : Option String
  pub symptom : Option String

pub record LogFindings : Type 0 where
  pub slow_requests : ℕ
  pub errors : ℕ
  pub timeouts : ℕ
  pub max_latency_ms : ℕ
  pub services : List String
  pub timestamped_logs : ℕ

-- `LATENCY_RE.findall`, and the numbers of matches of `ERROR_RE` and of `TIMEOUT_RE`.
module _ (latencies : Text → List ℕ) (error_count timeout_count : Text → ℕ) where
  abbrev largest : List ℕ → ℕ
  largest [] = 0
  largest (n ∷ ns) = max n (largest ns)

  -- The findings with one item more.
  unfoldable pub add_log : EvidenceItem → LogFindings → LogFindings
  add_log item f = record {
    slow_requests = f.slow_requests + length (select (leb 500) (latencies item.text));
    errors = f.errors + error_count item.text;
    timeouts = f.timeouts + timeout_count item.text;
    max_latency_ms = max f.max_latency_ms (largest (latencies item.text));
    services = listed item.service_name ++ f.services;
    timestamped_logs =
        if is_some item.timestamp_start then suc f.timestamped_logs else f.timestamped_logs;
  }

  unfoldable pub scan_logs : List EvidenceItem → LogFindings → LogFindings
  unfolding add_log
  scan_logs [] f = f
  scan_logs (item ∷ items) f =
      scan_logs items (if is_of_type "logs" item then add_log item f else f)

  unfoldable pub analyze_logs : List EvidenceItem → LogFindings
  unfolding scan_logs sorted_set
  analyze_logs evidence =
      let f = scan_logs evidence (record {
        slow_requests = 0;
        errors = 0;
        timeouts = 0;
        max_latency_ms = 0;
        services = [];
        timestamped_logs = 0;
      }) in
      record {
        slow_requests = f.slow_requests;
        errors = f.errors;
        timeouts = f.timeouts;
        max_latency_ms = f.max_latency_ms;
        services = sorted_set f.services;
        timestamped_logs = f.timestamped_logs;
      }

pub record DeployFindings : Type 0 where
  pub deploy_hash : Option String
  pub changed_files : List String
  pub blocking_points : ℕ
  pub diff_count : ℕ

-- The test that lets a deploy item count: no hash is asked for, or the item mentions it.
unfoldable pub mentions_deploy : Option String → EvidenceItem → Bool
unfolding lower contains
mentions_deploy hash item =
    not (truthy hash)
    || contains (lower item.text) (codes (or_default hash ""))
    || contains (lower (codes item.document_path)) (codes (or_default hash ""))

-- The section titles that the items have.
unfoldable pub titles : List EvidenceItem → List String
titles [] = []
titles (item ∷ items) = listed item.section_title ++ titles items

-- The test that `SYNC_RE` finds a match.
module _ (is_blocking : Text → Bool) where
  unfoldable pub analyze_deploy_diff : List EvidenceItem → Option String → DeployFindings
  unfolding mentions_deploy sorted_set titles
  analyze_deploy_diff evidence hash =
      let diffs = select (λ item. is_of_type "deploy" item && mentions_deploy hash item) evidence in
      record {
        deploy_hash = hash;
        changed_files = sorted_set (titles diffs);
        blocking_points = length (select (λ item. is_blocking item.text) diffs);
        diff_count = length diffs;
      }

-- A match of a previous incident, with its score in hundredths.
pub record IncidentMatch : Type 0 where
  pub chunk_id : String
  pub document_path : String
  pub score : ℕ
  pub summary : Text

abbrev points : Bool → ℕ → ℕ
points b n = if b then n else 0

unfoldable pub match_incident : Entities → EvidenceItem → IncidentMatch
unfolding lower contains
match_incident entities item =
    let text = lower item.text in
    let mentions : Option String → Bool =
      λ o. truthy o && contains text (codes (or_default o "")) in
    record {
      chunk_id = item.chunk_id;
      document_path = item.document_path;
      score =
          min
            (35
              + points (mentions entities.service_name) 25
              + points (mentions entities.symptom) 20
              + points (contains text (codes "root cause") || contains text (codes "timeline")) 10)
            100;
      summary = take 220 item.text;
    }

unfoldable pub find_previous_incidents : List EvidenceItem → Entities → List IncidentMatch
unfolding match_incident
find_previous_incidents evidence entities =
    sort_by (λ a b. leb b.score a.score)
      (map (match_incident entities) (select (is_of_type "incident") evidence))

-- The dictionary of `resolve_scope`; a time window is the minutes before and after the deploy.
pub record Scope : Type 0 where
  pub endpoint_filter : Option String
  pub deploy_hash_filter : Option String
  pub query_variants : List Text
  pub default_window : Option (String × ℕ × ℕ)

abbrev kept : Option String → Option String
kept o = if truthy o then o else none

unfoldable pub resolve_scope : Entities → Scope
unfolding replace_char
resolve_scope e = record {
  endpoint_filter = kept e.endpoint;
  deploy_hash_filter = kept e.deploy_hash;
  query_variants =
      map codes (listed e.service_name)
      ++ map codes (listed e.endpoint)
      ++ map (λ h. codes "deploy " ++ codes h) (listed e.deploy_hash)
      ++ map (λ s. replace_char b'_' b' ' (codes s)) (listed e.symptom);
  default_window = elim (kept e.deploy_hash) [ none ↦ none | some h ↦ some (h, 15, 120) ];
}
