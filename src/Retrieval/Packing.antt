-- ===== src/Retrieval/Packing.antt =====
-- `pack_evidence` of incidentops/retrieval/evidence_packer.py, with `inspect_untrusted_text` of
-- incidentops/security/prompt_injection.py. The substitutions of `redact_secrets` are made by a
-- regular-expression engine, so the function is a parameter.
pub mod Order
pub mod Budget
use ops_incident_core.Prelude.{
  ℕ, suc, ◌+◌, ◌-◌, Bool, true, false, not, ◌&&◌, ◌||◌, Option, none, some, String, List, [], ◌∷◌,
  any, if◌then◌else◌, leb, ltb, ◌==◌, length, take, non_empty, or_default, sort_by, select, map,
}
use text.Mathlib.Text.{◌==◌ as str_eq}
use ops_incident_core.Prelude.Int.{ℤ, pos, negsuc, leb_ℤ}
use ops_incident_core.Prelude.Text.{Text, codes, lower, contains}
use ops_incident_core.Retrieval.Chunk.{Chunk, Result, source_type_from_chunk}
use ops_incident_core.Retrieval.Compact.{compact_text}

-- The patterns of the text that `inspect_untrusted_text` finds in it, letter case aside.
unfoldable pub inspect_untrusted_text : Text → List String
unfolding contains lower
inspect_untrusted_text text =
    select (λ pattern. contains (lower text) (codes pattern))
      ("ignore previous instructions" ∷ "system prompt" ∷ "call tool" ∷ "exfiltrat"
        ∷ "run this command" ∷ [])

-- An item of evidence.
pub record EvidenceItem : Type 0 where
  pub chunk_id : String
  pub source_type : String
  pub chunk_type : String
  pub document_path : String
  pub service_name : Option String
  pub deploy_hash : Option String
  pub endpoint : Option String
  pub section_title : Option String
  pub start_line : Option ℕ
  pub end_line : Option ℕ
  pub timestamp_start : Option ℕ
  pub timestamp_end : Option ℕ
  pub text : Text
  pub score : ℤ
  pub vector_score : Option ℤ
  pub lexical_score : Option ℤ
  pub injection_flags : List String
  pub why_retrieved : List String

-- `signature`: where the text stands.
pub record Signature : Type 0 where
  pub path : String
  pub first_line : Option ℕ
  pub last_line : Option ℕ

abbrev pub line_eq : Option ℕ → Option ℕ → Bool
line_eq none none = true
line_eq (some a) (some b) = a == b
line_eq _ _ = false

unfoldable pub signature_eq : Signature → Signature → Bool
signature_eq a b =
    str_eq a.path b.path && line_eq a.first_line b.first_line && line_eq a.last_line b.last_line

unfoldable pub chunk_signature : Chunk → Signature
chunk_signature chunk = record {
  path = or_default chunk.document_path "";
  first_line = chunk.start_line;
  last_line = chunk.end_line;
}

unfoldable pub item_signature : EvidenceItem → Signature
item_signature item = record {
  path = item.document_path;
  first_line = item.start_line;
  last_line = item.end_line;
}

-- `r.get("rerank_score") or r.get("fused_score", 0.0)`
unfoldable pub result_score : Result → ℤ
result_score r = elim r.rerank_score [
  | some (pos (suc n)) ↦ pos (suc n)
  | some (negsuc n) ↦ negsuc n
  | _ ↦ r.fused_score
]

unfoldable pub make_item : Result → Text → EvidenceItem
unfolding source_type_from_chunk inspect_untrusted_text result_score
make_item r text = record {
  chunk_id = r.chunk.id;
  source_type = source_type_from_chunk r.chunk;
  chunk_type = r.chunk.chunk_type;
  document_path = or_default r.chunk.document_path "";
  service_name = r.chunk.service_name;
  deploy_hash = r.chunk.deploy_hash;
  endpoint = r.chunk.endpoint;
  section_title = r.chunk.section_title;
  start_line = r.chunk.start_line;
  end_line = r.chunk.end_line;
  timestamp_start = r.chunk.timestamp_start;
  timestamp_end = r.chunk.timestamp_end;
  text = text;
  score = result_score r;
  vector_score = r.vector_score;
  lexical_score = r.lexical_score;
  injection_flags = inspect_untrusted_text text;
  why_retrieved = r.metadata_boost_reasons;
}

-- `SOURCE_PRIORITY.get(source_type, 99)`
unfoldable pub source_priority : String → ℕ
source_priority t =
    if str_eq t "deploy"
    then 0
    else if str_eq t "logs"
    then 1
    else if str_eq t "code"
    then 2
    else if str_eq t "incident"
    then 3
    else if str_eq t "config"
    then 4
    else if str_eq t "api_doc"
    then 5
    else if str_eq t "runbook"
    then 6
    else 99

-- The order of strings, by their code points.
unfoldable pub text_leb : Text → Text → Bool
text_leb [] ds = true
text_leb (c ∷ cs) [] = false
text_leb (c ∷ cs) (d ∷ ds) = ltb c d || (c == d && text_leb cs ds)

-- The order of the sort: the higher score, then the source, then the path.
unfoldable pub stands_before : EvidenceItem → EvidenceItem → Bool
unfolding source_priority text_leb
stands_before a b =
    not (leb_ℤ a.score b.score)
    || (leb_ℤ b.score a.score
        && (ltb (source_priority a.source_type) (source_priority b.source_type)
            || (source_priority a.source_type == source_priority b.source_type
                && text_leb (codes a.document_path) (codes b.document_path))))

module _ (redact_secrets : Text → Text) (max_evidence max_chars_per_chunk max_total_chars : ℕ) where
  -- The text that a result is packed with, given the characters that are left.
  unfoldable pub packed_text : Result → ℕ → Text
  unfolding compact_text
  packed_text r remaining =
      let text = compact_text (redact_secrets r.chunk.text) max_chars_per_chunk in
      if ltb remaining (length text) then compact_text text remaining else text

  -- The loop, with the signatures seen, the characters packed and the items packed so far.
  unfoldable pub pack_results : List Result → List Signature → ℕ → ℕ → List EvidenceItem
  unfolding compact_text packed_text signature_eq chunk_signature make_item
  pack_results [] seen total_chars packed = []
  pack_results (r ∷ rs) seen total_chars packed =
      let signature = chunk_signature r.chunk in
      let remaining = max_total_chars - total_chars in
      let text = packed_text r remaining in
      let repeated = pack_results rs seen total_chars packed in
      let skipped = pack_results rs (signature ∷ seen) total_chars packed in
      let next = pack_results rs (signature ∷ seen) (total_chars + length text) (suc packed) in
      if any (signature_eq signature) seen
      then repeated
      else if not (non_empty (compact_text (redact_secrets r.chunk.text) max_chars_per_chunk))
      then skipped
      else if leb max_total_chars total_chars
      then []
      else if not (non_empty text)
      then []
      else if leb max_evidence (suc packed)
      then make_item r text ∷ []
      else make_item r text ∷ next

  unfoldable pub pack_evidence : List Result → List EvidenceItem
  unfolding pack_results stands_before
  pack_evidence results = take max_evidence (sort_by stands_before (pack_results results [] 0 0))
