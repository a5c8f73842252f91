-- ===== src/Ingestion/Failures.antt =====
-- incidentops/ingestion/failure_taxonomy.py
pub mod Taxonomy
use ops_incident_core.Prelude.{
  ℕ, suc, Bool, true, false, Option, none, some, String, List, [], ◌∷◌, any, map, if◌then◌else◌,
  or_default, sort_by,
}
use ops_incident_core.Prelude.Text.{Text, codes, lower, text_eq}
use ops_incident_core.Retrieval.Words.{strip}
use ops_incident_core.Retrieval.Packing.{text_leb}

-- `FAILURE_REASONS`
unfoldable pub failure_reasons : List Text
failure_reasons = map codes (
    "unsupported_extension" ∷ "generated_file" ∷ "vendor_file" ∷ "oversized" ∷ "empty" ∷ "binary"
    ∷ "malformed_content" ∷ "parser_exception" ∷ "metadata_invalid" ∷ "chunk_limit_exceeded"
    ∷ "embedding_failed" ∷ "vector_index_failed" ∷ "unknown" ∷ [])

-- `_ALIASES`
unfoldable pub aliases : List (String × String)
aliases =
    ("unsupported_extension", "unsupported_extension")
    ∷ ("generated_file", "generated_file")
    ∷ ("vendor_file", "vendor_file")
    ∷ ("document_too_large", "oversized")
    ∷ ("external_id_too_long", "oversized")
    ∷ ("path_too_long", "oversized")
    ∷ ("empty_content", "empty")
    ∷ ("no_chunks_parsed", "empty")
    ∷ ("binary_content", "binary")
    ∷ ("malformed_content", "malformed_content")
    ∷ ("parse_error", "parser_exception")
    ∷ ("parser_exception", "parser_exception")
    ∷ ("invalid_external_id", "metadata_invalid")
    ∷ ("unsafe_external_id", "metadata_invalid")
    ∷ ("duplicate_external_id", "metadata_invalid")
    ∷ ("invalid_path", "metadata_invalid")
    ∷ ("unsafe_path", "metadata_invalid")
    ∷ ("invalid_size", "metadata_invalid")
    ∷ ("invalid_content_hash", "metadata_invalid")
    ∷ ("invalid_metadata", "metadata_invalid")
    ∷ ("metadata_too_large", "metadata_invalid")
    ∷ ("too_many_chunks", "chunk_limit_exceeded")
    ∷ ("embedding_error", "embedding_failed")
    ∷ ("vector_index_failed", "vector_index_failed")
    ∷ ("index_error", "unknown")
    ∷ []

-- `_ALIASES.get(raw, FAILURE_UNKNOWN)`
unfoldable pub find_alias : Text → List (String × String) → Text
unfolding text_eq
find_alias raw [] = codes "unknown"
find_alias raw (entry ∷ entries) =
    if text_eq raw (codes entry.0) then codes entry.1 else find_alias raw entries

unfoldable pub normalize_failure_code : Option Text → Text
unfolding failure_reasons aliases find_alias lower strip text_eq
normalize_failure_code code =
    let raw = lower (strip (or_default code [])) in
    let alias = find_alias raw aliases in if any (text_eq raw) failure_reasons then raw else alias

-- `Counter`: one more of a key.
unfoldable pub increment : Text → List (Text × ℕ) → List (Text × ℕ)
unfolding text_eq
increment key [] = (key, 1) ∷ []
increment key (entry ∷ entries) =
    if text_eq key entry.0 then (entry.0, suc entry.1) ∷ entries else entry ∷ increment key entries

unfoldable pub count_codes : List (Option Text) → List (Text × ℕ) → List (Text × ℕ)
unfolding increment normalize_failure_code
count_codes [] counts = counts
count_codes (code ∷ rest) counts = count_codes rest (increment (normalize_failure_code code) counts)

abbrev pub key_leb : Text × ℕ → Text × ℕ → Bool
key_leb a b = text_leb a.0 b.0

unfoldable pub failure_reason_counts : List (Option Text) → List (Text × ℕ)
unfolding count_codes text_leb
failure_reason_counts failed = sort_by key_leb (count_codes failed [])
