-- ===== src/Ingestion/Documents.antt =====
-- `validate_normalized_document` of incidentops/ingestion/normalized.py. Texts are lists of code
-- points; white space and lower case are those of ASCII. Of the metadata there are the size of
-- its JSON, the length of each key and, for a value that is a text, its length in UTF-8.
mod Stripping
mod Digests
mod Normal
pub mod Screening
use ops_incident_core.Prelude.{
  ℕ, ◌+◌, ◌*◌, Bool, true, false, not, ◌&&◌, ◌||◌, Option, none, some, String, List, [], ◌∷◌, ◌++◌,
  any, all, select, when, if◌then◌else◌, leb, ltb, ◌==◌, length, take, drop, non_empty, or_default,
}
use ops_incident_core.Prelude.Text.{Text, codes, lower, replace_char, starts_with, text_eq}
use ops_incident_core.Prelude.Int.{ℤ, pos, negsuc, leb_ℤ}
use ops_incident_core.Settings.{Settings}
use ops_incident_core.Retrieval.Words.{strip}
use ops_incident_core.Ingestion.Failures.{normalize_failure_code}
use ops_incident_core.Ingestion.SourceTypes.{normalize_source_type}

pub record Metadata : Type 0 where
  pub json_size : Option ℕ
  pub entries : List (ℕ × Option ℕ)

pub record NormalizedDocument : Type 0 where
  pub external_id : Text
  pub path : Text
  pub source_type : Text
  pub content : Text
  pub content_hash : Text
  pub metadata : Metadata
  pub size_bytes : Option ℤ
  pub modified_at : Option ℕ

pub record DocumentBatchError : Type 0 where
  pub external_id : Option Text
  pub path : Option Text
  pub code : Text

-- The document with its fields normalised, or an error.
pub data Validation : Type 0 where
  valid : NormalizedDocument → Validation
  invalid : DocumentBatchError → Validation

-- The length of a character and of a text in UTF-8.
unfoldable pub utf8_width : ℕ → ℕ
utf8_width c = if ltb c 128 then 1 else if ltb c 2048 then 2 else if ltb c 65536 then 3 else 4

unfoldable pub utf8_length : Text → ℕ
unfolding utf8_width
utf8_length [] = 0
utf8_length (c ∷ cs) = utf8_width c + utf8_length cs

-- The parts of a path: what stands between the separators, less empty parts and single dots.
abbrev pub close_part : Text → List Text
close_part part = when (non_empty part && not (text_eq part (codes "."))) part

unfoldable pub path_parts : Text → Text → List Text
unfolding text_eq
path_parts part [] = close_part part
path_parts part (c ∷ cs) =
    if c == b'/' then close_part part ++ path_parts [] cs else path_parts (part ++ c ∷ []) cs

unfoldable pub path_is_safe : Bool → Text → Bool
unfolding path_parts text_eq starts_with
path_is_safe allow_absolute path =
    if any (λ c. c == 0) path
    then false
    else if starts_with path (codes "/") && not allow_absolute
    then false
    else not (any (λ part. text_eq part (codes "..")) (path_parts [] path))

abbrev pub is_hex : ℕ → Bool
is_hex c = (leb b'0' c && leb c b'9') || (leb b'a' c && leb c b'f') || (leb b'A' c && leb c b'F')

-- `SHA256_RE`
unfoldable pub is_digest : Text → Bool
is_digest text = length text == 64 && all is_hex text

unfoldable pub is_sha256 : Text → Bool
unfolding is_digest starts_with
is_sha256 text = is_digest text || starts_with text (codes "sha256:") && is_digest (drop 7 text)

-- `_normalize_content_hash`
unfoldable pub remove_prefix : Text → Text
unfolding starts_with
remove_prefix value = if starts_with value (codes "sha256:") then drop 7 value else value

unfoldable pub normalize_content_hash : Text → Text
unfolding remove_prefix strip lower
normalize_content_hash content_hash = remove_prefix (lower (strip content_hash))

-- The code of what is wrong with the metadata.
unfoldable pub validate_entries : List (ℕ × Option ℕ) → Option String
validate_entries [] = none
validate_entries (entry ∷ entries) =
    if ltb 256 entry.0
    then some "metadata_too_large"
    else if ltb 8192 (or_default entry.1 0)
    then some "metadata_too_large"
    else validate_entries entries

unfoldable pub validate_metadata : Metadata → ℕ → Option String
unfolding validate_entries
validate_metadata metadata max_metadata_bytes = elim metadata.json_size [
  | none ↦ some "invalid_metadata"
  | some size ↦
      if ltb max_metadata_bytes size
      then some "metadata_too_large"
      else validate_entries metadata.entries
]

-- `CONTROL_CHAR_RE`
abbrev pub is_control : ℕ → Bool
is_control c = leb c 8 || c == 11 || c == 12 || (leb 14 c && leb c 31)

-- A share of more than 0.05 is more than a twentieth.
unfoldable pub looks_binary : Text → Bool
looks_binary content =
    let sample = take 4096 content in
    any (λ c. c == 0) content || ltb (length sample) (20 * length (select is_control sample))

-- `_error`
abbrev pub or_none : Text → Option Text
or_none text = if non_empty text then some text else none

unfoldable pub error_of : NormalizedDocument → String → DocumentBatchError
unfolding normalize_failure_code
error_of document code = record {
  external_id = or_none document.external_id;
  path = or_none document.path;
  code = normalize_failure_code (some (codes code));
}

-- The code of the first check that fails, on the stripped identifier and the normalised path.
unfoldable pub first_violation : Settings → Bool → Text → Text → NormalizedDocument → Option String
first_violation settings allow_absolute external_id path document =
    let content_bytes = utf8_length document.content in
    let declared_size = or_default document.size_bytes (pos content_bytes) in
    if not (non_empty external_id)
    then some "invalid_external_id"
    else if ltb settings.max_external_id_length (length external_id)
    then some "external_id_too_long"
    else if not (path_is_safe allow_absolute (replace_char b'\\' b'/' external_id))
    then some "unsafe_external_id"
    else if not (non_empty path)
    then some "invalid_path"
    else if ltb settings.max_path_length (length path)
    then some "path_too_long"
    else if not (path_is_safe allow_absolute path)
    then some "unsafe_path"
    else if not (non_empty (strip document.content))
    then some "empty_content"
    else if not (leb_ℤ (pos 0) declared_size)
    then some "invalid_size"
    else if ltb settings.max_document_bytes content_bytes
        || not (leb_ℤ declared_size (pos settings.max_document_bytes))
    then some "document_too_large"
    else if not (is_sha256 (strip document.content_hash))
    then some "invalid_content_hash"
    else elim (validate_metadata document.metadata settings.max_metadata_bytes) [
      | some code ↦ some code
      | none ↦ if looks_binary document.content then some "binary_content" else none
    ]

unfoldable pub normalize_document : Text → Text → NormalizedDocument → NormalizedDocument
normalize_document external_id path document = record document {
  external_id = external_id;
  path = path;
  source_type = normalize_source_type document.source_type path;
  content_hash = normalize_content_hash document.content_hash;
}

unfoldable pub validate_normalized_document : Settings → Bool → NormalizedDocument → Validation
validate_normalized_document settings allow_absolute document =
    let external_id = strip document.external_id in
    let path = replace_char b'\\' b'/' (strip document.path) in
    elim (first_violation settings allow_absolute external_id path document) [
      | some code ↦ invalid (error_of document code)
      | none ↦ valid (normalize_document external_id path document)
    ]
