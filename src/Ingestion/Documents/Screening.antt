-- ===== src/Ingestion/Documents/Screening.antt =====
-- What the screening of a document promises, and that a screened document passes unchanged.
use ops_incident_core.Prelude.{
  ◌≤◌, ◌≡◌, inl, inr, refl, sym, subst, ap, ◌∙◌, Bool, true, none, arith, Option-cases, length,
  non_empty,
}
use ops_incident_core.Prelude.Text.{Text, replace_char}
use ops_incident_core.Settings.{Settings}
use ops_incident_core.Retrieval.Words.{strip}
use ops_incident_core.Ingestion.Documents.{
  NormalizedDocument, valid, path_is_safe, utf8_length, is_sha256, normalize_content_hash,
  first_violation, normalize_document, validate_normalized_document,
}
use ops_incident_core.Ingestion.Documents.Stripping.{strip_again}
use ops_incident_core.Ingestion.Documents.Digests.{
  IsNormalDigest, normalize_content_hash_lem, digest_again,
}
use ops_incident_core.Ingestion.Documents.Normal.{
  IsKnown, normalize_source_type-IsKnown, normalize_source_type_fixed, normal_path_again,
}

-- A document passes exactly when no check fails, and then is normalised.
validate_ok :
    (settings : Settings) (allow_absolute : Bool) (document d : NormalizedDocument)
    → validate_normalized_document settings allow_absolute document ≡ valid d
    → let external_id = strip document.external_id in
      let path = replace_char b'\\' b'/' (strip document.path) in
      (first_violation settings allow_absolute external_id path document ≡ none)
      × (d ≡ normalize_document external_id path document)
unfolding validate_normalized_document
validate_ok settings allow_absolute document d h =
    let external_id = strip document.external_id in
    let path = replace_char b'\\' b'/' (strip document.path) in
    elim (Option-cases (first_violation settings allow_absolute external_id path document)) [
      | inl e ↦ (e, cc (rw (e, validate_normalized_document) at h))
      | inr (code, e) ↦ absurd (cc (rw (e, validate_normalized_document) at h))
    ]

validate_run :
    (settings : Settings) (allow_absolute : Bool) (document : NormalizedDocument)
    → let external_id = strip document.external_id in
      let path = replace_char b'\\' b'/' (strip document.path) in
      first_violation settings allow_absolute external_id path document ≡ none
      → validate_normalized_document settings allow_absolute document
        ≡ valid (normalize_document external_id path document)
unfolding validate_normalized_document
validate_run settings allow_absolute document h = rw (h, validate_normalized_document) refl

-- What a document without a violation is like.
first_violation-none :
    (settings : Settings) (allow_absolute : Bool) (external_id path : Text)
    (document : NormalizedDocument)
    → first_violation settings allow_absolute external_id path document ≡ none
    → (non_empty external_id ≡ true)
      × (length external_id ≤ settings.max_external_id_length)
      × (path_is_safe allow_absolute (replace_char b'\\' b'/' external_id) ≡ true)
      × (non_empty path ≡ true)
      × (length path ≤ settings.max_path_length)
      × (path_is_safe allow_absolute path ≡ true)
      × (utf8_length document.content ≤ settings.max_document_bytes)
      × (is_sha256 (strip document.content_hash) ≡ true)
unfolding first_violation
first_violation-none settings allow_absolute external_id path document h = ground arith

-- A violation does not depend on the fields that are normalised, the digest apart.
first_violation_normal :
    (settings : Settings) (allow_absolute : Bool) (external_id path : Text)
    (document : NormalizedDocument)
    → first_violation settings allow_absolute external_id path document ≡ none
    → is_sha256 (strip (normalize_content_hash document.content_hash)) ≡ true
    → first_violation settings allow_absolute external_id path
        (normalize_document external_id path document)
      ≡ none
unfolding first_violation normalize_document
first_violation_normal settings allow_absolute external_id path document h e = ground arith

-- A normalised document passes again, unchanged.
normal_again :
    (settings : Settings) (allow_absolute : Bool) (document : NormalizedDocument)
    → let external_id = strip document.external_id in
      let path = replace_char b'\\' b'/' (strip document.path) in
      let normal = normalize_document external_id path document in
      first_violation settings allow_absolute external_id path normal ≡ none
      → normalize_content_hash normal.content_hash ≡ normal.content_hash
      → validate_normalized_document settings allow_absolute normal ≡ valid normal
unfolding normalize_document
normal_again settings allow_absolute document passed same =
    let external_id = strip document.external_id in
    let path = replace_char b'\\' b'/' (strip document.path) in
    let normal = normalize_document external_id path document in
    let named = strip_again document.external_id in
    let located = normal_path_again document.path in
    let known =
      normalize_source_type_fixed normal.source_type path
        (normalize_source_type-IsKnown document.source_type path) in
    validate_run settings allow_absolute normal (rw (named, located) passed)
    ∙ ap valid (rw (named, located, known, same) refl)

-- The promises on a document that has passed.
abbrev pub IsScreened : Settings → Bool → NormalizedDocument → Type 0
IsScreened settings allow_absolute d =
    (validate_normalized_document settings allow_absolute d ≡ valid d)
    × (non_empty d.external_id ≡ true)
    × (length d.external_id ≤ settings.max_external_id_length)
    × (path_is_safe allow_absolute (replace_char b'\\' b'/' d.external_id) ≡ true)
    × (non_empty d.path ≡ true)
    × (length d.path ≤ settings.max_path_length)
    × (path_is_safe allow_absolute d.path ≡ true)
    × (utf8_length d.content ≤ settings.max_document_bytes)
    × IsKnown d.source_type
    × IsNormalDigest d.content_hash

-- A document that passes the screening has a name and a path that are not empty, within their
-- limits and safe, a content within the limit, a known type and a digest in lower case without a
-- prefix; and screened again, as it was queued, it passes and stays the same.
pub validate_normalized_document_lem :
    (settings : Settings) (allow_absolute : Bool) (document d : NormalizedDocument)
    → validate_normalized_document settings allow_absolute document ≡ valid d
    → IsScreened settings allow_absolute d
unfolding normalize_document
validate_normalized_document_lem settings allow_absolute document d h =
    let external_id = strip document.external_id in
    let path = replace_char b'\\' b'/' (strip document.path) in
    let (passed, e) = validate_ok settings allow_absolute document d h in
    let (named, short, safe, located, short', safe', small, hashed) =
      first_violation-none settings allow_absolute external_id path document passed in
    let digest = normalize_content_hash_lem document.content_hash hashed in
    let (again, same) = digest_again _ digest in
    let passed' =
      first_violation_normal settings allow_absolute external_id path document passed again in
    subst (IsScreened settings allow_absolute) (sym e) (
      normal_again settings allow_absolute document passed' same,
      named,
      short,
      safe,
      located,
      short',
      safe',
      small,
      normalize_source_type-IsKnown document.source_type path,
      digest,
    )
