-- ===== src/Ingestion/Documents/Normal.antt =====
-- The normal forms of the type and of the path of a document.
use ops_incident_core.Prelude.{
  ℕ, ◌≡◌, inl, inr, refl, sym, subst, ap, ◌∙◌, Bool, true, false, String, List, [], ◌∷◌, map, arith,
  All, ◌==◌, Bool-cases, by_cases, if◌then◌else◌,
}
use ops_incident_core.Prelude.Text.{Text, codes, lower, lower_char, replace_char, text_eq}
use ops_incident_core.Retrieval.Words.{is_space, strip, strip_left, strip_right}
use ops_incident_core.Readiness.Counts.Laws.{text_eq_iff}
use ops_incident_core.Ingestion.SourceTypes.{
  classify_source_type, has_suffix, known_source_types, source_type_aliases, resolve_alias,
  is_one_of_names, infer_source_type, normalize_source_type,
}
use ops_incident_core.Ingestion.Documents.Stripping.{strip_again, strip-map}

-- The type of a document is a known one, and a known type is left as it is.
known_inferred :
    (t : Text)
    → is_one_of_names t ("logs" ∷ "code" ∷ "deploy" ∷ "incident" ∷ "api_doc" ∷ "runbook" ∷ [])
      ≡ true
    → is_one_of_names t known_source_types ≡ true
unfolding is_one_of_names
known_inferred t h = ground arith

abbrev pub IsKnown : Text → Type 0
IsKnown t = is_one_of_names t known_source_types ≡ true

either-IsKnown :
    (b c : Bool) (t u v : Text)
    → (b ≡ true → IsKnown t)
    → IsKnown u
    → IsKnown v
    → IsKnown (if b then t else if c then u else v)
either-IsKnown true c t u v h hu hv = h refl
either-IsKnown false true t u v h hu hv = hu
either-IsKnown false false t u v h hu hv = hv

infer_source_type-IsKnown : (path : Text) → IsKnown (infer_source_type path)
unfolding infer_source_type is_one_of_names
infer_source_type-IsKnown path =
    let inferred = codes (classify_source_type path) in
    either-IsKnown
      (is_one_of_names inferred
        ("logs" ∷ "code" ∷ "deploy" ∷ "incident" ∷ "api_doc" ∷ "runbook" ∷ []))
      (has_suffix (lower path) (".json" ∷ ".yaml" ∷ ".yml" ∷ [])) inferred (codes "config")
      (codes "unknown_text") (known_inferred inferred) refl refl

pub normalize_source_type-IsKnown :
    (source_type path : Text) → IsKnown (normalize_source_type source_type path)
unfolding normalize_source_type
normalize_source_type-IsKnown source_type path =
    by_cases IsKnown
      (is_one_of_names (resolve_alias (lower (strip source_type)) source_type_aliases)
        known_source_types)
      _ _ (λ h. h) (λ _. infer_source_type-IsKnown path)

known_fixed :
    (path : Text)
    → All (λ name. normalize_source_type (codes name) path ≡ codes name) known_source_types
unfolding normalize_source_type resolve_alias is_one_of_names strip strip_left strip_right lower
    lower_char text_eq
known_fixed path = (refl, (refl, (refl, (refl, (refl, (refl, (refl, (refl, tt))))))))

All-is_one_of_names :
    (P : Text → Type 0) (t : Text) (names : List String)
    → All (λ name. P (codes name)) names
    → is_one_of_names t names ≡ true
    → P t
unfolding is_one_of_names
All-is_one_of_names P t [] h e = cc
All-is_one_of_names P t (name ∷ names) h e = elim (Bool-cases (text_eq t (codes name))) [
  | inl k ↦ subst P (sym ((text_eq_iff t (codes name)).0 k)) h.0
  | inr k ↦ All-is_one_of_names P t names h.1 (rw k at e)
]

pub normalize_source_type_fixed : (t path : Text) → IsKnown t → normalize_source_type t path ≡ t
normalize_source_type_fixed t path h =
    All-is_one_of_names (λ u. normalize_source_type u path ≡ u) t known_source_types
      (known_fixed path) h

-- A path that is stripped, with its backslashes turned, is so for good.
turn : ℕ → ℕ
turn c = if c == b'\\' then b'/' else c

turn-is_space : (c : ℕ) → is_space (turn c) ≡ is_space c
unfolding turn
turn-is_space c = ground arith

turn_again : (t : Text) → map turn (map turn t) ≡ map turn t
unfolding turn
turn_again [] = refl
turn_again (c ∷ cs) = rw (turn_again cs) (ap (λ d. d ∷ map turn cs) (ground arith))

pub normal_path_again :
    (p : Text)
    → let path = replace_char b'\\' b'/' (strip p) in replace_char b'\\' b'/' (strip path) ≡ path
unfolding replace_char turn
normal_path_again p =
    ap (map turn) (strip-map turn turn-is_space (strip p) ∙ ap (map turn) (strip_again p))
    ∙ turn_again (strip p)
