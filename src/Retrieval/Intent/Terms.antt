-- ===== src/Retrieval/Intent/Terms.antt =====
-- What the terms of a query are, and that letter case does not matter.
use ops_incident_core.Prelude.{
  ℕ, ◌≤◌, ◌≡◌, refl, ap, Bool, true, false, not, ◌&&◌, List, [], ◌∷◌, ◌++◌, arith, length,
  length-take, select, All, All-take, Bool-cases, inl, inr, if◌then◌else◌,
}
use ops_incident_core.Prelude.Text.{Text, lower, lower_char}
use ops_incident_core.Retrieval.Words.{
  query_terms_of, find_tokens, is_query_term, strip, contains_any, looks_like_code_location,
  config_terms, api_terms, architecture_terms, runtime_terms, deploy_terms, incident_history_terms,
  runbook_terms, root_cause_terms,
}
use ops_incident_core.Retrieval.Intent.{QueryIntent, classify_query_intent, classify_text}

All-select : (p : Text → Bool) (xs : List Text) → All (λ x. p x ≡ true) (select p xs)
All-select p [] = tt
All-select p (x ∷ xs) = elim (Bool-cases (p x)) [
  | inl e ↦ rw e (e, All-select p xs)
  | inr e ↦ rw e (All-select p xs)
]

-- The query intents that carry given terms, and two branches that both do.
record Carries (terms : List Text) (q : QueryIntent) : Type 0 where
  carried : q.query_terms ≡ terms

both :
    (terms : List Text) (b : Bool) (x y : QueryIntent)
    → Carries terms x
    → Carries terms y
    → Carries terms (if b then x else y)
both terms true x y hx hy = hx
both terms false x y hx hy = hy

carries : (q : QueryIntent) → Carries q.query_terms q
carries q = record { carried = refl }

classify_text-Carries : (text : Text) → Carries (query_terms_of text) (classify_text text)
unfolding classify_text
classify_text-Carries text =
    let ts = query_terms_of text in
    both ts (contains_any text incident_history_terms) _ _ (carries _) (
      both ts (contains_any text runbook_terms) _ _ (carries _) (
        both ts
          (looks_like_code_location text && not (contains_any text (api_terms ++ config_terms))) _ _
          (carries _)
          (both ts (contains_any text root_cause_terms) _ _ (carries _) (
            both ts
              (contains_any text deploy_terms
                && not (contains_any text ("where is" ∷ "where are" ∷ [])))
              _ _ (carries _)
              (both ts (contains_any text runtime_terms) _ _ (carries _) (
                both ts (contains_any text api_terms) _ _ (carries _) (
                  both ts (contains_any text config_terms) _ _ (carries _) (
                    both ts (contains_any text architecture_terms) _ _ (carries _)
                      (carries _)))))))))

query_terms_of-classify_text :
    (text : Text) → (classify_text text).query_terms ≡ query_terms_of text
query_terms_of-classify_text text = (classify_text-Carries text).carried

lower_char-lower_char : (c : ℕ) → lower_char (lower_char c) ≡ lower_char c
unfolding lower_char
lower_char-lower_char c = ground arith

lower-lower : (text : Text) → lower (lower text) ≡ lower text
unfolding lower
lower-lower [] = refl
lower-lower (c ∷ cs) = rw (lower_char-lower_char c, lower-lower cs)

length-query_terms_of : (text : Text) → length (query_terms_of text) ≤ 30
unfolding query_terms_of
length-query_terms_of text = omega (arith, length-take 30 (select is_query_term (find_tokens text)))

query_terms_of-All : (text : Text) → All (λ t. is_query_term t ≡ true) (query_terms_of text)
unfolding query_terms_of
query_terms_of-All text =
    All-take (λ t. is_query_term t ≡ true) 30 (select is_query_term (find_tokens text))
      (All-select is_query_term (find_tokens text))

-- A query gives at most thirty terms, each of three characters or more and none a stopword, and
-- the same intent, terms and preferences however its letters are capitalised.
pub classify_query_intent_lem :
    (query : Text)
    → (length (classify_query_intent query).query_terms ≤ 30)
      × All (λ t. is_query_term t ≡ true) (classify_query_intent query).query_terms
      × (classify_query_intent (lower query) ≡ classify_query_intent query)
unfolding classify_query_intent
classify_query_intent_lem query =
    let terms : (classify_query_intent query).query_terms ≡ query_terms_of (strip (lower query)) =
      query_terms_of-classify_text (strip (lower query)) in
    (
      simp terms (length-query_terms_of (strip (lower query))),
      simp terms (query_terms_of-All (strip (lower query))),
      ap (λ t. classify_text (strip t)) (lower-lower query),
    )
