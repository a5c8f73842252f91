-- ===== src/Retrieval/Hybrid/Fusion/Sums.antt =====
-- The fused score of a chunk is the sum of its shares, whatever the order of the branches.
use ops_incident_core.Prelude.{
  ℕ, ◌+◌, max, ◌≡◌, inl, inr, refl, Bool, false, ◌||◌, String, List, [], ◌∷◌, arith, any,
  Bool-cases, if◌then◌else◌, ◌∙◌,
}
use text.Mathlib.Text.{◌==◌ as str_eq}
use text.Mathlib.TextEquality.{eq_iff}
use ops_incident_core.Prelude.Int.{ℤ}
use ops_incident_core.Retrieval.Hybrid.Fusion.{
  Branch, vector, lexical, metadata, graph, Hit, Entry, id_of, new_entry, set_score, share,
  count_hit, add_hit, add_hits, FusionSettings, Branches, weighted_rrf,
}

-- What a branch gives to a chunk, by the definition.
abbrev pub shares : ℤ → ℕ → ℕ → List Hit → String → ℕ
shares weight offset rank [] id = 0
shares weight offset rank (hit ∷ hits) id =
    (if str_eq (id_of hit.found) id then share weight offset rank else 0)
    + shares weight offset (rank + 1) hits id

-- The score of a chunk among the candidates, and whether a list of results has it.
abbrev pub score_of : String → List Entry → ℕ
score_of id [] = 0
score_of id (e ∷ es) = if str_eq (id_of e.found) id then e.rrf_score else score_of id es

abbrev pub is_candidate : String → List Entry → Bool
is_candidate id es = any (λ (e : Entry). str_eq (id_of e.found) id) es

abbrev pub is_hit : String → List Hit → Bool
is_hit id hits = any (λ (h : Hit). str_eq (id_of h.found) id) hits

-- No chunk is a candidate twice.
abbrev pub HasUniqueChunks : List Entry → Type 0
HasUniqueChunks [] = Unit
HasUniqueChunks (e ∷ es) = (is_candidate (id_of e.found) es ≡ false) × HasUniqueChunks es

count_hit-found :
    (branch : Branch) (weight : ℤ) (offset rank : ℕ) (hit : Hit) (e : Entry)
    → ((count_hit branch weight offset rank hit e).found ≡ e.found)
      × ((count_hit branch weight offset rank hit e).rrf_score
          ≡ e.rrf_score + share weight offset rank)
unfolding count_hit set_score
count_hit-found vector weight offset rank hit e = (refl, refl)
count_hit-found lexical weight offset rank hit e = (refl, refl)
count_hit-found metadata weight offset rank hit e = (refl, refl)
count_hit-found graph weight offset rank hit e = (refl, refl)

score_of-add_hit :
    (branch : Branch) (weight : ℤ) (offset rank : ℕ) (hit : Hit) (es : List Entry) (id : String)
    → score_of id (add_hit branch weight offset rank hit es)
      ≡ score_of id es + (if str_eq (id_of hit.found) id then share weight offset rank else 0)
unfolding add_hit new_entry
score_of-add_hit branch weight offset rank hit [] id =
    let (f, s) = count_hit-found branch weight offset rank hit (new_entry hit.found) in
    rw (f, s) (ground arith)
score_of-add_hit branch weight offset rank hit (e ∷ es) id =
    elim (Bool-cases (str_eq (id_of e.found) (id_of hit.found))) [
      | inl t ↦
          let (f, s) = count_hit-found branch weight offset rank hit e in
          rw (t, f, s)
            (ground (
              arith,
              eq_iff (id_of e.found) (id_of hit.found),
              eq_iff (id_of hit.found) id,
              eq_iff (id_of e.found) id,
            ))
      | inr g ↦ rw g (
          ground (
            arith,
            score_of-add_hit branch weight offset rank hit es id,
            eq_iff (id_of e.found) (id_of hit.found),
            eq_iff (id_of hit.found) id,
            eq_iff (id_of e.found) id,
          ))
    ]

is_candidate-add_hit :
    (branch : Branch) (weight : ℤ) (offset rank : ℕ) (hit : Hit) (es : List Entry) (id : String)
    → is_candidate id (add_hit branch weight offset rank hit es)
      ≡ (is_candidate id es || str_eq (id_of hit.found) id)
unfolding add_hit new_entry
is_candidate-add_hit branch weight offset rank hit [] id =
    let (f, _) = count_hit-found branch weight offset rank hit (new_entry hit.found) in
    rw f (ground arith)
is_candidate-add_hit branch weight offset rank hit (e ∷ es) id =
    elim (Bool-cases (str_eq (id_of e.found) (id_of hit.found))) [
      | inl t ↦
          let (f, _) = count_hit-found branch weight offset rank hit e in
          rw (t, f)
            (ground (
              arith,
              eq_iff (id_of e.found) (id_of hit.found),
              eq_iff (id_of hit.found) id,
              eq_iff (id_of e.found) id,
            ))
      | inr g ↦ rw g (ground (arith, is_candidate-add_hit branch weight offset rank hit es id))
    ]

add_hit-HasUniqueChunks :
    (branch : Branch) (weight : ℤ) (offset rank : ℕ) (hit : Hit) (es : List Entry)
    → HasUniqueChunks es
    → HasUniqueChunks (add_hit branch weight offset rank hit es)
unfolding add_hit
add_hit-HasUniqueChunks branch weight offset rank hit [] u = (refl, tt)
add_hit-HasUniqueChunks branch weight offset rank hit (e ∷ es) u =
    elim (Bool-cases (str_eq (id_of e.found) (id_of hit.found))) [
      | inl t ↦ let (f, _) = count_hit-found branch weight offset rank hit e in rw (t, f) u
      | inr g ↦ rw g (
        is_candidate-add_hit branch weight offset rank hit es (id_of e.found)
            ∙ ground (
              arith,
              eq_iff (id_of e.found) (id_of hit.found),
              eq_iff (id_of hit.found) (id_of e.found),
            ),
        add_hit-HasUniqueChunks branch weight offset rank hit es u.1,
      )
    ]

-- A branch as a whole.
add_hits_lem :
    (branch : Branch) (weight : ℤ) (offset rank : ℕ) (hits : List Hit) (es : List Entry)
    (id : String)
    → let fused = add_hits branch weight offset rank hits es in
      (score_of id fused ≡ score_of id es + shares weight offset rank hits id)
      × (is_candidate id fused ≡ (is_candidate id es || is_hit id hits))
      × (HasUniqueChunks es → HasUniqueChunks fused)
unfolding add_hits
add_hits_lem branch weight offset rank [] es id = (omega arith, ground arith, λ u. u)
add_hits_lem branch weight offset rank (hit ∷ hits) es id =
    let es' = add_hit branch weight offset rank hit es in
    let (score, member, unique) = add_hits_lem branch weight offset (rank + 1) hits es' id in
    (
      omega (arith, score, score_of-add_hit branch weight offset rank hit es id),
      ground (arith, member, is_candidate-add_hit branch weight offset rank hit es id),
      λ u. unique (add_hit-HasUniqueChunks branch weight offset rank hit es u),
    )

-- The fusion is the sum over the branches: each chunk that a branch has found is a candidate, once,
-- and its score is the sum of its shares, the weight of a branch over its rank there, in hundreds;
-- a branch with a negative weight gives nothing.
pub weighted_rrf_lem :
    (settings : FusionSettings) (b : Branches) (id : String)
    → let fused = weighted_rrf settings b in
      let offset = max settings.rag_rrf_k 1 in
      HasUniqueChunks fused
      × (is_candidate id fused ≡ (
          is_hit id b.vector_results
          || is_hit id b.lexical_results
          || is_hit id b.metadata_results
          || is_hit id b.graph_results))
      × (score_of id fused
          ≡ shares settings.vector_weight offset 1 b.vector_results id
            + shares settings.lexical_weight offset 1 b.lexical_results id
            + shares settings.metadata_weight offset 1 b.metadata_results id
            + shares settings.rag_graph_weight offset 1 b.graph_results id)
unfolding weighted_rrf
weighted_rrf_lem settings b id =
    let offset = max settings.rag_rrf_k 1 in
    let es1 = add_hits vector settings.vector_weight offset 1 b.vector_results [] in
    let es2 = add_hits lexical settings.lexical_weight offset 1 b.lexical_results es1 in
    let es3 = add_hits metadata settings.metadata_weight offset 1 b.metadata_results es2 in
    let (s1, m1, u1) = add_hits_lem vector settings.vector_weight offset 1 b.vector_results [] id in
    let (s2, m2, u2) =
      add_hits_lem lexical settings.lexical_weight offset 1 b.lexical_results es1 id in
    let (s3, m3, u3) =
      add_hits_lem metadata settings.metadata_weight offset 1 b.metadata_results es2 id in
    let (s4, m4, u4) =
      add_hits_lem graph settings.rag_graph_weight offset 1 b.graph_results es3 id in
    (u4 (u3 (u2 (u1 tt))), rw (m4, m3, m2, m1) refl, omega (arith, s1, s2, s3, s4))
