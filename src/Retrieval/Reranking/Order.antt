-- ===== src/Retrieval/Reranking/Order.antt =====
-- Reranking loses no result and adds none, and what its order is.
use mathlib.Core.List.{map-append}
use mathlib.Core.List.Perm
use ops_incident_core.Prelude.{
  ℕ, ◌≡◌, refl, sym, ap, ◌∙◌, subst, Bool, true, false, ◌&&◌, Option, none, some, String, List, [],
  ◌∷◌, ◌++◌, arith, map, length, take, drop, take-append-drop, min, sort_by, sort_by-perm, Perm,
  IsOrder, IsSortedBy, sort_by-IsSortedBy, Option-cases, inl, inr, ◌⊎◌, by_cases, if◌then◌else◌,
}
use ops_incident_core.Prelude.Int.{ℤ}
use ops_incident_core.Retrieval.Chunk.{Result}
use ops_incident_core.Retrieval.Hybrid.Search.{Outcome, returned, raised, and_then}
use ops_incident_core.Retrieval.Reranking.{
  RerankMode, RerankSettings, RerankResponse, RemoteOutcome, has_scores, remote_model_error,
  remote_raised, remote_rerank, disabled, conditional, always, Mode, skipped, heuristic,
  cross_encoder, fallback, turned_off, remote_cross_encoder, with_score, assign_scores,
  reranked_before, fused_before, fallback_sort, rerank_locally, order_results, rerank_remotely,
  order_in_mode, order_results_async, rerank_with_debug_async, should_skip_cross_encoder,
}

reranked_before-IsOrder : IsOrder reranked_before
reranked_before-IsOrder = record {
  total = λ (a b : Result) (h : reranked_before a b ≡ false). ground arith;
  trans = λ (a b c : Result) (h : reranked_before a b ≡ true) (k : reranked_before b c ≡ true).
      ground arith;
}

chunks-assign_scores :
    (rs : List Result) (scores : List ℤ)
    → map Result.chunk (assign_scores rs scores) ≡ map Result.chunk rs
unfolding assign_scores with_score
chunks-assign_scores [] scores = refl
chunks-assign_scores (r ∷ rs) [] = refl
chunks-assign_scores (r ∷ rs) (s ∷ scores) =
    ap (λ cs. r.chunk ∷ cs) (chunks-assign_scores rs scores)

chunks-with_score :
    (rs : List Result)
    → map Result.chunk (map (λ r. with_score r r.fused_score) rs) ≡ map Result.chunk rs
unfolding with_score
chunks-with_score [] = refl
chunks-with_score (r ∷ rs) = ap (λ cs. r.chunk ∷ cs) (chunks-with_score rs)

abbrev is_remote : Mode → Bool
is_remote remote_cross_encoder = true
is_remote _ = false

-- An order of the results: the same chunks, and, unless the remote model has made it, sorted by
-- the scores of the reranking.
pub record IsReranking (results : List Result) (reranked : List Result × Mode) : Type 0 where
  pub same : Perm (map Result.chunk reranked.0) (map Result.chunk results)
  pub sorted : is_remote reranked.1 ≡ false → IsSortedBy reranked_before reranked.0

sorted-IsReranking :
    (results scored : List Result) (mode : Mode)
    → map Result.chunk scored ≡ map Result.chunk results
    → IsReranking results (sort_by reranked_before scored, mode)
sorted-IsReranking results scored mode e = record {
  same =
      subst (λ cs. Perm (map Result.chunk (sort_by reranked_before scored)) cs) e
        (Perm.map Result.chunk (sort_by-perm reranked_before scored));
  sorted = λ _. sort_by-IsSortedBy reranked_before reranked_before-IsOrder scored;
}

fallback_sort-IsReranking :
    (results : List Result) (mode : Mode) → IsReranking results (fallback_sort results, mode)
unfolding fallback_sort
fallback_sort-IsReranking results mode =
    sorted-IsReranking results (map (λ r. with_score r r.fused_score) results) mode
      (chunks-with_score results)

-- The two parts of the results, each in an order of its own.
joined :
    (n : ℕ) (results scored : List Result)
    → map Result.chunk scored ≡ map Result.chunk (take n results)
    → Perm
        (map Result.chunk (sort_by reranked_before scored ++ sort_by fused_before (drop n results)))
        (map Result.chunk results)
joined n results scored e =
    let parts =
      Perm.append (Perm.map Result.chunk (sort_by-perm reranked_before scored))
        (Perm.map Result.chunk (sort_by-perm fused_before (drop n results))) in
    let whole : map Result.chunk scored ++ map Result.chunk (drop n results)
        ≡ map Result.chunk results =
      ap (λ cs. cs ++ map Result.chunk (drop n results)) e
      ∙ sym (map-append Result.chunk (take n results) (drop n results))
      ∙ ap (map Result.chunk) (take-append-drop n results) in
    subst (λ cs. Perm cs (map Result.chunk results))
      (sym (
        map-append Result.chunk (sort_by reranked_before scored)
          (sort_by fused_before (drop n results))))
      (subst
        (λ cs.
          Perm
            (map Result.chunk (sort_by reranked_before scored)
              ++ map Result.chunk (sort_by fused_before (drop n results)))
            cs)
        whole parts)

rerank_locally-IsReranking :
    (encoder : Option (List Result → Option (List ℤ))) (results : List Result)
    → IsReranking results (rerank_locally encoder results)
unfolding rerank_locally
rerank_locally-IsReranking none results = fallback_sort-IsReranking results fallback
rerank_locally-IsReranking (some predict) results = elim (Option-cases (predict results)) [
  | inl e ↦ rw e (fallback_sort-IsReranking results fallback)
  | inr (scores, e) ↦ rw e (
      sorted-IsReranking results (assign_scores results scores) cross_encoder
        (chunks-assign_scores results scores))
]

nothing-IsReranking : IsReranking [] ([], skipped)
nothing-IsReranking = record { same = Perm.rfl; sorted = λ _. tt }

RemoteOutcome-cases :
    (o : RemoteOutcome)
    → ((error : String) × (o ≡ remote_raised error))
      ⊎ ((o ≡ remote_model_error) ⊎ ((scores : List ℤ) × (o ≡ has_scores scores)))
RemoteOutcome-cases (remote_raised error) = inl (error, refl)
RemoteOutcome-cases remote_model_error = inr (inl refl)
RemoteOutcome-cases (has_scores scores) = inr (inr (scores, refl))

module _ (encoder : Option (List Result → Option (List ℤ))) where
  order_results-IsReranking :
      (results : List Result) → IsReranking results (order_results encoder results)
  unfolding order_results
  order_results-IsReranking [] = nothing-IsReranking
  order_results-IsReranking (r ∷ rs) =
      by_cases (IsReranking (r ∷ rs)) (should_skip_cross_encoder (r ∷ rs)) _ _
        (λ _. fallback_sort-IsReranking (r ∷ rs) heuristic)
        (λ _. rerank_locally-IsReranking encoder (r ∷ rs))

  module _ (post : List Result → RerankResponse) (settings : RerankSettings) where
    -- An order of the results, or an exception that the remote model's answer has raised.
    abbrev pub IsAnswer : List Result → Outcome (List Result × Mode) → Type 0
    IsAnswer results (returned reranked) = IsReranking results reranked
    IsAnswer results (raised error) =
        remote_rerank settings post
          (take (min (length results) settings.rag_rerank_max_candidates) results)
        ≡ remote_raised error

    rerank_remotely-IsAnswer :
        (results : List Result) → IsAnswer results (rerank_remotely encoder post settings results)
    unfolding rerank_remotely
    rerank_remotely-IsAnswer results =
        let n = min (length results) settings.rag_rerank_max_candidates in
        elim (RemoteOutcome-cases (remote_rerank settings post (take n results))) [
          | inl (error, e) ↦ rw (e, rerank_remotely) e
          | inr (inl e) ↦ rw (e, rerank_remotely) (fallback_sort-IsReranking results fallback)
          | inr (inr (scores, e)) ↦
              let marked = assign_scores (take n results) scores in
              rw (e, rerank_remotely)
                (record {
                  same = joined n results marked (chunks-assign_scores (take n results) scores);
                  sorted = λ (h : true ≡ false). ground arith;
                })
        ]

    asked-IsAnswer :
        (is_remote_model may_skip : Bool) (results : List Result)
        → IsAnswer results (
            if is_remote_model
            then if may_skip && should_skip_cross_encoder results
              then returned (fallback_sort results, heuristic)
              else rerank_remotely encoder post settings results
            else returned (order_results encoder results))
    asked-IsAnswer false may_skip results = order_results-IsReranking results
    asked-IsAnswer true may_skip results =
        by_cases (IsAnswer results) (may_skip && should_skip_cross_encoder results) _ _
          (λ _. fallback_sort-IsReranking results heuristic) (λ _. rerank_remotely-IsAnswer results)

    order_in_mode-IsAnswer :
        (mode : RerankMode) (model_name : String) (results : List Result)
        → IsAnswer results (order_in_mode encoder post settings mode model_name results)
    unfolding order_in_mode
    order_in_mode-IsAnswer disabled model_name results =
        fallback_sort-IsReranking results turned_off
    order_in_mode-IsAnswer conditional model_name results = asked-IsAnswer _ true results
    order_in_mode-IsAnswer always model_name results = asked-IsAnswer _ false results

    order_results_async-IsAnswer :
        (model_name : String) (results : List Result)
        → IsAnswer results (order_results_async encoder post settings model_name results)
    unfolding order_results_async
    order_results_async-IsAnswer model_name [] = nothing-IsReranking
    order_results_async-IsAnswer model_name (r ∷ rs) =
        order_in_mode-IsAnswer settings.rag_rerank_mode model_name (r ∷ rs)

    -- What is cut to `top_k` is an order of all the results: of the same chunks, and sorted by the
    -- scores of the reranking unless the remote model was asked, which orders its candidates only.
    -- Otherwise the reranking raises, and only the exception with which the remote model's answer
    -- to the candidates was refused, one that is no `RemoteModelError`.
    pub rerank_with_debug_async_lem :
        (top_k : ℕ) (model_name : String) (results : List Result)
        → (whole : Outcome (List Result × Mode)) × (rerank_with_debug_async encoder post settings
              top_k model_name results
            ≡ and_then whole (λ (r : List Result × Mode). (take top_k r.0, r.1)))
          × IsAnswer results whole
    unfolding rerank_with_debug_async
    rerank_with_debug_async_lem top_k model_name results = (
      order_results_async encoder post settings model_name results,
      refl,
      order_results_async-IsAnswer model_name results,
    )
