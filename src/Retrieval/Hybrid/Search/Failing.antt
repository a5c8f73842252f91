-- ===== src/Retrieval/Hybrid/Search/Failing.antt =====
-- A branch that fails takes its own results away and nothing else.
use ops_incident_core.Prelude.{
  ℕ, ◌≡◌, refl, sym, ap, ◌∙◌, take, Bool, true, false, String, List, [], non_empty, if◌then◌else◌,
}
use ops_incident_core.Prelude.Int.{ℤ}
use ops_incident_core.Prelude.Text.{Text}
use ops_incident_core.Retrieval.Intent.{Intent, QueryIntent, classify_query_intent}
use ops_incident_core.Retrieval.Hybrid.Boost.{QueryInfo}
use ops_incident_core.Retrieval.Hybrid.Fusion.{Hit, Branches, FusionSettings}
use ops_incident_core.Retrieval.Hybrid.Search.{
  Outcome, returned, raised, Services, is_architecture, is_exact_lookup, hits_of, retrieve_branches,
  should_vector_fallback, lookup_vector, with_fallback, gather, rank_branches, rank_all, fall_back,
  Scored, SearchDebug, query_embedding, and_then, fetch_budget, hybrid_search_with_debug,
  hybrid_search,
}

-- The services in which a branch that raises returns no result instead.
abbrev pub absorbed : Services → Services
absorbed services = record {
  embed_query = services.embed_query;
  vector_search = λ embedding k. returned (hits_of (services.vector_search embedding k));
  lexical_search = λ k. returned (hits_of (services.lexical_search k));
  metadata_search = λ k. returned (hits_of (services.metadata_search k));
  graph_search = λ k. returned (hits_of (services.graph_search k));
}

abbrev pub is_returned {ℓ} : {A : Type ℓ} → Outcome A → Bool
is_returned (returned a) = true
is_returned (raised error) = false

hits_when :
    (b : Bool) (o : Outcome (List Hit))
    → hits_of (if b then returned (hits_of o) else returned [])
      ≡ hits_of (if b then o else returned [])
hits_when true o = refl
hits_when false o = refl

retrieve_branches-absorbed :
    (services : Services) (intent : Intent) (embedding : List ℤ) (k : ℕ)
    → (retrieve_branches (absorbed services) intent embedding k).0
      ≡ (retrieve_branches services intent embedding k).0
unfolding retrieve_branches
retrieve_branches-absorbed services intent embedding k = rw (
  hits_when (non_empty embedding) (services.vector_search embedding k),
  hits_when (is_architecture intent) (services.graph_search k),
)

-- An exact lookup has asked for no vectors before its fallback.
with_fallback-absorbed :
    (o : Outcome (List Hit)) (found absorbed_found : Branches × List (String × String))
    → found.0.vector_results ≡ []
    → absorbed_found.0 ≡ found.0
    → (with_fallback (returned (hits_of o)) absorbed_found).0 ≡ (with_fallback o found).0
with_fallback-absorbed (returned hits) found absorbed_found none_yet e = rw e
with_fallback-absorbed (raised error) found absorbed_found none_yet e =
    rw e (ap (λ v. record found.0 { vector_results = v }) (sym none_yet))

-- The lookup of the fallback, and what follows from it.
lookup-absorbed :
    (e : Outcome (List ℤ)) (search : List ℤ → Outcome (List Hit))
    (found absorbed_found : Branches × List (String × String))
    → found.0.vector_results ≡ []
    → absorbed_found.0 ≡ found.0
    → (with_fallback (lookup_vector e (λ v. returned (hits_of (search v)))) absorbed_found).0
      ≡ (with_fallback (lookup_vector e search) found).0
lookup-absorbed (returned v) search found absorbed_found none_yet e =
    with_fallback-absorbed (search v) found absorbed_found none_yet e
lookup-absorbed (raised error) search found absorbed_found none_yet e = e

fall_back-absorbed :
    (needed : Bool) (services : Services) (k : ℕ)
    (found absorbed_found : Branches × List (String × String))
    → found.0.vector_results ≡ []
    → absorbed_found.0 ≡ found.0
    → (fall_back needed (absorbed services) k absorbed_found).0
      ≡ (fall_back needed services k found).0
fall_back-absorbed true services k found absorbed_found none_yet e =
    lookup-absorbed services.embed_query (λ v. services.vector_search v k) found absorbed_found
      none_yet e
fall_back-absorbed false services k found absorbed_found none_yet e = e

gather-absorbed :
    (services : Services) (intent : Intent) (k : ℕ)
    → (gather (absorbed services) intent [] k).0 ≡ (gather services intent [] k).0
unfolding gather retrieve_branches
gather-absorbed services intent k =
    let found = retrieve_branches services intent [] k in
    let absorbed_found = retrieve_branches (absorbed services) intent [] k in
    let e = retrieve_branches-absorbed services intent [] k in
    ap
      (λ b.
        (fall_back (should_vector_fallback (is_exact_lookup intent) b) (absorbed services) k
          absorbed_found).0)
      e
    ∙ fall_back-absorbed (should_vector_fallback (is_exact_lookup intent) found.0) services k found
        absorbed_found refl e

gather_plain :
    (services : Services) (intent : Intent) (embedding : List ℤ) (k : ℕ)
    → is_exact_lookup intent ≡ false
    → (gather (absorbed services) intent embedding k).0 ≡ (gather services intent embedding k).0
unfolding gather should_vector_fallback
gather_plain services intent embedding k h =
    rw h (retrieve_branches-absorbed services intent embedding k)

-- Both ways to an embedding.
abbrev ranked_by : FusionSettings → QueryInfo → QueryIntent → ℕ → Services → List ℤ → List Scored
ranked_by settings info intent top_k services embedding =
    (rank_branches settings info intent top_k
      (gather services intent.intent embedding (fetch_budget settings top_k intent.intent))).0

ranked_by-gather :
    (settings : FusionSettings) (info : QueryInfo) (intent : QueryIntent) (top_k : ℕ)
    (s t : Services) (embedding : List ℤ)
    → (gather s intent.intent embedding (fetch_budget settings top_k intent.intent)).0
      ≡ (gather t intent.intent embedding (fetch_budget settings top_k intent.intent)).0
    → ranked_by settings info intent top_k s embedding
      ≡ ranked_by settings info intent top_k t embedding
unfolding rank_branches
ranked_by-gather settings info intent top_k s t embedding e =
    ap (λ b. take top_k (rank_all settings info intent b)) e

search-absorbed :
    (exact : Bool) (settings : FusionSettings) (info : QueryInfo) (intent : QueryIntent) (top_k : ℕ)
    (services : Services) (embedded : Outcome (List ℤ))
    → is_exact_lookup intent.intent ≡ exact
    → let embedding = if exact then returned [] else embedded in
      and_then embedding (ranked_by settings info intent top_k services)
      ≡ and_then embedding (ranked_by settings info intent top_k (absorbed services))
search-absorbed true settings info intent top_k services embedded h = ap returned (
    ranked_by-gather settings info intent top_k services (absorbed services) []
      (sym (gather-absorbed services intent.intent (fetch_budget settings top_k intent.intent))))
search-absorbed false settings info intent top_k services (returned v) h = ap returned (
    ranked_by-gather settings info intent top_k services (absorbed services) v
      (sym (gather_plain services intent.intent v (fetch_budget settings top_k intent.intent) h)))
search-absorbed false settings info intent top_k services (raised error) h = refl

and_then-and_then :
    (o : Outcome (List ℤ)) (f : List ℤ → List Scored × SearchDebug)
    → and_then (and_then o f) (λ (r : List Scored × SearchDebug). r.0) ≡ and_then o (λ v. (f v).0)
and_then-and_then (returned v) f = refl
and_then-and_then (raised error) f = refl

is_returned-and_then :
    (o : Outcome (List ℤ)) (f : List ℤ → List Scored) → is_returned (and_then o f) ≡ is_returned o
is_returned-and_then (returned v) f = refl
is_returned-and_then (raised error) f = refl

hybrid_search-ranked_by :
    (services : Services) (settings : FusionSettings) (info : QueryInfo) (query : Text) (top_k : ℕ)
    → hybrid_search services settings info query top_k
      ≡ and_then
          (query_embedding services (classify_query_intent query).intent)
          (ranked_by settings info (classify_query_intent query) top_k services)
unfolding hybrid_search hybrid_search_with_debug
hybrid_search-ranked_by services settings info query top_k =
    and_then-and_then (query_embedding services (classify_query_intent query).intent) _

-- A search fails only if the embedding of its query fails, which an exact lookup does not need. A
-- branch that raises or is late, in the fallback too, takes its own results away and nothing else:
-- the search returns what it returns when that branch finds nothing.
pub hybrid_search_lem :
    (services : Services) (settings : FusionSettings) (info : QueryInfo) (query : Text) (top_k : ℕ)
    → (is_returned (hybrid_search services settings info query top_k)
        ≡ is_returned (query_embedding services (classify_query_intent query).intent))
      × (hybrid_search services settings info query top_k
          ≡ hybrid_search (absorbed services) settings info query top_k)
hybrid_search_lem services settings info query top_k =
    let intent = classify_query_intent query in
    let e = hybrid_search-ranked_by services settings info query top_k in
    (
      ap is_returned e
          ∙ is_returned-and_then (query_embedding services intent.intent)
              (ranked_by settings info intent top_k services),
      e
          ∙ (search-absorbed (is_exact_lookup intent.intent) settings info intent top_k services
                services.embed_query refl
              ∙ sym (hybrid_search-ranked_by (absorbed services) settings info query top_k)),
    )
