-- ===== src/Retrieval/Hybrid/Fusion.antt =====
-- `_weighted_rrf`: the fusion of the ranks that the branches give. Scores and weights are
-- millionths; a quotient is rounded down to a millionth.
pub mod Sums
use ops_incident_core.Prelude.{
  ℕ, ◌+◌, ◌*◌, ◌/◌, max, Bool, true, false, Option, none, some, String, List, [], ◌∷◌, ◌++◌, any,
  if◌then◌else◌, or_default,
}
use text.Mathlib.Text.{◌==◌ as str_eq}
use ops_incident_core.Prelude.Int.{ℤ, pos, pos_part}
use ops_incident_core.Retrieval.Chunk.{Chunk}
use ops_incident_core.Retrieval.Hybrid.Sources.{Found}

pub data Branch : Type 0 where
  vector lexical metadata graph : Branch

abbrev pub same_branch : Branch → Branch → Bool
same_branch vector vector = true
same_branch lexical lexical = true
same_branch metadata metadata = true
same_branch graph graph = true
same_branch _ _ = false

-- One result of a branch, with its score where it has one.
pub record Hit : Type 0 where
  pub found : Found
  pub score : Option ℤ

-- The dictionary of a candidate; `graph_score` is there once the graph has found it.
pub record Entry : Type 0 where
  pub found : Found
  pub vector_score : ℤ
  pub lexical_score : ℤ
  pub metadata_score : ℤ
  pub graph_score : Option ℤ
  pub rrf_score : ℕ
  pub branch_ranks : List (Branch × ℕ)

abbrev pub id_of : Found → String
id_of found = found.chunk.id

unfoldable pub new_entry : Found → Entry
new_entry found = record {
  found = found;
  vector_score = pos 0;
  lexical_score = pos 0;
  metadata_score = pos 0;
  graph_score = none;
  rrf_score = 0;
  branch_ranks = [];
}

-- `entry["branch_ranks"][branch_name] = rank`
unfoldable pub set_rank : Branch → ℕ → List (Branch × ℕ) → List (Branch × ℕ)
set_rank branch rank [] = (branch, rank) ∷ []
set_rank branch rank (r ∷ ranks) =
    if same_branch r.0 branch then (branch, rank) ∷ ranks else r ∷ set_rank branch rank ranks

-- `entry[f"{branch_name}_score"] = ...`
unfoldable pub set_score : Branch → ℤ → Entry → Entry
set_score vector score entry = record entry { vector_score = score }
set_score lexical score entry = record entry { lexical_score = score }
set_score metadata score entry = record entry { metadata_score = score }
set_score graph score entry = record entry { graph_score = some score }

-- `(max(weight, 0.0) / (denominator_offset + rank)) * 100.0`
unfoldable pub share : ℤ → ℕ → ℕ → ℕ
share weight offset rank = pos_part weight * 100 / (offset + rank)

unfoldable pub count_hit : Branch → ℤ → ℕ → ℕ → Hit → Entry → Entry
count_hit branch weight offset rank hit entry =
    let scored = set_score branch (or_default hit.score (pos 0)) entry in
    record scored {
      branch_ranks = set_rank branch rank scored.branch_ranks;
      rrf_score = scored.rrf_score + share weight offset rank;
    }

-- `candidates.setdefault(chunk.id, {...})`, and the assignments to the entry.
unfoldable pub add_hit : Branch → ℤ → ℕ → ℕ → Hit → List Entry → List Entry
add_hit branch weight offset rank hit [] =
    count_hit branch weight offset rank hit (new_entry hit.found) ∷ []
add_hit branch weight offset rank hit (entry ∷ entries) =
    if str_eq (id_of entry.found) (id_of hit.found)
    then count_hit branch weight offset rank hit entry ∷ entries
    else entry ∷ add_hit branch weight offset rank hit entries

-- The results of a branch, from a rank on.
unfoldable pub add_hits : Branch → ℤ → ℕ → ℕ → List Hit → List Entry → List Entry
add_hits branch weight offset rank [] entries = entries
add_hits branch weight offset rank (hit ∷ hits) entries =
    add_hits branch weight offset (rank + 1) hits (add_hit branch weight offset rank hit entries)

pub record FusionSettings : Type 0 where
  pub vector_weight : ℤ
  pub lexical_weight : ℤ
  pub metadata_weight : ℤ
  pub rag_graph_weight : ℤ
  pub rag_rrf_k : ℕ
  pub rag_candidate_multiplier : ℕ

-- The results of the four branches.
pub record Branches : Type 0 where
  pub vector_results : List Hit
  pub lexical_results : List Hit
  pub metadata_results : List Hit
  pub graph_results : List Hit

unfoldable pub weighted_rrf : FusionSettings → Branches → List Entry
weighted_rrf settings b =
    let offset = max settings.rag_rrf_k 1 in
    add_hits graph settings.rag_graph_weight offset 1 b.graph_results (
      add_hits metadata settings.metadata_weight offset 1 b.metadata_results (
        add_hits lexical settings.lexical_weight offset 1 b.lexical_results
          (add_hits vector settings.vector_weight offset 1 b.vector_results [])))
