-- ===== src/Readiness/Counts/Laws.antt =====
-- Normalisation loses no count, and renames once.
use ops_incident_core.Prelude.{ℕ, ◌+◌, ◌≡◌, ◌↔◌, ◌∙◌, true, [], ◌∷◌, arith, if◌then◌else◌}
use ops_incident_core.Prelude.Text.{Text, text_eq}
use ops_incident_core.Readiness.Counts.{
  Counter, add_count, get_count, normal_name, normalize_from, normalized_counts,
}

abbrev total : Counter → ℕ
total [] = 0
total (e ∷ counts) = e.1 + total counts

-- The counts whose names normalise to `k`.
abbrev pub counted_as : Text → Counter → ℕ
counted_as k [] = 0
counted_as k (e ∷ counts) = (if text_eq (normal_name e.0) k then e.1 else 0) + counted_as k counts

pub text_eq_iff : (a b : Text) → (text_eq a b ≡ true) ↔ (a ≡ b)
unfolding text_eq
text_eq_iff [] [] = ground arith
text_eq_iff [] (y ∷ ys) = ground arith
text_eq_iff (x ∷ xs) [] = ground arith
text_eq_iff (x ∷ xs) (y ∷ ys) = ground (arith, text_eq_iff xs ys)

pub get_count-add_count :
    (k j : Text) (n : ℕ) (counts : Counter)
    → get_count j (add_count k n counts) ≡ (if text_eq k j then n else 0) + get_count j counts
unfolding get_count add_count
get_count-add_count k j n [] = ground arith
get_count-add_count k j n (e ∷ counts) =
    ground (
      arith,
      get_count-add_count k j n counts,
      text_eq_iff e.0 k,
      text_eq_iff e.0 j,
      text_eq_iff k j,
    )

normalize_from_lem :
    (j : Text) (normalized counts : Counter)
    → get_count j (normalize_from normalized counts) ≡ get_count j normalized + counted_as j counts
unfolding normalize_from
normalize_from_lem j normalized [] = omega arith
normalize_from_lem j normalized (e ∷ counts) = omega (
  arith,
  normalize_from_lem j (add_count (normal_name e.0) e.1 normalized) counts,
  get_count-add_count (normal_name e.0) j e.1 normalized,
)

-- The normalised count of a name is the sum of the counts of all the names that stand for it.
pub normalized_counts_lem :
    (j : Text) (counts : Counter) → get_count j (normalized_counts counts) ≡ counted_as j counts
unfolding normalized_counts get_count
normalized_counts_lem j counts = normalize_from_lem j [] counts ∙ omega arith
