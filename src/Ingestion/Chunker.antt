-- ===== src/Ingestion/Chunker.antt =====
-- incidentops/ingestion/chunking/chunker.py, on the words of the text. The factor of 1.3 tokens
-- for a word is exact here, where the code multiplies and divides floating-point numbers.
pub mod Windows
use ops_incident_core.Prelude.{
  ℕ, zero, suc, ◌+◌, ◌-◌, ◌*◌, ◌/◌, Bool, Option, none, some, List, [], ◌∷◌, if◌then◌else◌, leb,
  ltb, length, take, drop,
}
use mathlib.Core.Option

unfoldable pub count_tokens : ℕ → ℕ
count_tokens words = words * 13 / 10

-- `int(tokens / 1.3)`
abbrev pub words_of : ℕ → ℕ
words_of tokens = tokens * 10 / 13

module _ {ℓ} {A : Type ℓ} (max_words overlap_words : ℕ) (words : List A) where
  -- The `while` loop from a start, for at most as many rounds as there is fuel. An overlap that is
  -- larger than a window leads nowhere in the code either, so that the start stops at zero here.
  unfoldable pub split_from : ℕ → ℕ → Option (List (List A))
  split_from zero start = none
  split_from (suc fuel) start =
      let end = start + max_words in
      let rest = split_from fuel (end - overlap_words) in
      if ltb start (length words)
      then Option.map (λ chunks. take max_words (drop start words) ∷ chunks) rest
      else some []

module _ {ℓ} {A : Type ℓ} where
  -- The chunks of a text, where the loop ends within the fuel.
  unfoldable pub split_text_by_tokens : ℕ → ℕ → List A → ℕ → Option (List (List A))
  unfolding split_from
  split_text_by_tokens max_tokens overlap_tokens words fuel =
      let split = split_from (words_of max_tokens) (words_of overlap_tokens) words fuel 0 in
      if leb (length words) (words_of max_tokens) then some (words ∷ []) else split
