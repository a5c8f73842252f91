-- ===== src/Retrieval/Compact.antt =====
-- `_compact_text` of incidentops/retrieval/evidence_packer.py, on the white space of ASCII.
pub mod Bounds
use ops_incident_core.Prelude.{
  ℕ, ◌-◌, Bool, true, false, ◌&&◌, ◌||◌, List, [], ◌∷◌, ◌++◌, if◌then◌else◌, leb, ◌==◌, length,
  take, non_empty, map,
}
use mathlib.Core.List.{reverse}
use ops_incident_core.Prelude.Text.{Text, codes}
use ops_incident_core.Retrieval.Words.{strip, strip_right}

abbrev is_line_break : ℕ → Bool
is_line_break c = (leb 10 c && leb c 13) || (leb 28 c && leb c 30)

-- `str.splitlines`, with the line that is being read from its last character on; `cr` tells
-- whether a carriage return has just ended a line, whose line feed then ends none.
unfoldable pub split_lines : Bool → Text → Text → List Text
split_lines cr line [] = if non_empty line then reverse line ∷ [] else []
split_lines cr line (c ∷ cs) =
    let skipped = split_lines false line cs in
    let ended = split_lines (c == 13) [] cs in
    let longer = split_lines false (c ∷ line) cs in
    if c == 10 && cr then skipped else if is_line_break c then reverse line ∷ ended else longer

-- `"\n".join`
unfoldable pub join_lines : List Text → Text
join_lines [] = []
join_lines (line ∷ []) = line
join_lines (line ∷ next ∷ lines) = line ++ 10 ∷ join_lines (next ∷ lines)

unfoldable pub cleaned_text : Text → Text
unfolding join_lines split_lines strip strip_right
cleaned_text text = join_lines (map strip_right (split_lines false [] (strip text)))

unfoldable pub truncated_text : Text → Text
truncated_text truncated = if non_empty truncated then truncated ++ codes "..." else []

unfoldable pub compact_text : Text → ℕ → Text
unfolding cleaned_text truncated_text strip_right
compact_text text max_chars =
    let cleaned = cleaned_text text in
    if leb (length cleaned) max_chars
    then cleaned
    else truncated_text (strip_right (take (max_chars - 1) cleaned))
