-- ===== src/Retrieval/Compact/Bounds.antt =====
-- The length of a compacted text.
use ops_incident_core.Prelude.{
  ℕ, suc, ◌+◌, ◌-◌, ◌≤◌, ◌≡◌, Bool, false, List, [], ◌∷◌, arith, length, length-append, length-take,
  take, ◌==◌, map,
}
use mathlib.Core.List.{reverse, reverse_aux}
use ops_incident_core.Prelude.Text.{Text, codes}
use ops_incident_core.Retrieval.Words.{strip, strip_left, strip_right}
use ops_incident_core.Retrieval.Compact.{
  split_lines, join_lines, cleaned_text, truncated_text, compact_text,
}

length-reverse_aux : (xs ys : Text) → length (reverse_aux xs ys) ≡ length xs + length ys
length-reverse_aux [] ys = omega arith
length-reverse_aux (x ∷ xs) ys = omega (arith, length-reverse_aux xs (x ∷ ys))

length-reverse : (xs : Text) → length (reverse xs) ≡ length xs
length-reverse xs = omega (arith, length-reverse_aux xs [])

length-strip_left : (xs : Text) → length (strip_left xs) ≤ length xs
unfolding strip_left
length-strip_left [] = omega arith
length-strip_left (c ∷ cs) = ground (arith, length-strip_left cs)

length-strip_right : (xs : Text) → length (strip_right xs) ≤ length xs
unfolding strip_right
length-strip_right xs = omega (
  arith,
  length-strip_left (reverse xs),
  length-reverse xs,
  length-reverse (strip_left (reverse xs)),
)

length-strip : (xs : Text) → length (strip xs) ≤ length xs
unfolding strip
length-strip xs = omega (arith, length-strip_left xs, length-strip_right (strip_left xs))

-- The characters of the lines, and one more for the end of each.
abbrev line_chars : List Text → ℕ
line_chars [] = 0
line_chars (line ∷ lines) = suc (length line) + line_chars lines

length-join_lines : (lines : List Text) → length (join_lines lines) ≤ line_chars lines - 1
unfolding join_lines
length-join_lines [] = omega arith
length-join_lines (line ∷ []) = omega arith
length-join_lines (line ∷ next ∷ lines) =
    omega
      (arith, length-join_lines (next ∷ lines), length-append line (10 ∷ join_lines (next ∷ lines)))

line_chars-map : (lines : List Text) → line_chars (map strip_right lines) ≤ line_chars lines
line_chars-map [] = omega arith
line_chars-map (line ∷ lines) = omega (arith, line_chars-map lines, length-strip_right line)

line_chars-split_lines :
    (cr : Bool) (line text : Text)
    → line_chars (split_lines cr line text) ≤ suc (length line + length text)
unfolding split_lines
line_chars-split_lines cr [] [] = omega arith
line_chars-split_lines cr (d ∷ ds) [] = omega (arith, length-reverse (d ∷ ds))
line_chars-split_lines cr line (c ∷ cs) = ground (
  arith,
  line_chars-split_lines false line cs,
  line_chars-split_lines (c == 13) [] cs,
  line_chars-split_lines false (c ∷ line) cs,
  length-reverse line,
)

pub length-cleaned_text : (text : Text) → length (cleaned_text text) ≤ length text
unfolding cleaned_text
length-cleaned_text text =
    let lines = split_lines false [] (strip text) in
    omega (
      arith,
      length-join_lines (map strip_right lines),
      line_chars-map lines,
      line_chars-split_lines false [] (strip text),
      length-strip text,
    )

length-truncated_text : (text : Text) → length (truncated_text text) ≤ length text + 3
unfolding truncated_text
length-truncated_text [] = omega arith
length-truncated_text (c ∷ cs) = omega (arith, length-append (c ∷ cs) (codes "..."))

-- A text that is compacted to a number of characters has at most two more, the rest of the three
-- dots that stand for what is cut off, and at most one more than the text that it is made from.
pub length-compact_text :
    (text : Text) (n : ℕ)
    → (length (compact_text text n) ≤ n + 2) × (length (compact_text text n) ≤ length text + 1)
unfolding compact_text
length-compact_text text n =
    let cleaned = cleaned_text text in
    let cut = take (n - 1) cleaned in
    ground (
      arith,
      length-cleaned_text text,
      length-take (n - 1) cleaned,
      length-strip_right cut,
      length-truncated_text (strip_right cut),
    )
