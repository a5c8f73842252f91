-- ===== src/Retrieval/Packing/Budget.antt =====
-- What packed evidence keeps within, and that no place of a document is packed twice.
use ops_incident_core.Prelude.{
  ℕ, zero, suc, ◌+◌, ◌-◌, ◌≤◌, ◌<◌, ◌≡◌, refl, ◌∙◌, true, false, not, List, [], ◌∷◌, arith, any,
  leb, leb→lt, by_cases, length, length-take, take, non_empty, sort_by, insert_by, All, All-take,
  All-sort_by, Pairwise, take-Pairwise, sort_by-Pairwise, sort_by-IsSortedBy, IsSortedBy,
  Bool-cases, inl, inr,
}
use text.Mathlib.TextEquality.{eq_iff}
use ops_incident_core.Prelude.Text.{Text}
use ops_incident_core.Retrieval.Chunk.{Result}
use ops_incident_core.Retrieval.Compact.{compact_text}
use ops_incident_core.Retrieval.Compact.Bounds.{length-compact_text}
use ops_incident_core.Retrieval.Packing.{
  EvidenceItem, Signature, signature_eq, chunk_signature, item_signature, make_item, stands_before,
  packed_text, pack_results, pack_evidence,
}
use ops_incident_core.Retrieval.Packing.Order.{stands_before-IsOrder}

signature_eq_sym : (a b : Signature) → signature_eq a b ≡ signature_eq b a
unfolding signature_eq
signature_eq_sym a b = ground (arith, eq_iff a.path b.path, eq_iff b.path a.path)

-- The characters of the texts.
abbrev pub total_chars : List EvidenceItem → ℕ
total_chars [] = 0
total_chars (item ∷ items) = length item.text + total_chars items

-- Two items from different places.
abbrev pub IsApart : EvidenceItem → EvidenceItem → Type 0
IsApart a b = signature_eq (item_signature a) (item_signature b) ≡ false

IsApart-sym : (a b : EvidenceItem) → IsApart a b → IsApart b a
IsApart-sym a b h = signature_eq_sym (item_signature b) (item_signature a) ∙ h

-- What holds of packed evidence, for the bounds and the items that the search returned.
pub record IsPackedWithin (max_evidence max_chars max_total : ℕ) (items : List EvidenceItem)
    : Type 0 where
  pub few : length items ≤ max_evidence
  pub short : All (λ item. (0 < length item.text) × (length item.text ≤ max_chars + 3)) items
  pub within : total_chars items ≤ max_total + 2
  pub apart : Pairwise IsApart items
  pub sorted : IsSortedBy stands_before items

-- An item from none of the places seen, whose text is not empty and is short enough.
abbrev IsNew : ℕ → List Signature → EvidenceItem → Type 0
IsNew limit seen item =
    (any (signature_eq (item_signature item)) seen ≡ false)
    × (0 < length item.text)
    × (length item.text ≤ limit + 3)

total_chars-take :
    (n : ℕ) (items : List EvidenceItem) → total_chars (take n items) ≤ total_chars items
total_chars-take zero items = omega arith
total_chars-take (suc n) [] = omega arith
total_chars-take (suc n) (x ∷ xs) = omega (arith, total_chars-take n xs)

total_chars-insert_by :
    (x : EvidenceItem) (items : List EvidenceItem)
    → total_chars (insert_by stands_before x items) ≡ length x.text + total_chars items
total_chars-insert_by x [] = omega arith
total_chars-insert_by x (y ∷ ys) = elim (Bool-cases (stands_before x y)) [
  | inl e ↦ rw e refl
  | inr e ↦ rw (e, total_chars-insert_by x ys) (omega arith)
]

total_chars-sort_by :
    (items : List EvidenceItem) → total_chars (sort_by stands_before items) ≡ total_chars items
total_chars-sort_by [] = refl
total_chars-sort_by (x ∷ xs) =
    omega (arith, total_chars-sort_by xs, total_chars-insert_by x (sort_by stands_before xs))

take-IsSortedBy :
    (n : ℕ) (items : List EvidenceItem)
    → IsSortedBy stands_before items
    → IsSortedBy stands_before (take n items)
take-IsSortedBy zero items h = tt
take-IsSortedBy (suc n) [] h = tt
take-IsSortedBy (suc n) (x ∷ xs) h =
    (All-take (λ y. stands_before x y ≡ true) n xs h.0, take-IsSortedBy n xs h.1)

IsNew-short :
    (limit : ℕ) (seen : List Signature) (items : List EvidenceItem)
    → All (IsNew limit seen) items
    → All (λ item. (0 < length item.text) × (length item.text ≤ limit + 3)) items
IsNew-short limit seen [] h = tt
IsNew-short limit seen (x ∷ xs) h = ((h.0.1, h.0.2), IsNew-short limit seen xs h.1)

IsNew-weaken :
    (limit : ℕ) (s : Signature) (seen : List Signature) (items : List EvidenceItem)
    → All (IsNew limit (s ∷ seen)) items
    → All (IsNew limit seen) items
IsNew-weaken limit s seen [] h = tt
IsNew-weaken limit s seen (item ∷ items) h =
    ((ground arith, h.0.1, h.0.2), IsNew-weaken limit s seen items h.1)

IsNew-IsApart :
    (limit : ℕ) (x : EvidenceItem) (seen : List Signature) (items : List EvidenceItem)
    → All (IsNew limit (item_signature x ∷ seen)) items
    → All (IsApart x) items
IsNew-IsApart limit x seen [] h = tt
IsNew-IsApart limit x seen (item ∷ items) h =
    (IsApart-sym item x (ground arith), IsNew-IsApart limit x seen items h.1)

-- New items, from pairwise different places, whose characters and the `total` packed before are
-- at most two over the bound.
abbrev IsPacked : ℕ → ℕ → List Signature → ℕ → List EvidenceItem → Type 0
IsPacked limit bound seen total items =
    All (IsNew limit seen) items
    × Pairwise IsApart items
    × (total ≤ bound + 2 → total + total_chars items ≤ bound + 2)

IsPacked-nil :
    (limit bound : ℕ) (seen : List Signature) (total : ℕ) → IsPacked limit bound seen total []
IsPacked-nil limit bound seen total = (tt, tt, λ h. omega arith)

IsPacked-weaken :
    (limit bound : ℕ) (s : Signature) (seen : List Signature) (total : ℕ)
    (items : List EvidenceItem)
    → IsPacked limit bound (s ∷ seen) total items
    → IsPacked limit bound seen total items
IsPacked-weaken limit bound s seen total items h = (IsNew-weaken limit s seen items h.0, h.1, h.2)

IsPacked-cons :
    (limit bound : ℕ) (x : EvidenceItem) (seen : List Signature) (total : ℕ)
    (items : List EvidenceItem)
    → IsNew limit seen x
    → total + length x.text ≤ bound + 2
    → IsPacked limit bound (item_signature x ∷ seen) (total + length x.text) items
    → IsPacked limit bound seen total (x ∷ items)
IsPacked-cons limit bound x seen total items hx ht h = (
  (hx, IsNew-weaken limit (item_signature x) seen items h.0),
  (IsNew-IsApart limit x seen items h.0, h.1),
  λ _. omega (arith, h.2 ht),
)

length-non_empty : (text : Text) → not (non_empty text) ≡ false → 0 < length text
length-non_empty text h = ground arith

module _ (redact_secrets : Text → Text) (max_evidence max_chars max_total : ℕ) where
  length-packed_text :
      (r : Result) (remaining : ℕ)
      → (length (packed_text redact_secrets max_evidence max_chars max_total r remaining)
          ≤ remaining + 2)
        × (length (packed_text redact_secrets max_evidence max_chars max_total r remaining)
            ≤ max_chars + 3)
  unfolding packed_text
  length-packed_text r remaining =
      let text = compact_text (redact_secrets r.chunk.text) max_chars in
      ground (
        arith,
        length-compact_text text remaining,
        length-compact_text (redact_secrets r.chunk.text) max_chars,
      )

  pack_results-IsPacked :
      (rs : List Result) (seen : List Signature) (total packed : ℕ)
      → IsPacked max_chars max_total seen total
          (pack_results redact_secrets max_evidence max_chars max_total rs seen total packed)
  unfolding pack_results make_item item_signature chunk_signature
  pack_results-IsPacked [] seen total packed = IsPacked-nil max_chars max_total seen total
  pack_results-IsPacked (r ∷ rs) seen total packed =
      let P = IsPacked max_chars max_total seen total in
      let s = chunk_signature r.chunk in
      let text =
        packed_text redact_secrets max_evidence max_chars max_total r (max_total - total) in
      let x = make_item r text in
      let bounds = length-packed_text r (max_total - total) in
      let nil = IsPacked-nil max_chars max_total in
      by_cases P (any (signature_eq s) seen) _ _ (λ _. pack_results-IsPacked rs seen total packed)
        (λ new.
          by_cases P (not (non_empty (compact_text (redact_secrets r.chunk.text) max_chars))) _ _
            (λ _.
              IsPacked-weaken max_chars max_total s seen total _
                (pack_results-IsPacked rs (s ∷ seen) total packed))
            (λ _.
              by_cases P (leb max_total total) _ _ (λ _. nil seen total)
                (λ room.
                  by_cases P (not (non_empty text)) _ _ (λ _. nil seen total)
                    (λ full.
                      let hx : IsNew max_chars seen x =
                        (new, length-non_empty text full, bounds.1) in
                      let ht : total + length text ≤ max_total + 2 =
                        omega (arith, bounds.0, leb→lt max_total total room) in
                      by_cases P (leb max_evidence (suc packed)) _ _
                        (λ _.
                          IsPacked-cons max_chars max_total x seen total [] hx ht
                            (nil (s ∷ seen) (total + length text)))
                        (λ _. IsPacked-cons max_chars max_total x seen total _ hx ht (
                          pack_results-IsPacked rs (s ∷ seen) (total + length text)
                            (suc packed)))))))

  -- Packed evidence has at most `max_evidence` items; none has an empty text or one of more than
  -- three characters over the limit for one text, and together they have at most two characters
  -- over the limit for all; they are from pairwise different places (document and lines), and in
  -- the order of their scores, sources and paths.
  pub pack_evidence_lem :
      (results : List Result)
      → IsPackedWithin max_evidence max_chars max_total
          (pack_evidence redact_secrets max_evidence max_chars max_total results)
  unfolding pack_evidence
  pack_evidence_lem results =
      let items = pack_results redact_secrets max_evidence max_chars max_total results [] 0 0 in
      let sorted = sort_by stands_before items in
      let h = pack_results-IsPacked results [] 0 0 in
      let short =
        λ (item : EvidenceItem). (0 < length item.text) × (length item.text ≤ max_chars + 3) in
      record {
        few = omega (arith, length-take max_evidence sorted);
        short =
            All-take short max_evidence sorted
              (All-sort_by stands_before short items (IsNew-short max_chars [] items h.0));
        within = omega (
          arith,
          total_chars-take max_evidence sorted,
          total_chars-sort_by items,
          h.2 (omega arith),
        );
        apart =
            take-Pairwise IsApart max_evidence sorted
              (sort_by-Pairwise stands_before IsApart IsApart-sym items h.1);
        sorted =
            take-IsSortedBy max_evidence sorted
              (sort_by-IsSortedBy stands_before stands_before-IsOrder items);
      }
