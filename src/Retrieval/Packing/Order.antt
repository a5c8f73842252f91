-- ===== src/Retrieval/Packing/Order.antt =====
-- The order that evidence is sorted by is total and transitive.
use ops_incident_core.Prelude.{
  ℕ, ◌≡◌, refl, Bool, true, false, not, ◌&&◌, ◌||◌, [], ◌∷◌, arith, ltb, ◌==◌, IsOrder,
}
use ops_incident_core.Prelude.Int.{ℤ, leb_ℤ}
use ops_incident_core.Prelude.Text.{Text, codes}
use ops_incident_core.Retrieval.Packing.{EvidenceItem, stands_before, text_leb, source_priority}

text_leb_total : (a b : Text) → text_leb a b ≡ false → text_leb b a ≡ true
unfolding text_leb
text_leb_total [] b h = ground arith
text_leb_total (c ∷ cs) [] h = refl
text_leb_total (c ∷ cs) (d ∷ ds) h = ground (arith, text_leb_total cs ds)

text_leb_trans : (a b c : Text) → text_leb a b ≡ true → text_leb b c ≡ true → text_leb a c ≡ true
unfolding text_leb
text_leb_trans [] b c h k = refl
text_leb_trans (x ∷ xs) [] c h k = ground arith
text_leb_trans (x ∷ xs) (y ∷ ys) [] h k = ground arith
text_leb_trans (x ∷ xs) (y ∷ ys) (z ∷ zs) h k = ground (arith, text_leb_trans xs ys zs)

-- The order of the scores, of the priorities and of the paths, one after the other.
abbrev lexicographic : Bool → Bool → ℕ → ℕ → Bool → Bool
lexicographic below above p q path = not below || (above && (ltb p q || (p == q && path)))

lexicographic_total :
    (below above : Bool) (p q : ℕ) (path back : Bool)
    → (below ≡ false → above ≡ true)
    → (above ≡ false → below ≡ true)
    → (path ≡ false → back ≡ true)
    → lexicographic below above p q path ≡ false
    → lexicographic above below q p back ≡ true
lexicographic_total below above p q path back f g k h = ground arith

lexicographic_trans :
    (ab ba bc cb ac ca : Bool) (p q r : ℕ) (t u v : Bool)
    → (bc ≡ false → cb ≡ true)
    → (ac ≡ true → cb ≡ true → ab ≡ true)
    → (ba ≡ true → ac ≡ true → bc ≡ true)
    → (cb ≡ true → ba ≡ true → ca ≡ true)
    → (t ≡ true → u ≡ true → v ≡ true)
    → lexicographic ab ba p q t ≡ true
    → lexicographic bc cb q r u ≡ true
    → lexicographic ac ca p r v ≡ true
lexicographic_trans true ba bc cb true ca p q r t u v e f g k l h j = ground arith
lexicographic_trans true ba bc cb false ca p q r t u v e f g k l h j = ground arith
lexicographic_trans false ba bc cb true ca p q r t u v e f g k l h j = ground arith
lexicographic_trans false ba bc cb false ca p q r t u v e f g k l h j = ground arith

leb_ℤ_total : (a b : ℤ) → leb_ℤ a b ≡ false → leb_ℤ b a ≡ true
leb_ℤ_total a b h = ground arith

leb_ℤ_trans : (a b c : ℤ) → leb_ℤ a b ≡ true → leb_ℤ b c ≡ true → leb_ℤ a c ≡ true
leb_ℤ_trans a b c h k = ground arith

stands_before_total : (a b : EvidenceItem) → stands_before a b ≡ false → stands_before b a ≡ true
unfolding stands_before
stands_before_total a b =
    lexicographic_total (leb_ℤ a.score b.score) (leb_ℤ b.score a.score)
      (source_priority a.source_type) (source_priority b.source_type)
      (text_leb (codes a.document_path) (codes b.document_path))
      (text_leb (codes b.document_path) (codes a.document_path)) (leb_ℤ_total a.score b.score)
      (leb_ℤ_total b.score a.score) (text_leb_total (codes a.document_path) (codes b.document_path))

stands_before_trans :
    (a b c : EvidenceItem)
    → stands_before a b ≡ true
    → stands_before b c ≡ true
    → stands_before a c ≡ true
unfolding stands_before
stands_before_trans a b c =
    lexicographic_trans (leb_ℤ a.score b.score) (leb_ℤ b.score a.score) (leb_ℤ b.score c.score)
      (leb_ℤ c.score b.score) (leb_ℤ a.score c.score) (leb_ℤ c.score a.score)
      (source_priority a.source_type) (source_priority b.source_type)
      (source_priority c.source_type) (text_leb (codes a.document_path) (codes b.document_path))
      (text_leb (codes b.document_path) (codes c.document_path))
      (text_leb (codes a.document_path) (codes c.document_path)) (leb_ℤ_total b.score c.score)
      (leb_ℤ_trans a.score c.score b.score) (leb_ℤ_trans b.score a.score c.score)
      (leb_ℤ_trans c.score b.score a.score)
      (text_leb_trans (codes a.document_path) (codes b.document_path) (codes c.document_path))

pub stands_before-IsOrder : IsOrder stands_before
stands_before-IsOrder = record { total = stands_before_total; trans = stands_before_trans }
