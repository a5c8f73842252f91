-- ===== src/Ingestion/Failures/Taxonomy.antt =====
-- Every failure is reported under one of the public reasons.
use ops_incident_core.Prelude.{
  ℕ, suc, ◌+◌, ◌≡◌, refl, sym, ap, ◌∙◌, subst, Bool, true, false, if◌then◌else◌, Option, some,
  String, List, [], ◌∷◌, arith, any, or_default, sort_by, insert_by, All, all→All, All-sort_by,
  Bool-cases, inl, inr, by_cases, length,
}
use ops_incident_core.Prelude.Text.{Text, codes, lower, lower_char, text_eq}
use ops_incident_core.Retrieval.Words.{strip, strip_left, strip_right}
use ops_incident_core.Ingestion.Failures.{
  failure_reasons, aliases, find_alias, normalize_failure_code, increment, count_codes, key_leb,
  failure_reason_counts,
}

text_eq→eq : (a b : Text) → text_eq a b ≡ true → a ≡ b
unfolding text_eq
text_eq→eq [] [] h = refl
text_eq→eq [] (d ∷ ds) h = ground arith
text_eq→eq (c ∷ cs) [] h = ground arith
text_eq→eq (c ∷ cs) (d ∷ ds) h = ground (arith, text_eq→eq cs ds)

-- One of the public reasons.
abbrev pub is_reason : Text → Bool
is_reason raw = any (text_eq raw) failure_reasons

find_alias-is_reason :
    (raw : Text) (entries : List (String × String))
    → All (λ entry. is_reason (codes entry.1) ≡ true) entries
    → is_reason (find_alias raw entries) ≡ true
unfolding find_alias failure_reasons text_eq
find_alias-is_reason raw [] h = refl
find_alias-is_reason raw (entry ∷ entries) h =
    by_cases (λ found. is_reason found ≡ true) (text_eq raw (codes entry.0)) _ _ (λ _. h.0)
      (λ _. find_alias-is_reason raw entries h.1)

aliases-is_reason : All (λ entry. is_reason (codes entry.1) ≡ true) aliases
unfolding aliases failure_reasons text_eq
aliases-is_reason = all→All (λ entry. is_reason (codes entry.1)) aliases refl

normalize-is_reason : (code : Option Text) → is_reason (normalize_failure_code code) ≡ true
unfolding normalize_failure_code
normalize-is_reason code =
    let raw = lower (strip (or_default code [])) in
    by_cases (λ reason. is_reason reason ≡ true) (any (text_eq raw) failure_reasons) _ _ (λ h. h)
      (λ _. find_alias-is_reason raw aliases aliases-is_reason)

fixed : All (λ reason. text_eq (normalize_failure_code (some reason)) reason ≡ true) failure_reasons
unfolding failure_reasons normalize_failure_code aliases find_alias lower lower_char strip
    strip_left strip_right text_eq
fixed =
    all→All (λ reason. text_eq (normalize_failure_code (some reason)) reason) failure_reasons refl

All-any :
    (P : Text → Type 0) (raw : Text) (xs : List Text)
    → All P xs
    → any (text_eq raw) xs ≡ true
    → P raw
All-any P raw [] h e = ground arith
All-any P raw (x ∷ xs) h e = elim (Bool-cases (text_eq raw x)) [
  | inl k ↦ subst P (sym (text_eq→eq raw x k)) h.0
  | inr k ↦ All-any P raw xs h.1 (ground arith)
]

-- The failures of a report.
abbrev pub total : List (Text × ℕ) → ℕ
total [] = 0
total (entry ∷ entries) = entry.1 + total entries

pub total-increment :
    (key : Text) (counts : List (Text × ℕ)) → total (increment key counts) ≡ suc (total counts)
unfolding increment
total-increment key [] = refl
total-increment key (entry ∷ entries) = ground (arith, total-increment key entries)

total-count_codes :
    (failed : List (Option Text)) (counts : List (Text × ℕ))
    → total (count_codes failed counts) ≡ length failed + total counts
unfolding count_codes
total-count_codes [] counts = omega arith
total-count_codes (code ∷ rest) counts = omega (
  arith,
  total-count_codes rest (increment (normalize_failure_code code) counts),
  total-increment (normalize_failure_code code) counts,
)

total-insert_by :
    (x : Text × ℕ) (xs : List (Text × ℕ)) → total (insert_by key_leb x xs) ≡ x.1 + total xs
total-insert_by x [] = refl
total-insert_by x (y ∷ ys) = elim (Bool-cases (key_leb x y)) [
  | inl e ↦ rw e refl
  | inr e ↦ rw (e, total-insert_by x ys) (omega arith)
]

total-sort_by : (xs : List (Text × ℕ)) → total (sort_by key_leb xs) ≡ total xs
total-sort_by [] = refl
total-sort_by (x ∷ xs) = omega (arith, total-sort_by xs, total-insert_by x (sort_by key_leb xs))

increment-is_reason :
    (key : Text) (counts : List (Text × ℕ))
    → is_reason key ≡ true
    → All (λ entry. is_reason entry.0 ≡ true) counts
    → All (λ entry. is_reason entry.0 ≡ true) (increment key counts)
unfolding increment
increment-is_reason key [] k h = (k, tt)
increment-is_reason key (entry ∷ entries) k h =
    by_cases (All (λ (e : Text × ℕ). is_reason e.0 ≡ true)) (text_eq key entry.0) _ _ (λ _. h)
      (λ _. (h.0, increment-is_reason key entries k h.1))

count_codes-is_reason :
    (failed : List (Option Text)) (counts : List (Text × ℕ))
    → All (λ entry. is_reason entry.0 ≡ true) counts
    → All (λ entry. is_reason entry.0 ≡ true) (count_codes failed counts)
unfolding count_codes
count_codes-is_reason [] counts h = h
count_codes-is_reason (code ∷ rest) counts h =
    count_codes-is_reason rest (increment (normalize_failure_code code) counts)
      (increment-is_reason (normalize_failure_code code) counts (normalize-is_reason code) h)

-- A code as it is looked up.
abbrev pub raw_code : Option Text → Text
raw_code code = lower (strip (or_default code []))

find_alias_missing :
    (raw : Text) (entries : List (String × String))
    → any (λ entry. text_eq raw (codes entry.0)) entries ≡ false
    → find_alias raw entries ≡ codes "unknown"
unfolding find_alias
find_alias_missing raw [] h = refl
find_alias_missing raw (entry ∷ entries) h = ground (arith, find_alias_missing raw entries)

-- The table and the reasons agree.
abbrev reported : Text → Text
reported raw = if is_reason raw then raw else find_alias raw aliases

reported-aliases : All (λ entry. text_eq (reported (codes entry.0)) (codes entry.1) ≡ true) aliases
unfolding failure_reasons aliases find_alias text_eq
reported-aliases =
    all→All (λ entry. text_eq (reported (codes entry.0)) (codes entry.1)) aliases refl

normalize_alias :
    (code : Option Text) (entries : List (String × String))
    → All (λ entry. text_eq (reported (codes entry.0)) (codes entry.1) ≡ true) entries
    → All
        (λ entry. raw_code code ≡ codes entry.0 → normalize_failure_code code ≡ codes entry.1)
        entries
unfolding normalize_failure_code
normalize_alias code [] h = tt
normalize_alias code (entry ∷ entries) h = (
  λ e. ap reported e ∙ text_eq→eq (reported (codes entry.0)) (codes entry.1) h.0,
  normalize_alias code entries h.1,
)

normalize_unknown :
    (code : Option Text)
    → is_reason (raw_code code) ≡ false
    → any (λ entry. text_eq (raw_code code) (codes entry.0)) aliases ≡ false
    → normalize_failure_code code ≡ codes "unknown"
unfolding normalize_failure_code
normalize_unknown code h k = rw h (find_alias_missing (raw_code code) aliases k)

normalize_reason :
    (code : Option Text)
    → is_reason (raw_code code) ≡ true
    → normalize_failure_code code ≡ raw_code code
unfolding normalize_failure_code
normalize_reason code h = rw h refl

-- Any failure code, or none, is reported as one of the public reasons: a public reason as itself,
-- in whatever case and with whatever space around it, a code of the table of aliases as what it
-- stands for there, and any other code as unknown. What is reported is reported as itself.
pub normalize_failure_code_lem :
    (code : Option Text)
    → (is_reason (normalize_failure_code code) ≡ true)
      × (is_reason (raw_code code) ≡ true → normalize_failure_code code ≡ raw_code code)
      × All
          (λ entry. raw_code code ≡ codes entry.0 → normalize_failure_code code ≡ codes entry.1)
          aliases
      × (is_reason (raw_code code) ≡ false
          → any (λ entry. text_eq (raw_code code) (codes entry.0)) aliases ≡ false
          → normalize_failure_code code ≡ codes "unknown")
      × (normalize_failure_code (some (normalize_failure_code code)) ≡ normalize_failure_code code)
normalize_failure_code_lem code = (
  normalize-is_reason code,
  normalize_reason code,
  normalize_alias code aliases reported-aliases,
  normalize_unknown code,
  text_eq→eq (normalize_failure_code (some (normalize_failure_code code)))
      (normalize_failure_code code)
      (All-any (λ reason. text_eq (normalize_failure_code (some reason)) reason ≡ true)
        (normalize_failure_code code) failure_reasons fixed (normalize-is_reason code)),
)

-- The counts of a report are of public reasons only, and add up to the number of failures.
pub failure_reason_counts_lem :
    (failed : List (Option Text))
    → All (λ entry. is_reason entry.0 ≡ true) (failure_reason_counts failed)
      × (total (failure_reason_counts failed) ≡ length failed)
unfolding failure_reason_counts
failure_reason_counts_lem failed = (
  All-sort_by key_leb (λ (e : Text × ℕ). is_reason e.0 ≡ true) (count_codes failed [])
      (count_codes-is_reason failed [] tt),
  omega (arith, total-sort_by (count_codes failed []), total-count_codes failed []),
)
