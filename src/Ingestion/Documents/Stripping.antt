-- ===== src/Ingestion/Documents/Stripping.antt =====
-- Stripping twice is stripping once, and it commutes with a change of characters that keeps the
-- spaces.
use ops_incident_core.Prelude.{
  ℕ, ◌≡◌, ◌⊎◌, inl, inr, refl, sym, ap, ◌∙◌, false, [], ◌∷◌, ◌++◌, map, All, Bool-cases,
}
use mathlib.Core.List.{reverse, reverse_aux, reverse-cons, reverse-reverse, reverse-append}
use ops_incident_core.Prelude.Text.{Text}
use ops_incident_core.Retrieval.Words.{is_space, strip, strip_left, strip_right}

strip_left-cases :
    (t : Text)
    → (strip_left t ≡ []) ⊎ ((c : ℕ) × (cs : Text) × (strip_left t ≡ c ∷ cs) × (is_space c ≡ false))
unfolding strip_left
strip_left-cases [] = inl refl
strip_left-cases (c ∷ cs) = elim (Bool-cases (is_space c)) [
  | inl t ↦ rw t (strip_left-cases cs)
  | inr f ↦ inr (c, cs, rw f refl, f)
]

strip_left-append :
    (xs : Text) (c : ℕ) → is_space c ≡ false → strip_left (xs ++ c ∷ []) ≡ strip_left xs ++ c ∷ []
unfolding strip_left
strip_left-append [] c f = rw f refl
strip_left-append (x ∷ xs) c f = elim (Bool-cases (is_space x)) [
  | inl t ↦ rw t (strip_left-append xs c f)
  | inr g ↦ rw g refl
]

strip_left_again : (t : Text) → strip_left (strip_left t) ≡ strip_left t
unfolding strip_left
strip_left_again [] = refl
strip_left_again (c ∷ cs) = elim (Bool-cases (is_space c)) [
  | inl t ↦ rw t (strip_left_again cs)
  | inr f ↦ rw f (rw f refl)
]

strip_right-cons :
    (c : ℕ) (cs : Text) → is_space c ≡ false → strip_right (c ∷ cs) ≡ c ∷ strip_right cs
unfolding strip_right
strip_right-cons c cs f =
    ap (λ l. reverse (strip_left l)) (reverse-cons c cs)
    ∙ ap reverse (strip_left-append (reverse cs) c f)
    ∙ reverse-append (strip_left (reverse cs)) (c ∷ [])

strip_right_again : (t : Text) → strip_right (strip_right t) ≡ strip_right t
unfolding strip_right
strip_right_again t =
    ap (λ l. reverse (strip_left l)) (reverse-reverse (strip_left (reverse t)))
    ∙ ap reverse (strip_left_again (reverse t))

strip-cons : (c : ℕ) (cs : Text) → is_space c ≡ false → strip (c ∷ cs) ≡ c ∷ strip_right cs
unfolding strip strip_left
strip-cons c cs f = rw (f, strip_right-cons c cs f) refl

strip_of_left : (t : Text) → strip t ≡ strip_right (strip_left t)
unfolding strip
strip_of_left t = refl

strip-nil : strip [] ≡ []
unfolding strip strip_left strip_right
strip-nil = refl

strip_right-nil : strip_right [] ≡ []
unfolding strip_right strip_left
strip_right-nil = refl

pub strip_again : (t : Text) → strip (strip t) ≡ strip t
strip_again t = elim (strip_left-cases t) [
  | inl e ↦
      let none_left : strip t ≡ [] = strip_of_left t ∙ ap strip_right e ∙ strip_right-nil in
      rw none_left strip-nil
  | inr (c, cs, e, f) ↦
      let shape : strip t ≡ c ∷ strip_right cs =
        strip_of_left t ∙ ap strip_right e ∙ strip_right-cons c cs f in
      rw shape (strip-cons c (strip_right cs) f ∙ ap (λ l. c ∷ l) (strip_right_again cs))
]

module _ (f : ℕ → ℕ) (keeps : (c : ℕ) → is_space (f c) ≡ is_space c) where
  strip_left-map : (t : Text) → strip_left (map f t) ≡ map f (strip_left t)
  unfolding strip_left
  strip_left-map [] = refl
  strip_left-map (c ∷ cs) = elim (Bool-cases (is_space c)) [
    | inl t ↦ rw (keeps c, t) (strip_left-map cs)
    | inr g ↦ rw (keeps c, g) refl
  ]

  map-reverse_aux : (xs ys : Text) → map f (reverse_aux xs ys) ≡ reverse_aux (map f xs) (map f ys)
  map-reverse_aux [] ys = refl
  map-reverse_aux (x ∷ xs) ys = map-reverse_aux xs (x ∷ ys)

  pub strip-map : (t : Text) → strip (map f t) ≡ map f (strip t)
  unfolding strip strip_right
  strip-map t =
      ap (λ l. reverse (strip_left (reverse l))) (strip_left-map t)
      ∙ ap (λ l. reverse (strip_left l)) (sym (map-reverse_aux (strip_left t) []))
      ∙ ap reverse (strip_left-map (reverse (strip_left t)))
      ∙ sym (map-reverse_aux (strip_left (reverse (strip_left t))) [])

strip_right_solid : (t : Text) → All (λ c. is_space c ≡ false) t → strip_right t ≡ t
unfolding strip_right strip_left
strip_right_solid [] h = refl
strip_right_solid (c ∷ cs) h =
    strip_right-cons c cs h.0 ∙ ap (λ l. c ∷ l) (strip_right_solid cs h.1)

-- A text without spaces is as it is.
pub strip_solid : (t : Text) → All (λ c. is_space c ≡ false) t → strip t ≡ t
unfolding strip strip_right strip_left
strip_solid [] h = refl
strip_solid (c ∷ cs) h = strip-cons c cs h.0 ∙ ap (λ l. c ∷ l) (strip_right_solid cs h.1)
