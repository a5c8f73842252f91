-- ===== src/Ingestion/Chunker/Windows.antt =====
-- When the splitting of a text ends, and what the chunks are then.
use ops_incident_core.Prelude.{
  ℕ, zero, suc, ◌+◌, ◌-◌, ◌≤◌, ◌<◌, min, ◌≡◌, refl, sym, ap, ◌∙◌, true, false, none, some, List, [],
  ◌∷◌, ◌++◌, arith, leb, ltb, ltb→lt, length, length-take, length-drop, take, drop, All, Bool-cases,
  inl, inr, take-append-drop,
}
use ops_incident_core.Ingestion.Chunker.{split_from, split_text_by_tokens, words_of}

leb-of : (a b : ℕ) → ltb a b ≡ false → b ≤ a
leb-of a b h = ground arith

module _ {ℓ} {A : Type ℓ} where
  -- The chunks put together again, each cut to the words that the next one does not repeat.
  abbrev pub join_chunks : ℕ → List (List A) → List A
  join_chunks step [] = []
  join_chunks step (chunk ∷ chunks) = take step chunk ++ join_chunks step chunks

  drop-all : (n : ℕ) (xs : List A) → length xs ≤ n → drop n xs ≡ []
  drop-all zero [] h = refl
  drop-all zero (x ∷ xs) h = ground arith
  drop-all (suc n) [] h = refl
  drop-all (suc n) (x ∷ xs) h = drop-all n xs (omega arith)

  drop-nil : (n : ℕ) → ◌≡◌ {A = List A} (drop n []) []
  drop-nil zero = refl
  drop-nil (suc n) = refl

  take-take : (m n : ℕ) (xs : List A) → m ≤ n → take m (take n xs) ≡ take m xs
  take-take zero n xs h = refl
  take-take (suc m) zero xs h = ground arith
  take-take (suc m) (suc n) [] h = refl
  take-take (suc m) (suc n) (x ∷ xs) h = ap (λ ys. x ∷ ys) (take-take m n xs (omega arith))

  drop-drop : (m n : ℕ) (xs : List A) → drop n (drop m xs) ≡ drop (m + n) xs
  drop-drop zero n xs = let e : 0 + n ≡ n = omega arith in rw e refl
  drop-drop (suc m) n [] = let e : suc m + n ≡ suc (m + n) = omega arith in rw e (drop-nil n)
  drop-drop (suc m) n (x ∷ xs) =
      let e : suc m + n ≡ suc (m + n) = omega arith in rw e (drop-drop m n xs)

  -- What the chunks are, for the words from a start.
  abbrev pub IsSplit : ℕ → ℕ → List A → List (List A) → Type ℓ
  IsSplit max_words step rest chunks =
      (join_chunks step chunks ≡ rest)
      × All (λ chunk. (0 < length chunk) × (length chunk ≤ max_words)) chunks

  -- The words from a start, by a window and the windows after it.
  join-window :
      (max_words overlap start : ℕ) (words : List A)
      → overlap < max_words
      → take (max_words - overlap) (take max_words (drop start words))
          ++ drop (start + max_words - overlap) words
        ≡ drop start words
  join-window max_words overlap start words lt =
      let step = max_words - overlap in
      let next : start + max_words - overlap ≡ start + step = omega arith in
      rw
        (
          take-take step max_words (drop start words) (omega arith),
          next,
          sym (drop-drop start step words),
        )
        (take-append-drop step (drop start words))

  split_from-IsSplit :
      (max_words overlap : ℕ) (words : List A) (fuel start : ℕ)
      → overlap < max_words
      → length words - start < fuel
      → (chunks : List (List A)) × (split_from max_words overlap words fuel start ≡ some chunks)
        × IsSplit max_words (max_words - overlap) (drop start words) chunks
  unfolding split_from
  split_from-IsSplit max_words overlap words zero start lt enough = ground arith
  split_from-IsSplit max_words overlap words (suc fuel) start lt enough =
      elim (Bool-cases (ltb start (length words))) [
        | inl e ↦
            let next = start + max_words - overlap in
            let room : start < length words = ltb→lt start (length words) e in
            let ih = split_from-IsSplit max_words overlap words fuel next lt (omega arith) in
            let window = take max_words (drop start words) in
            let size : length window ≡ min max_words (length words - start) =
              length-take max_words (drop start words)
              ∙ ap (min max_words) (length-drop start words) in
            (
              window ∷ ih.0,
              rw (e, ih.1) refl,
              (
                ap (λ rest. take (max_words - overlap) window ++ rest) ih.2.0
                    ∙ join-window max_words overlap start words lt,
                ((omega arith, omega arith), ih.2.1),
              ),
            )
        | inr e ↦ ([], rw e refl, (sym (drop-all start words (leb-of start (length words) e)), tt))
      ]

  -- Where the overlap is shorter than a window and the text longer than one, one round for each
  -- word and one more are enough for the splitting to end; every chunk then has a word and no
  -- more than a window, and the chunks, each cut to what the next does not repeat, are the words
  -- of the text in order.
  pub split_text_by_tokens_lem :
      (max_tokens overlap_tokens : ℕ) (words : List A)
      → words_of overlap_tokens < words_of max_tokens
      → words_of max_tokens < length words
      → (chunks : List (List A)) × (split_text_by_tokens max_tokens overlap_tokens words
            (suc (length words))
          ≡ some chunks)
        × IsSplit (words_of max_tokens) (words_of max_tokens - words_of overlap_tokens) words chunks
  unfolding split_text_by_tokens
  split_text_by_tokens_lem max_tokens overlap_tokens words lt long =
      let is_long : leb (length words) (words_of max_tokens) ≡ false = ground arith in
      let h =
        split_from-IsSplit (words_of max_tokens) (words_of overlap_tokens) words
          (suc (length words)) 0 lt (omega arith) in
      rw is_long h

  stays :
      (max_words overlap : ℕ) (words : List A) (fuel start : ℕ)
      → max_words ≤ overlap
      → start < length words
      → split_from max_words overlap words fuel start ≡ none
  unfolding split_from
  stays max_words overlap words zero start le room = refl
  stays max_words overlap words (suc fuel) start le room =
      let e : ltb start (length words) ≡ true = ground arith in
      let ih : split_from max_words overlap words fuel (start + max_words - overlap) ≡ none =
        stays max_words overlap words fuel (start + max_words - overlap) le (omega arith) in
      rw (e, ih) refl

  -- Where the overlap is as long as a window or longer, the splitting of a text that needs it
  -- never ends, however many rounds it is given.
  pub split_text_by_tokens_loops :
      (max_tokens overlap_tokens : ℕ) (words : List A) (fuel : ℕ)
      → words_of max_tokens ≤ words_of overlap_tokens
      → words_of max_tokens < length words
      → split_text_by_tokens max_tokens overlap_tokens words fuel ≡ none
  unfolding split_text_by_tokens
  split_text_by_tokens_loops max_tokens overlap_tokens words fuel le long =
      let is_long : leb (length words) (words_of max_tokens) ≡ false = ground arith in
      rw
        (
          is_long,
          stays (words_of max_tokens) (words_of overlap_tokens) words fuel 0 le (omega arith),
        )
        refl
