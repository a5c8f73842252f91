-- ===== src/Db/Table.antt =====
-- A table as the list of its rows, with the two queries that the code makes by primary key.
use ops_incident_core.Prelude.{
  ℕ, ◌≡◌, Option, none, some, List, [], ◌∷◌, arith, ◌==◌, if◌then◌else◌, All,
}

module _ {ℓ} {A : Type ℓ} (key : A → ℕ) where
  -- `select(A).where(A.id == k)`, by `scalar_one_or_none`
  abbrev pub find_row : ℕ → List A → Option A
  find_row k [] = none
  find_row k (r ∷ rs) = if key r == k then some r else find_row k rs

  -- Assignment to fields of the row with key `k`.
  abbrev pub update_row : ℕ → (A → A) → List A → List A
  update_row k f [] = []
  update_row k f (r ∷ rs) = if key r == k then f r ∷ rs else r ∷ update_row k f rs

  pub find_row-update_row :
      (k : ℕ) (f : A → A) (rs : List A) {r : A}
      → key (f r) ≡ k
      → find_row k rs ≡ some r
      → find_row k (update_row k f rs) ≡ some (f r)
  find_row-update_row k f [] e h = ground arith
  find_row-update_row k f (x ∷ xs) {r} e h = ground (arith, find_row-update_row k f xs {r = r} e)

  pub find_row-key : (k : ℕ) (rs : List A) {r : A} → find_row k rs ≡ some r → key r ≡ k
  find_row-key k [] e = ground arith
  find_row-key k (x ∷ xs) {r} e = ground (arith, find_row-key k xs {r = r})

module _ {ℓ κ} {A : Type ℓ} (key : A → ℕ) (P : A → Type κ) where
  pub find_row-All : (k : ℕ) (rs : List A) {r : A} → All P rs → find_row key k rs ≡ some r → P r
  find_row-All k [] h e = ground arith
  find_row-All k (x ∷ xs) {r} h e = ground (arith, find_row-All k xs {r = r} h.1)

  pub update_row-All :
      (k : ℕ) (f : A → A) (rs : List A)
      → ((r : A) → P r → P (f r))
      → All P rs
      → All P (update_row key k f rs)
  update_row-All k f [] keep h = tt
  update_row-All k f (x ∷ xs) keep h = ground (arith, keep x h.0, update_row-All k f xs keep h.1)
