-- ===== src/Prelude/Sorting.antt =====
-- Python's `sorted` and `list.sort`: a stable sort, here by insertion, with the order of the keys
-- as a Boolean test `le x y`, read "x may stand before y".
use mathlib.Core.Path.{◌≡◌, refl}
use native.Mathlib.Omega.{arith}
use mathlib.Core.Logic.{inl, inr}
use mathlib.Core.Bool.{Bool, true, false}
use mathlib.Core.List.{List, [], ◌∷◌, Perm}
use mathlib.Core.List.Perm
use ops_incident_core.Prelude.Tests.{if◌then◌else◌, Bool-cases}
use Prim.Native.Nat.{ℕ, zero, suc}
use ops_incident_core.Prelude.Lists.{All, All-take, take, length}

module _ {ℓ} {A : Type ℓ} (le : A → A → Bool) where
  abbrev pub insert_by : A → List A → List A
  insert_by x [] = x ∷ []
  insert_by x (y ∷ ys) = if le x y then x ∷ y ∷ ys else y ∷ insert_by x ys

  abbrev pub sort_by : List A → List A
  sort_by [] = []
  sort_by (x ∷ xs) = insert_by x (sort_by xs)

  -- Every item may stand before all the later ones.
  abbrev pub IsSortedBy : List A → Type 0
  IsSortedBy [] = Unit
  IsSortedBy (x ∷ xs) = All (λ y. le x y ≡ true) xs × IsSortedBy xs

  pub insert_by-perm : (x : A) (xs : List A) → Perm (insert_by x xs) (x ∷ xs)
  insert_by-perm x [] = Perm.rfl
  insert_by-perm x (y ∷ ys) = elim (Bool-cases (le x y)) [
    | inl e ↦ rw e Perm.rfl
    | inr e ↦ rw e (Perm.trans (Perm.cons y (insert_by-perm x ys)) (Perm.swap x y ys))
  ]

  pub sort_by-perm : (xs : List A) → Perm (sort_by xs) xs
  sort_by-perm [] = Perm.rfl
  sort_by-perm (x ∷ xs) = Perm.trans (insert_by-perm x (sort_by xs)) (Perm.cons x (sort_by-perm xs))

  length-insert_by : (x : A) (xs : List A) → length (insert_by x xs) ≡ suc (length xs)
  length-insert_by x [] = refl
  length-insert_by x (y ∷ ys) = ground (arith, length-insert_by x ys)

  pub length-sort_by : (xs : List A) → length (sort_by xs) ≡ length xs
  length-sort_by [] = refl
  length-sort_by (x ∷ xs) = omega (arith, length-insert_by x (sort_by xs), length-sort_by xs)

module _ {ℓ κ} {A : Type ℓ} (le : A → A → Bool) (P : A → Type κ) where
  pub All-insert_by : (x : A) (xs : List A) → P x → All P xs → All P (insert_by le x xs)
  All-insert_by x [] p h = (p, tt)
  All-insert_by x (y ∷ ys) p h = elim (Bool-cases (le x y)) [
    | inl e ↦ rw e (p, h)
    | inr e ↦ rw e (h.0, All-insert_by x ys p h.1)
  ]

  pub All-sort_by : (xs : List A) → All P xs → All P (sort_by le xs)
  All-sort_by [] h = tt
  All-sort_by (x ∷ xs) h = All-insert_by x (sort_by le xs) h.0 (All-sort_by xs h.1)

-- What a test must satisfy to be the order of a sort.
pub record IsOrder {ℓ} {A : Type ℓ} (le : A → A → Bool) : Type ℓ where
  pub total : (x y : A) → le x y ≡ false → le y x ≡ true
  pub trans : (x y z : A) → le x y ≡ true → le y z ≡ true → le x z ≡ true

module _ {ℓ} {A : Type ℓ} (le : A → A → Bool) (order : IsOrder le) where
  open order use {total, trans}

  All-trans :
      (x y : A) (ys : List A)
      → le x y ≡ true
      → All (λ z. le y z ≡ true) ys
      → All (λ z. le x z ≡ true) ys
  All-trans x y [] e h = tt
  All-trans x y (z ∷ zs) e h = (trans x y z e h.0, All-trans x y zs e h.1)

  pub insert_by-IsSortedBy :
      (x : A) (xs : List A) → IsSortedBy le xs → IsSortedBy le (insert_by le x xs)
  insert_by-IsSortedBy x [] h = (tt, tt)
  insert_by-IsSortedBy x (y ∷ ys) h = elim (Bool-cases (le x y)) [
    | inl e ↦ rw e ((e, All-trans x y ys e h.0), h)
    | inr e ↦ rw e (
      All-insert_by le (λ z. le y z ≡ true) x ys (total x y e) h.0,
      insert_by-IsSortedBy x ys h.1,
    )
  ]

  pub sort_by-IsSortedBy : (xs : List A) → IsSortedBy le (sort_by le xs)
  sort_by-IsSortedBy [] = tt
  sort_by-IsSortedBy (x ∷ xs) = insert_by-IsSortedBy x (sort_by le xs) (sort_by-IsSortedBy xs)

-- A relation between every two items, in either order.
module _ {ℓ} {A : Type ℓ} (R : A → A → Type 0) where
  abbrev pub Pairwise : List A → Type 0
  Pairwise [] = Unit
  Pairwise (x ∷ xs) = All (R x) xs × Pairwise xs

  pub take-Pairwise : (n : ℕ) (xs : List A) → Pairwise xs → Pairwise (take n xs)
  take-Pairwise zero xs h = tt
  take-Pairwise (suc n) [] h = tt
  take-Pairwise (suc n) (x ∷ xs) h = (All-take (R x) n xs h.0, take-Pairwise n xs h.1)

module _ {ℓ} {A : Type ℓ} (le : A → A → Bool) (R : A → A → Type 0)
    (symmetric : (x y : A) → R x y → R y x) where
  insert_by-Pairwise :
      (x : A) (xs : List A) → All (R x) xs → Pairwise R xs → Pairwise R (insert_by le x xs)
  insert_by-Pairwise x [] hx h = (tt, tt)
  insert_by-Pairwise x (y ∷ ys) hx h = elim (Bool-cases (le x y)) [
    | inl e ↦ rw e (hx, h)
    | inr e ↦
        rw e
          (All-insert_by le (R y) x ys (symmetric x y hx.0) h.0, insert_by-Pairwise x ys hx.1 h.1)
  ]

  pub sort_by-Pairwise : (xs : List A) → Pairwise R xs → Pairwise R (sort_by le xs)
  sort_by-Pairwise [] h = tt
  sort_by-Pairwise (x ∷ xs) h =
      insert_by-Pairwise x (sort_by le xs) (All-sort_by le (R x) xs h.0) (sort_by-Pairwise xs h.1)
