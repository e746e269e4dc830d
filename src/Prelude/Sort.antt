-- ===== src/Prelude/Sort.antt =====
-- `Array.prototype.sort` with a comparison: a stable sort, as insertion of each element.
use wassal.Prelude.{
  ℕ, ◌+◌, ◌≡◌, refl, Bool, List, [], ◌∷◌, arith, sum_by, All, if◌then◌else◌, Bool-cases, inl, inr,
}

-- `before x y` says that `x` may stand in front of `y`: the comparison of the pair is not positive.
module _ {ℓ} {A : Type ℓ} (before : A → A → Bool) where
  abbrev pub insert_by : A → List A → List A
  insert_by x [] = x ∷ []
  insert_by x (y ∷ ys) = if before x y then x ∷ y ∷ ys else y ∷ insert_by x ys

  abbrev pub sort_by : List A → List A
  sort_by [] = []
  sort_by (x ∷ xs) = insert_by x (sort_by xs)

  pub sum-insert_by :
      (f : A → ℕ) (x : A) (ys : List A) → sum_by f (insert_by x ys) ≡ f x + sum_by f ys
  sum-insert_by f x [] = refl
  sum-insert_by f x (y ∷ ys) = ground (arith, sum-insert_by f x ys)

  pub sum-sort_by : (f : A → ℕ) (xs : List A) → sum_by f (sort_by xs) ≡ sum_by f xs
  sum-sort_by f [] = refl
  sum-sort_by f (x ∷ xs) = omega (arith, sum-insert_by f x (sort_by xs), sum-sort_by f xs)

  pub All-insert_by {κ} :
      (P : A → Type κ) (x : A) (ys : List A) → P x → All P ys → All P (insert_by x ys)
  All-insert_by P x [] p q = (p, tt)
  All-insert_by P x (y ∷ ys) p q = elim (Bool-cases (before x y)) [
    | inl first ↦ rw first (p, q)
    | inr later ↦ rw later (q.0, All-insert_by P x ys p q.1)
  ]

  pub All-sort_by {κ} : (P : A → Type κ) (xs : List A) → All P xs → All P (sort_by xs)
  All-sort_by P [] q = tt
  All-sort_by P (x ∷ xs) q = All-insert_by P x (sort_by xs) q.0 (All-sort_by P xs q.1)
