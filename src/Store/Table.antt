-- ===== src/Store/Table.antt =====
-- A table of the database: rows under their primary keys, as `model`s of
-- infrastructure/database/prisma/schema.prisma have them.
use wassal.Prelude.{
  ℕ, ◌≡◌, refl, ◌≢◌, Bool, false, Option, none, some, List, [], ◌∷◌, ◌==◌, arith, if◌then◌else◌,
  Bool-cases, inl, inr,
}
use mathlib.Core.Path.{subst}

abbrev pub Table {ℓ} : Type ℓ → Type ℓ
Table V = List (ℕ × V)

module _ {ℓ} {V : Type ℓ} where
  -- `findUnique({ where: { id } })`.
  unfoldable pub get : ℕ → Table V → Option V
  get k [] = none
  get k ((j, v) ∷ t) = if j == k then some v else get k t

  -- `update({ where: { id }, data })`.
  unfoldable pub update : ℕ → (V → V) → Table V → Table V
  update k f [] = []
  update k f ((j, v) ∷ t) = if j == k then (j, f v) ∷ t else (j, v) ∷ update k f t

  -- Whether `updateMany({ where: { id, ... } })` meets the row `id`: its `count` is 1.
  unfoldable pub matches : ℕ → (V → Bool) → Table V → Bool
  matches k test t = elim (get k t) [ none ↦ false | some v ↦ test v ]

  -- Every row satisfies the predicate.
  abbrev pub Rows {κ} : (V → Type κ) → Table V → Type κ
  Rows P [] = Unit
  Rows P ((j, v) ∷ t) = P v × Rows P t

  pub get-update_self :
      (k : ℕ) (f : V → V) {v : V} (t : Table V)
      → get k t ≡ some v
      → get k (update k f t) ≡ some (f v)
  unfolding get update
  get-update_self k f [] h = ground arith
  get-update_self k f {v} ((j, w) ∷ t) h = ground (arith, get-update_self k f {v = v} t)

  pub get-update_ne : (k j : ℕ) (f : V → V) (t : Table V) → j ≢ k → get j (update k f t) ≡ get j t
  unfolding get update
  get-update_ne k j f [] h = refl
  get-update_ne k j f ((i, w) ∷ t) h = ground (arith, get-update_ne k j f t h)

  pub Rows-get {κ} :
      (P : V → Type κ) (k : ℕ) {v : V} (t : Table V) → Rows P t → get k t ≡ some v → P v
  unfolding get
  Rows-get P k [] r h = cc
  Rows-get P k {v} ((j, w) ∷ t) r h = elim (Bool-cases (j == k)) [
    | inl hit ↦ let found : some w ≡ some v = rw hit at h in subst P (cc) r.0
    | inr miss ↦ Rows-get P k t r.1 (rw miss at h)
  ]

  pub Rows-update {κ} :
      (P : V → Type κ) (k : ℕ) (f : V → V) (t : Table V)
      → ((v : V) → get k t ≡ some v → P (f v))
      → Rows P t
      → Rows P (update k f t)
  unfolding get update
  Rows-update P k f [] h r = tt
  Rows-update P k f ((j, w) ∷ t) h r = elim (Bool-cases (j == k)) [
    | inl hit ↦ rw hit (h w (rw hit), r.1)
    | inr miss ↦ rw miss (r.0, Rows-update P k f t (λ v e. h v (rw miss e)) r.1)
  ]

-- What an update stores in a column: `undefined` leaves it as it is.
abbrev pub written {ℓ} : {A : Type ℓ} → Option A → Option A → Option A
written none stored = stored
written (some value) stored = some value
