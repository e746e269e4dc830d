-- ===== src/Prelude/Enums.antt =====
-- Equality tests on the program's enumerations (its string literal types).
use mathlib.Core.Bool.{Bool, true, false, ◌||◌}
use mathlib.Core.List.{List, [], ◌∷◌}

pub record Enum {ℓ} (A : Type ℓ) : Type ℓ where
  pub same : Discrete A

-- `a === b`.
infix 50 ◌is◌
abbrev pub ◌is◌ {ℓ} : {A : Type ℓ} ⦃e : Enum A⦄ → A → A → Bool
◌is◌ ⦃e⦄ a b = elim (e.same a b) [ yes p ↦ true | no p ↦ false ]

-- `xs.includes(a)`.
abbrev pub includes {ℓ} : {A : Type ℓ} ⦃e : Enum A⦄ → List A → A → Bool
includes [] a = false
includes (x ∷ xs) a = a is x || includes xs a
