-- ===== src/Books/Invariant.antt =====
-- The invariant of the accounts: each period's row (`model SettlementPeriod`) shows the projection of
-- the rows that belong to it.
use wassal.Prelude.{
  ℕ, ◌≡◌, Bool, true, false, ◌||◌, none, some, List, [], ◌∷◌, ◌==◌, All, is_some, sym, ap, ◌∙◌, inl,
  inr, arith, Bool-cases,
}
use mathlib.Core.Option.{some-injective}
use wassal.Store.Table.{Table, get, Rows}
use wassal.Finance.Domain.{SettlementStatus, open_period}
use wassal.Finance.Accounts.{Accounts, ExternalPayment, SettlementPeriod}
use wassal.Finance.Settlement.{projection_of}
use wassal.Finance.Closing.{totals_of}

-- `ids.includes(id)`.
unfoldable pub is_among : ℕ → List ℕ → Bool
is_among id [] = false
is_among id (x ∷ xs) = x == id || is_among id xs

-- The ids of a table are distinct.
abbrev pub IsKeyed : {V : Type 0} → Table V → Type 0
IsKeyed [] = Unit
IsKeyed ((id, v) ∷ rest) = (get id rest ≡ none) × IsKeyed rest

abbrev pub IsKnown : {V : Type 0} → Table V → ℕ → Type 0
IsKnown t id = is_some (get id t) ≡ true

abbrev pub IsReversalOf : Table ExternalPayment → ExternalPayment → Type 0
IsReversalOf payments p = elim p.reverses_payment_id [
  | none ↦ Unit
  | some original ↦ IsKnown payments original
]

-- The foreign keys name rows that exist.
pub record Linked (a : Accounts) : Type 0 where
  pub lines_known : All (λ line. IsKnown a.ledger line.ledger_entry_id) a.lines
  pub allocations_known : All (λ x. IsKnown a.payments x.payment_id) a.allocations
  pub reversals_known : Rows (IsReversalOf a.payments) a.payments
  pub keyed : IsKeyed a.settlements
  pub entries_keyed : IsKeyed a.ledger

abbrev pub is_closed_status : SettlementStatus → Bool
is_closed_status open_period = false
is_closed_status _ = true

-- The accounts, but for the totals of the periods `ids`: the other rows show their projections, and
-- exactly the closed periods have the instant of their closing.
pub record InOrderBut (ids : List ℕ) (a : Accounts) : Type 0 where
  pub linked : Linked a
  pub dated : Rows (λ s. is_some s.closed_at ≡ is_closed_status s.status) a.settlements
  pub synced :
      (id : ℕ) (s : SettlementPeriod)
      → get id a.settlements ≡ some s
      → is_among id ids ≡ false
      → totals_of s ≡ projection_of id a

abbrev pub InOrder : Accounts → Type 0
InOrder a = InOrderBut [] a

-- Each row of a table of periods shows its projection.
abbrev pub AreSynced : Accounts → Table SettlementPeriod → Type 0
AreSynced a [] = Unit
AreSynced a ((id, s) ∷ rest) = (totals_of s ≡ projection_of id a) × AreSynced a rest

pub AreSynced-get :
    (a : Accounts) (id : ℕ) (t : Table SettlementPeriod) {s : SettlementPeriod}
    → AreSynced a t
    → get id t ≡ some s
    → totals_of s ≡ projection_of id a
unfolding get
AreSynced-get a id [] q h = absurd (ground arith)
AreSynced-get a id ((j, r) ∷ t) {s} q h = elim (Bool-cases (j == id)) [
  | inl hit ↦
      let same : j ≡ id = ground arith in
      let row : some r ≡ some s = rw hit at h in
      ap totals_of (sym (some-injective _ _ row)) ∙ q.0 ∙ ap (λ i. projection_of i a) same
  | inr miss ↦ AreSynced-get a id t {s = s} q.1 (rw miss at h)
]
