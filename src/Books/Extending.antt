-- ===== src/Books/Extending.antt =====
-- The projection of a period when rows are added to the tables that it is computed from.
use wassal.Prelude.{
  ℕ, ◌+◌, ◌≡◌, refl, ap, Bool, true, false, not, ◌&&◌, none, some, List, [], ◌∷◌, ◌++◌, ◌==◌, inl,
  inr, arith, Bool-cases, Option-cases, is_some, filter, sum_by, All, if◌then◌else◌,
}
use wassal.Store.Table.{Table, get, Rows}
use wassal.Finance.Domain.{Allocation}
use wassal.Finance.Accounts.{LedgerEntry, SettlementLine, ExternalPayment, PaymentAllocation}
use wassal.Finance.Settlement.{projected_lines, is_active_payment, is_reversed}
use wassal.Finance.Payments.{allocation_rows, copied_rows}
use wassal.Books.Invariant.{IsKnown, IsReversalOf}

pub get-fresh :
    {V : Type 0} (k j : ℕ) (v : V) (t : Table V)
    → get k t ≡ none
    → IsKnown t j
    → get j ((k, v) ∷ t) ≡ get j t
unfolding get
get-fresh k j v t h known = elim (Bool-cases (k == j)) [
  | inl hit ↦ let same : k ≡ j = ground arith in absurd (ground (arith, ap (λ i. get i t) same))
  | inr miss ↦ rw miss refl
]

pub IsKnown-more :
    {V : Type 0} (k j : ℕ) (v : V) (t : Table V) → IsKnown t j → IsKnown ((k, v) ∷ t) j
unfolding get
IsKnown-more k j v t known = ground (arith, known)

pub IsKnown-added : {V : Type 0} (k : ℕ) (v : V) (t : Table V) → IsKnown ((k, v) ∷ t) k
unfolding get
IsKnown-added k v t = ground arith

pub All-IsKnown_more :
    {V R : Type 0} (f : R → ℕ) (k : ℕ) (v : V) (t : Table V) (rs : List R)
    → All (λ r. IsKnown t (f r)) rs
    → All (λ r. IsKnown ((k, v) ∷ t) (f r)) rs
All-IsKnown_more f k v t [] q = tt
All-IsKnown_more f k v t (r ∷ rs) q =
    (IsKnown-more k (f r) v t q.0, All-IsKnown_more f k v t rs q.1)

IsReversalOf-more :
    (k : ℕ) (v : ExternalPayment) (t : Table ExternalPayment) (p : ExternalPayment)
    → IsReversalOf t p
    → IsReversalOf ((k, v) ∷ t) p
IsReversalOf-more k v t p q = elim (Option-cases p.reverses_payment_id) [
  | inl direct ↦ rw direct tt
  | inr (original, reverses) ↦ rw reverses (IsKnown-more k original v t (rw reverses at q))
]

pub Rows-IsReversalOf_more :
    (k : ℕ) (v : ExternalPayment) (t : Table ExternalPayment) (rows : Table ExternalPayment)
    → Rows (IsReversalOf t) rows
    → Rows (IsReversalOf ((k, v) ∷ t)) rows
Rows-IsReversalOf_more k v t [] q = tt
Rows-IsReversalOf_more k v t ((id, p) ∷ rows) q =
    (IsReversalOf-more k v t p q.0, Rows-IsReversalOf_more k v t rows q.1)

-- An entry that no line names does not count.
pub projected_lines-fresh :
    (id entry_id : ℕ) (e : LedgerEntry) (ledger : Table LedgerEntry) (lines : List SettlementLine)
    → get entry_id ledger ≡ none
    → All (λ line. IsKnown ledger line.ledger_entry_id) lines
    → projected_lines id ((entry_id, e) ∷ ledger) lines ≡ projected_lines id ledger lines
unfolding projected_lines
projected_lines-fresh id entry_id e ledger [] h q = refl
projected_lines-fresh id entry_id e ledger (line ∷ lines) h q = ground (
  arith,
  get-fresh entry_id line.ledger_entry_id e ledger h q.0,
  projected_lines-fresh id entry_id e ledger lines h q.1,
)

-- A payment that is not in the table has no reversal there.
pub is_reversed-fresh :
    (payment_id : ℕ) (t rows : Table ExternalPayment)
    → get payment_id t ≡ none
    → Rows (IsReversalOf t) rows
    → is_reversed payment_id rows ≡ false
unfolding is_reversed
is_reversed-fresh payment_id t [] h q = refl
is_reversed-fresh payment_id t ((id, p) ∷ rows) h q = elim (Option-cases p.reverses_payment_id) [
  | inl direct ↦ rw direct (is_reversed-fresh payment_id t rows h q.1)
  | inr (original, reverses) ↦
      let known : IsKnown t original = rw reverses at q.0 in
      elim (Bool-cases (original == payment_id)) [
        | inl hit ↦
            let same : original ≡ payment_id = ground arith in
            absurd (ground (arith, ap (λ i. get i t) same))
        | inr miss ↦ rw (reverses, miss) (is_reversed-fresh payment_id t rows h q.1)
      ]
]

-- Whether a payment reverses another one.
abbrev pub reverses : ExternalPayment → ℕ → Bool
reverses p id = elim p.reverses_payment_id [ some original ↦ original == id | none ↦ false ]

-- A payment added to the table only ends the allocations of the payment that it reverses.
pub is_active_payment-added :
    (k : ℕ) (p : ExternalPayment) (t : Table ExternalPayment) (x : PaymentAllocation)
    → get k t ≡ none
    → IsKnown t x.payment_id
    → is_active_payment ((k, p) ∷ t) x ≡ (not (reverses p x.payment_id) && is_active_payment t x)
unfolding is_active_payment is_reversed
is_active_payment-added k p t x h known = ground (arith, get-fresh k x.payment_id p t h known)

-- `active_payments`, of the lists.
abbrev pub active_sum : ℕ → Table ExternalPayment → List PaymentAllocation → ℕ
active_sum id payments xs =
    sum_by (λ x. x.amount_minor)
      (filter (is_active_payment payments) (filter (λ x. x.settlement_period_id == id) xs))

pub active_sum-append :
    (id : ℕ) (payments : Table ExternalPayment) (xs ys : List PaymentAllocation)
    → active_sum id payments (xs ++ ys) ≡ active_sum id payments xs + active_sum id payments ys
active_sum-append id payments [] ys = omega arith
active_sum-append id payments (x ∷ xs) ys = ground (arith, active_sum-append id payments xs ys)

-- The allocations to a period count the same where the payments of those allocations do.
pub active_sum-same :
    (id : ℕ) (before after : Table ExternalPayment) (xs : List PaymentAllocation)
    → All
        (λ x.
          (x.settlement_period_id == id) ≡ true
          → is_active_payment after x ≡ is_active_payment before x)
        xs
    → active_sum id after xs ≡ active_sum id before xs
active_sum-same id before after [] q = refl
active_sum-same id before after (x ∷ xs) q =
    ground (arith, q.0, active_sum-same id before after xs q.1)

-- What the allocations give to a period.
abbrev pub share_of : ℕ → List Allocation → ℕ
share_of id [] = 0
share_of id (a ∷ rest) =
    (if a.settlement_period_id == id then a.amount_minor else 0) + share_of id rest

pub allocation_rows-active_sum :
    (id payment_id : ℕ) (p : ExternalPayment) (t : Table ExternalPayment) (xs : List Allocation)
    → p.reverses_payment_id ≡ none
    → is_reversed payment_id t ≡ false
    → active_sum id ((payment_id, p) ∷ t) (allocation_rows payment_id xs) ≡ share_of id xs
unfolding is_active_payment is_reversed get
allocation_rows-active_sum id payment_id p t [] direct fresh = refl
allocation_rows-active_sum id payment_id p t (x ∷ xs) direct fresh =
    ground (arith, direct, fresh, allocation_rows-active_sum id payment_id p t xs direct fresh)

pub copied_rows-active_sum :
    (id reversal_id : ℕ) (p : ExternalPayment) (t : Table ExternalPayment)
    (xs : List PaymentAllocation)
    → is_some p.reverses_payment_id ≡ true
    → active_sum id ((reversal_id, p) ∷ t) (copied_rows reversal_id xs) ≡ 0
unfolding is_active_payment is_reversed get
copied_rows-active_sum id reversal_id p t [] reversing = refl
copied_rows-active_sum id reversal_id p t (x ∷ xs) reversing =
    ground (arith, reversing, copied_rows-active_sum id reversal_id p t xs reversing)
