-- ===== src/Finance/Postings.antt =====
-- What the handlers of apps/api/src/finance/finance.service.ts share: the courier's closed periods
-- that owe something, the projection of several periods, and the unique keys of the rows they create.
use wassal.Prelude.{
  ℕ, Bool, false, ◌&&◌, ◌||◌, Option, none, some, List, [], ◌∷◌, not, ltb, ◌==◌, ◌is◌,
  if◌then◌else◌,
}
use wassal.Store.Table.{Table}
use wassal.Finance.Domain.{
  Outcome, done, invalid_input, overpayment, unsafe_result, OpenSettlement, open_period,
  settlement_status_enum,
}
use wassal.Finance.Accounts.{
  Accounts, LedgerEntry, SourceKey, source_key_enum, SettlementPeriod, ExternalPayment,
}
use wassal.Finance.Settlement.{refresh_settlement_projection}
use wassal.Service.Transaction.{Result, ok, err, payment_exceeds_balance, invalid_payment_amount}

-- The `where` of the query: `{ courierId, status: { not: 'OPEN' }, remainingAmountMinor: { gt: 0 } }`.
abbrev pub is_payable : ℕ → SettlementPeriod → Bool
is_payable courier_id s =
    s.courier_id == courier_id && not (s.status is open_period) && ltb 0 s.remaining_amount_minor

-- The periods that the query finds, in any order: the allocation sorts them.
unfoldable pub payable_settlements : ℕ → Table SettlementPeriod → List OpenSettlement
payable_settlements courier_id [] = []
payable_settlements courier_id ((id, s) ∷ rest) =
    let others = payable_settlements courier_id rest in
    if is_payable courier_id s
    then record {
      id = id;
      remaining_amount_minor = s.remaining_amount_minor;
      period_start = s.period_start;
    }
      ∷ others
    else others

-- What the `catch` around the allocation makes of a throw.
abbrev pub allocation_result {ℓ} : {A : Type ℓ} → Outcome A → Result A
allocation_result (done a) = ok a
allocation_result overpayment = err payment_exceeds_balance
allocation_result invalid_input = err invalid_payment_amount
allocation_result unsafe_result = err invalid_payment_amount

-- `idempotencyKey` of a payment is unique.
unfoldable pub has_payment_key : ℕ → Table ExternalPayment → Bool
has_payment_key key [] = false
has_payment_key key ((id, p) ∷ ps) = p.idempotency_key == key || has_payment_key key ps

-- `findUnique({ where: { sourceKey } })`: the id of the entry.
unfoldable pub find_entry : SourceKey → Table LedgerEntry → Option ℕ
find_entry key [] = none
find_entry key ((id, e) ∷ es) = if e.source_key is key then some id else find_entry key es

-- Whether some entry reverses this one: `reversesEntryId` is unique.
unfoldable pub is_entry_reversed : ℕ → Table LedgerEntry → Bool
is_entry_reversed entry_id [] = false
is_entry_reversed entry_id ((id, e) ∷ es) =
    elim e.reverses_entry_id [ some original ↦ original == entry_id | none ↦ false ]
    || is_entry_reversed entry_id es

module _ (shown : ℕ → ℕ) where
  -- The loop over the allocations that refreshes the projection of each period.
  unfoldable pub refresh_all : List ℕ → ℕ → Accounts → Option Accounts
  unfolding refresh_settlement_projection
  refresh_all [] now a = some a
  refresh_all (id ∷ ids) now a = elim (refresh_settlement_projection shown id now a) [
    | none ↦ none
    | some b ↦ refresh_all ids now b
  ]
