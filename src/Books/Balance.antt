-- ===== src/Books/Balance.antt =====
-- What a courier owes after a payment: `recordExternalPaymentInTransaction` of
-- apps/api/src/finance/finance.service.ts.
use wassal.Prelude.{
  ℕ, ◌+◌, ◌-◌, ◌≤◌, ◌<◌, ◌≡◌, refl, ap, ◌∙◌, none, some, List, [], ◌∷◌, ◌==◌, arith, is_some,
  Bool-cases, Option-cases, inl, inr, if◌then◌else◌, sum_by,
}
use wassal.Prelude.Int.{ℤ, pos, negsuc, pos_part, ◌-ℤ◌}
use wassal.Prelude.Sort.{sort_by, sum-sort_by}
use wassal.Store.{Database}
use wassal.Store.Table.{Table, get}
use wassal.Finance.Domain.{
  done, OpenSettlement, Allocation, SettlementLineInput, settlement_projection, settlement_before,
  allocate_from, allocate_oldest_settlements, max_safe_integer,
}
use wassal.Finance.Allocation.{open_total, allocate_oldest_settlements-IsOldestFirst}
use wassal.Finance.Accounts.{Accounts, SettlementPeriod}
use wassal.Finance.Settlement.{projection_of, active_payments, projected_lines}
use wassal.Finance.Closing.{totals_of}
use wassal.Finance.Postings.{payable_settlements}
use wassal.Finance.Payments.{
  PaymentInput, record_external_payment_in_transaction, recorded_payment, recorded_entry,
  post_payment, allocated_ids,
}
use wassal.Service.Transaction.{ok}
use wassal.Books.Invariant.{is_among, IsKeyed, InOrder}
use wassal.Books.Refresh.{refresh_all-IsSameBase}
use wassal.Books.Change.{IsSameBase-projection_of}
use wassal.Books.Extending.{share_of}
use wassal.Books.Paying.{post_payment-active, post_payment-lines}
use wassal.Books.Handlers.{record_in_transaction-posts, record_in_transaction-InOrder}

-- What the settlements with this id still owe.
abbrev owed_on : ℕ → List OpenSettlement → ℕ
owed_on id ss = sum_by (λ s. if s.id == id then s.remaining_amount_minor else 0) ss

share_of-allocate_from :
    (id amount : ℕ) (ss : List OpenSettlement)
    → share_of id (allocate_from amount ss) ≤ owed_on id ss
unfolding allocate_from
share_of-allocate_from id amount [] = omega arith
share_of-allocate_from id amount (s ∷ ss) = ground (
  arith,
  share_of-allocate_from id (amount - s.remaining_amount_minor) ss,
  share_of-allocate_from id 0 ss,
)

payable-absent :
    (id courier_id : ℕ) (t : Table SettlementPeriod)
    → get id t ≡ none
    → owed_on id (payable_settlements courier_id t) ≡ 0
unfolding payable_settlements get
payable-absent id courier_id [] h = refl
payable-absent id courier_id ((j, s) ∷ t) h = ground (arith, payable-absent id courier_id t)

payable-owed :
    (id courier_id : ℕ) (t : Table SettlementPeriod) {s : SettlementPeriod}
    → IsKeyed t
    → get id t ≡ some s
    → owed_on id (payable_settlements courier_id t) ≤ s.remaining_amount_minor
unfolding payable_settlements get
payable-owed id courier_id [] q h = absurd (ground arith)
payable-owed id courier_id ((j, r) ∷ t) {s} q h = elim (Bool-cases (j == id)) [
  | inl hit ↦ ground (arith, q.0, payable-absent id courier_id t)
  | inr miss ↦ ground (arith, payable-owed id courier_id t {s = s} q.1)
]

less_paid :
    (z : ℤ) (share before : ℕ)
    → share ≤ pos_part (z -ℤ pos before)
    → pos_part (z -ℤ pos (share + before)) + share ≡ pos_part (z -ℤ pos before)
unfolding ◌-ℤ◌
less_paid (pos n) share before h = ground arith
less_paid (negsuc n) share before h = ground arith

remaining-paid :
    (lines : List SettlementLineInput) (share before : ℕ)
    → share ≤ (settlement_projection lines before).remaining_amount_minor
    → (settlement_projection lines (share + before)).remaining_amount_minor + share
      ≡ (settlement_projection lines before).remaining_amount_minor
unfolding settlement_projection
remaining-paid lines share before h = less_paid _ share before h

allocated-exactly :
    (amount : ℕ) (ss : List OpenSettlement) {allocations : List Allocation}
    → allocate_oldest_settlements amount ss ≡ done allocations
    → (allocations ≡ allocate_from amount (sort_by settlement_before ss))
      × (sum_by (λ a. a.amount_minor) allocations ≡ amount)
unfolding allocate_oldest_settlements
allocated-exactly amount ss {allocations} h =
    let bounds : (0 < amount) × (amount ≤ max_safe_integer) × (amount ≤ open_total ss) =
      ground arith in
    let (spread, same, _, _, total) =
      allocate_oldest_settlements-IsOldestFirst amount ss bounds.0 bounds.1 bounds.2 in
    (ground arith, ground (arith, same))

settlement_projection-payments :
    (lines : List SettlementLineInput) (paid : ℕ)
    → (settlement_projection lines paid).total_payments_minor ≡ paid
unfolding settlement_projection
settlement_projection-payments lines paid = refl

pub projection_of-parts :
    (id : ℕ) (a : Accounts) (lines : List SettlementLineInput) (paid : ℕ)
    → projected_lines id a.ledger a.lines ≡ lines
    → active_payments id a ≡ paid
    → projection_of id a ≡ settlement_projection lines paid
unfolding projection_of
projection_of-parts id a lines paid same_lines same_paid = rw (same_lines, same_paid) refl

pub known-row :
    {V : Type 0} (id : ℕ) (t t' : Table V) {s : V}
    → is_some (get id t') ≡ is_some (get id t)
    → get id t ≡ some s
    → (s' : V) × (get id t' ≡ some s')
known-row id t t' same at = elim (Option-cases (get id t')) [
  | inl missing ↦ absurd (ground arith)
  | inr found ↦ found
]

-- The totals of a period with and without a share of a payment.
paid-totals :
    (lines : List SettlementLineInput) (share before : ℕ) (s s' : SettlementPeriod)
    → totals_of s ≡ settlement_projection lines before
    → totals_of s' ≡ settlement_projection lines (share + before)
    → share ≤ s.remaining_amount_minor
    → (s'.remaining_amount_minor + share ≡ s.remaining_amount_minor)
      × (s'.total_payments_minor ≡ share + s.total_payments_minor)
paid-totals lines share before s s' h h' at_most =
    let owed : s.remaining_amount_minor
        ≡ (settlement_projection lines before).remaining_amount_minor =
      ap (λ p. p.remaining_amount_minor) h in
    let left : s'.remaining_amount_minor
        ≡ (settlement_projection lines (share + before)).remaining_amount_minor =
      ap (λ p. p.remaining_amount_minor) h' in
    let shown_before : s.total_payments_minor
        ≡ (settlement_projection lines before).total_payments_minor =
      ap (λ p. p.total_payments_minor) h in
    let shown_after : s'.total_payments_minor
        ≡ (settlement_projection lines (share + before)).total_payments_minor =
      ap (λ p. p.total_payments_minor) h' in
    (
      omega (arith, owed, left, at_most, remaining-paid lines share before),
      omega (
        arith,
        shown_before,
        shown_after,
        settlement_projection-payments lines before,
        settlement_projection-payments lines (share + before),
      ),
    )

module _ (shown : ℕ → ℕ) (user_id courier_id : ℕ) (input : PaymentInput)
    (key hash payment_id entry_id now : ℕ) (db : Database) {answer : ℕ} {db' : Database} where
  -- A payment that is recorded, under ids that are new and with the books in order, is spread in full
  -- over what the courier owes, and each period that was there (of any courier) then owes exactly its
  -- share less and shows its share more of payments; a period that gets no share owes what it did.
  pub record_external_payment-lowers :
      (id : ℕ) (s : SettlementPeriod)
      → record_external_payment_in_transaction shown user_id courier_id input key hash payment_id
          entry_id now db
        ≡ ok (answer, db')
      → get payment_id db.accounts.payments ≡ none
      → get entry_id db.accounts.ledger ≡ none
      → InOrder db.accounts
      → get id db.accounts.settlements ≡ some s
      → (allocations : List Allocation) × (s' : SettlementPeriod) × (allocate_oldest_settlements
            input.amount_minor
            (payable_settlements courier_id db.accounts.settlements)
          ≡ done allocations)
        × (sum_by (λ a. a.amount_minor) allocations ≡ input.amount_minor)
        × (get id db'.accounts.settlements ≡ some s')
        × (s'.remaining_amount_minor + share_of id allocations ≡ s.remaining_amount_minor)
        × (s'.total_payments_minor ≡ share_of id allocations + s.total_payments_minor)
  unfolding is_among
  record_external_payment-lowers id s h fresh_payment fresh_entry w at =
      let a = db.accounts in
      let (allocations, spread, posted, _, _) =
        record_in_transaction-posts shown user_id courier_id input key hash payment_id entry_id now
          db h in
      let (spread_from, total) =
        allocated-exactly input.amount_minor (payable_settlements courier_id a.settlements)
          spread in
      let payment = recorded_payment user_id courier_id input key in
      let entry = recorded_entry user_id courier_id input payment_id in
      let after = post_payment payment_id payment entry_id entry allocations a in
      let base = refresh_all-IsSameBase shown (allocated_ids allocations) now after posted in
      let (s', found) = known-row id a.settlements db'.accounts.settlements (base.kept id) at in
      let w' =
        record_in_transaction-InOrder shown user_id courier_id input key hash payment_id entry_id
          now db h fresh_payment fresh_entry w in
      let sorted = sort_by settlement_before (payable_settlements courier_id a.settlements) in
      let at_most : share_of id allocations ≤ s.remaining_amount_minor = rw spread_from (
        omega (
          arith,
          share_of-allocate_from id input.amount_minor sorted,
          sum-sort_by settlement_before (λ r. if r.id == id then r.remaining_amount_minor else 0)
              (payable_settlements courier_id a.settlements),
          payable-owed id courier_id a.settlements w.linked.keyed at,
        )) in
      let active =
        post_payment-active payment_id payment entry_id entry a fresh_payment fresh_entry
          allocations w.linked refl id in
      let lines_same =
        post_payment-lines payment_id payment entry_id entry a fresh_payment fresh_entry allocations
          w.linked id in
      let changed : totals_of s'
          ≡ settlement_projection (projected_lines id a.ledger a.lines)
              (share_of id allocations + active_payments id a) =
        w'.synced id s' found refl
        ∙ IsSameBase-projection_of id after db'.accounts base
        ∙ projection_of-parts id after _ _ lines_same active in
      let (owes, shows) =
        paid-totals (projected_lines id a.ledger a.lines) (share_of id allocations)
          (active_payments id a) s s'
          (w.synced id s at refl ∙ projection_of-parts id a _ _ refl refl) changed at_most in
      (allocations, s', spread, total, found, owes, shows)
