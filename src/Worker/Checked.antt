-- ===== src/Worker/Checked.antt =====
-- The check of the database on settlement periods against the increments of
-- apps/worker/src/phase-four-jobs.ts.
use wassal.Prelude.{
  ℕ, ◌+◌, ◌<◌, ◌≡◌, ◌≢◌, ◌⊎◌, sym, ap, ◌∙◌, ◌==◌, refl, true, false, some, [], ◌∷◌, inl, inr, arith,
  Bool-cases, Option-cases,
}
use mathlib.Core.Path.{subst}
use mathlib.Core.Option.{some-injective}
use wassal.Prelude.Int.{ℤ, pos, eq_of_parts, pos_part, neg_part, int_laws, ◌+ℤ◌, ◌-ℤ◌}
use wassal.Store.Table.{Table, get, matches, Rows}
use wassal.Finance.Calendar.{Bounds}
use wassal.Finance.Accounts.{Accounts, SettlementPeriod, LedgerEntry}
use wassal.Finance.Settlement.{find_period}
use wassal.Service.Transaction.{Result-cases, ok, err, settlement_check_violated}
use wassal.Worker.Complete.{
  passes_projection_check, period_with, period_from, post_worker_commission,
}

-- Waivers and payments are more than commissions and adjustments.
abbrev pub IsOverpaid : SettlementPeriod → Type 0
IsOverpaid s =
    pos_part s.total_commission_due_minor + pos_part s.total_adjustments_minor
    < neg_part s.total_commission_due_minor
      + neg_part s.total_adjustments_minor
      + s.total_waived_minor
      + s.total_payments_minor

-- Every stored period passes the check.
abbrev pub AreChecked : Table SettlementPeriod → Type 0
AreChecked settlements = Rows (λ s. passes_projection_check s ≡ true) settlements

pub get-checked :
    (id : ℕ) {s : SettlementPeriod} (t : Table SettlementPeriod)
    → get id t ≡ some s
    → AreChecked t
    → passes_projection_check s ≡ true
unfolding get
get-checked id [] h q = absurd (ground arith)
get-checked id {s} ((j, v) ∷ t) h q = elim (Bool-cases (j == id)) [
  | inl hit ↦
      let same : some v ≡ some s = rw hit at h in
      subst (λ x. passes_projection_check x ≡ true) (some-injective _ _ same) q.0
  | inr miss ↦ get-checked id t (rw miss at h) q.1
]

-- The period that is found is in the table.
get-find_period :
    (courier_id : ℕ) (bounds : Bounds) (t : Table SettlementPeriod) {id : ℕ}
    → find_period courier_id bounds t ≡ some id
    → (s : SettlementPeriod) × (get id t ≡ some s)
unfolding get find_period
get-find_period courier_id bounds [] h = absurd (ground arith)
get-find_period courier_id bounds ((j, v) ∷ t) {id} h = elim (Bool-cases (j == id)) [
  | inl hit ↦ (v, rw hit refl)
  | inr miss ↦
      let (s, e) = get-find_period courier_id bounds t {id = id} (ground (arith, miss)) in
      (s, rw miss e)
]

-- What the period owes, below 0 where it is overpaid.
abbrev owed : SettlementPeriod → ℤ
owed s =
    s.total_commission_due_minor
    +ℤ s.total_adjustments_minor
    -ℤ pos s.total_waived_minor
    -ℤ pos s.total_payments_minor

owed-period_with :
    (s : SettlementPeriod) (amount : ℕ) → owed (period_with amount s) ≡ owed s +ℤ pos amount
owed-period_with s amount =
    eq_of_parts (owed (period_with amount s)) (owed s +ℤ pos amount) (omega int_laws)

raised_below_zero :
    (b : ℤ) (amount : ℕ)
    → pos_part b < neg_part b
    → 0 < amount
    → pos_part b + amount ≢ pos_part (b +ℤ pos amount)
unfolding ◌+ℤ◌
raised_below_zero b amount below some_amount same = absurd (ground (arith, same))

module _ (s : SettlementPeriod) (amount : ℕ) where
  period_with-passes :
      passes_projection_check s ≡ true
      → (passes_projection_check (period_with amount s) ≡ true) ⊎ (IsOverpaid s × (0 < amount))
  unfolding passes_projection_check ◌+ℤ◌ ◌-ℤ◌
  period_with-passes h = ground arith

  period_with-fails :
      passes_projection_check s ≡ true
      → IsOverpaid s
      → 0 < amount
      → passes_projection_check (period_with amount s) ≡ false
  unfolding passes_projection_check
  period_with-fails h over some_amount =
      elim (Bool-cases (passes_projection_check (period_with amount s))) [
        | inl passes ↦
            let stored : s.remaining_amount_minor ≡ pos_part (owed s) = ground arith in
            let raised : s.remaining_amount_minor + amount
                ≡ pos_part (owed (period_with amount s)) =
              ground arith in
            let below : pos_part (owed s) < neg_part (owed s) = omega int_laws in
            absurd (
              raised_below_zero (owed s) amount below some_amount (
                ap (λ r. r + amount) (sym stored)
                ∙ raised
                ∙ ap pos_part (owed-period_with s amount)))
        | inr fails ↦ fails
      ]

period_from-passes :
    (courier_id : ℕ) (bounds : Bounds) (amount : ℕ)
    → passes_projection_check (period_from courier_id bounds amount) ≡ true
unfolding passes_projection_check ◌+ℤ◌ ◌-ℤ◌
period_from-passes courier_id bounds amount = ground arith

module _ (entry : LedgerEntry) (amount : ℕ) (bounds : Bounds) (entry_id settlement_id : ℕ)
    (a : Accounts) where
  -- The posting of a commission to a courier's week: done, or refused because the week is overpaid.
  pub post_worker_commission-cases :
      AreChecked a.settlements
      → ((a' : Accounts) × (post_worker_commission entry amount bounds entry_id settlement_id a
            ≡ ok a')
          × (a'.ledger ≡ (entry_id, entry) ∷ a.ledger))
        ⊎ ((id : ℕ) × (find_period entry.courier_id bounds a.settlements ≡ some id)
            × (s : SettlementPeriod) × (get id a.settlements ≡ some s)
            × IsOverpaid s
            × (0 < amount)
            × (post_worker_commission entry amount bounds entry_id settlement_id a
                ≡ err settlement_check_violated))
  unfolding post_worker_commission matches
  post_worker_commission-cases checked =
      elim (Option-cases (find_period entry.courier_id bounds a.settlements)) [
        | inl new ↦
            let fits = period_from-passes entry.courier_id bounds amount in
            elim (Result-cases
              (post_worker_commission entry amount bounds entry_id settlement_id a)) [
                | inl (fault, refused) ↦ absurd (ground (arith, fits))
                | inr (a', posted) ↦ inl (a', posted, ground (arith, fits))
              ]
        | inr (id, found_id) ↦
            let (s, at) = get-find_period entry.courier_id bounds a.settlements found_id in
            elim (Bool-cases (passes_projection_check (period_with amount s))) [
              | inl passes ↦
                  elim (Result-cases
                    (post_worker_commission entry amount bounds entry_id settlement_id a)) [
                      | inl (fault, refused) ↦ absurd (ground (arith, passes))
                      | inr (a', posted) ↦ inl (a', posted, ground (arith, passes))
                    ]
              | inr fails ↦
                  elim (period_with-passes s amount (get-checked id a.settlements at checked)) [
                    | inl passes ↦ absurd (ground (arith, passes, fails))
                    | inr (over, some_amount) ↦
                        inr (id, found_id, s, at, over, some_amount, ground (arith, fails))
                  ]
            ]
      ]

  -- In an overpaid week the database refuses every commission but 0.
  pub post_worker_commission-refused :
      {id : ℕ} {s : SettlementPeriod}
      → find_period entry.courier_id bounds a.settlements ≡ some id
      → get id a.settlements ≡ some s
      → passes_projection_check s ≡ true
      → IsOverpaid s
      → 0 < amount
      → post_worker_commission entry amount bounds entry_id settlement_id a
        ≡ err settlement_check_violated
  unfolding post_worker_commission matches
  post_worker_commission-refused {id} {s} found_id at passes over some_amount =
      let fails = period_with-fails s amount passes over some_amount in ground (arith, fails)
