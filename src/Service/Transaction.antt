-- ===== src/Service/Transaction.antt =====
-- A database transaction, `$transaction(async (transaction) => ...)`, is a function from the database
-- to a `Result`: the value that it returns with the changed database, or what it throws, and then
-- nothing of it is kept. The row locks make each one atomic.
use wassal.Prelude.{Bool, true, false, Option, none, some, ◌≡◌, refl, ◌⊎◌, inl, inr}

-- What a handler throws, by its exception's class and text.
pub data Fault : Type 0 where
  order_not_found dispute_not_found courier_required courier_not_found courier_not_eligible : Fault
  not_assigned_courier zone_not_eligible staff_forbidden : Fault
  key_reused already_processing : Fault
  already_accepted acceptance_expired order_changed transition_not_allowed : Fault
  changed_before_commit cancellation_not_allowed cancelled_with_other_reason : Fault
  retry_limit_reached retry_not_allowed : Fault
  not_eligible_for_completion completed_concurrently duplicate_commission : Fault
  dispute_window_unavailable dispute_exists dispute_answered dispute_resolved : Fault
  return_not_awaiting override_not_allowed invalid_dispute_window setting_missing
        settlement_missing :
      Fault
  settlement_not_found settlement_changed settlement_period_not_ended settlement_required : Fault
  payment_exceeds_balance invalid_payment_amount payment_not_found payment_reversed : Fault
  entry_missing entry_not_reversible duplicate_payment duplicate_entry : Fault
  adjustment_order_not_found : Fault
  proof_not_found proof_not_pending proof_or_amount_invalid proof_reason_required : Fault
  proof_reviewed_concurrently : Fault
  quote_not_found quote_not_valid quote_not_reviewed store_inactive : Fault
  quote_zone_not_valid quote_zone_changed settlement_check_violated : Fault

pub data Result {ℓ} (A : Type ℓ) : Type ℓ where
  ok : A → Result A
  err : Fault → Result A

infixl 5 ◌>>◌ ◌>>=◌
-- What throws ends the transaction.
abbrev pub ◌>>=◌ {ℓ κ} : {A : Type ℓ} {B : Type κ} → Result A → (A → Result B) → Result B
err fault >>= next = err fault
ok value >>= next = next value

-- `if (!test) throw fault`, and the test that the `count` of an `updateMany` is 1.
abbrev pub require : Bool → Fault → Result (Unit {0})
require true fault = ok tt
require false fault = err fault

abbrev pub ◌>>◌ {ℓ} : {B : Type ℓ} → Result (Unit {0}) → Result B → Result B
first >> second = first >>= λ u. second

-- The throw where a query's result is null.
abbrev pub found {ℓ} : {A : Type ℓ} → Option A → Fault → Result A
found none fault = err fault
found (some a) fault = ok a

pub Result-cases {ℓ} :
    {A : Type ℓ} (r : Result A) → ((e : Fault) × (r ≡ err e)) ⊎ ((a : A) × (r ≡ ok a))
Result-cases (ok a) = inr (a, refl)
Result-cases (err e) = inl (e, refl)
