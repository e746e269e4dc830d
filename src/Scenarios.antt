-- ===== src/Scenarios.antt =====
-- Small databases for examples: a courier, a merchant with its owner, and one order.
use wassal.Prelude.{ℕ, Option, true, false, none, some, List, [], ◌∷◌}
use wassal.Contracts.Rbac.{UserRole, owner}
use wassal.Orders.Status.{OrderStatus, searching_courier, courier_assigned, delivered, at_dropoff}
use wassal.Courier.Policy.{
  DocumentType, national_id_front, national_id_back, driver_license, vehicle_license, profile_photo,
  DocumentStatus, Document, AccountStatus, VerificationStatus, EligibilityInput,
}
use wassal.Store.{
  DeliveryOrder, CourierProfile, Setting, OperationalSetting, FinancialSetting, Database,
}
pub mod Lives
pub mod OrderExamples
pub mod MoneyExamples
pub mod FinanceExamples
pub mod AdminExamples
pub mod CreateExamples
pub mod JobExamples

abbrev pub document : DocumentType → Document
document type = record {
  type = type;
  status = DocumentStatus.approved;
  expires_at = some 9000000000;
  is_current = true;
}

abbrev pub papers : List Document
papers =
    document national_id_front
    ∷ document national_id_back
    ∷ document driver_license
    ∷ document vehicle_license
    ∷ document profile_photo
    ∷ []

abbrev pub rider : EligibilityInput
rider = record {
  account_status = AccountStatus.active;
  verification_status = VerificationStatus.approved;
  has_active_motorcycle = true;
  documents = papers;
}

-- An order that searches for a courier until instant 2000.
abbrev pub searching : DeliveryOrder
searching = record {
  quote_id = 2;
  merchant_id = 7;
  service_zone_id = 3;
  courier_id = none;
  status = searching_courier;
  acceptance_expires_at = some 2000;
  dispatch_attempt_count = 1;
  merchant_total_minor = 5000;
  platform_commission_minor = 500;
  delivered_at = none;
  delivery_dispute_deadline_at = none;
  completed_at = none;
  completion_source = none;
  delivery_note = none;
  delivery_failure_reason = none;
  delivery_failure_note = none;
  return_reported_at = none;
  return_confirmed_at = none;
  return_confirmed_by_id = none;
  return_condition = none;
  return_confirmation_note = none;
  financial_finalized_at = none;
  cancelled_at = none;
  cancelled_by_id = none;
  cancellation_reason_code = none;
  cancellation_details = none;
  cancelled_by_role = none;
  cancelled_after_pickup = false;
  cancellation_charge_minor = 0;
  version = 4;
}

-- The same order with courier 5, in a status after the acceptance.
abbrev pub riding : OrderStatus → DeliveryOrder
riding status = record searching {
  courier_id = some 5;
  status = status;
  acceptance_expires_at = none;
}

-- The order, delivered, with a window for disputes until instant 5000.
abbrev pub dropped : DeliveryOrder
dropped = record (riding delivered) {
  delivered_at = some 1400;
  delivery_dispute_deadline_at = some 5000;
}

-- A marketplace with the one order, number 1. Its courier 5 is user 50, and its merchant's owner is
-- user 70.
abbrev pub market : DeliveryOrder → Database
market order = record {
  orders = (1, order) ∷ [];
  events = [];
  audits = [];
  notifications = [];
  idempotency = [];
  disputes = [];
  accounts = record { ledger = []; settlements = []; lines = []; payments = []; allocations = [] };
  completed_orders_count = (5, 0) ∷ [];
  zone_memberships =
      record { courier_id = 5; service_zone_id = 3; active = true; zone_is_active = true } ∷ [];
  merchant_memberships = record { merchant_id = 7; user_id = 70; active = true; role = owner } ∷ [];
  operational_settings =
      record {
        effective_from = 0;
        version = 1;
        value = record { delivery_dispute_window_hours = 1; return_confirmation_timeout_hours = 1 };
      }
      ∷ [];
  financial_settings =
      record { effective_from = 0; version = 1; value = record { grace_period_days = 3 } } ∷ [];
  quotes = [];
  service_zones = [];
  payment_proofs = [];
  proof_reviews = [];
  couriers = (50, record { id = 5; eligibility = rider }) ∷ [];
}
