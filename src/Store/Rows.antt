-- ===== src/Store/Rows.antt =====
-- The rows of the tables, and the whole database as one record.
use Prim.Native.String.{String}
use native.Mathlib.Decide.{ℕ_discrete}
use wassal.Prelude.{ℕ, Bool, Option, List, Enum}
use wassal.Contracts.Rbac.{UserRole}
use wassal.Orders.Status.{OrderStatus}
use wassal.Courier.Policy.{EligibilityInput, CourierZoneMembership}
use wassal.Finance.Domain.{LedgerType}
use wassal.Finance.Accounts.{Accounts}
use wassal.Store.Table.{Table}
use wassal.Store.Quotes.{PriceQuote, ServiceZone}
use wassal.Store.Proofs.{PaymentProofStatus, PaymentProof, PaymentProofReview}

pub data OrderCompletionSource : Type 0 where
  dispute_window_expired admin_confirmed_delivery : OrderCompletionSource
  merchant_confirmed_return admin_return_override : OrderCompletionSource

pub data DeliveryFailureReason : Type 0 where
  customer_no_answer phone_off wrong_address customer_absent : DeliveryFailureReason
  customer_refused customer_cancelled incorrect_information : DeliveryFailureReason
  inaccessible_location product_issue courier_emergency other : DeliveryFailureReason

pub data ReturnCondition : Type 0 where
  intact damaged incomplete other_condition : ReturnCondition

-- `model DeliveryOrder`.
pub record DeliveryOrder : Type 0 where
  pub quote_id : ℕ
  pub merchant_id : ℕ
  pub service_zone_id : ℕ
  pub courier_id : Option ℕ
  pub status : OrderStatus
  pub acceptance_expires_at : Option ℕ
  pub dispatch_attempt_count : ℕ
  pub merchant_total_minor : ℕ
  pub platform_commission_minor : ℕ
  pub delivered_at : Option ℕ
  pub delivery_dispute_deadline_at : Option ℕ
  pub completed_at : Option ℕ
  pub completion_source : Option OrderCompletionSource
  pub delivery_note : Option String
  pub delivery_failure_reason : Option DeliveryFailureReason
  pub delivery_failure_note : Option String
  pub return_reported_at : Option ℕ
  pub return_confirmed_at : Option ℕ
  pub return_confirmed_by_id : Option ℕ
  pub return_condition : Option ReturnCondition
  pub return_confirmation_note : Option String
  pub financial_finalized_at : Option ℕ
  pub cancelled_at : Option ℕ
  pub cancelled_by_id : Option ℕ
  pub cancellation_reason_code : Option String
  pub cancellation_details : Option String
  pub cancelled_by_role : Option UserRole
  pub cancelled_after_pickup : Bool
  pub cancellation_charge_minor : ℕ
  pub version : ℕ

pub data OrderEventType : Type 0 where
  order_draft_created quote_created order_confirmed courier_search_requested : OrderEventType
  courier_search_expired courier_search_restarted courier_accepted : OrderEventType
  courier_arriving_pickup courier_arrived_pickup order_picked_up : OrderEventType
  order_in_transit courier_arrived_dropoff order_delivered delivery_failed : OrderEventType
  returning_to_store return_awaiting_merchant_confirmation courier_cancelled : OrderEventType
  order_cancelled admin_cancelled merchant_cancelled_after_pickup : OrderEventType
  delivery_dispute_created delivery_dispute_courier_responded : OrderEventType
  delivery_dispute_resolved return_confirmed return_admin_override : OrderEventType
  order_completed : OrderEventType

pub data OrderEventSource : Type 0 where
  merchant_web admin_web courier_mobile worker : OrderEventSource

-- `model OrderEvent`. `actorType` is `USER` where there is an actor, and `SYSTEM` where not.
pub record OrderEvent : Type 0 where
  pub order_id : ℕ
  pub event_type : OrderEventType
  pub from_status : Option OrderStatus
  pub to_status : OrderStatus
  pub actor_id : Option ℕ
  pub actor_role : Option UserRole
  pub source : OrderEventSource

-- The actions of `model AuditLog`.
pub data AuditAction : Type 0 where
  courier_order_accepted courier_order_cancelled_before_pickup : AuditAction
  courier_order_lifecycle : OrderEventType → AuditAction
  order_courier_search_expired order_courier_search_restarted : AuditAction
  order_admin_cancelled order_merchant_cancelled : AuditAction
  delivery_dispute_created delivery_dispute_courier_responded : AuditAction
  delivery_dispute_resolved return_admin_override return_merchant_confirmed : AuditAction
  order_financially_completed_phase4 order_completed_after_dispute_window : AuditAction
  order_created settlement_closed settlement_closed_by_worker : AuditAction
  external_payment_recorded external_payment_reversed : AuditAction
  courier_account : LedgerType → AuditAction

pub record AuditLog : Type 0 where
  pub actor_id : Option ℕ
  pub action : AuditAction
  pub entity_id : ℕ

-- The templates of `deduplicationKey`, each with the values that it names.
pub data DeduplicationKey : Type 0 where
  order_completed : ℕ → ℕ → DeduplicationKey
  order_status : ℕ → OrderStatus → ℕ → ℕ → DeduplicationKey
  search_timeout : ℕ → ℕ → ℕ → DeduplicationKey
  merchant_cancelled : ℕ → ℕ → DeduplicationKey
  payment_proof : ℕ → PaymentProofStatus → ℕ → DeduplicationKey
  dispute_courier : ℕ → DeduplicationKey
  dispute_admin : ℕ → ℕ → DeduplicationKey
  dispute_resolved : ℕ → ℕ → DeduplicationKey

unfoldable pub DeduplicationKey-discrete : Discrete DeduplicationKey
DeduplicationKey-discrete = hlevel ℕ_discrete

instance abbrev pub deduplication_key_enum : Enum DeduplicationKey
deduplication_key_enum = record { same = DeduplicationKey-discrete }

pub record Notification : Type 0 where
  pub recipient_user_id : ℕ
  pub deduplication_key : DeduplicationKey

-- The scopes of idempotency keys, by the template that names them.
pub data Scope : Type 0 where
  courier_accept courier_cancel : ℕ → ℕ → Scope
  courier_action : OrderEventType → ℕ → Scope
  order_cancel order_retry admin_return_confirm merchant_return_confirm : ℕ → Scope
  settlement_close external_payment_create external_payment_reverse : ℕ → Scope
  courier_adjustment order_create : ℕ → Scope

unfoldable pub Scope-discrete : Discrete Scope
Scope-discrete = hlevel ℕ_discrete

instance abbrev pub scope_enum : Enum Scope
scope_enum = record { same = Scope-discrete }

pub data IdempotencyStatus : Type 0 where
  processing completed : IdempotencyStatus

-- `model IdempotencyRecord`; `entity_id` is that of `responseBody`.
pub record IdempotencyRecord : Type 0 where
  pub scope : Scope
  pub key : ℕ
  pub request_hash : ℕ
  pub status : IdempotencyStatus
  pub response_code : Option ℕ
  pub entity_id : Option ℕ
  pub expires_at : ℕ

pub data DisputeStatus : Type 0 where
  open_dispute courier_responded resolved_delivery_confirmed : DisputeStatus
  resolved_not_delivered resolved_return_required : DisputeStatus

unfoldable pub DisputeStatus-discrete : Discrete DisputeStatus
DisputeStatus-discrete = hlevel

instance abbrev pub dispute_status_enum : Enum DisputeStatus
dispute_status_enum = record { same = DisputeStatus-discrete }

-- `model DeliveryDispute`.
pub record DeliveryDispute : Type 0 where
  pub order_id : ℕ
  pub merchant_id : ℕ
  pub courier_id : ℕ
  pub status : DisputeStatus
  pub created_by_id : ℕ
  pub courier_response : Option String
  pub paper_proof_available : Option Bool
  pub courier_responded_at : Option ℕ
  pub resolution_note : Option String
  pub resolved_by_id : Option ℕ
  pub resolved_at : Option ℕ
  pub version : ℕ

-- `model CourierProfile`, with its user's status, its vehicles and its documents.
pub record CourierProfile : Type 0 where
  pub id : ℕ
  pub eligibility : EligibilityInput

-- `model MerchantMembership`.
pub record MerchantMembership : Type 0 where
  pub merchant_id : ℕ
  pub user_id : ℕ
  pub active : Bool
  pub role : UserRole

-- A row of `model PlatformOperationalSetting` or of `model PlatformFinancialSetting`.
pub record Setting (A : Type 0) : Type 0 where
  pub effective_from : ℕ
  pub version : ℕ
  pub value : A

pub record OperationalSetting : Type 0 where
  pub delivery_dispute_window_hours : ℕ
  pub return_confirmation_timeout_hours : ℕ

pub record FinancialSetting : Type 0 where
  pub grace_period_days : ℕ

-- The part of the database that the lives of orders touch.
pub record Database : Type 0 where
  pub orders : Table DeliveryOrder
  pub events : List OrderEvent
  pub audits : List AuditLog
  pub notifications : List Notification
  pub idempotency : List IdempotencyRecord
  pub disputes : Table DeliveryDispute
  pub accounts : Accounts
  -- `completedOrdersCount`, by courier id.
  pub completed_orders_count : Table ℕ
  pub zone_memberships : List CourierZoneMembership
  pub merchant_memberships : List MerchantMembership
  pub operational_settings : List (Setting OperationalSetting)
  pub financial_settings : List (Setting FinancialSetting)
  pub quotes : Table PriceQuote
  pub service_zones : Table ServiceZone
  pub payment_proofs : Table PaymentProof
  pub proof_reviews : List PaymentProofReview
  -- By user id, which is unique.
  pub couriers : Table CourierProfile
