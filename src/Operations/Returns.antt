-- ===== src/Operations/Returns.antt =====
-- The end of a return: `confirmReturn` of apps/api/src/operations/delivery-operations.service.ts,
-- with that service's own `claimIdempotency`.
use Prim.Native.String.{String}
use text.Mathlib.Text.{◌==◌ as str_eq}
use wassal.Prelude.{
  ℕ, ◌+◌, ◌*◌, Bool, true, false, ◌&&◌, Option, none, some, List, [], ◌∷◌, not, leb, ◌==◌, ◌is◌,
  includes, get_or, if◌then◌else◌,
}
use wassal.Contracts.Rbac.{UserRole, owner, manager, user_role_enum}
use wassal.Orders.Status.{order_status_enum, return_awaiting_merchant_confirmation, returned}
use wassal.Operations.Domain.{hour_ms}
use wassal.Store.{
  DeliveryOrder, Database, OrderEvent, return_confirmed, OrderEventType, merchant_web, admin_web,
  ReturnCondition, admin_return_override, merchant_confirmed_return, AuditAction, Scope,
  admin_return_confirm, merchant_return_confirm, IdempotencyRecord, processing,
}
use wassal.Store.Table.{get, update}
use wassal.Orders.Finalization.{FinalizeInput, finalize_in_transaction}
use wassal.Service.Transaction.{
  Result, ok, err, ◌>>=◌, ◌>>◌, require, found, staff_forbidden, order_not_found, key_reused,
  already_processing, return_not_awaiting, override_not_allowed, setting_missing,
}
use wassal.Service.Idempotency.{find_record, complete_idempotency}
use wassal.Service.Writes.{audit}
use wassal.Service.Queries.{current_setting}

-- A key that has been claimed is refused, also when its request has completed.
unfoldable pub claim_once :
    Scope → ℕ → ℕ → ℕ → List IdempotencyRecord → Result (List IdempotencyRecord)
unfolding find_record
claim_once scope key request_hash now rs = elim (find_record scope key rs) [
  | some existing ↦
      if existing.request_hash == request_hash then err already_processing else err key_reused
  | none ↦ ok (
      record {
        scope = scope;
        key = key;
        request_hash = request_hash;
        status = processing;
        response_code = none;
        entity_id = none;
        expires_at = now + 24 * 60 * 60 * 1000;
      }
      ∷ rs)
]

-- Who confirms: a member of the merchant, or an administrator with a reason.
pub data Confirmer : Type 0 where
  member : ℕ → UserRole → Confirmer
  admin : Option String → Confirmer

abbrev pub is_admin : Confirmer → Bool
is_admin (admin reason) = true
is_admin (member merchant_id role) = false

abbrev pub may_confirm : Confirmer → Bool
may_confirm (member merchant_id role) = includes (owner ∷ manager ∷ []) role
may_confirm (admin reason) = true

abbrev pub sees : Confirmer → DeliveryOrder → Bool
sees (member merchant_id role) order = order.merchant_id == merchant_id
sees (admin reason) order = true

abbrev pub return_scope : Confirmer → ℕ → Scope
return_scope (member merchant_id role) order_id = merchant_return_confirm order_id
return_scope (admin reason) order_id = admin_return_confirm order_id

-- `!adminReason` is false: there is a text, and it is not empty.
abbrev pub has_text : Option String → Bool
has_text none = false
has_text (some reason) = not (str_eq reason "")

-- The administrator's extra check: the return is stale, and there is a reason.
unfoldable pub check_override : Confirmer → DeliveryOrder → ℕ → Database → Result (Unit {0})
check_override (member merchant_id role) order now db = ok tt
check_override (admin reason) order now db = do
  setting ← found (current_setting now none db.operational_settings) setting_missing
  require
      (leb
          (get_or order.return_reported_at now
            + setting.value.return_confirmation_timeout_hours * hour_ms)
          now
        && has_text reason)
      override_not_allowed

-- The `data` of the update.
abbrev pub confirmed : ℕ → ReturnCondition → Option String → ℕ → DeliveryOrder → DeliveryOrder
confirmed user_id condition note now order = record order {
  status = returned;
  return_confirmed_at = some now;
  return_confirmed_by_id = some user_id;
  return_condition = some condition;
  return_confirmation_note = note;
  version = order.version + 1;
}

abbrev pub confirmed_event : ℕ → Confirmer → ℕ → UserRole → OrderEvent
confirmed_event order_id confirmer user_id role = record {
  order_id = order_id;
  event_type =
      if is_admin confirmer then OrderEventType.return_admin_override else return_confirmed;
  from_status = some return_awaiting_merchant_confirmation;
  to_status = returned;
  actor_id = some user_id;
  actor_role = some role;
  source = if is_admin confirmer then admin_web else merchant_web;
}

-- The completion that the confirmation asks for.
abbrev pub return_completion : Confirmer → ℕ → UserRole → FinalizeInput
return_completion confirmer user_id role = record {
  expected_statuses = returned ∷ [];
  completion_source =
      if is_admin confirmer then admin_return_override else merchant_confirmed_return;
  actor_id = some user_id;
  actor_role = some role;
  event_source = if is_admin confirmer then admin_web else merchant_web;
}

module _ (shown : ℕ → ℕ) where
  -- The transaction of `confirmReturn`, for a user whose role in the database is `role`.
  unfoldable pub confirm_return :
      ℕ
      → UserRole
      → Confirmer
      → ℕ
      → ℕ
      → ReturnCondition
      → Option String
      → ℕ
      → ℕ
      → ℕ
      → ℕ
      → ℕ
      → Database
      → Result (ℕ × Database)
  confirm_return user_id role confirmer order_id version condition note key hash entry_id
        settlement_id now db =
      do
        require (may_confirm confirmer) staff_forbidden
        let scope = return_scope confirmer order_id
        claimed ← claim_once scope key hash now db.idempotency
        order ← found (get order_id db.orders) order_not_found
        require (sees confirmer order) order_not_found
        require (order.status is return_awaiting_merchant_confirmation && order.version == version)
            return_not_awaiting
        check_override confirmer order now db
        db' ←
            finalize_in_transaction shown order_id (return_completion confirmer user_id role)
              entry_id settlement_id now
              (record db {
                orders = update order_id (confirmed user_id condition note now) db.orders;
                events = confirmed_event order_id confirmer user_id role ∷ db.events;
                idempotency = claimed;
              })
        ok (
          order_id,
          record db' {
            audits =
                audit (some user_id)
                  (if is_admin confirmer
                    then AuditAction.return_admin_override
                    else AuditAction.return_merchant_confirmed)
                  order_id
                ∷ db'.audits;
            idempotency = complete_idempotency scope key order_id 200 db'.idempotency;
          },
        )
