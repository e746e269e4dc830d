-- ===== src/CourierOrders/Accept.antt =====
-- A courier accepts an order: `accept` of
-- apps/api/src/courier-orders/courier-orders.service.ts, and what it calls.
use wassal.Prelude.{
  ℕ, ◌+◌, Bool, ◌&&◌, ◌||◌, Option, none, some, not, ◌∷◌, ◌==◌, ◌is◌, is_some, if◌then◌else◌,
}
use wassal.Contracts.Rbac.{UserRole}
use wassal.Orders.Status.{
  searching_courier, courier_assigned, no_courier_available, no_courier_available_final,
  order_status_enum, acceptance_is_expired,
}
use wassal.Courier.Policy.{courier_operational_eligibility}
use wassal.Store.{
  DeliveryOrder, Database, OrderEvent, courier_accepted, courier_mobile, courier_order_accepted,
  courier_accept,
}
use wassal.Store.Table.{get, update, matches}
use wassal.Service.Transaction.{
  Result, ok, err, Fault, ◌>>=◌, ◌>>◌, require, found, order_not_found, courier_not_found,
  courier_not_eligible, already_accepted, acceptance_expired, order_changed, zone_not_eligible,
}
use wassal.Service.Idempotency.{claim_idempotency, complete_idempotency, idempotency_replay}
use wassal.Service.Writes.{audit}
use wassal.Service.Queries.{operates_in_zone}

-- `eligibleCourier`: the id of the user's courier profile.
unfoldable pub eligible_courier : ℕ → ℕ → Database → Result ℕ
eligible_courier user_id now db = elim (get user_id db.couriers) [
  | none ↦ err courier_not_found
  | some courier ↦
      if (courier_operational_eligibility courier.eligibility now).eligible
      then ok courier.id
      else err courier_not_eligible
]

-- The `data` of the update.
abbrev pub assigned : ℕ → DeliveryOrder → DeliveryOrder
assigned courier_id order = record order {
  courier_id = some courier_id;
  status = courier_assigned;
  acceptance_expires_at = none;
  version = order.version + 1;
}

-- The `where` of the update.
abbrev pub awaits_acceptance : ℕ → ℕ → DeliveryOrder → Bool
awaits_acceptance version accepted_at order =
    order.status is searching_courier
    && not (is_some order.courier_id)
    && order.version == version
    && not (acceptance_is_expired order.acceptance_expires_at accepted_at)

abbrev pub accepted_event : ℕ → ℕ → UserRole → OrderEvent
accepted_event order_id user_id role = record {
  order_id = order_id;
  event_type = courier_accepted;
  from_status = some searching_courier;
  to_status = courier_assigned;
  actor_id = some user_id;
  actor_role = some role;
  source = courier_mobile;
}

-- The transaction of `accept`. `version`, `key` and `hash` are the request's.
unfoldable pub accept_transaction :
    ℕ → UserRole → ℕ → ℕ → ℕ → ℕ → ℕ → ℕ → Database → Result (ℕ × Database)
unfolding matches
accept_transaction user_id role courier_id order_id version key hash now db = do
  let scope = courier_accept courier_id order_id
  claimed ← claim_idempotency scope key hash now db.idempotency
  order ← found (get order_id db.orders) order_not_found
  require (order.status is searching_courier && not (is_some order.courier_id)) already_accepted
  require (not (acceptance_is_expired order.acceptance_expires_at now)) acceptance_expired
  require (order.version == version) order_changed
  require (operates_in_zone courier_id order.service_zone_id db) zone_not_eligible
  require (matches order_id (awaits_acceptance version now) db.orders) already_accepted
  ok (
    order_id,
    record db {
      orders = update order_id (assigned courier_id) db.orders;
      events = accepted_event order_id user_id role ∷ db.events;
      audits = audit (some user_id) courier_order_accepted order_id ∷ db.audits;
      idempotency = complete_idempotency scope key order_id 201 claimed;
    },
  )

-- The error that the `catch` of `accept` throws, by the order as it then is.
unfoldable pub accept_error : Option DeliveryOrder → ℕ → Fault → Fault
accept_error none now error = error
accept_error (some current) now error =
    if current.status is no_courier_available
      || current.status is no_courier_available_final
      || (current.status is searching_courier
          && acceptance_is_expired current.acceptance_expires_at now)
    then acceptance_expired
    else if is_some current.courier_id || not (current.status is searching_courier)
    then already_accepted
    else error

-- The `catch`: a replay that has completed in the meantime wins.
unfoldable pub accept_failed : Result (Option ℕ) → Option DeliveryOrder → ℕ → Fault → Result ℕ
unfolding accept_error
accept_failed (ok (some entity)) current now error = ok entity
accept_failed (ok none) current now error = err (accept_error current now error)
accept_failed (err e) current now error = err (accept_error current now error)

-- `accept`: the database after it, and the id of the order that it returns.
unfoldable pub accept : ℕ → UserRole → ℕ → ℕ → ℕ → ℕ → ℕ → Database → Database × Result ℕ
unfolding eligible_courier accept_transaction accept_failed
accept user_id role order_id version key hash now db = elim (eligible_courier user_id now db) [
  | err e ↦ (db, err e)
  | ok courier_id ↦
      elim (idempotency_replay (courier_accept courier_id order_id) key hash db.idempotency) [
        | err e ↦ (db, err e)
        | ok (some entity) ↦ (db, ok entity)
        | ok none ↦
            elim (accept_transaction user_id role courier_id order_id version key hash now db) [
              | ok (id, db') ↦ (db', ok id)
              | err e ↦ (
                db,
                accept_failed
                    (idempotency_replay (courier_accept courier_id order_id) key hash
                      db.idempotency)
                    (get order_id db.orders) now e,
              )
            ]
      ]
]
