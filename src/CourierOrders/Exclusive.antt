-- ===== src/CourierOrders/Exclusive.antt =====
-- Who gets an order: the laws of `accept`.
use wassal.Prelude.{
  ℕ, ◌+◌, ◌<◌, ◌≡◌, ◌⊎◌, ◌==◌, ◌&&◌, find, is_some, refl, true, none, some, List, [], ◌∷◌, inl, inr,
  arith, Bool-cases, Option-cases,
}
use wassal.Contracts.Rbac.{UserRole}
use wassal.Orders.Status.{
  order_status_enum, searching_courier, courier_assigned, acceptance_is_expired,
}
use wassal.Courier.Policy.{CourierZoneMembership}
use wassal.Store.{DeliveryOrder, Database, IdempotencyRecord, courier_accept}
use wassal.Store.Table.{get, matches, get-update_self}
use wassal.Service.Transaction.{ok, err, already_accepted, Result-cases}
use wassal.Service.Idempotency.{claim_idempotency, complete_idempotency}
use wassal.Service.Replay.{replay-claimed}
use wassal.Service.Queries.{operates_in_zone}
use wassal.CourierOrders.Accept.{
  eligible_courier, assigned, awaits_acceptance, accept_transaction, accept,
}

-- One of the memberships is an active one of the courier in the zone, which is active.
abbrev pub IsMember : ℕ → ℕ → List CourierZoneMembership → Type 0
IsMember courier_id service_zone_id [] = ⊥
IsMember courier_id service_zone_id (m ∷ ms) =
    ((m.courier_id ≡ courier_id)
      × (m.service_zone_id ≡ service_zone_id)
      × (m.active ≡ true)
      × (m.zone_is_active ≡ true))
    ⊎ IsMember courier_id service_zone_id ms

find-IsMember :
    (courier_id service_zone_id : ℕ) (ms : List CourierZoneMembership)
    → is_some (
        find
          (λ m.
            m.courier_id == courier_id
            && m.service_zone_id == service_zone_id
            && m.active
            && m.zone_is_active)
          ms)
      ≡ true
    → IsMember courier_id service_zone_id ms
find-IsMember courier_id service_zone_id [] h = absurd (ground arith)
find-IsMember courier_id service_zone_id (m ∷ ms) h =
    elim (Bool-cases (
      m.courier_id == courier_id
      && m.service_zone_id == service_zone_id
      && m.active
      && m.zone_is_active)) [
        | inl this ↦ inl (ground arith, ground arith, ground arith, ground arith)
        | inr other ↦ inr (find-IsMember courier_id service_zone_id ms (rw other at h))
      ]

operates_in_zone-IsMember :
    (courier_id service_zone_id : ℕ) (db : Database)
    → operates_in_zone courier_id service_zone_id db ≡ true
    → IsMember courier_id service_zone_id db.zone_memberships
unfolding operates_in_zone
operates_in_zone-IsMember courier_id service_zone_id db h =
    find-IsMember courier_id service_zone_id db.zone_memberships h

module _ (user_id : ℕ) (role : UserRole) (courier_id order_id version key hash now : ℕ)
    (db : Database) {r : ℕ} {db' : Database} where
  -- An acceptance that commits passed the `where` of its update, and wrote the order.
  accept_transaction-row :
      accept_transaction user_id role courier_id order_id version key hash now db ≡ ok (r, db')
      → (order : DeliveryOrder) × (get order_id db.orders ≡ some order)
        × (awaits_acceptance version now order ≡ true)
        × (operates_in_zone courier_id order.service_zone_id db ≡ true)
        × (get order_id db'.orders ≡ some (assigned courier_id order))
  unfolding accept_transaction matches
  accept_transaction-row h = elim (Option-cases (get order_id db.orders)) [
    | inl missing ↦ ground arith
    | inr (order, e) ↦
        let now_assigned = get-update_self order_id (assigned courier_id) db.orders e in
        (order, ground arith, ground arith, ground arith, ground (arith, now_assigned))
  ]

  -- When an acceptance commits, the order was searching, without a courier, before the end of its
  -- acceptance window, at the requested version and in an active zone of which the courier is an active
  -- member. The order is now assigned to that courier, with no window to accept it, one version further, at
  -- the same price and commission and of the same merchant.
  pub accept_transaction-effect :
      accept_transaction user_id role courier_id order_id version key hash now db ≡ ok (r, db')
      → (order : DeliveryOrder) × (get order_id db.orders ≡ some order)
        × (order.status ≡ searching_courier)
        × (order.courier_id ≡ none)
        × (deadline : ℕ) × (order.acceptance_expires_at ≡ some deadline)
        × (now < deadline)
        × (order.version ≡ version)
        × IsMember courier_id order.service_zone_id db.zone_memberships
        × (order' : DeliveryOrder) × (get order_id db'.orders ≡ some order')
        × (order'.status ≡ courier_assigned)
        × (order'.courier_id ≡ some courier_id)
        × (order'.acceptance_expires_at ≡ none)
        × (order'.version ≡ order.version + 1)
        × (order'.merchant_total_minor ≡ order.merchant_total_minor)
        × (order'.platform_commission_minor ≡ order.platform_commission_minor)
        × (order'.merchant_id ≡ order.merchant_id)
  unfolding acceptance_is_expired
  accept_transaction-effect h =
      let (order, at, awaits, zone, here) = accept_transaction-row h in
      elim (Option-cases order.acceptance_expires_at) [
        | inl closed ↦ absurd (ground (arith, closed))
        | inr (deadline, open_until) ↦ (
          order,
          at,
          ground arith,
          ground arith,
          deadline,
          open_until,
          ground (arith, open_until),
          ground arith,
          operates_in_zone-IsMember courier_id order.service_zone_id db zone,
          assigned courier_id order,
          here,
          refl,
          refl,
          refl,
          refl,
          refl,
          refl,
          refl,
        )
      ]

  -- After an acceptance has committed, the transaction of every other acceptance of the order, by any
  -- courier, at any version and at any time, whose key can be claimed throws that the order has
  -- been accepted.
  pub accept_once :
      (user_id2 : ℕ) (role2 : UserRole) (courier_id2 version2 key2 hash2 now2 : ℕ)
      {claimed : List IdempotencyRecord}
      → accept_transaction user_id role courier_id order_id version key hash now db ≡ ok (r, db')
      → claim_idempotency (courier_accept courier_id2 order_id) key2 hash2 now2 db'.idempotency
        ≡ ok claimed
      → accept_transaction user_id2 role2 courier_id2 order_id version2 key2 hash2 now2 db'
        ≡ err already_accepted
  unfolding accept_transaction
  accept_once user_id2 role2 courier_id2 version2 key2 hash2 now2 h c =
      let (order, at, found, zone, here) = accept_transaction-row h in ground (arith, here, c)

  accept_transaction-idempotency :
      accept_transaction user_id role courier_id order_id version key hash now db ≡ ok (r, db')
      → (claimed : List IdempotencyRecord) × (claim_idempotency
            (courier_accept courier_id order_id)
            key
            hash
            now
            db.idempotency
          ≡ ok claimed)
        × (db'.idempotency
            ≡ complete_idempotency (courier_accept courier_id order_id) key order_id 201 claimed)
        × (r ≡ order_id)
        × (db'.couriers ≡ db.couriers)
  unfolding accept_transaction
  accept_transaction-idempotency h =
      elim (Result-cases
        (claim_idempotency (courier_accept courier_id order_id) key hash now db.idempotency)) [
          | inl (fault, refused) ↦ absurd (ground arith)
          | inr (claimed, e) ↦ (claimed, e, ground arith, ground arith, ground arith)
        ]

-- The same request of an eligible courier, sent again after its acceptance has committed, changes
-- nothing and returns the id of the order again.
pub accept_again :
    (user_id : ℕ) (role : UserRole) (courier_id order_id version key hash now later : ℕ)
    (db : Database) {r : ℕ} {db' : Database}
    → accept_transaction user_id role courier_id order_id version key hash now db ≡ ok (r, db')
    → eligible_courier user_id later db' ≡ ok courier_id
    → accept user_id role order_id version key hash later db' ≡ (db', ok order_id)
unfolding accept
accept_again user_id role courier_id order_id version key hash now later db {r} {db'} h eligible =
    let (claimed, c, e, same, kept) =
      accept_transaction-idempotency user_id role courier_id order_id version key hash now db
        {r = r} {db' = db'} h in
    let replayed =
      replay-claimed (courier_accept courier_id order_id) key hash now order_id 201 db.idempotency
        claimed c in
    ground (arith, replayed, e, eligible)
