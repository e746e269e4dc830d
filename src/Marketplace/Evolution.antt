-- ===== src/Marketplace/Evolution.antt =====
-- How the row of an order may change: along which statuses, and with which columns kept.
use native.Mathlib.Decide.{ℕ_discrete}
use mathlib.Core.Path.{subst}
use wassal.Prelude.{ℕ, ◌+◌, ◌≡◌, Bool, true, ◌||◌, ◌&&◌, some, includes, ◌is◌}
use wassal.Orders.Status.{
  OrderStatus, order_status_enum, searching_courier, can_transition_in_phase_three,
}
use wassal.Store.{DeliveryOrder}
use wassal.Store.Table.{Table, get, update, get-update_self, get-update_ne}
use wassal.CourierOrders.Cancel.{cancellable}

-- The moves of an order's status: those of `allOrderTransitions`, and the one of a courier who gives
-- the order back before pickup.
unfoldable pub may_move : OrderStatus → OrderStatus → Bool
unfolding can_transition_in_phase_three
may_move from to =
    can_transition_in_phase_three from to || (includes cancellable from && to is searching_courier)

-- One change of a row: the status moves, the version grows by one, and the owner, the place and the
-- amounts stay.
pub record Turn (order order' : DeliveryOrder) : Type 0 where
  pub moves : may_move order.status order'.status ≡ true
  pub versions : order'.version ≡ order.version + 1
  pub merchant : order'.merchant_id ≡ order.merchant_id
  pub zone : order'.service_zone_id ≡ order.service_zone_id
  pub total : order'.merchant_total_minor ≡ order.merchant_total_minor
  pub commission : order'.platform_commission_minor ≡ order.platform_commission_minor

-- A row after any number of changes.
pub data Evolves : DeliveryOrder → DeliveryOrder → Type 0 where
  stay : {order : DeliveryOrder} → Evolves order order
  turn : {a b c : DeliveryOrder} → Turn a b → Evolves b c → Evolves a c

pub Evolves-trans : {a b c : DeliveryOrder} → Evolves a b → Evolves b c → Evolves a c
Evolves-trans stay q = q
Evolves-trans (turn t p) q = turn t (Evolves-trans p q)

-- Every row is still there, and has evolved.
abbrev pub TableEvolves : Table DeliveryOrder → Table DeliveryOrder → Type 0
TableEvolves t t' =
    (id : ℕ) (order : DeliveryOrder)
    → get id t ≡ some order
    → (order' : DeliveryOrder) × (get id t' ≡ some order') × Evolves order order'

pub TableEvolves-refl : (t : Table DeliveryOrder) → TableEvolves t t
TableEvolves-refl t id order at = (order, at, stay)

pub TableEvolves-trans :
    (t u v : Table DeliveryOrder) → TableEvolves t u → TableEvolves u v → TableEvolves t v
TableEvolves-trans t u v f g id order at =
    let (order', at', p) = f id order at in
    let (order'', at'', q) = g id order' at' in (order'', at'', Evolves-trans p q)

pub evolve_update :
    (id : ℕ) {order : DeliveryOrder} (change : DeliveryOrder → DeliveryOrder)
    (t t' : Table DeliveryOrder)
    → get id t ≡ some order
    → t' ≡ update id change t
    → Turn order (change order)
    → TableEvolves t t'
evolve_update id {order} change t t' at e moved k o here = elim (ℕ_discrete k id) [
  | yes same ↦
      let there : get id t ≡ some o = subst (λ j. get j t ≡ some o) same here in
      let row : order ≡ o = cc in
      let now : get id (update id change t) ≡ some (change order) =
        get-update_self id change t at in
      (change order, rw (e, same) now, subst (λ x. Evolves x (change order)) row (turn moved stay))
  | no other ↦ (o, rw (e, get-update_ne id k change t other) here, stay)
]
