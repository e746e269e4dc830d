-- ===== src/Marketplace/Guarantees.antt =====
-- What the users of the marketplace may rely on, after any requests in any order.
use mathlib.Core.Path.{subst, ap}
use wassal.Prelude.{◌↔◌, ℕ, ◌≤◌, ◌≡◌, ◌≢◌, refl, ◌∙◌, Bool, true, false, some, arith}
use wassal.Orders.Status.{
  OrderStatus, order_status_enum, can_transition_in_phase_three, completed, cancelled,
  searching_courier, no_courier_available, no_courier_available_final, draft, quoted,
  courier_assigned, courier_arriving_pickup, at_pickup,
}
use wassal.Store.{DeliveryOrder, Database}
use wassal.Store.Table.{get}
use wassal.Marketplace.Invariant.{WellFormed}
use wassal.Marketplace.Evolution.{may_move, Evolves, stay, turn}
use wassal.Marketplace.Reach.{Reaches}
use wassal.Marketplace.Runs.{Reaches-TableEvolves}

-- The statuses that nothing follows.
abbrev pub is_final : OrderStatus → Bool
is_final completed = true
is_final cancelled = true
is_final _ = false

-- Whether the parcel has left the store, or has been brought back to it.
abbrev pub has_left_store : OrderStatus → Bool
has_left_store draft = false
has_left_store quoted = false
has_left_store searching_courier = false
has_left_store no_courier_available = false
has_left_store no_courier_available_final = false
has_left_store courier_assigned = false
has_left_store courier_arriving_pickup = false
has_left_store at_pickup = false
has_left_store cancelled = false
has_left_store _ = true

final_stuck : (s t : OrderStatus) → is_final s ≡ true → may_move s t ≡ false
unfolding may_move can_transition_in_phase_three
final_stuck s t h = ground arith

left_stays :
    (s t : OrderStatus) → has_left_store s ≡ true → may_move s t ≡ true → has_left_store t ≡ true
unfolding may_move
left_stays s t h m = ground arith

Evolves-final : {a b : DeliveryOrder} → Evolves a b → is_final a.status ≡ true → b ≡ a
Evolves-final stay h = refl
Evolves-final (turn {a} {b} t p) h =
    absurd (ground (arith, final_stuck a.status b.status h, t.moves))

Evolves-left :
    {a b : DeliveryOrder}
    → Evolves a b
    → has_left_store a.status ≡ true
    → has_left_store b.status ≡ true
Evolves-left stay h = h
Evolves-left (turn {a} {b} t p) h = Evolves-left p (left_stays a.status b.status h t.moves)

Evolves-version : {a b : DeliveryOrder} → Evolves a b → a.version ≤ b.version
Evolves-version stay = ground arith
Evolves-version (turn {a} {b} t p) = ground (arith, t.versions, Evolves-version p)

Evolves-same : {a b : DeliveryOrder} → Evolves a b → b.version ≡ a.version → b ≡ a
Evolves-same stay h = refl
Evolves-same (turn {a} {b} t p) h = absurd (ground (arith, t.versions, Evolves-version p))

-- The columns that a request does not change.
pub record IsSameDeal (order order' : DeliveryOrder) : Type 0 where
  pub merchant : order'.merchant_id ≡ order.merchant_id
  pub zone : order'.service_zone_id ≡ order.service_zone_id
  pub total : order'.merchant_total_minor ≡ order.merchant_total_minor
  pub commission : order'.platform_commission_minor ≡ order.platform_commission_minor

Evolves-IsSameDeal : {a b : DeliveryOrder} → Evolves a b → IsSameDeal a b
Evolves-IsSameDeal stay = record { merchant = refl; zone = refl; total = refl; commission = refl }
Evolves-IsSameDeal (turn {a} {b} t p) =
    let rest = Evolves-IsSameDeal p in
    record {
      merchant = rest.merchant ∙ t.merchant;
      zone = rest.zone ∙ t.zone;
      total = rest.total ∙ t.total;
      commission = rest.commission ∙ t.commission;
    }

module _ (shown : ℕ → ℕ) {db db' : Database} (path : Reaches shown db db') (w : WellFormed db)
    (id : ℕ) {order : DeliveryOrder} (at : get id db.orders ≡ some order) where
  -- After any requests that commit, in any order, an order of a well-formed database is still there,
  -- and its row has changed step by step: each step moves the status along the table of transitions,
  -- or back to the search from a status before pickup, and increments the version by one.
  pub status_path :
      (order' : DeliveryOrder) × (get id db'.orders ≡ some order') × Evolves order order'
  status_path = Reaches-TableEvolves shown path w id order at

  -- After any requests that commit, in any order, an order of a well-formed database is still there,
  -- with its merchant, its zone, its total and its commission.
  pub deal_kept :
      (order' : DeliveryOrder) × (get id db'.orders ≡ some order') × IsSameDeal order order'
  deal_kept =
      let (order', at', p) = Reaches-TableEvolves shown path w id order at in
      (order', at', Evolves-IsSameDeal p)

  -- After any requests that commit, in any order, an order of a well-formed database that is completed
  -- or cancelled is as it was, in every column.
  pub final_unchanged : is_final order.status ≡ true → get id db'.orders ≡ some order
  final_unchanged h =
      let (order', at', p) = Reaches-TableEvolves shown path w id order at in
      let same : order' ≡ order = Evolves-final p h in cc

  -- Once the parcel of an order of a well-formed database has left the store, no requests in any
  -- order cancel the order or offer it to the couriers again.
  pub never_cancelled_after_pickup :
      (order' : DeliveryOrder)
      → has_left_store order.status ≡ true
      → get id db'.orders ≡ some order'
      → (order'.status ≢ cancelled) × (order'.status ≢ searching_courier)
  never_cancelled_after_pickup order' h at' =
      let (reached, there, p) = Reaches-TableEvolves shown path w id order at in
      let left : has_left_store reached.status ≡ true = Evolves-left p h in
      let same : reached ≡ order' = cc in (λ e. cc, λ e. cc)

  -- The version identifies the row: after any requests in any order, an order of a well-formed database
  -- never has a smaller version than before, and has the same version exactly when it is unchanged in
  -- every column.
  pub version_identifies :
      (order' : DeliveryOrder)
      → get id db'.orders ≡ some order'
      → (order.version ≤ order'.version) × ((order'.version ≡ order.version) ↔ (order' ≡ order))
  version_identifies order' at' =
      let (reached, there, p) = Reaches-TableEvolves shown path w id order at in
      let same : reached ≡ order' = cc in
      subst (λ x. (order.version ≤ x.version) × ((x.version ≡ order.version) ↔ (x ≡ order))) same
        (Evolves-version p, (Evolves-same p, λ e. ap (λ (x : DeliveryOrder). x.version) e))
