-- ===== src/Marketplace/DisputeSide.antt =====
-- The handlers of disputes and the invariant of the marketplace.
use mathlib.Core.Path.{subst}
use Prim.Native.String.{String}
use wassal.Prelude.{ℕ, ◌≡◌, refl, true, Bool, none, some, List, inl, inr, arith, Option-cases, ◌∷◌}
use wassal.Contracts.Rbac.{UserRole, courier_user}
use wassal.Orders.Status.{OrderStatus, order_status_enum, delivered, delivery_disputed}
use wassal.Store.{
  DeliveryOrder, DeliveryDispute, Database, OrderEvent, OrderEventType, courier_mobile,
  merchant_web,
}
use wassal.Store.Table.{get, update, matches, Rows-get, Rows-update, get-update_self}
use wassal.Service.Transaction.{ok}
use wassal.Service.Queries.{courier_user as user_of_courier}
use wassal.Operations.Domain.{dispute_window_is_active}
use wassal.Operations.Disputes.{
  disputed, dispute_event, new_dispute, merchant_dispute, awaits_response, responded, find_dispute,
  courier_respond,
}
use wassal.Marketplace.Invariant.{WellFormed, IsGrounded, is_open, is_disputed}
use wassal.Marketplace.Moves.{IsCalmStep, Moves-WellFormed, WellFormed-same}
use wassal.Marketplace.DisputeRows.{IsIndexed-update, find_dispute-get, logged_same}

-- The order of a dispute that may be resolved, or answered, is disputed.
pub grounded_order :
    (id : ℕ) {d : DeliveryDispute} {o : DeliveryOrder} (db : Database)
    → WellFormed db
    → get id db.disputes ≡ some d
    → is_open d.status ≡ true
    → get d.order_id db.orders ≡ some o
    → is_disputed o.status ≡ true
grounded_order id {d} {o} db w at opened here =
    let (o', there, disputed) =
      Rows-get (IsGrounded db.orders) id db.disputes w.grounded at opened in
    let same : o' ≡ o = cc in
    subst (λ (x : DeliveryOrder). is_disputed x.status ≡ true) same disputed

-- A database whose dispute `id` has been changed, and stays about the same order.
module _ (id : ℕ) (f : DeliveryDispute → DeliveryDispute) (db : Database) where
  abbrev pub with_dispute : Database
  with_dispute = record db { disputes = update id f db.disputes }

  pub with_dispute-WellFormed :
      ((d : DeliveryDispute) → (f d).order_id ≡ d.order_id)
      → ((d : DeliveryDispute)
          → get id db.disputes ≡ some d
          → is_open (f d).status ≡ true
          → is_open d.status ≡ true)
      → WellFormed db
      → WellFormed with_dispute
  with_dispute-WellFormed same opens w = record {
    consistent = w.consistent;
    logged = w.logged;
    charged = w.charged;
    grounded =
        Rows-update (IsGrounded db.orders) id f db.disputes
          (λ d at opened.
            let (o, here, held) =
              Rows-get (IsGrounded db.orders) id db.disputes w.grounded at (opens d at opened) in
            (o, rw (same d) here, held))
          w.grounded;
    indexed = IsIndexed-update id f db.disputes same w.indexed;
  }

-- A database with one more event, which repeats the status of its order.
pub with_event-WellFormed :
    (id : ℕ) {o : DeliveryOrder} (event : OrderEvent) (db : Database)
    → get id db.orders ≡ some o
    → event.order_id ≡ id
    → event.to_status ≡ o.status
    → WellFormed db
    → WellFormed (record db { events = event ∷ db.events })
with_event-WellFormed id event db here named says w = record {
  consistent = w.consistent;
  logged = logged_same id event db.orders db.events here named says w.logged;
  charged = w.charged;
  grounded = w.grounded;
  indexed = w.indexed;
}

pub disputed_status : (s : OrderStatus) → is_disputed s ≡ true → delivery_disputed ≡ s
disputed_status s h = ground arith

module _ (user_id courier_id order_id version : ℕ) (response : String) (paper_proof : Bool)
    (now : ℕ) (db : Database) {r : ℕ} {db' : Database} where
  -- An answer leaves the orders alone; the log still ends in the disputed status.
  pub courier_respond-WellFormed :
      courier_respond user_id courier_id order_id version response paper_proof now db ≡ ok (r, db')
      → WellFormed db
      → WellFormed db'
  unfolding courier_respond matches
  courier_respond-WellFormed h w =
      elim (Option-cases (find_dispute order_id courier_id db.disputes)) [
        | inl missing ↦ absurd (ground arith)
        | inr (id, found) ↦
            let (d, at, owned) =
              find_dispute-get order_id courier_id {id = id} db.disputes w.indexed found in
            let awaits : awaits_response courier_id version d ≡ true = ground arith in
            let opened : is_open d.status ≡ true = ground arith in
            let (o, here, held) =
              Rows-get (IsGrounded db.orders) id db.disputes w.grounded at opened in
            let there : get order_id db.orders ≡ some o =
              subst (λ k. get k db.orders ≡ some o) owned here in
            let event =
              dispute_event order_id OrderEventType.delivery_dispute_courier_responded
                delivery_disputed delivery_disputed user_id courier_user courier_mobile in
            let v =
              with_dispute-WellFormed id (responded response paper_proof now) db (λ e. refl)
                (λ e at' still. ground arith) w in
            let answered = with_dispute id (responded response paper_proof now) db in
            WellFormed-same (record answered { events = event ∷ answered.events }) db'
              (ground arith) (ground arith) (ground arith) (ground arith)
              (with_event-WellFormed order_id {o = o} event answered there refl
                (disputed_status o.status held) v)
      ]

disputed-IsCalmStep :
    (order_id : ℕ) (order : DeliveryOrder) (event : OrderEvent)
    → event.order_id ≡ order_id
    → event.to_status ≡ delivery_disputed
    → order.status ≡ delivered
    → IsCalmStep order_id order disputed event
disputed-IsCalmStep order_id order event named says status = (
  record {
    keeps = λ c. ground arith;
    names = named;
    records = says;
    unfinished = ground arith;
    still_unfinished = ground arith;
  },
  ground arith,
)

module _ (user_id : ℕ) (role : UserRole) (merchant_id : ℕ) (membership_role : UserRole)
    (order_id version : ℕ) (admins : List ℕ) (dispute_id now : ℕ) (db : Database) {r : ℕ}
    {db' : Database} where
  -- `dispute_id` is a fresh uuid.
  pub merchant_dispute-WellFormed :
      merchant_dispute user_id role merchant_id membership_role order_id version admins dispute_id
          now db
        ≡ ok (r, db')
      → get dispute_id db.disputes ≡ none
      → WellFormed db
      → WellFormed db'
  unfolding merchant_dispute dispute_window_is_active
  merchant_dispute-WellFormed h fresh w = elim (Option-cases (get order_id db.orders)) [
    | inl missing ↦ absurd (ground arith)
    | inr (order, at) ↦ elim (Option-cases order.courier_id) [
      | inl unassigned ↦ absurd (ground arith)
      | inr (courier_id, held) ↦ elim (Option-cases (user_of_courier courier_id db.couriers)) [
        | inl unknown ↦ absurd (ground arith)
        | inr (courier, u) ↦
            let status : order.status ≡ delivered = ground arith in
            let event =
              dispute_event order_id OrderEventType.delivery_dispute_created delivered
                delivery_disputed user_id role merchant_web in
            let moved = record db {
              orders = update order_id disputed db.orders;
              events = event ∷ db.events;
            } in
            let before : WellFormed moved =
              Moves-WellFormed {event = event}
                (record { at = at; orders = refl; events = refl; disputes = refl; accounts = refl })
                (disputed-IsCalmStep order_id order event refl refl status) w in
            let d = new_dispute order_id order.merchant_id courier_id user_id in
            let after = record moved { disputes = (dispute_id, d) ∷ moved.disputes } in
            WellFormed-same after db' (ground arith) (ground arith) (ground arith) (ground arith)
              (record {
                consistent = before.consistent;
                logged = before.logged;
                charged = before.charged;
                grounded = (
                  λ opened. (disputed order, get-update_self order_id disputed db.orders at, refl),
                  before.grounded,
                );
                indexed = (fresh, ground arith, w.indexed);
              })
      ]
    ]
  ]
