-- ===== src/Marketplace/WorkerSide.antt =====
-- The sweep over the searches and the invariant of the marketplace.
use wassal.Prelude.{ℕ, suc, ◌≡◌, true, some, List, [], ◌∷◌, inl, inr, arith, Option-cases}
use wassal.Store.{DeliveryOrder, Database}
use wassal.Store.Table.{get}
use wassal.Marketplace.Invariant.{WellFormed}
use wassal.Marketplace.Moves.{Moves, IsCalmStep, Moves-WellFormed}
use wassal.Worker.Expire.{
  is_overdue, attempt_of, timeout_status, expired_order, expired_event, expire_one, expire_all,
}

module _ (now order_id : ℕ) (db : Database) {db' : Database} where
  pub expire_one-Moves :
      expire_one now order_id db ≡ some db'
      → (order : DeliveryOrder) × (is_overdue now order ≡ true)
        × Moves order_id order
            (expired_order (timeout_status (attempt_of order)))
            (expired_event order_id (timeout_status (attempt_of order)))
            db
            db'
  unfolding expire_one
  expire_one-Moves h = elim (Option-cases (get order_id db.orders)) [
    | inl missing ↦ ground arith
    | inr (order, e) ↦ (order, ground arith, ground arith)
  ]

overdue-IsCalmStep :
    (now order_id : ℕ) (order : DeliveryOrder)
    → is_overdue now order ≡ true
    → IsCalmStep order_id order
        (expired_order (timeout_status (attempt_of order)))
        (expired_event order_id (timeout_status (attempt_of order)))
unfolding timeout_status
overdue-IsCalmStep now order_id order h = (
  record {
    keeps = λ c. ground arith;
    names = ground arith;
    records = ground arith;
    unfinished = ground arith;
    still_unfinished = ground arith;
  },
  ground arith,
)

expire_one-WellFormed :
    (now order_id : ℕ) (db : Database) {db' : Database}
    → expire_one now order_id db ≡ some db'
    → WellFormed db
    → WellFormed db'
expire_one-WellFormed now order_id db h w =
    let (order, found, moved) = expire_one-Moves now order_id db h in
    Moves-WellFormed moved (overdue-IsCalmStep now order_id order found) w

pub expire_all-WellFormed :
    (now : ℕ) (candidates : List ℕ) (count : ℕ) (db : Database)
    → WellFormed db
    → WellFormed (expire_all now candidates count db).1
unfolding expire_all
expire_all-WellFormed now [] count db w = w
expire_all-WellFormed now (candidate ∷ candidates) count db w =
    elim (Option-cases (expire_one now candidate db)) [
      | inl kept ↦ rw (kept, expire_all) (expire_all-WellFormed now candidates count db w)
      | inr (db', e) ↦
          rw (e, expire_all)
            (expire_all-WellFormed now candidates (suc count) db'
              (expire_one-WellFormed now candidate db e w))
    ]
