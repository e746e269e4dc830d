-- ===== src/Marketplace/Completion.antt =====
-- The financial completion of an order and the invariant: it is where an order gets its commission.
use native.Mathlib.Decide.{ℕ_discrete}
use mathlib.Core.Path.{subst}
use wassal.Prelude.{ℕ, ◌≡◌, ◌≢◌, ◌⊎◌, true, false, some, ◌∷◌, inl, inr, arith, is_some}
use wassal.Orders.Status.{order_status_enum, completed}
use wassal.Store.{DeliveryOrder, Database, OrderEvent, OrderCompletionSource}
use wassal.Store.Table.{Table, get, update, Rows-get, Rows-update}
use wassal.Finance.Calendar.{Bounds}
use wassal.Finance.Accounts.{Accounts, LedgerEntry, order_commission}
use wassal.Finance.Settlement.{has_source_key}
use wassal.Orders.Finalization.{finalized, post_commission}
use wassal.Marketplace.Invariant.{IsConsistent, WellFormed}
use wassal.Marketplace.Moves.{IsQuiet, row_after, logged_after, IsGrounded-update}

-- What a completion has done to the database.
pub record Completes (id : ℕ) (order : DeliveryOrder) (source : OrderCompletionSource) (now : ℕ)
    (event : OrderEvent) (entry_id : ℕ) (entry : LedgerEntry) (db db' : Database) : Type 0 where
  pub at : get id db.orders ≡ some order
  pub unfinished : is_some order.financial_finalized_at ≡ false
  pub held : is_some order.courier_id ≡ true
  pub names : event.order_id ≡ id
  pub records : event.to_status ≡ completed
  pub keyed : entry.source_key ≡ order_commission id
  pub orders : db'.orders ≡ update id (finalized source now) db.orders
  pub events : db'.events ≡ event ∷ db.events
  pub disputes : db'.disputes ≡ db.disputes
  pub ledger : db'.accounts.ledger ≡ (entry_id, entry) ∷ db.accounts.ledger

finalized-IsConsistent :
    (source : OrderCompletionSource) (now : ℕ) (order : DeliveryOrder)
    → is_some order.courier_id ≡ true
    → IsConsistent order
    → IsConsistent (finalized source now order)
finalized-IsConsistent source now order held c = ground arith

-- The commissions after a completion: one more, of this order.
charged_after :
    (id k : ℕ) (entry_id : ℕ) (entry : LedgerEntry) (ledger : Table LedgerEntry)
    → entry.source_key ≡ order_commission id
    → ((k ≡ id) × (has_source_key (order_commission k) ((entry_id, entry) ∷ ledger) ≡ true))
      ⊎ ((k ≢ id)
          × (has_source_key (order_commission k) ((entry_id, entry) ∷ ledger)
              ≡ has_source_key (order_commission k) ledger))
unfolding has_source_key
charged_after id k entry_id entry ledger keyed = elim (ℕ_discrete k id) [
  | yes same ↦ inl (same, ground arith)
  | no other ↦ inr (other, ground arith)
]

module _ {id : ℕ} {order : DeliveryOrder} {source : OrderCompletionSource} {now : ℕ}
    {event : OrderEvent} {entry_id : ℕ} {entry : LedgerEntry} {db db' : Database} where
  pub Completes-WellFormed :
      Completes id order source now event entry_id entry db db'
      → IsQuiet id db.disputes
      → WellFormed db
      → WellFormed db'
  Completes-WellFormed m q w = record {
    consistent = rw m.orders (
        Rows-update IsConsistent id (finalized source now) db.orders
          (λ v e.
            let at : get id db.orders ≡ some order = m.at in
            let same : order ≡ v = cc in
            subst (λ x. IsConsistent (finalized source now x)) same
              (finalized-IsConsistent source now order m.held
                (Rows-get IsConsistent id db.orders w.consistent m.at)))
          w.consistent);
    logged = λ k o h. rw m.events (
        logged_after id (finalized source now) event db.orders db.events m.at m.names m.records
          w.logged k o (rw m.orders at h));
    charged = λ k o h.
        rw m.ledger
          (elim (row_after id (finalized source now) db.orders k o m.at (rw m.orders at h)) [
            | inl (same, changed) ↦
                ground (arith, charged_after id k entry_id entry db.accounts.ledger m.keyed)
            | inr (other, kept) ↦ ground (
              arith,
              charged_after id k entry_id entry db.accounts.ledger m.keyed,
              w.charged k o kept,
            )
          ]);
    grounded =
        rw (m.disputes, m.orders)
          (IsGrounded-update id (finalized source now) db.orders db.disputes q w.grounded);
    indexed = rw m.disputes w.indexed;
  }

-- The ledger after the posting of a commission.
pub post_commission-ledger :
    (shown : ℕ → ℕ) (entry : LedgerEntry) (bounds : Bounds) (entry_id new_id now : ℕ) (a : Accounts)
    {a' : Accounts}
    → post_commission shown entry bounds entry_id new_id now a ≡ some a'
    → a'.ledger ≡ (entry_id, entry) ∷ a.ledger
unfolding post_commission
post_commission-ledger shown entry bounds entry_id new_id now a h = ground arith
