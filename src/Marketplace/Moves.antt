-- ===== src/Marketplace/Moves.antt =====
-- A step that changes one order and logs it.
use wassal.Prelude.{
  ℕ, ◌≡◌, sym, ◌∙◌, ◌≢◌, ◌⊎◌, inl, inr, true, false, some, List, [], ◌∷◌, arith, ◌==◌, Bool-cases,
  ==_iff,
}
use mathlib.Core.Path.{subst}
use wassal.Store.{DeliveryOrder, DeliveryDispute, OrderEvent, Database}
use wassal.Store.Table.{
  Table, get, update, Rows, Rows-get, Rows-update, get-update_self, get-update_ne,
}
use wassal.Marketplace.Invariant.{
  IsConsistent, WellFormed, AgreesWith, IsGrounded, last_status, is_completed, is_disputed, is_open,
}

-- What a step has done to the database.
pub record Moves (id : ℕ) (order : DeliveryOrder) (change : DeliveryOrder → DeliveryOrder)
    (event : OrderEvent) (db db' : Database) : Type 0 where
  pub at : get id db.orders ≡ some order
  pub orders : db'.orders ≡ update id change db.orders
  pub events : db'.events ≡ event ∷ db.events
  pub disputes : db'.disputes ≡ db.disputes
  pub accounts : db'.accounts ≡ db.accounts

-- A row after the update of one order is the changed one, or another one as it was.
pub row_after :
    (id : ℕ) {order : DeliveryOrder} (change : DeliveryOrder → DeliveryOrder)
    (t : Table DeliveryOrder) (k : ℕ) (o : DeliveryOrder)
    → get id t ≡ some order
    → get k (update id change t) ≡ some o
    → ((k ≡ id) × (o ≡ change order)) ⊎ ((k ≢ id) × (get k t ≡ some o))
row_after id {order} change t k o at h = elim (Bool-cases (k == id)) [
  | inl same ↦
      let e : k ≡ id = (==_iff k id).0 same in
      let now : get id (update id change t) ≡ some o =
        subst (λ j. get j (update id change t) ≡ some o) e h in
      let changed : get id (update id change t) ≡ some (change order) =
        get-update_self id change t at in
      inl (e, cc)
  | inr other ↦
      let ne : k ≢ id = ground arith in
      let kept : get k (update id change t) ≡ get k t = get-update_ne id k change t ne in
      inr (ne, cc)
]

-- No dispute of the order is open.
abbrev pub IsQuiet : ℕ → Table DeliveryDispute → Type 0
IsQuiet id ds = Rows (λ d. is_open d.status ≡ true → d.order_id ≢ id) ds

-- An order that is not disputed has no open dispute.
pub IsQuiet-of_calm :
    (id : ℕ) {order : DeliveryOrder} (t : Table DeliveryOrder) (ds : Table DeliveryDispute)
    → get id t ≡ some order
    → is_disputed order.status ≡ false
    → Rows (IsGrounded t) ds
    → IsQuiet id ds
IsQuiet-of_calm id t [] at calm g = tt
IsQuiet-of_calm id {order} t ((j, d) ∷ ds) at calm g = (
  λ opened e.
      let (o, here, disputed) = g.0 opened in
      let there : get id t ≡ some o = subst (λ k. get k t ≡ some o) e here in
      let same : o ≡ order = cc in
      let clash : is_disputed order.status ≡ true =
        subst (λ (x : DeliveryOrder). is_disputed x.status ≡ true) same disputed in
      cc,
  IsQuiet-of_calm id t ds at calm g.1,
)

-- An open dispute stays grounded when another order changes.
pub IsGrounded-update :
    (id : ℕ) (change : DeliveryOrder → DeliveryOrder) (t : Table DeliveryOrder)
    (ds : Table DeliveryDispute)
    → IsQuiet id ds
    → Rows (IsGrounded t) ds
    → Rows (IsGrounded (update id change t)) ds
IsGrounded-update id change t [] quiet g = tt
IsGrounded-update id change t ((j, d) ∷ ds) quiet g = (
  λ opened.
      let (o, here, disputed) = g.0 opened in
      let kept : get d.order_id (update id change t) ≡ get d.order_id t =
        get-update_ne id d.order_id change t (quiet.0 opened) in
      (o, cc, disputed),
  IsGrounded-update id change t ds quiet.1 g.1,
)

-- The step is one that the order may take, its event says so, and it is not a completion, which
-- writes to the ledger.
pub record IsFair (id : ℕ) (order : DeliveryOrder) (change : DeliveryOrder → DeliveryOrder)
    (event : OrderEvent) : Type 0 where
  pub keeps : IsConsistent order → IsConsistent (change order)
  pub names : event.order_id ≡ id
  pub records : event.to_status ≡ (change order).status
  pub unfinished : is_completed order.status ≡ false
  pub still_unfinished : is_completed (change order).status ≡ false

-- A fair step of an order that is not disputed.
abbrev pub IsCalmStep : ℕ → DeliveryOrder → (DeliveryOrder → DeliveryOrder) → OrderEvent → Type 0
IsCalmStep id order change event = IsFair id order change event × (is_disputed order.status ≡ false)

-- The log after one more event.
pub logged_after :
    (id : ℕ) {order : DeliveryOrder} (change : DeliveryOrder → DeliveryOrder) (event : OrderEvent)
    (t : Table DeliveryOrder) (es : List OrderEvent)
    → get id t ≡ some order
    → event.order_id ≡ id
    → event.to_status ≡ (change order).status
    → ((k : ℕ) (o : DeliveryOrder) → get k t ≡ some o → AgreesWith (last_status k es) o.status)
    → (k : ℕ) (o : DeliveryOrder) → get k (update id change t) ≡ some o
    → AgreesWith (last_status k (event ∷ es)) o.status
unfolding last_status
logged_after id change event t es at named says before k o h =
    elim (row_after id change t k o at h) [
      | inl changed ↦ ground (arith, changed, named, says)
      | inr (other, kept) ↦ ground (arith, before k o kept, named)
    ]

module _ {id : ℕ} {order : DeliveryOrder} {change : DeliveryOrder → DeliveryOrder}
    {event : OrderEvent} {db db' : Database} where
  pub quiet-WellFormed :
      Moves id order change event db db'
      → IsFair id order change event
      → IsQuiet id db.disputes
      → WellFormed db
      → WellFormed db'
  quiet-WellFormed m f q w = record {
    consistent = rw m.orders (
        Rows-update IsConsistent id change db.orders
          (λ v e.
            let at : get id db.orders ≡ some order = m.at in
            let same : order ≡ v = cc in
            subst (λ x. IsConsistent (change x)) same
              (f.keeps (Rows-get IsConsistent id db.orders w.consistent m.at)))
          w.consistent);
    logged = λ k o h. rw m.events (
        logged_after id change event db.orders db.events m.at f.names f.records w.logged k o
          (rw m.orders at h));
    charged = λ k o h. elim (row_after id change db.orders k o m.at (rw m.orders at h)) [
      | inl (same, changed) ↦
          rw (m.accounts, same, changed)
            (w.charged id order m.at ∙ f.unfinished ∙ sym f.still_unfinished)
      | inr (other, kept) ↦ rw m.accounts (w.charged k o kept)
    ];
    grounded =
        rw (m.disputes, m.orders) (IsGrounded-update id change db.orders db.disputes q w.grounded);
    indexed = rw m.disputes w.indexed;
  }

  pub Moves-WellFormed :
      Moves id order change event db db'
      → IsCalmStep id order change event
      → WellFormed db
      → WellFormed db'
  Moves-WellFormed m f w =
      quiet-WellFormed m f.0 (IsQuiet-of_calm id db.orders db.disputes m.at f.1 w.grounded) w

-- The other tables do not matter.
pub WellFormed-same :
    (db db' : Database)
    → db'.orders ≡ db.orders
    → db'.events ≡ db.events
    → db'.disputes ≡ db.disputes
    → db'.accounts ≡ db.accounts
    → WellFormed db
    → WellFormed db'
WellFormed-same db db' o e d a w = record {
  consistent = rw o w.consistent;
  logged = λ k row h. rw e (w.logged k row (rw o at h));
  charged = λ k row h. rw a (w.charged k row (rw o at h));
  grounded = rw (d, o) w.grounded;
  indexed = rw d w.indexed;
}
