-- ===== src/Marketplace/DisputeRows.antt =====
-- The table of disputes under the services' writes.
use mathlib.Core.Path.{subst}
use wassal.Prelude.{
  ℕ, ◌≡◌, ◌∙◌, refl, true, false, none, some, List, [], ◌∷◌, inl, inr, arith, ◌==◌, ◌&&◌,
  Bool-cases,
}
use wassal.Store.{DeliveryOrder, DeliveryDispute, OrderEvent}
use wassal.Store.Table.{Table, get, update}
use wassal.Operations.Disputes.{has_dispute, find_dispute}
use wassal.Marketplace.Invariant.{IsIndexed, AgreesWith, last_status, is_open}
use wassal.Marketplace.Moves.{IsQuiet}

get-update-none :
    (id k : ℕ) (f : DeliveryDispute → DeliveryDispute) (ds : Table DeliveryDispute)
    → get k ds ≡ none
    → get k (update id f ds) ≡ none
unfolding get update
get-update-none id k f [] h = refl
get-update-none id k f ((j, d) ∷ ds) h = ground (arith, get-update-none id k f ds)

-- A change of a dispute that keeps its order keeps who has a dispute.
has_dispute-update :
    (id k : ℕ) (f : DeliveryDispute → DeliveryDispute) (ds : Table DeliveryDispute)
    → ((d : DeliveryDispute) → (f d).order_id ≡ d.order_id)
    → has_dispute k (update id f ds) ≡ has_dispute k ds
unfolding has_dispute update
has_dispute-update id k f [] same = refl
has_dispute-update id k f ((j, d) ∷ ds) same =
    ground (arith, same d, has_dispute-update id k f ds same)

pub IsIndexed-update :
    (id : ℕ) (f : DeliveryDispute → DeliveryDispute) (ds : Table DeliveryDispute)
    → ((d : DeliveryDispute) → (f d).order_id ≡ d.order_id)
    → IsIndexed ds
    → IsIndexed (update id f ds)
unfolding update
IsIndexed-update id f [] same h = tt
IsIndexed-update id f ((j, d) ∷ ds) same h = elim (Bool-cases (j == id)) [
  | inl hit ↦ rw hit (h.0, rw (same d) h.1, h.2)
  | inr miss ↦ rw miss (
    get-update-none id j f ds h.0,
    has_dispute-update id d.order_id f ds same ∙ h.1,
    IsIndexed-update id f ds same h.2,
  )
]

-- The id that `find_dispute` returns is that of a dispute of the order.
pub find_dispute-get :
    (order_id courier_id : ℕ) {id : ℕ} (ds : Table DeliveryDispute)
    → IsIndexed ds
    → find_dispute order_id courier_id ds ≡ some id
    → (d : DeliveryDispute) × (get id ds ≡ some d) × (d.order_id ≡ order_id)
unfolding find_dispute get
find_dispute-get order_id courier_id [] h e = absurd (cc)
find_dispute-get order_id courier_id {id} ((j, d) ∷ ds) h e =
    elim (Bool-cases (d.order_id == order_id && d.courier_id == courier_id)) [
      | inl hit ↦ (d, ground arith, ground arith)
      | inr miss ↦
          let (d', at, owned) =
            find_dispute-get order_id courier_id {id = id} ds h.2 (rw miss at e) in
          elim (Bool-cases (j == id)) [
            | inl clash ↦ absurd (ground arith)
            | inr apart ↦ (d', rw apart at, owned)
          ]
    ]

-- No other open dispute is about the order of a dispute.
others-IsQuiet : (k : ℕ) (ds : Table DeliveryDispute) → has_dispute k ds ≡ false → IsQuiet k ds
unfolding has_dispute
others-IsQuiet k [] h = tt
others-IsQuiet k ((j, d) ∷ ds) h = (λ opened e. ground arith, others-IsQuiet k ds (ground arith))

has_dispute_of_get :
    (id : ℕ) {d : DeliveryDispute} (ds : Table DeliveryDispute)
    → get id ds ≡ some d
    → has_dispute d.order_id ds ≡ true
unfolding has_dispute get
has_dispute_of_get id [] h = cc
has_dispute_of_get id {d} ((j, e) ∷ ds) h = ground (arith, has_dispute_of_get id {d = d} ds)

-- Once a dispute is closed, its order has no open one.
pub IsQuiet-after_close :
    (id : ℕ) {d : DeliveryDispute} (f : DeliveryDispute → DeliveryDispute)
    (ds : Table DeliveryDispute)
    → ((e : DeliveryDispute) → is_open (f e).status ≡ false)
    → IsIndexed ds
    → get id ds ≡ some d
    → IsQuiet d.order_id (update id f ds)
unfolding get update
IsQuiet-after_close id f [] closes h at = cc
IsQuiet-after_close id {d} f ((j, e) ∷ ds) closes h at = elim (Bool-cases (j == id)) [
  | inl hit ↦
      let found : some e ≡ some d = rw hit at at in
      let same : e ≡ d = cc in
      let free : has_dispute d.order_id ds ≡ false =
        subst (λ (x : DeliveryDispute). has_dispute x.order_id ds ≡ false) same h.1 in
      rw hit (λ opened o. ground (arith, closes e, opened), others-IsQuiet d.order_id ds free)
  | inr miss ↦
      let there : get id ds ≡ some d = rw miss at at in
      rw miss (
        λ opened same. ground (
          arith,
          subst (λ k. has_dispute k ds ≡ false) same h.1,
          has_dispute_of_get id {d = d} ds there,
        ),
        IsQuiet-after_close id {d = d} f ds closes h.2 there,
      )
]

-- An event that repeats the order's status keeps the log.
pub logged_same :
    (id : ℕ) {order : DeliveryOrder} (event : OrderEvent) (t : Table DeliveryOrder)
    (es : List OrderEvent)
    → get id t ≡ some order
    → event.order_id ≡ id
    → event.to_status ≡ order.status
    → ((k : ℕ) (o : DeliveryOrder) → get k t ≡ some o → AgreesWith (last_status k es) o.status)
    → (k : ℕ) (o : DeliveryOrder) → get k t ≡ some o
    → AgreesWith (last_status k (event ∷ es)) o.status
unfolding last_status
logged_same id event t es at named says before k o h =
    ground (arith, before k o h, at, h, named, says)
