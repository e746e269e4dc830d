-- ===== src/Marketplace/Runs.antt =====
-- Sequences of requests, by induction.
use mathlib.Core.Path.{subst}
use wassal.Prelude.{ℕ, ◌≡◌, some}
use wassal.Store.{Database}
use wassal.Worker.Expire.{expire_all}
use wassal.Marketplace.Invariant.{WellFormed}
use wassal.Marketplace.CourierSide.{
  accept-WellFormed, cancel_before_pickup-WellFormed, transition-WellFormed,
}
use wassal.Marketplace.MerchantSide.{retry-WellFormed, cancel-WellFormed}
use wassal.Marketplace.WorkerSide.{expire_all-WellFormed}
use wassal.Marketplace.DisputeSide.{courier_respond-WellFormed, merchant_dispute-WellFormed}
use wassal.Marketplace.ResolveSide.{
  resolve_dispute-WellFormed, confirm_return-WellFormed, complete_one-WellFormed,
}
use wassal.Marketplace.Evolution.{TableEvolves, TableEvolves-refl, TableEvolves-trans}
use wassal.Marketplace.Turns.{
  accept-TableEvolves, cancel_before_pickup-TableEvolves, transition-TableEvolves,
  retry-TableEvolves, cancel-TableEvolves, expire_all-TableEvolves,
}
use wassal.Marketplace.Ends.{
  merchant_dispute-TableEvolves, courier_respond-orders, resolve_dispute-TableEvolves,
  confirm_return-TableEvolves, complete_one-TableEvolves,
}
use wassal.Marketplace.Reach.{
  IsFresh, Reaches, Request, committed-inv, finished-inv, serve, accept, transition, give_back,
  retry, cancel, dispute, respond, resolve, confirm, expire, complete, here, next,
}

module _ (shown : ℕ → ℕ) where
  serve-WellFormed :
      (request : Request) (db : Database) {db' : Database}
      → IsFresh request db
      → serve shown request db ≡ some db'
      → WellFormed db
      → WellFormed db'
  unfolding serve
  serve-WellFormed (accept user_id role courier_id order_id version key hash now) db fresh h w =
      accept-WellFormed user_id role courier_id order_id version key hash now db
        (committed-inv _ h).1 w
  serve-WellFormed (transition action user_id role courier_id order_id input key hash now) db fresh
        h w =
      transition-WellFormed action user_id role courier_id order_id input key hash now db
        (committed-inv _ h).1 w
  serve-WellFormed (give_back user_id role courier_id order_id version key hash now) db fresh h w =
      cancel_before_pickup-WellFormed user_id role courier_id order_id version key hash now db
        (committed-inv _ h).1 w
  serve-WellFormed (retry user_id role merchant_id membership_role order_id version key hash now) db
        fresh h w =
      retry-WellFormed user_id role merchant_id membership_role order_id version key hash now db
        (committed-inv _ h).1 w
  serve-WellFormed (cancel user_id role order_id merchant_id input source key hash now) db fresh h
        w =
      cancel-WellFormed user_id role order_id merchant_id input source key hash now db
        (committed-inv _ h).1 w
  serve-WellFormed
        (dispute user_id role merchant_id membership_role order_id version admins dispute_id now) db
        fresh h w =
      merchant_dispute-WellFormed user_id role merchant_id membership_role order_id version admins
        dispute_id now db (committed-inv _ h).1 fresh w
  serve-WellFormed (respond user_id courier_id order_id version response paper_proof now) db fresh h
        w =
      courier_respond-WellFormed user_id courier_id order_id version response paper_proof now db
        (committed-inv _ h).1 w
  serve-WellFormed
        (resolve user_id role dispute_id version resolution note entry_id settlement_id now) db
        fresh h w =
      resolve_dispute-WellFormed shown user_id role dispute_id version resolution note entry_id
        settlement_id now db (committed-inv _ h).1 w
  serve-WellFormed
        (confirm user_id role confirmer order_id version condition note key hash entry_id
          settlement_id now)
        db fresh h w =
      confirm_return-WellFormed shown user_id role confirmer order_id version condition note key
        hash entry_id settlement_id now db (committed-inv _ h).1 w
  serve-WellFormed (expire now candidates) db fresh h w =
      subst WellFormed (cc) (expire_all-WellFormed now candidates 0 db w)
  serve-WellFormed (complete order_id entry_id settlement_id now) db fresh h w =
      complete_one-WellFormed order_id entry_id settlement_id now db (finished-inv _ h) w

  serve-TableEvolves :
      (request : Request) (db : Database) {db' : Database}
      → serve shown request db ≡ some db'
      → WellFormed db
      → TableEvolves db.orders db'.orders
  unfolding serve
  serve-TableEvolves (accept user_id role courier_id order_id version key hash now) db h w =
      accept-TableEvolves user_id role courier_id order_id version key hash now db
        (committed-inv _ h).1
  serve-TableEvolves (transition action user_id role courier_id order_id input key hash now) db h
        w =
      transition-TableEvolves action user_id role courier_id order_id input key hash now db
        (committed-inv _ h).1
  serve-TableEvolves (give_back user_id role courier_id order_id version key hash now) db h w =
      cancel_before_pickup-TableEvolves user_id role courier_id order_id version key hash now db
        (committed-inv _ h).1
  serve-TableEvolves (retry user_id role merchant_id membership_role order_id version key hash now)
        db h w =
      retry-TableEvolves user_id role merchant_id membership_role order_id version key hash now db
        (committed-inv _ h).1
  serve-TableEvolves (cancel user_id role order_id merchant_id input source key hash now) db h w =
      cancel-TableEvolves user_id role order_id merchant_id input source key hash now db
        (committed-inv _ h).1
  serve-TableEvolves
        (dispute user_id role merchant_id membership_role order_id version admins dispute_id now) db
        h w =
      merchant_dispute-TableEvolves user_id role merchant_id membership_role order_id version admins
        dispute_id now db (committed-inv _ h).1
  serve-TableEvolves (respond user_id courier_id order_id version response paper_proof now) db h w =
      rw
        (courier_respond-orders user_id courier_id order_id version response paper_proof now db
          (committed-inv _ h).1)
        (TableEvolves-refl db.orders)
  serve-TableEvolves
        (resolve user_id role dispute_id version resolution note entry_id settlement_id now) db h
        w =
      resolve_dispute-TableEvolves shown user_id role dispute_id version resolution note entry_id
        settlement_id now db (committed-inv _ h).1 w
  serve-TableEvolves
        (confirm user_id role confirmer order_id version condition note key hash entry_id
          settlement_id now)
        db h w =
      confirm_return-TableEvolves shown user_id role confirmer order_id version condition note key
        hash entry_id settlement_id now db (committed-inv _ h).1
  serve-TableEvolves (expire now candidates) db {db'} h w =
      let same : (expire_all now candidates 0 db).1 ≡ db' = cc in
      subst (λ (x : Database). TableEvolves db.orders x.orders) same
        (expire_all-TableEvolves now candidates 0 db)
  serve-TableEvolves (complete order_id entry_id settlement_id now) db h w =
      complete_one-TableEvolves order_id entry_id settlement_id now db (finished-inv _ h)

  -- Any requests and jobs that commit, in any order, keep a well-formed database well-formed: the
  -- courier, the acceptance window, the completion, the attempts and the charge of each order go with
  -- its status, the event log ends in the status of each order, exactly the completed orders have a
  -- commission in the ledger, and the order of an open dispute is disputed.
  pub Reaches-WellFormed :
      {db db' : Database} → Reaches shown db db' → WellFormed db → WellFormed db'
  Reaches-WellFormed here w = w
  Reaches-WellFormed (next {a} request fresh h p) w =
      Reaches-WellFormed p (serve-WellFormed request a fresh h w)

  pub Reaches-TableEvolves :
      {db db' : Database} → Reaches shown db db' → WellFormed db → TableEvolves db.orders db'.orders
  Reaches-TableEvolves {db} here w = TableEvolves-refl db.orders
  Reaches-TableEvolves (next {a} request fresh h p) w =
      TableEvolves-trans _ _ _ (serve-TableEvolves request a h w)
        (Reaches-TableEvolves p (serve-WellFormed request a fresh h w))
