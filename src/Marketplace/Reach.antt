-- ===== src/Marketplace/Reach.antt =====
-- The marketplace as a state machine: a step is a request that a handler serves, or a job, that
-- commits.
use Prim.Native.String.{String}
use wassal.Prelude.{ℕ, ◌≡◌, Bool, Option, none, some, List}
use wassal.Contracts.Rbac.{Role, UserRole}
use wassal.Store.{Database, OrderEventSource, ReturnCondition}
use wassal.Store.Table.{get}
use wassal.Service.Transaction.{Result, ok, err}
use wassal.CourierOrders.Accept.{accept_transaction}
use wassal.CourierOrders.Lifecycle.{Action, TransitionInput, transition_transaction}
use wassal.CourierOrders.Cancel.{cancel_before_pickup_transaction}
use wassal.MerchantOrders.Retry.{retry_courier_search}
use wassal.MerchantOrders.Cancel.{CancelInput, cancel_transaction}
use wassal.Operations.Disputes.{merchant_dispute, courier_respond}
use wassal.Operations.Resolutions.{Resolution, resolve_dispute}
use wassal.Operations.Returns.{Confirmer, confirm_return}
use wassal.Worker.Expire.{expire_all}
use wassal.Worker.Complete.{complete_one}

-- A request of a user who has been authorized, or a job of the worker, with its clock reading and its
-- fresh uuids.
pub data Request : Type 0 where
  accept : (user_id : ℕ) (role : UserRole) (courier_id order_id version key hash now : ℕ) → Request
  transition :
      (action : Action) (user_id : ℕ) (role : UserRole) (courier_id order_id : ℕ)
      (input : TransitionInput) (key hash now : ℕ)
      → Request
  give_back :
      (user_id : ℕ) (role : UserRole) (courier_id order_id version key hash now : ℕ) → Request
  retry :
      (user_id : ℕ) (role : Role) (merchant_id : ℕ) (membership_role : UserRole)
      (order_id version key hash now : ℕ)
      → Request
  cancel :
      (user_id : ℕ) (role : UserRole) (order_id : ℕ) (merchant_id : Option ℕ) (input : CancelInput)
      (source : OrderEventSource) (key hash now : ℕ)
      → Request
  dispute :
      (user_id : ℕ) (role : UserRole) (merchant_id : ℕ) (membership_role : UserRole)
      (order_id version : ℕ) (admins : List ℕ) (dispute_id now : ℕ)
      → Request
  respond :
      (user_id courier_id order_id version : ℕ) (response : String) (paper_proof : Bool) (now : ℕ)
      → Request
  resolve :
      (user_id : ℕ) (role : UserRole) (dispute_id version : ℕ) (resolution : Resolution)
      (note : String) (entry_id settlement_id now : ℕ)
      → Request
  confirm :
      (user_id : ℕ) (role : UserRole) (confirmer : Confirmer) (order_id version : ℕ)
      (condition : ReturnCondition) (note : Option String) (key hash entry_id settlement_id now : ℕ)
      → Request
  expire : (now : ℕ) (candidates : List ℕ) → Request
  complete : (order_id entry_id settlement_id now : ℕ) → Request

-- The database that the transaction commits.
abbrev committed : Result (ℕ × Database) → Option Database
committed (ok (r, db)) = some db
committed (err fault) = none

abbrev finished : Result (Option Database) → Option Database
finished (ok db) = db
finished (err fault) = none

module _ (shown : ℕ → ℕ) where
  unfoldable pub serve : Request → Database → Option Database
  serve (accept user_id role courier_id order_id version key hash now) db =
      committed (accept_transaction user_id role courier_id order_id version key hash now db)
  serve (transition action user_id role courier_id order_id input key hash now) db =
      committed
        (transition_transaction action user_id role courier_id order_id input key hash now db)
  serve (give_back user_id role courier_id order_id version key hash now) db =
      committed
        (cancel_before_pickup_transaction user_id role courier_id order_id version key hash now db)
  serve (retry user_id role merchant_id membership_role order_id version key hash now) db =
      committed (
        retry_courier_search user_id role merchant_id membership_role order_id version key hash now
          db)
  serve (cancel user_id role order_id merchant_id input source key hash now) db =
      committed (cancel_transaction user_id role order_id merchant_id input source key hash now db)
  serve (dispute user_id role merchant_id membership_role order_id version admins dispute_id now)
        db =
      committed (
        merchant_dispute user_id role merchant_id membership_role order_id version admins dispute_id
          now db)
  serve (respond user_id courier_id order_id version response paper_proof now) db =
      committed (courier_respond user_id courier_id order_id version response paper_proof now db)
  serve (resolve user_id role dispute_id version resolution note entry_id settlement_id now) db =
      committed (
        resolve_dispute shown user_id role dispute_id version resolution note entry_id settlement_id
          now db)
  serve
        (confirm user_id role confirmer order_id version condition note key hash entry_id
          settlement_id now)
        db =
      committed (
        confirm_return shown user_id role confirmer order_id version condition note key hash
          entry_id settlement_id now db)
  serve (expire now candidates) db = some (expire_all now candidates 0 db).1
  serve (complete order_id entry_id settlement_id now) db =
      finished (complete_one order_id entry_id settlement_id now db)

-- The uuid of a new dispute is the id of no other.
abbrev pub IsFresh : Request → Database → Type 0
IsFresh (dispute user_id role merchant_id membership_role order_id version admins dispute_id now)
      db =
    get dispute_id db.disputes ≡ none
IsFresh _ db = Unit

pub committed-inv :
    (result : Result (ℕ × Database)) {db' : Database}
    → committed result ≡ some db'
    → (r : ℕ) × (result ≡ ok (r, db'))
committed-inv (ok (r, db)) h = (r, cc)
committed-inv (err fault) h = absurd (cc)

pub finished-inv :
    (result : Result (Option Database)) {db' : Database}
    → finished result ≡ some db'
    → result ≡ ok (some db')
finished-inv (ok db) h = cc
finished-inv (err fault) h = absurd (cc)

-- Any number of requests that commit, in any order.
pub data Reaches (shown : ℕ → ℕ) : Database → Database → Type 0 where
  here : {db : Database} → Reaches shown db db
  next :
      {a b c : Database} (request : Request)
      → IsFresh request a
      → serve shown request a ≡ some b
      → Reaches shown b c
      → Reaches shown a c
