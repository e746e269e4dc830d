-- ===== src/Lib.antt =====
-- Wassal is a marketplace for deliveries: merchants order, couriers on motorcycles deliver, and the
-- platform books a commission for each completed order on the courier's account. This library models
-- the life of an order, from the search for a courier to its completion or cancellation, with the
-- dispute of a delivery, the return of a parcel and the commission that the completion posts; the
-- courier's account, with its weekly settlements, payments and adjustments; and the prices.
--
-- The parts, by the files that model them:
--   Contracts/Rbac      packages/contracts/src/rbac.ts: roles, permissions and their two spellings
--   Orders/Status       apps/api/src/orders/order-domain.ts: statuses, tables of transitions, the
--                       decision on a cancellation
--   Pricing             the same file: calculatePrice, resolvePricingRule, overlappingRulePairs
--   Orders/Finalization apps/api/src/orders/order-finalization.service.ts: finalizeInTransaction
--   Courier/Policy      apps/api/src/courier/courier-policy.ts: who may work
--   Finance/Calendar, Finance/Domain
--                       apps/api/src/finance/finance-domain.ts
--   Finance/Settlement  apps/api/src/finance/settlement-projection.ts, on the rows of Finance/Accounts
--   Finance/Postings, Finance/Payments, Finance/Closing, Finance/Adjustments
--                       apps/api/src/finance/finance.service.ts: recordExternalPayment,
--                       reverseExternalPayment, closeSettlement, createAdjustment
--   PaymentProofs       apps/api/src/payment-proofs/payment-proofs.service.ts: cancel, approve, reject
--   Admin               apps/api/src/admin/admin-operations-domain.ts
--   Store               the rows of infrastructure/database/prisma/schema.prisma, and the database
--   Service             transactions that return or throw, idempotency records, audit rows,
--                       notifications, and the queries that several services make
--   Operations          apps/api/src/operations/phase-four-domain.ts and delivery-operations.service.ts:
--                       merchantDispute, courierRespond, resolveDispute, confirmReturn
--   CourierOrders       apps/api/src/courier-orders/courier-orders.service.ts: accept, the lifecycle
--                       with transition, cancelBeforePickup
--   MerchantOrders      apps/api/src/orders/orders.service.ts: createOrder, retryCourierSearch,
--                       cancelMerchant, cancelAdmin
--   Worker              apps/worker/src/order-acceptance-timeout.ts, settlement-jobs.ts, and
--                       completeDeliveredOrders of phase-four-jobs.ts
--   Marketplace         the handlers and jobs together: the invariant of the database (Invariant), one
--                       file for each side that keeps it, the state machine of all requests (Reach, Runs), and
--                       what follows for every order (Guarantees, Races)
--   Books               the accounts together: their invariant (Invariant), how each handler and job keeps it,
--                       sequences of them (Runs), and what payments do to balances (Balance, TakenBack,
--                       ChargedTwice)
--   Prelude             lists, integers, sorting and tests over the native numbers
--   Scenarios           small databases, and each law applied to one of them
--
-- How the code is read. A handler's transaction is a function from the database to the changed
-- database or to what it throws: the rows that it reads are locked and it is atomic, so the retries
-- after a serialization failure are left out, and one clock reading stands for those of a transaction.
-- Instants are milliseconds after 1970, amounts are piastres, and uuids, idempotency keys and the
-- hashes of requests are numbers: the new ids and the hash are arguments. A unique key of the schema
-- that a row would break is a throw, and so is the migrations' check of a period's totals, where the worker
-- raises them; the other checks of the migrations are left out. An `undefined` of an update leaves its
-- column. Texts for display, metadata, snapshots and the messages to sockets are left out, as are columns
-- that none of the modelled operations reads or writes. The handlers start from a user whom the guards have
-- authorized, with the user's role and membership as arguments.
-- The time zone that Intl.DateTimeFormat shows is a parameter, `shown`, and `trim` of a text another.
-- There is no fuel: loops go over lists, and the correction loop of zonedDateTimeToUtc has its four
-- attempts written out. Subtractions of the calendar stop at 1970.
--
-- Money is in whole piastres: the products of prices and shares are taken as exact, as they are in the
-- source below 2^53. Periods, payments and entries that a transaction creates have ids that are arguments.
--
-- Whether the circle of a zone holds both ends of a quote's route, which PostGIS answers, is a parameter.
--
-- Not modelled: the making of quotes, zones on the map, the rate limits, authentication, the submission of
-- payment proofs, the financial and operational settings, the services of the administration, the queries
-- and exports that only read, the web applications and the mobile one, and the infrastructure. The state
-- machine of Marketplace has no step for the creation of an order: its paths start from orders that stand in
-- the database already.
pub mod Admin
pub mod Books
pub mod Contracts
pub mod Courier
pub mod CourierOrders
pub mod Finance
pub mod Marketplace
pub mod MerchantOrders
pub mod Operations
pub mod Orders
pub mod PaymentProofs
pub mod Prelude
pub mod Pricing
pub mod Scenarios
pub mod Service
pub mod Store
pub mod Worker
