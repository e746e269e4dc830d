-- ===== src/Service/Idempotency.antt =====
-- Idempotency records: `claimIdempotency`, `completeIdempotency` and `idempotencyReplay`, which
-- apps/api/src/courier-orders/courier-orders.service.ts and apps/api/src/orders/orders.service.ts
-- have in the same words. A request's hash is the SHA-256 of `requestFingerprint`, a number here.
use wassal.Prelude.{ℕ, ◌+◌, ◌*◌, ◌&&◌, Option, none, some, List, [], ◌∷◌, ◌==◌, ◌is◌, if◌then◌else◌}
use wassal.Store.{Scope, scope_enum, IdempotencyRecord, processing, completed}
use wassal.Service.Transaction.{key_reused, already_processing, Result, ok, err}

-- `findUnique({ where: { scope_key: { scope, key } } })`.
unfoldable pub find_record : Scope → ℕ → List IdempotencyRecord → Option IdempotencyRecord
find_record scope key [] = none
find_record scope key (r ∷ rs) =
    if r.scope is scope && r.key == key then some r else find_record scope key rs

-- What `claimIdempotency` leaves in the table.
unfoldable pub claim_idempotency :
    Scope → ℕ → ℕ → ℕ → List IdempotencyRecord → Result (List IdempotencyRecord)
unfolding find_record
claim_idempotency scope key request_hash now rs = elim (find_record scope key rs) [
  | some existing ↦
      if existing.request_hash == request_hash
      then elim existing.status [ processing ↦ err already_processing | completed ↦ ok rs ]
      else err key_reused
  | none ↦ ok (
      record {
        scope = scope;
        key = key;
        request_hash = request_hash;
        status = processing;
        response_code = none;
        entity_id = none;
        expires_at = now + 24 * 60 * 60 * 1000;
      }
      ∷ rs)
]

-- `update({ where: { scope_key }, data: { status: 'COMPLETED', responseCode, responseBody } })`.
unfoldable pub complete_idempotency :
    Scope → ℕ → ℕ → ℕ → List IdempotencyRecord → List IdempotencyRecord
complete_idempotency scope key entity_id response_code [] = []
complete_idempotency scope key entity_id response_code (r ∷ rs) =
    if r.scope is scope && r.key == key
    then record r {
      status = completed;
      response_code = some response_code;
      entity_id = some entity_id;
    }
      ∷ rs
    else r ∷ complete_idempotency scope key entity_id response_code rs

-- `undefined` is `none`.
unfoldable pub idempotency_replay : Scope → ℕ → ℕ → List IdempotencyRecord → Result (Option ℕ)
unfolding find_record
idempotency_replay scope key request_hash rs = elim (find_record scope key rs) [
  | none ↦ ok none
  | some r ↦
      if r.request_hash == request_hash
      then elim r.status [
        | completed ↦ elim r.entity_id [
          | some entity ↦ ok (some entity)
          | none ↦ err already_processing
        ]
        | processing ↦ err already_processing
      ]
      else err key_reused
]
