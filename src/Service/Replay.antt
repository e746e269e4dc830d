-- ===== src/Service/Replay.antt =====
-- Requests that are sent again.
use wassal.Prelude.{
  ℕ, ◌+◌, ◌*◌, ◌≡◌, ◌≢◌, refl, none, some, List, [], ◌∷◌, inl, inr, arith, ◌==◌, Option-cases,
  Bool-cases,
}
use wassal.Store.{Scope, scope_enum, IdempotencyRecord, processing, completed}
use wassal.Service.Transaction.{ok, err, key_reused}
use wassal.Service.Idempotency.{
  find_record, claim_idempotency, complete_idempotency, idempotency_replay,
}

abbrev answered : ℕ → ℕ → IdempotencyRecord → IdempotencyRecord
answered entity_id code r = record r {
  status = completed;
  response_code = some code;
  entity_id = some entity_id;
}

find_record-complete_idempotency :
    (scope : Scope) (key entity_id code : ℕ) {r : IdempotencyRecord} (rs : List IdempotencyRecord)
    → find_record scope key rs ≡ some r
    → find_record scope key (complete_idempotency scope key entity_id code rs)
      ≡ some (answered entity_id code r)
unfolding find_record complete_idempotency
find_record-complete_idempotency scope key entity_id code [] h = absurd (cc)
find_record-complete_idempotency scope key entity_id code {r} (s ∷ rs) h =
    ground (arith, find_record-complete_idempotency scope key entity_id code {r = r} rs)

claimed_record :
    (scope : Scope) (key hash now : ℕ) (rs : List IdempotencyRecord)
    {claimed : List IdempotencyRecord}
    → claim_idempotency scope key hash now rs ≡ ok claimed
    → (r : IdempotencyRecord) × (find_record scope key claimed ≡ some r) × (r.request_hash ≡ hash)
unfolding claim_idempotency find_record
claimed_record scope key hash now rs h = elim (Option-cases (find_record scope key rs)) [
  | inl new ↦ (
    record {
      scope = scope;
      key = key;
      request_hash = hash;
      status = processing;
      response_code = none;
      entity_id = none;
      expires_at = now + 24 * 60 * 60 * 1000;
    },
    ground arith,
    refl,
  )
  | inr (r, e) ↦ elim (Bool-cases (r.request_hash == hash)) [
    | inl same ↦ (r, ground arith, ground arith)
    | inr other ↦ absurd (ground arith)
  ]
]

pub replay-claimed :
    (scope : Scope) (key hash now entity_id code : ℕ) (rs claimed : List IdempotencyRecord)
    → claim_idempotency scope key hash now rs ≡ ok claimed
    → idempotency_replay scope key hash (complete_idempotency scope key entity_id code claimed)
      ≡ ok (some entity_id)
unfolding idempotency_replay
replay-claimed scope key hash now entity_id code rs claimed h =
    let (r, found, same) = claimed_record scope key hash now rs h in
    let after = find_record-complete_idempotency scope key entity_id code {r = r} claimed found in
    ground (arith, after, same)

-- A request whose key has been claimed, and then completed with an entity, is answered with that
-- entity when it is sent again, and refused when the key comes with another request.
pub replay-claim :
    (scope : Scope) (key hash now entity_id code other : ℕ) (rs claimed : List IdempotencyRecord)
    → claim_idempotency scope key hash now rs ≡ ok claimed
    → other ≢ hash
    → (idempotency_replay scope key hash (complete_idempotency scope key entity_id code claimed)
        ≡ ok (some entity_id))
      × (idempotency_replay scope key other (complete_idempotency scope key entity_id code claimed)
          ≡ err key_reused)
unfolding idempotency_replay
replay-claim scope key hash now entity_id code other rs claimed h ne =
    let (r, found, same) = claimed_record scope key hash now rs h in
    let after = find_record-complete_idempotency scope key entity_id code {r = r} claimed found in
    (replay-claimed scope key hash now entity_id code rs claimed h, ground (arith, after, same, ne))
