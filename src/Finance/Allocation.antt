-- ===== src/Finance/Allocation.antt =====
-- How a payment is spread over the open settlements: the laws of `allocateOldestSettlements`.
use wassal.Prelude.{
  ℕ, ◌+◌, ◌-◌, ◌≤◌, ◌<◌, ◌≡◌, refl, List, [], ◌∷◌, ◌++◌, inl, inr, arith, Bool-cases, leb, ltb,
  sum_by, sum_by-append, All, if◌then◌else◌,
}
use wassal.Prelude.Sort.{insert_by, sort_by, sum-sort_by, All-insert_by}
use wassal.Finance.Domain.{
  done, OpenSettlement, Allocation, settlement_before, allocate_from, allocate_oldest_settlements,
  max_safe_integer,
}

-- The whole of what remains on each settlement, where something does.
unfoldable pub in_full : List OpenSettlement → List Allocation
in_full [] = []
in_full (s ∷ ss) =
    if ltb 0 s.remaining_amount_minor
    then record { settlement_period_id = s.id; amount_minor = s.remaining_amount_minor }
      ∷ in_full ss
    else in_full ss

abbrev pub open_total : List OpenSettlement → ℕ
open_total ss = sum_by (λ s. s.remaining_amount_minor) ss

-- The settlements in front of `last` are paid in full, and `last` is paid `part`.
pub record IsOldestFirst (amount : ℕ) (sorted : List OpenSettlement) (allocations : List Allocation)
    : Type 0 where
  pub before : List OpenSettlement
  pub last : OpenSettlement
  pub after : List OpenSettlement
  pub part : ℕ
  pub split : sorted ≡ before ++ last ∷ after
  pub some_part : 0 < part
  pub at_most : part ≤ last.remaining_amount_minor
  pub whole : open_total before + part ≡ amount
  pub allocated :
      allocations
      ≡ in_full before ++ record { settlement_period_id = last.id; amount_minor = part } ∷ []

allocate_from-nothing : (ss : List OpenSettlement) → allocate_from 0 ss ≡ []
unfolding allocate_from
allocate_from-nothing [] = refl
allocate_from-nothing (s ∷ ss) = refl

allocate_from-IsOldestFirst :
    (amount : ℕ) (ss : List OpenSettlement)
    → 0 < amount
    → amount ≤ open_total ss
    → IsOldestFirst amount ss (allocate_from amount ss)
unfolding allocate_from in_full
allocate_from-IsOldestFirst amount [] p h = absurd (ground arith)
allocate_from-IsOldestFirst amount (s ∷ ss) p h =
    elim (Bool-cases (leb amount s.remaining_amount_minor)) [
      | inl last ↦ record {
        before = [];
        last = s;
        after = ss;
        part = amount;
        split = refl;
        some_part = p;
        at_most = ground arith;
        whole = omega arith;
        allocated = ground (arith, allocate_from-nothing ss);
      }
      | inr more ↦
          let rest =
            allocate_from-IsOldestFirst (amount - s.remaining_amount_minor) ss (ground arith)
              (ground arith) in
          record {
            before = s ∷ rest.before;
            last = rest.last;
            after = rest.after;
            part = rest.part;
            split = ground (arith, rest.split);
            some_part = rest.some_part;
            at_most = rest.at_most;
            whole = ground (arith, rest.whole);
            allocated = ground (arith, rest.allocated);
          }
    ]

in_full-sum : (ss : List OpenSettlement) → sum_by (λ a. a.amount_minor) (in_full ss) ≡ open_total ss
unfolding in_full
in_full-sum [] = refl
in_full-sum (s ∷ ss) = ground (arith, in_full-sum ss)

-- Each period starts no later than those behind it.
abbrev pub IsByAge : List OpenSettlement → Type 0
IsByAge [] = Unit
IsByAge (s ∷ ss) = All (λ later. s.period_start ≤ later.period_start) ss × IsByAge ss

All-weaken :
    (a b : ℕ) (ss : List OpenSettlement)
    → a ≤ b
    → All (λ s. b ≤ s.period_start) ss
    → All (λ s. a ≤ s.period_start) ss
All-weaken a b [] h q = tt
All-weaken a b (s ∷ ss) h q = (ground (arith, h, q.0), All-weaken a b ss h q.1)

insert-IsByAge :
    (s : OpenSettlement) (ss : List OpenSettlement)
    → IsByAge ss
    → IsByAge (insert_by settlement_before s ss)
insert-IsByAge s [] q = (tt, tt)
insert-IsByAge s (x ∷ xs) q = elim (Bool-cases (settlement_before s x)) [
  | inl first ↦
      let order : s.period_start ≤ x.period_start = ground arith in
      rw first ((order, All-weaken s.period_start x.period_start xs order q.0), q)
  | inr later ↦
      let order : x.period_start ≤ s.period_start = ground arith in
      rw later (
        All-insert_by settlement_before (λ y. x.period_start ≤ y.period_start) s xs order q.0,
        insert-IsByAge s xs q.1,
      )
]

sort-IsByAge : (ss : List OpenSettlement) → IsByAge (sort_by settlement_before ss)
sort-IsByAge [] = tt
sort-IsByAge (s ∷ ss) = insert-IsByAge s (sort_by settlement_before ss) (sort-IsByAge ss)

-- A payment within the safe integers, above 0 and not above what is open is spread over the
-- settlements in the order of their periods: all in front of the last one that gets anything are paid
-- in full, and the allocations add up to the payment.
pub allocate_oldest_settlements-IsOldestFirst :
    (amount : ℕ) (ss : List OpenSettlement)
    → 0 < amount
    → amount ≤ max_safe_integer
    → amount ≤ open_total ss
    → (allocations : List Allocation) × (allocate_oldest_settlements amount ss ≡ done allocations)
      × IsByAge (sort_by settlement_before ss)
      × IsOldestFirst amount (sort_by settlement_before ss) allocations
      × (sum_by (λ a. a.amount_minor) allocations ≡ amount)
unfolding allocate_oldest_settlements
allocate_oldest_settlements-IsOldestFirst amount ss p safe h =
    let sorted = sort_by settlement_before ss in
    let total = sum-sort_by settlement_before (λ s. s.remaining_amount_minor) ss in
    let spread = allocate_from-IsOldestFirst amount sorted p (ground (arith, total, h)) in
    (
      allocate_from amount sorted,
      ground (arith, p, safe, h),
      sort-IsByAge ss,
      spread,
      rw spread.allocated (
          omega (
            arith,
            sum_by-append (λ (a : Allocation). a.amount_minor) (in_full spread.before)
                (record { settlement_period_id = spread.last.id; amount_minor = spread.part } ∷ []),
            in_full-sum spread.before,
            spread.whole,
          )),
    )
