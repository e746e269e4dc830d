-- ===== src/Books/Change.antt =====
-- What changes of rows do to accounts, whichever handler makes them.
use wassal.Prelude.{
  ℕ, ◌≡◌, ◌⊎◌, refl, sym, ap, ◌∙◌, false, none, some, List, [], ◌∷◌, ◌==◌, inl, inr, arith,
  Bool-cases, Option-cases, is_some, not, ◌is◌,
}
use mathlib.Core.Path.{subst}
use mathlib.Core.Option.{some-injective}
use wassal.Store.Table.{Table, get, update, Rows-update, Rows-get, get-update_self, get-update_ne}
use wassal.Finance.Domain.{
  SettlementStatus, open_period, closed, not_due, due_soon, partially_paid, paid, overdue, waived,
  adjusted, SettlementStatus-discrete, settlement_status_enum,
}
use wassal.Finance.Accounts.{Accounts, SettlementPeriod}
use wassal.Finance.Settlement.{projection_of, active_payments}
use wassal.Finance.Closing.{totals_of}
use wassal.Books.Invariant.{is_among, IsKeyed, is_closed_status, InOrderBut}

get-update_absent :
    {V : Type 0} (k j : ℕ) (f : V → V) (t : Table V) → get j t ≡ none → get j (update k f t) ≡ none
unfolding get update
get-update_absent k j f [] h = refl
get-update_absent k j f ((i, v) ∷ t) h = ground (arith, get-update_absent k j f t)

pub update-IsKeyed :
    {V : Type 0} (k : ℕ) (f : V → V) (t : Table V) → IsKeyed t → IsKeyed (update k f t)
unfolding update
update-IsKeyed k f [] h = tt
update-IsKeyed k f ((j, v) ∷ t) h = elim (Bool-cases (j == k)) [
  | inl hit ↦ rw hit h
  | inr miss ↦ rw miss (get-update_absent k j f t h.0, update-IsKeyed k f t h.1)
]

pub is_open-is_closed_status :
    (status : SettlementStatus) → (status is open_period) ≡ not (is_closed_status status)
unfolding SettlementStatus-discrete
is_open-is_closed_status status =
    elim status as (λ k. (k is open_period) ≡ not (is_closed_status k)) [
      | open_period ↦ refl
      | closed ↦ refl
      | not_due ↦ refl
      | due_soon ↦ refl
      | partially_paid ↦ refl
      | paid ↦ refl
      | overdue ↦ refl
      | waived ↦ refl
      | adjusted ↦ refl
    ]

-- The rows that periods are projected from are the same, and so are the ids of the periods.
pub record IsSameBase (a b : Accounts) : Type 0 where
  pub ledger_same : b.ledger ≡ a.ledger
  pub lines_same : b.lines ≡ a.lines
  pub payments_same : b.payments ≡ a.payments
  pub allocations_same : b.allocations ≡ a.allocations
  pub kept : (id : ℕ) → is_some (get id b.settlements) ≡ is_some (get id a.settlements)

pub IsSameBase-projection_of :
    (id : ℕ) (a b : Accounts) → IsSameBase a b → projection_of id b ≡ projection_of id a
unfolding projection_of active_payments
IsSameBase-projection_of id a b same =
    rw (same.ledger_same, same.lines_same, same.payments_same, same.allocations_same) refl

pub get-update_known :
    {V : Type 0} (k j : ℕ) (f : V → V) (t : Table V)
    → is_some (get j (update k f t)) ≡ is_some (get j t)
unfolding get update
get-update_known k j f [] = refl
get-update_known k j f ((i, v) ∷ t) = ground (arith, get-update_known k j f t)

-- A row after an update is a row before it, changed or not.
pub update-source :
    {V : Type 0} (k j : ℕ) (f : V → V) (t : Table V) (s : V)
    → get j (update k f t) ≡ some s
    → (s0 : V) × (get j t ≡ some s0) × (((k ≡ j) × (f s0 ≡ s)) ⊎ (((k == j) ≡ false) × (s0 ≡ s)))
update-source k j f t s at = elim (Option-cases (get j t)) [
  | inl missing ↦ absurd (ground (arith, get-update_absent k j f t missing))
  | inr (s0, before) ↦ elim (Bool-cases (k == j)) [
    | inl hit ↦
        let same : k ≡ j = ground arith in
        let changed = get-update_self k f t (subst (λ i. get i t ≡ some s0) (sym same) before) in
        (
          s0,
          before,
          inl (
            same,
            some-injective _ _
                (sym changed ∙ subst (λ i. get i (update k f t) ≡ some s) (sym same) at),
          ),
        )
    | inr miss ↦ (
      s0,
      before,
      inr (
        miss,
        some-injective _ _ (sym before ∙ sym (get-update_ne k j f t (ground (arith, miss))) ∙ at),
      ),
    )
  ]
]

-- A change of the row of `id` that makes it show its projection.
pub update-InOrderBut :
    (id : ℕ) (ids : List ℕ) (f : SettlementPeriod → SettlementPeriod) (a : Accounts)
    → ((s : SettlementPeriod)
        → get id a.settlements ≡ some s
        → totals_of (f s) ≡ projection_of id a)
    → ((s : SettlementPeriod)
        → get id a.settlements ≡ some s
        → is_some s.closed_at ≡ is_closed_status s.status
        → is_some (f s).closed_at ≡ is_closed_status (f s).status)
    → InOrderBut (id ∷ ids) a
    → InOrderBut ids (record a { settlements = update id f a.settlements })
unfolding projection_of active_payments is_among
update-InOrderBut id ids f a totals dates w = record {
  linked = record {
    lines_known = w.linked.lines_known;
    allocations_known = w.linked.allocations_known;
    reversals_known = w.linked.reversals_known;
    keyed = update-IsKeyed id f a.settlements w.linked.keyed;
    entries_keyed = w.linked.entries_keyed;
  };
  dated =
      Rows-update (λ s. is_some s.closed_at ≡ is_closed_status s.status) id f a.settlements
        (λ s at. dates s at (
          Rows-get (λ x. is_some x.closed_at ≡ is_closed_status x.status) id a.settlements w.dated
            at))
        w.dated;
  synced = λ j s at out.
      let (s0, before, change) = update-source id j f a.settlements s at in
      elim change [
        | inl (same, changed) ↦
            ap totals_of (sym changed)
            ∙ totals s0 (subst (λ i. get i a.settlements ≡ some s0) (sym same) before)
            ∙ ap (λ i. projection_of i a) same
        | inr (other, kept_row) ↦
            ap totals_of (sym kept_row) ∙ w.synced j s0 before (ground (arith, other, out))
      ];
}
