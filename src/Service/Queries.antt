-- ===== src/Service/Queries.antt =====
-- Queries that several handlers make.
use wassal.Prelude.{
  ℕ, Bool, ◌&&◌, ◌||◌, Option, none, some, List, [], ◌∷◌, map, leb, ltb, ◌==◌, ◌is◌, filter, find,
  is_some, if◌then◌else◌,
}
use wassal.Contracts.Rbac.{user_role_enum, owner, manager}
use wassal.Store.{Setting, CourierProfile, Database}
use wassal.Store.Table.{Table}

-- `merchantMembership.findMany({ where: { merchantId, active, role: { in } } })`.
unfoldable pub merchant_recipients : ℕ → Database → List ℕ
merchant_recipients merchant_id db =
    map (λ m. m.user_id)
      (filter
        (λ m. m.merchant_id == merchant_id && m.active && (m.role is owner || m.role is manager))
        db.merchant_memberships)

-- `courierServiceZone.findFirst` of `assertZoneEligibility`.
unfoldable pub operates_in_zone : ℕ → ℕ → Database → Bool
operates_in_zone courier_id service_zone_id db = is_some (
    find
      (λ m.
        m.courier_id == courier_id
        && m.service_zone_id == service_zone_id
        && m.active
        && m.zone_is_active)
      db.zone_memberships)

-- `courier: { select: { userId } }` of an order: the user of a courier profile.
unfoldable pub courier_user : ℕ → Table CourierProfile → Option ℕ
courier_user courier_id [] = none
courier_user courier_id ((user_id, c) ∷ cs) =
    if c.id == courier_id then some user_id else courier_user courier_id cs

-- `findFirst({ where: { effectiveFrom: { lte: now } }, orderBy: [{ effectiveFrom: 'desc' },
-- { version: 'desc' }] })` of a table of settings.
module _ {A : Type 0} where
  -- Whether the first stands in front of the second.
  abbrev is_later : Setting A → Setting A → Bool
  is_later a b =
      if a.effective_from == b.effective_from
      then leb b.version a.version
      else ltb b.effective_from a.effective_from

  later_setting : Option (Setting A) → Setting A → Option (Setting A)
  later_setting none s = some s
  later_setting (some best) s = if is_later best s then some best else some s

  unfoldable pub current_setting : ℕ → Option (Setting A) → List (Setting A) → Option (Setting A)
  unfolding later_setting
  current_setting now best [] = best
  current_setting now best (s ∷ ss) =
      current_setting now (if leb s.effective_from now then later_setting best s else best) ss
