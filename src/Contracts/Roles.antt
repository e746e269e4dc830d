-- ===== src/Contracts/Roles.antt =====
-- The laws of the roles.
use Prim.Native.String.{String}
use text.Mathlib.Text.{◌==◌ as str_eq}
use wassal.Prelude.{
  ◌≡◌, ◌⊎◌, refl, none, some, List, [], ◌∷◌, true, false, All, Bool-cases, inl, inr,
}
use wassal.Contracts.Rbac.{
  Role, UserRole, owner, manager, staff, courier_user, support, operations_admin_user,
  finance_admin_user, super_admin_user, super_admin, merchant_owner, merchant_manager,
  merchant_staff, courier, support_agent, operations_admin, finance_admin, roles, find_role,
  database_role_name, database_role_by_role, role_from_database,
}

-- What the search among some of the roles finds has the text, and where it finds none, none has it.
find_role-cases :
    (role : String) (rs : List Role)
    → ((r : Role) × (find_role role rs ≡ some r)
        × (str_eq (database_role_name (database_role_by_role r)) role ≡ true))
      ⊎ ((find_role role rs ≡ none)
          × All (λ r. str_eq (database_role_name (database_role_by_role r)) role ≡ false) rs)
unfolding find_role
find_role-cases role [] = inr (refl, tt)
find_role-cases role (r ∷ rs) =
    elim (Bool-cases (str_eq (database_role_name (database_role_by_role r)) role)) [
      | inl same ↦ inl (r, rw same refl, same)
      | inr other ↦ elim (find_role-cases role rs) [
        | inl (found, e, spelled) ↦ inl (found, rw other e, spelled)
        | inr (missing, all) ↦ inr (rw other missing, (other, all))
      ]
    ]

read_back :
    (user_role : UserRole)
    → (role : Role) × (role_from_database (database_role_name user_role) ≡ some role)
      × (database_role_by_role role ≡ user_role)
unfolding role_from_database find_role database_role_by_role database_role_name
read_back owner = (merchant_owner, refl, refl)
read_back manager = (merchant_manager, refl, refl)
read_back staff = (merchant_staff, refl, refl)
read_back courier_user = (courier, refl, refl)
read_back support = (support_agent, refl, refl)
read_back operations_admin_user = (operations_admin, refl, refl)
read_back finance_admin_user = (finance_admin, refl, refl)
read_back super_admin_user = (super_admin, refl, refl)

round_trip :
    (role : Role) → role_from_database (database_role_name (database_role_by_role role)) ≡ some role
unfolding role_from_database find_role database_role_by_role database_role_name
round_trip merchant_owner = refl
round_trip merchant_manager = refl
round_trip merchant_staff = refl
round_trip courier = refl
round_trip support_agent = refl
round_trip operations_admin = refl
round_trip finance_admin = refl
round_trip super_admin = refl

-- What holds for the listed roles holds for each.
in_roles :
    (text : String) (role : Role)
    → All (λ r. str_eq (database_role_name (database_role_by_role r)) text ≡ false) roles
    → str_eq (database_role_name (database_role_by_role role)) text ≡ false
in_roles text merchant_owner all = all.0
in_roles text merchant_manager all = all.1.0
in_roles text merchant_staff all = all.1.1.0
in_roles text courier all = all.1.1.1.0
in_roles text support_agent all = all.1.1.1.1.0
in_roles text operations_admin all = all.1.1.1.1.1.0
in_roles text finance_admin all = all.1.1.1.1.1.1.0
in_roles text super_admin all = all.1.1.1.1.1.1.1.0

-- The two vocabularies are in bijection: reading back the text with which the database spells a role
-- gives the role, and each of the database's roles is read back so. A text that reads as a role is the one that spells it, and any other text, for which
-- the reading throws, spells none of the roles.
pub role_from_database-database_role_by_role :
    ((role : Role)
      → role_from_database (database_role_name (database_role_by_role role)) ≡ some role)
    × ((user_role : UserRole)
        → (role : Role) × (role_from_database (database_role_name user_role) ≡ some role)
          × (database_role_by_role role ≡ user_role))
    × ((text : String)
        → ((role : Role) × (role_from_database text ≡ some role)
            × (str_eq (database_role_name (database_role_by_role role)) text ≡ true))
          ⊎ ((role_from_database text ≡ none)
              × ((role : Role)
                  → str_eq (database_role_name (database_role_by_role role)) text ≡ false)))
unfolding role_from_database find_role database_role_by_role database_role_name
role_from_database-database_role_by_role = (
  round_trip,
  read_back,
  λ text. elim (find_role-cases text roles) [
    | inl found ↦ inl found
    | inr (missing, all) ↦ inr (missing, λ role. in_roles text role all)
  ],
)
