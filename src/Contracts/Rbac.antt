-- ===== src/Contracts/Rbac.antt =====
-- Roles and permissions: packages/contracts/src/rbac.ts.
use Prim.Native.String.{String}
use text.Mathlib.Text.{◌==◌ as str_eq}
use wassal.Prelude.{Bool, Option, none, some, List, [], ◌∷◌, Enum, includes, if◌then◌else◌}

pub data Role : Type 0 where
  merchant_owner merchant_manager merchant_staff courier support_agent operations_admin : Role
  finance_admin super_admin : Role

unfoldable pub Role-discrete : Discrete Role
Role-discrete = hlevel

instance abbrev pub role_enum : Enum Role
role_enum = record { same = Role-discrete }

-- `merchant:read` is `merchant_read`, and so on.
pub data Permission : Type 0 where
  merchant_read merchant_write merchant_staff_manage store_read store_write : Permission
  order_read order_write courier_self courier_verify user_status_manage : Permission
  pricing_manage finance_read support_manage feature_flag_manage audit_read : Permission
  courier_marketplace_read courier_order_accept courier_assigned_order_read : Permission
  courier_lifecycle_update courier_account_read courier_settlement_read : Permission
  finance_settings_read finance_settings_update courier_accounts_read : Permission
  settlements_read settlements_close external_payments_create : Permission
  external_payments_reverse adjustments_create waivers_create : Permission
  financial_exports_create delivery_dispute_read delivery_dispute_resolve : Permission
  return_override payment_proof_create payment_proof_read_own payment_proof_cancel : Permission
  payment_proof_review payment_proof_approve payment_proof_reject : Permission
  payment_proof_file_read operational_settings_read operational_settings_update : Permission

unfoldable pub Permission-discrete : Discrete Permission
Permission-discrete = hlevel

instance abbrev pub permission_enum : Enum Permission
permission_enum = record { same = Permission-discrete }

-- `permissions`, in the order of the source.
abbrev pub permissions : List Permission
permissions =
    merchant_read ∷ merchant_write ∷ merchant_staff_manage ∷ store_read ∷ store_write ∷ order_read
    ∷ order_write ∷ courier_self ∷ courier_verify ∷ user_status_manage ∷ pricing_manage
    ∷ finance_read ∷ support_manage ∷ feature_flag_manage ∷ audit_read ∷ courier_marketplace_read
    ∷ courier_order_accept ∷ courier_assigned_order_read ∷ courier_lifecycle_update
    ∷ courier_account_read ∷ courier_settlement_read ∷ finance_settings_read
    ∷ finance_settings_update ∷ courier_accounts_read ∷ settlements_read ∷ settlements_close
    ∷ external_payments_create ∷ external_payments_reverse ∷ adjustments_create ∷ waivers_create
    ∷ financial_exports_create ∷ delivery_dispute_read ∷ delivery_dispute_resolve ∷ return_override
    ∷ payment_proof_create ∷ payment_proof_read_own ∷ payment_proof_cancel ∷ payment_proof_review
    ∷ payment_proof_approve ∷ payment_proof_reject ∷ payment_proof_file_read
    ∷ operational_settings_read ∷ operational_settings_update ∷ []

-- `rolePermissions`, and `permissionsFor`.
unfoldable pub permissions_for : Role → List Permission
permissions_for merchant_owner =
    merchant_read ∷ merchant_write ∷ merchant_staff_manage ∷ store_read ∷ store_write ∷ order_read
    ∷ order_write ∷ finance_read ∷ operational_settings_read ∷ []
permissions_for merchant_manager =
    merchant_read ∷ merchant_write ∷ merchant_staff_manage ∷ store_read ∷ store_write ∷ order_read
    ∷ order_write ∷ operational_settings_read ∷ []
permissions_for merchant_staff = merchant_read ∷ store_read ∷ order_read ∷ order_write ∷ []
permissions_for courier =
    courier_self ∷ order_read ∷ courier_marketplace_read ∷ courier_order_accept
    ∷ courier_assigned_order_read ∷ courier_lifecycle_update ∷ courier_account_read
    ∷ courier_settlement_read ∷ payment_proof_create ∷ payment_proof_read_own ∷ payment_proof_cancel
    ∷ payment_proof_file_read ∷ []
permissions_for support_agent = order_read ∷ support_manage ∷ delivery_dispute_read ∷ []
permissions_for operations_admin =
    order_read ∷ courier_verify ∷ user_status_manage ∷ pricing_manage ∷ support_manage
    ∷ delivery_dispute_read ∷ delivery_dispute_resolve ∷ return_override ∷ operational_settings_read
    ∷ []
permissions_for finance_admin =
    order_read ∷ pricing_manage ∷ finance_read ∷ finance_settings_read ∷ courier_accounts_read
    ∷ settlements_read ∷ settlements_close ∷ external_payments_create ∷ financial_exports_create
    ∷ payment_proof_review ∷ payment_proof_approve ∷ payment_proof_reject ∷ payment_proof_file_read
    ∷ operational_settings_read ∷ []
permissions_for super_admin = permissions

unfoldable pub has_permission : Role → Permission → Bool
unfolding permissions_for
has_permission role permission = includes (permissions_for role) permission

-- The roles as the database spells them.
pub data UserRole : Type 0 where
  owner manager staff courier_user support operations_admin_user finance_admin_user : UserRole
  super_admin_user : UserRole

unfoldable pub UserRole-discrete : Discrete UserRole
UserRole-discrete = hlevel

instance abbrev pub user_role_enum : Enum UserRole
user_role_enum = record { same = UserRole-discrete }

unfoldable pub database_role_by_role : Role → UserRole
database_role_by_role merchant_owner = owner
database_role_by_role merchant_manager = manager
database_role_by_role merchant_staff = staff
database_role_by_role courier = courier_user
database_role_by_role support_agent = support
database_role_by_role operations_admin = operations_admin_user
database_role_by_role finance_admin = finance_admin_user
database_role_by_role super_admin = super_admin_user

-- The text that stands for a role.
unfoldable pub database_role_name : UserRole → String
database_role_name owner = "OWNER"
database_role_name manager = "MANAGER"
database_role_name staff = "STAFF"
database_role_name courier_user = "COURIER"
database_role_name support = "SUPPORT"
database_role_name operations_admin_user = "OPERATIONS_ADMIN"
database_role_name finance_admin_user = "FINANCE_ADMIN"
database_role_name super_admin_user = "SUPER_ADMIN"

-- The entries of `databaseRoleByRole`, in the order of the source.
abbrev pub roles : List Role
roles =
    merchant_owner ∷ merchant_manager ∷ merchant_staff ∷ courier ∷ support_agent ∷ operations_admin
    ∷ finance_admin ∷ super_admin ∷ []

-- `Object.entries(databaseRoleByRole).find(...)`; `none` is the thrown error.
unfoldable pub find_role : String → List Role → Option Role
unfolding database_role_by_role
find_role role [] = none
find_role role (r ∷ rs) =
    let rest = find_role role rs in
    if str_eq (database_role_name (database_role_by_role r)) role then some r else rest

unfoldable pub role_from_database : String → Option Role
unfolding find_role
role_from_database role = find_role role roles
