-- ===== src/Permissions/Catalogue.antt =====
-- constants/permissions.ts: the keys, and the default matrix.
use text.Mathlib.Text.{◌==◌ as str_eq}
use coffee_traceability_back.Prelude.{String, Bool, List, [], ◌∷◌, ◌++◌, any, select}
use coffee_traceability_back.Schema.{
  UserRole, super_admin, cooperative_admin, cooperative_staff, farmer, buyer, auditor,
}
use coffee_traceability_back.Texts.{codes, ends_with}

-- PERMISSION_KEYS, in the order of the catalogue.
abbrev pub permission_keys : List String
permission_keys =
    "dashboard:view" ∷ "farmers:view" ∷ "farmers:create" ∷ "farmers:manage-account"
    ∷ "deliveries:view" ∷ "deliveries:create" ∷ "batches:view" ∷ "batches:create"
    ∷ "batches:transition" ∷ "processing:view" ∷ "processing:create" ∷ "warehouse:view"
    ∷ "warehouse:create" ∷ "warehouse:store" ∷ "warehouse:remove" ∷ "lots:view" ∷ "lots:manage"
    ∷ "reports:view" ∷ "reports:financial" ∷ "blockchain:view" ∷ "users:view" ∷ "users:manage"
    ∷ "roles:view" ∷ "roles:manage" ∷ "settings:view" ∷ "settings:manage" ∷ "system:maintenance"
    ∷ []

unfoldable pub is_permission_key : String → Bool
is_permission_key value = any (str_eq value) permission_keys

-- `key.endsWith(":view")`
abbrev is_view : String → Bool
is_view k = ends_with (codes ":view") (codes k)

abbrev pub view_only : List String
view_only = select is_view permission_keys

unfoldable pub default_role_permissions : UserRole → List String
default_role_permissions super_admin = permission_keys
default_role_permissions cooperative_admin =
    "dashboard:view" ∷ "farmers:view" ∷ "farmers:create" ∷ "farmers:manage-account"
    ∷ "deliveries:view" ∷ "deliveries:create" ∷ "batches:view" ∷ "batches:create"
    ∷ "batches:transition" ∷ "processing:view" ∷ "processing:create" ∷ "warehouse:view"
    ∷ "warehouse:create" ∷ "warehouse:store" ∷ "warehouse:remove" ∷ "lots:view" ∷ "lots:manage"
    ∷ "reports:view" ∷ "reports:financial" ∷ "blockchain:view" ∷ "users:view" ∷ "users:manage"
    ∷ "roles:view" ∷ "settings:view" ∷ "settings:manage" ∷ []
default_role_permissions cooperative_staff =
    "dashboard:view" ∷ "farmers:view" ∷ "farmers:create" ∷ "deliveries:view" ∷ "deliveries:create"
    ∷ "batches:view" ∷ "batches:create" ∷ "batches:transition" ∷ "processing:view"
    ∷ "processing:create" ∷ "warehouse:view" ∷ "warehouse:store" ∷ "warehouse:remove" ∷ "lots:view"
    ∷ "lots:manage" ∷ "reports:view" ∷ "blockchain:view" ∷ "settings:view" ∷ []
default_role_permissions auditor = view_only ++ "settings:view" ∷ []
default_role_permissions farmer =
    "dashboard:view" ∷ "deliveries:view" ∷ "batches:view" ∷ "settings:view" ∷ []
default_role_permissions buyer =
    "dashboard:view" ∷ "batches:view" ∷ "blockchain:view" ∷ "settings:view" ∷ []
