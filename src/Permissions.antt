-- ===== src/Permissions.antt =====
-- modules/permissions/permission.service.ts over the catalogue of constants/permissions.ts: the
-- granted pairs live in the database, and the process keeps a copy of them for a while.
mod Catalogue
pub mod Cache
pub mod Granting
pub mod Routes
pub mod Editing
unfoldable pub use Catalogue.*
use text.Mathlib.Text.{◌==◌ as str_eq}
use coffee_traceability_back.Prelude.{
  ℕ, ◌+◌, String, Bool, true, false, not, Option, none, some, List, [], ◌∷◌, ◌++◌, ltb, ◌&&◌,
  if◌then◌else◌, select, any, map,
}
use coffee_traceability_back.Schema.{UserRole, super_admin, same_role}
use coffee_traceability_back.Errors.{ok}
use coffee_traceability_back.World.{
  Env, Db, World, M, Matrix, pure, gets, ◌>>=◌, ◌>>◌, modify_db, new_date, with_transaction,
}

-- CACHE_TTL_MS
abbrev pub cache_ttl_ms : ℕ
cache_ttl_ms = 15_000

abbrev pub granted : Matrix → UserRole → String → Bool
granted matrix role permission =
    any (λ (g : UserRole × String). same_role g.0 role && str_eq g.1 permission) matrix

abbrev set_cache : Option (Matrix × ℕ) → M (Unit {0})
set_cache c w = (ok tt, record w { permission_cache = c })

-- The cached matrix, if it is there and still fresh.
abbrev pub fresh_cache : Option (Matrix × ℕ) → ℕ → Option Matrix
fresh_cache none now = none
fresh_cache (some (matrix, expires_at)) now = if ltb now expires_at then some matrix else none

module _ (env : Env) where
  -- The cached matrix, or the one in the database, which is then cached.
  unfoldable pub or_load : ℕ → Option Matrix → M Matrix
  or_load now (some matrix) = pure matrix
  or_load now none = do
    matrix ← gets (λ w. w.db.role_permissions)
    set_cache (some (matrix, now + cache_ttl_ms))
    pure matrix

  unfoldable pub get_matrix : M Matrix
  unfolding or_load
  get_matrix = do
    now ← new_date env
    cached ← gets (λ w. fresh_cache w.permission_cache now)
    or_load now cached

  -- `roleHasPermission`: SUPER_ADMIN passes without a look at the matrix.
  unfoldable pub role_has_permission : UserRole → String → M Bool
  role_has_permission role permission =
      if same_role role super_admin
      then pure true
      else (do matrix ← get_matrix; pure (granted matrix role permission))

unfoldable pub invalidate : M (Unit {0})
invalidate = set_cache none

abbrev pub has_key : String → List String → Bool
has_key key keys = any (λ k. str_eq k key) keys

-- `[...new Set(permissions.filter(isPermissionKey))]`: the first of equal keys stays.
abbrev pub clean_behind : List String → List String → List String
clean_behind seen [] = []
clean_behind seen (k ∷ ks) = elim (is_permission_key k && not (has_key k seen)) [
  | true ↦ k ∷ clean_behind (k ∷ seen) ks
  | false ↦ clean_behind seen ks
]

abbrev pub clean_keys : List String → List String
clean_keys keys = clean_behind [] keys

-- `setRolePermissions`: the rows of the role are replaced, and the cache is dropped.
unfoldable pub set_role_permissions : UserRole → List String → M (List String)
unfolding invalidate
set_role_permissions role permissions = do
  let clean = clean_keys permissions
  modify_db (λ d. record d {
    role_permissions =
        map (λ (k : String). (role, k)) clean
        ++ select (λ (g : UserRole × String). not (same_role g.0 role)) d.role_permissions;
  })
  invalidate
  pure clean
