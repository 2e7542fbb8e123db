-- ===== src/Permissions/Routes.antt =====
-- The reads of modules/permissions/permission.service.ts and the handlers of permission.routes.ts.
use coffee_traceability_back.Prelude.{
  String, Bool, true, false, not, none, List, [], ◌∷◌, if◌then◌else◌, select, any, map,
}
use coffee_traceability_back.Errors.{bad_request, immutable_role, unknown_permissions}
use coffee_traceability_back.Schema.{UserRole, super_admin, same_role, update, permission_entity}
use coffee_traceability_back.World.{Env, M, Matrix, pure, ◌>>=◌, ◌>>◌, raise_if}
use coffee_traceability_back.Permissions.{
  permission_keys, is_permission_key, get_matrix, set_role_permissions,
}
use coffee_traceability_back.Scope.{Caller, require_user, require_permission}
use coffee_traceability_back.Audit.{record_audit_entry}

-- The keys of a role in the order of the rows. No two rows are of the same role and key
-- (`@@unique([role, permission])` in prisma/schema.prisma), so that the set is a list.
abbrev pub keys_of : UserRole → Matrix → List String
keys_of role matrix =
    map (λ (g : UserRole × String). g.1)
      (select (λ (g : UserRole × String). same_role g.0 role) matrix)

-- The roles of the rows that are not in `seen`, each where it is first.
abbrev roles_behind : List UserRole → Matrix → List UserRole
roles_behind seen [] = []
roles_behind seen (g ∷ gs) = elim (any (same_role g.0) seen) [
  | true ↦ roles_behind seen gs
  | false ↦ g.0 ∷ roles_behind (g.0 ∷ seen) gs
]

unfoldable pub get_permissions_for_role : Env → UserRole → M (List String)
get_permissions_for_role env role = do matrix ← get_matrix env; pure (keys_of role matrix)

unfoldable pub get_matrix_object : Env → M (List (UserRole × List String))
get_matrix_object env = do
  matrix ← get_matrix env
  pure (map (λ (role : UserRole). (role, keys_of role matrix)) (roles_behind [] matrix))

-- The catalogue is a constant, and left out of the answer.
pub matrix_handler : Env → Caller → M (List (UserRole × List String))
matrix_handler env caller = do
  require_permission env ("roles:view" ∷ []) caller
  get_matrix_object env

pub me_handler : Env → Caller → M (UserRole × List String)
me_handler env caller = do
  u ← require_user caller
  keys ←
      (if same_role u.role super_admin
        then pure permission_keys
        else get_permissions_for_role env u.role)
  pure (u.role, keys)

abbrev pub is_known_only : List String → Bool
is_known_only keys = not (any (λ k. not (is_permission_key k)) keys)

-- The audit entry names the role, which is no number, and the keys.
unfoldable pub update_handler : Env → Caller → UserRole → List String → M (UserRole × List String)
update_handler env caller role permissions = do
  require_permission env ("roles:manage" ∷ []) caller
  raise_if (same_role role super_admin) (bad_request immutable_role)
  raise_if (not (is_known_only permissions)) (bad_request unknown_permissions)
  saved ← set_role_permissions role permissions
  record_audit_entry caller update permission_entity none
  pure (role, saved)
