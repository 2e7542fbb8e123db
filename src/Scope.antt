-- ===== src/Scope.antt =====
-- middleware/scopeHelpers.ts and middleware/authorize.ts: what a caller may reach.
pub mod Effects
pub mod Isolation
use coffee_traceability_back.Prelude.{
  ℕ, String, Bool, true, false, not, Option, none, some, List, [], ◌∷◌, ◌==◌, ◌&&◌, ◌||◌,
  if◌then◌else◌, same_option, is_some, find?, select, any,
}
use coffee_traceability_back.Errors.{
  unauthorized, forbidden, unauthorized_request, no_cooperative, other_cooperative, no_permission,
  no_farmer_profile, other_farmer,
}
use coffee_traceability_back.Schema.{
  UserRole, super_admin, cooperative_admin, cooperative_staff, farmer, same_role, includes_role,
  Farmer,
}
use coffee_traceability_back.World.{
  Env, Db, World, M, pure, raise, gets, gets_accounts, or_raise, ◌>>=◌, ◌>>◌, raise_if, when_some,
  skip,
}
use coffee_traceability_back.Permissions.{role_has_permission}

-- `req.user`
pub record AuthUser : Type 0 where
  pub id : ℕ
  pub role : UserRole
  pub cooperative_id : Option ℕ
  pub must_change_password : Bool

-- The authenticated caller of a request, with the farmer profile that `authenticate` has cached.
pub record Caller : Type 0 where
  pub user : Option AuthUser
  pub farmer_id : Option ℕ

abbrev pub is_super : AuthUser → Bool
is_super u = same_role u.role super_admin

unfoldable pub require_user : Caller → M AuthUser
require_user caller = or_raise caller.user (unauthorized unauthorized_request)

abbrev own_cooperative : AuthUser → Option ℕ → M (Option ℕ)
own_cooperative u none = raise (forbidden no_cooperative)
own_cooperative u (some c) = pure (some c)

-- The cooperative that a query is narrowed to; `none` is no filter.
unfoldable pub scope_cooperative_id : Caller → Option ℕ → M (Option ℕ)
unfolding require_user
scope_cooperative_id caller requested = do
  u ← require_user caller
  if is_super u then pure requested else own_cooperative u u.cooperative_id

-- `record` is the cooperative of the record, or null.
abbrev pub may_touch : AuthUser → Option ℕ → Bool
may_touch u none = true
may_touch u (some c) = is_super u || same_option u.cooperative_id (some c)

pub assert_ownership : Caller → Option ℕ → M (Unit {0})
unfolding require_user
assert_ownership caller owner = do
  u ← require_user caller
  raise_if (not (may_touch u owner)) (forbidden other_cooperative)

-- The variant for a record that is reached through a join: no cooperative passes.
pub assert_ownership_via : Caller → Option ℕ → M (Unit {0})
unfolding require_user
assert_ownership_via caller owner = do
  u ← require_user caller
  raise_if (not (is_super u) && is_some owner && not (same_option u.cooperative_id owner))
      (forbidden other_cooperative)

abbrev is_profile_of : ℕ → Farmer → Bool
is_profile_of user_id f = same_option f.user_id (some user_id) && not f.is_deleted

unfoldable profile_of : ℕ → Option ℕ → M (Option ℕ)
profile_of user_id (some f) = pure (some f)
profile_of user_id none = do
  row ← gets_accounts (λ a. find? (is_profile_of user_id) a.farmers)
  f ← or_raise row (forbidden no_farmer_profile)
  pure (some f.id)

pub farmer_scope_id : Caller → M (Option ℕ)
unfolding require_user
farmer_scope_id caller = do
  u ← require_user caller
  if not (same_role u.role farmer) then pure none else profile_of u.id caller.farmer_id

abbrev pub is_own : Option ℕ → Option ℕ → Bool
is_own none record_farmer = true
is_own (some f) record_farmer = same_option record_farmer (some f)

pub assert_farmer_ownership : Option ℕ → Option ℕ → M (Unit {0})
assert_farmer_ownership scope record_farmer =
    raise_if (not (is_own scope record_farmer)) (forbidden other_farmer)

-- STAFF_ROLES
abbrev pub staff_roles : List UserRole
staff_roles = super_admin ∷ cooperative_admin ∷ cooperative_staff ∷ []

unfoldable pub authorize : List UserRole → Caller → M (Unit {0})
unfolding require_user
authorize allowed caller = do
  u ← require_user caller
  raise_if (not (includes_role u.role allowed)) (forbidden no_permission)

-- `results.some(Boolean)` over the permissions, each looked up.
unfoldable pub any_permission : Env → UserRole → List String → M Bool
any_permission env role [] = pure false
any_permission env role (p ∷ ps) = do
  here ← role_has_permission env role p
  rest ← any_permission env role ps
  pure (here || rest)

unfoldable pub require_permission : Env → List String → Caller → M (Unit {0})
unfolding require_user
require_permission env perms caller = do
  u ← require_user caller
  held ← any_permission env u.role perms
  raise_if (not held) (forbidden no_permission)

-- `enforceCooperativeScope`, for the cooperative that the request names, if any.
pub enforce_cooperative_scope : Caller → Option ℕ → M (Unit {0})
unfolding require_user
enforce_cooperative_scope caller target = do
  u ← require_user caller
  raise_if (not (is_super u) && is_some target && not (same_option u.cooperative_id target))
      (forbidden other_cooperative)
