-- ===== src/Scope/Effects.antt =====
-- The writes of the checks of a caller: none.
use coffee_traceability_back.Prelude.{ℕ, String, ◌||◌, Option, some, none, List, [], ◌∷◌}
use coffee_traceability_back.Schema.{UserRole}
use coffee_traceability_back.World.{Env, Db}
use coffee_traceability_back.World.Keeps.{Keeps, Keeps-bind, Keeps-pure, keeps_rules}
use coffee_traceability_back.Permissions.Cache.{role_has_permission-Keeps}
use coffee_traceability_back.Scope.{
  Caller, require_user, assert_ownership, profile_of, farmer_scope_id, assert_farmer_ownership,
  any_permission, require_permission, authorize,
}

module _ {P : Db → Type 0} where
  pub require_user-Keeps : (caller : Caller) → Keeps P (require_user caller)
  unfolding require_user
  require_user-Keeps caller = search keeps_rules

  profile_of-Keeps : (id : ℕ) (f : Option ℕ) → Keeps P (profile_of id f)
  unfolding profile_of
  profile_of-Keeps id (some f) = search keeps_rules
  profile_of-Keeps id none = search keeps_rules depth 8

  pub farmer_scope_id-Keeps : (caller : Caller) → Keeps P (farmer_scope_id caller)
  unfolding farmer_scope_id
  farmer_scope_id-Keeps caller = search (keeps_rules, profile_of-Keeps, require_user-Keeps) depth 8

  pub assert_farmer_ownership-Keeps :
      (scope owner : Option ℕ) → Keeps P (assert_farmer_ownership scope owner)
  unfolding assert_farmer_ownership
  assert_farmer_ownership-Keeps scope owner = search keeps_rules depth 8

  pub assert_ownership-Keeps :
      (caller : Caller) (owner : Option ℕ) → Keeps P (assert_ownership caller owner)
  unfolding assert_ownership
  assert_ownership-Keeps caller owner = search keeps_rules depth 8

  pub authorize-Keeps :
      (allowed : List UserRole) (caller : Caller) → Keeps P (authorize allowed caller)
  unfolding authorize
  authorize-Keeps allowed caller = search keeps_rules depth 8

  any_permission-Keeps :
      (env : Env) (role : UserRole) (perms : List String) → Keeps P (any_permission env role perms)
  unfolding any_permission
  any_permission-Keeps env role [] = search keeps_rules
  any_permission-Keeps env role (p ∷ ps) =
      Keeps-bind _ _ (role_has_permission-Keeps env role p)
        λ here. Keeps-bind _ _ (any_permission-Keeps env role ps) λ rest. Keeps-pure (here || rest)

  pub require_permission-Keeps :
      (env : Env) (perms : List String) (caller : Caller)
      → Keeps P (require_permission env perms caller)
  unfolding require_permission
  require_permission-Keeps env perms caller = search (keeps_rules, any_permission-Keeps) depth 8
