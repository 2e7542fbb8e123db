-- ===== src/Permissions/Cache.antt =====
-- What the cached matrix answers.
use coffee_traceability_back.Prelude.{ℕ, String, Option, none, some}
use coffee_traceability_back.Schema.{UserRole}
use coffee_traceability_back.World.{Env, Db, Matrix}
use coffee_traceability_back.World.Keeps.{Keeps, keeps_rules}
use coffee_traceability_back.Permissions.{or_load, get_matrix, role_has_permission}

module _ (env : Env) {P : Db → Type 0} where
  or_load-Keeps : (now : ℕ) (cached : Option Matrix) → Keeps P (or_load env now cached)
  unfolding or_load
  or_load-Keeps now (some matrix) = search keeps_rules
  or_load-Keeps now none = record { at = λ w h. h }

  get_matrix-Keeps : Keeps P (get_matrix env)
  unfolding get_matrix
  get_matrix-Keeps = search (keeps_rules, or_load-Keeps) depth 8

  pub role_has_permission-Keeps :
      (role : UserRole) (p : String) → Keeps P (role_has_permission env role p)
  unfolding role_has_permission
  role_has_permission-Keeps role p = search (keeps_rules, get_matrix-Keeps) depth 8
