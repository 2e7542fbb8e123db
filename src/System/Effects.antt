-- ===== src/System/Effects.antt =====
-- What the reads of the maintenance switch leave as it is, which is the whole database.
use coffee_traceability_back.Prelude.{ℕ, Bool, Option, none, some}
use coffee_traceability_back.World.{Env, Db, SystemStatus}
use coffee_traceability_back.World.Keeps.{Keeps, keeps_rules}
use coffee_traceability_back.Scope.{Caller}
use coffee_traceability_back.Scope.Effects.{require_user-Keeps}
use coffee_traceability_back.System.{
  or_load_status, get_status, or_load_access, is_maintenance_allowed_for_user, pass_if_allowed,
  maintenance_gate, invalidate_user_access,
}

module _ {P : Db → Type 0} where
  pub invalidate_user_access-Keeps : (id : ℕ) → Keeps P (invalidate_user_access id)
  unfolding invalidate_user_access
  invalidate_user_access-Keeps id = record { at = λ w h. h }

module _ (env : Env) {P : Db → Type 0} where
  or_load_status-Keeps :
      (now : ℕ) (cached : Option SystemStatus) → Keeps P (or_load_status env now cached)
  unfolding or_load_status
  or_load_status-Keeps now (some value) = search keeps_rules
  or_load_status-Keeps now none = record { at = λ w h. h }

  pub get_status-Keeps : Keeps P (get_status env)
  unfolding get_status
  get_status-Keeps = search (keeps_rules, or_load_status-Keeps) depth 8

  or_load_access-Keeps :
      (id now : ℕ) (cached : Option Bool) → Keeps P (or_load_access env id now cached)
  unfolding or_load_access
  or_load_access-Keeps id now (some allowed) = search keeps_rules
  or_load_access-Keeps id now none = record { at = λ w h. h }

  access-Keeps : (id : ℕ) → Keeps P (is_maintenance_allowed_for_user env id)
  unfolding is_maintenance_allowed_for_user
  access-Keeps id = search (keeps_rules, or_load_access-Keeps) depth 8

  pass-Keeps : (id : ℕ) → Keeps P (pass_if_allowed env id)
  unfolding pass_if_allowed
  pass-Keeps id = search (keeps_rules, access-Keeps) depth 8

  pub maintenance_gate-Keeps : (caller : Caller) → Keeps P (maintenance_gate env caller)
  unfolding maintenance_gate
  maintenance_gate-Keeps caller =
      search (keeps_rules, require_user-Keeps, get_status-Keeps, pass-Keeps) depth 8
