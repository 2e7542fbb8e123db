-- ===== src/Users/Effects.antt =====
-- What the functions of the users' service make of the table of users.
use coffee_traceability_back.Prelude.{ℕ, Bool}
use coffee_traceability_back.Schema.{UserStatus}
use coffee_traceability_back.World.{Env, Db}
use coffee_traceability_back.World.Keeps.{Keeps, keeps_rules}
use coffee_traceability_back.Scope.{Caller, AuthUser}
use coffee_traceability_back.Scope.Effects.{require_user-Keeps, require_permission-Keeps}
use coffee_traceability_back.Audit.Effects.{record_audit-Keeps}
use coffee_traceability_back.Notifications.Effects.{notify_user_status_change-Keeps}
use coffee_traceability_back.System.Effects.{invalidate_user_access-Keeps}
use coffee_traceability_back.Accounts.Effects.{OfUsers, OfUsers-unlogged, OfUsers-blind}
use coffee_traceability_back.Accounts.Orderly.{IsOrderly, IsOrderly-update}
use coffee_traceability_back.Users.{
  assert_target, assert_user_in_scope, update_user_status, set_maintenance_access,
  update_status_handler, maintenance_access_handler,
}

module _ {P : Db → Type 0} where
  assert_target-Keeps : (actor : AuthUser) (id : ℕ) → Keeps P (assert_target actor id)
  unfolding assert_target
  assert_target-Keeps actor id = search keeps_rules depth 8

  pub assert_user_in_scope-Keeps :
      (caller : Caller) (id : ℕ) → Keeps P (assert_user_in_scope caller id)
  unfolding assert_user_in_scope
  assert_user_in_scope-Keeps caller id =
      search (keeps_rules, require_user-Keeps, assert_target-Keeps) depth 8

ruleset user_rules = (
  keeps_rules, require_permission-Keeps, require_user-Keeps, assert_user_in_scope-Keeps,
  notify_user_status_change-Keeps, record_audit-Keeps, invalidate_user_access-Keeps,
  OfUsers-unlogged, OfUsers-blind, IsOrderly-update,
)

status-IsOrderly :
    (id : ℕ) (status : UserStatus) → Keeps (OfUsers IsOrderly) (update_user_status id status)
unfolding update_user_status
status-IsOrderly id status = search user_rules depth 10

access-IsOrderly :
    (id : ℕ) (allowed : Bool) → Keeps (OfUsers IsOrderly) (set_maintenance_access id allowed)
unfolding set_maintenance_access
access-IsOrderly id allowed = search user_rules depth 10

module _ (env : Env) (caller : Caller) (id : ℕ) where
  pub update_status_handler-IsOrderly :
      (status : UserStatus) → Keeps (OfUsers IsOrderly) (update_status_handler env caller id status)
  unfolding update_status_handler
  update_status_handler-IsOrderly status = search (user_rules, status-IsOrderly) depth 12 fits 4000

  pub maintenance_access_handler-IsOrderly :
      (allowed : Bool)
      → Keeps (OfUsers IsOrderly) (maintenance_access_handler env caller id allowed)
  unfolding maintenance_access_handler
  maintenance_access_handler-IsOrderly allowed =
      search (user_rules, access-IsOrderly) depth 12 fits 4000
