-- ===== src/Auth/Effects.antt =====
-- What the functions of the authentication service make of the table of users.
use coffee_traceability_back.Prelude.{
  ℕ, ◌<◌, Bool, true, false, leb, if◌then◌else◌, Option, none, some, ◌+◌, arith,
}
use coffee_traceability_back.Schema.{Text, User}
use coffee_traceability_back.World.{Env, Db}
use coffee_traceability_back.World.Keeps.{Keeps, keeps_rules}
use coffee_traceability_back.Scope.{Caller, AuthUser}
use coffee_traceability_back.Scope.Effects.{require_user-Keeps}
use coffee_traceability_back.Audit.Effects.{record_audit_entry-Keeps, record_audit-Keeps}
use coffee_traceability_back.System.Effects.{get_status-Keeps}
use coffee_traceability_back.Credentials.{Crypto}
use coffee_traceability_back.Credentials.Effects.{
  hash_password-Keeps, sign_access_token-Keeps, sign_refresh_token-Keeps,
  verify_refresh_token-Keeps,
}
use coffee_traceability_back.Accounts.Effects.{OfUsers, OfUsers-unlogged}
use coffee_traceability_back.Accounts.Orderly.{IsOrderly, IsOrderly-update, IsOrderly-create}
use coffee_traceability_back.Auth.{
  RegisterInput, register, register_handler, find_by_identifier, is_future, is_past, lock_time,
  reject_password, refuse_expired, refuse_under_maintenance, open_session, login_to, login,
  login_handler, refresh, change_password, change_password_handler, logout, logout_handler,
}

module _ (env : Env) {P : Db → Type 0} where
  is_future-Keeps : (t : Option ℕ) → Keeps P (is_future env t)
  unfolding is_future
  is_future-Keeps none = search keeps_rules
  is_future-Keeps (some t) = search keeps_rules depth 8

  is_past-Keeps : (t : Option ℕ) → Keeps P (is_past env t)
  unfolding is_past
  is_past-Keeps none = search keeps_rules
  is_past-Keeps (some t) = search keeps_rules depth 8

  lock_time-Keeps : (lock : Bool) → Keeps P (lock_time env lock)
  lock_time-Keeps true = search keeps_rules depth 8
  lock_time-Keeps false = search keeps_rules

  refuse_expired-Keeps : (u : User) → Keeps P (refuse_expired env u)
  unfolding refuse_expired
  refuse_expired-Keeps u = search (keeps_rules, is_past-Keeps) depth 8

  refuse_under_maintenance-Keeps : (u : User) → Keeps P (refuse_under_maintenance env u)
  unfolding refuse_under_maintenance
  refuse_under_maintenance-Keeps u = search (keeps_rules, get_status-Keeps) depth 8

find_by_identifier-Keeps : {P : Db → Type 0} (t : Text) → Keeps P (find_by_identifier t)
unfolding find_by_identifier
find_by_identifier-Keeps t = search keeps_rules

below_after_failure : (n : ℕ) → (if leb 5 (n + 1) then 0 else n + 1) < 5
below_after_failure n = ground arith

none_failed : 0 < 5
none_failed = omega arith

reject-IsOrderly : (env : Env) (u : User) → Keeps (OfUsers IsOrderly) (reject_password env u)
unfolding reject_password
reject-IsOrderly env u =
    search (keeps_rules, lock_time-Keeps, IsOrderly-update, below_after_failure) depth 10

module _ (env : Env) (crypto : Crypto) where
  open_session-IsOrderly : (u : User) → Keeps (OfUsers IsOrderly) (open_session env crypto u)
  unfolding open_session
  open_session-IsOrderly u =
      search
        (
          keeps_rules, sign_access_token-Keeps, sign_refresh_token-Keeps, IsOrderly-update,
          none_failed,
        )
        depth 12

  login_to-IsOrderly :
      (u : User) (password : Text) → Keeps (OfUsers IsOrderly) (login_to env crypto u password)
  unfolding login_to
  login_to-IsOrderly u password =
      search
        (
          keeps_rules, is_future-Keeps, reject-IsOrderly, refuse_expired-Keeps,
          refuse_under_maintenance-Keeps, open_session-IsOrderly,
        )
        depth 12

  login-IsOrderly : (id password : Text) → Keeps (OfUsers IsOrderly) (login env crypto id password)
  unfolding login
  login-IsOrderly id password =
      search (keeps_rules, find_by_identifier-Keeps, login_to-IsOrderly) depth 10

  pub login_handler-IsOrderly :
      (caller : Caller) (id password : Text)
      → Keeps (OfUsers IsOrderly) (login_handler env crypto caller id password)
  unfolding login_handler
  login_handler-IsOrderly caller id password =
      search (keeps_rules, login-IsOrderly, record_audit_entry-Keeps, OfUsers-unlogged) depth 10

  pub refresh-IsOrderly : (token : Text) → Keeps (OfUsers IsOrderly) (refresh env crypto token)
  unfolding refresh
  refresh-IsOrderly token =
      search
        (
          keeps_rules, verify_refresh_token-Keeps, sign_access_token-Keeps,
          sign_refresh_token-Keeps, IsOrderly-update,
        )
        depth 20

  change_password-IsOrderly :
      (id : ℕ) (old new : Text) → Keeps (OfUsers IsOrderly) (change_password env crypto id old new)
  unfolding change_password
  change_password-IsOrderly id old new =
      search
        (
          keeps_rules, hash_password-Keeps, sign_access_token-Keeps, sign_refresh_token-Keeps,
          IsOrderly-update, none_failed,
        )
        depth 20 fits 4000

  pub change_password_handler-IsOrderly :
      (caller : Caller) (old new : Text)
      → Keeps (OfUsers IsOrderly) (change_password_handler env crypto caller old new)
  unfolding change_password_handler
  change_password_handler-IsOrderly caller old new =
      search
        (
          keeps_rules, require_user-Keeps, change_password-IsOrderly, record_audit-Keeps,
          OfUsers-unlogged,
        )
        depth 10

  register-IsOrderly :
      (input : RegisterInput) (actor : AuthUser)
      → Keeps (OfUsers IsOrderly) (register env crypto input actor)
  unfolding register
  register-IsOrderly input actor =
      search (keeps_rules, hash_password-Keeps, IsOrderly-create) depth 14

  pub register_handler-IsOrderly :
      (caller : Caller) (input : RegisterInput)
      → Keeps (OfUsers IsOrderly) (register_handler env crypto caller input)
  unfolding register_handler
  register_handler-IsOrderly caller input =
      search
        (keeps_rules, require_user-Keeps, register-IsOrderly, record_audit-Keeps, OfUsers-unlogged)
        depth 10

logout-IsOrderly : (id : ℕ) → Keeps (OfUsers IsOrderly) (logout id)
unfolding logout
logout-IsOrderly id = search (keeps_rules, IsOrderly-update) depth 10

pub logout_handler-IsOrderly : (caller : Caller) → Keeps (OfUsers IsOrderly) (logout_handler caller)
unfolding logout_handler
logout_handler-IsOrderly caller =
    search (keeps_rules, require_user-Keeps, logout-IsOrderly, record_audit-Keeps, OfUsers-unlogged)
      depth 10
