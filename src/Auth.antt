-- ===== src/Auth.antt =====
-- modules/auth/auth.service.ts with the handlers of modules/auth/auth.controller.ts: accounts are
-- registered, sessions opened, renewed and closed, and passwords changed.
pub mod Middleware
pub mod Effects
pub mod Naming
pub mod Lockout
pub mod Recovery
pub mod Rotation
pub mod Ending
pub mod Suspension
pub mod Granting
pub mod Guards
use coffee_traceability_back.Prelude.{
  ℕ, suc, ◌+◌, ◌*◌, String, Bool, true, false, not, Option, none, some, List, [], ◌∷◌, ◌==◌, ltb,
  leb, ◌&&◌, ◌||◌, if◌then◌else◌, find?, is_some, or_else,
}
use coffee_traceability_back.Errors.{
  Failure, api, new_error, with_code, bad_request, unauthorized, forbidden, conflict,
  unauthorized_request, role_not_grantable, cooperative_required, email_taken, invalid_credentials,
  account_locked, account_inactive, temporary_expired, temporary_password_expired,
  invalid_refresh_token, stale_refresh_token, wrong_password, same_password,
}
use coffee_traceability_back.Schema.{
  Text, User, Farmer, Accounts, UserRole, UserStatus, super_admin, cooperative_admin,
  cooperative_staff, farmer, buyer, auditor, active, suspended, pending_verification, deactivated,
  same_role, includes_role, create, update, login as login_action, login_failed,
  logout as logout_action, user_entity,
}
use coffee_traceability_back.Texts.{same_text, same_text_option}
use coffee_traceability_back.Texts.Chars.{trim, lower, upper}
use coffee_traceability_back.Identifiers.{
  IdentifierKind, email, phone, farmer_code, classify_identifier, normalize_phone,
}
use coffee_traceability_back.World.{
  Env, Db, World, M, SystemStatus, pure, raise, gets_accounts, or_raise, ◌>>=◌, ◌>>◌, raise_if,
  skip, new_date, on_failure,
}
use coffee_traceability_back.Scope.{Caller, AuthUser, require_user}
use coffee_traceability_back.Audit.{record_audit_log, record_audit_entry}
use coffee_traceability_back.System.{get_status, maintenance_error}
use coffee_traceability_back.Accounts.{
  UserData, has_id, has_email, has_phone, find_user, create_user, update_user,
}
use coffee_traceability_back.Credentials.{
  Crypto, AccessClaims, hash_password, sign_access_token, sign_refresh_token, verify_refresh_token,
}

-- MAX_FAILED_ATTEMPTS and LOCKOUT_MINUTES
abbrev pub max_failed_attempts : ℕ
max_failed_attempts = 5

abbrev pub lockout_minutes : ℕ
lockout_minutes = 15

-- GRANTABLE_ROLES; a role without an entry may grant none.
abbrev pub grantable_roles : UserRole → List UserRole
grantable_roles super_admin =
    super_admin ∷ cooperative_admin ∷ cooperative_staff ∷ farmer ∷ buyer ∷ auditor ∷ []
grantable_roles cooperative_admin = cooperative_staff ∷ farmer ∷ buyer ∷ []
grantable_roles cooperative_staff = []
grantable_roles farmer = []
grantable_roles buyer = []
grantable_roles auditor = []

pub record RegisterInput : Type 0 where
  pub email : Text
  pub password : Text
  pub first_name : String
  pub last_name : String
  pub phone_number : Option Text
  pub role : UserRole
  pub cooperative_id : Option ℕ

-- `x ? normalizePhone(x) ?? x : …`: an empty text counts as none.
abbrev pub stored_phone : Option Text → Option Text
stored_phone none = none
stored_phone (some []) = none
stored_phone (some (c ∷ t)) = some (or_else (normalize_phone (c ∷ t)) (c ∷ t))

abbrev pub cooperative_for : RegisterInput → AuthUser → Option ℕ
cooperative_for input actor =
    if same_role actor.role super_admin then input.cooperative_id else actor.cooperative_id

module _ (env : Env) (crypto : Crypto) where
  unfoldable pub register : RegisterInput → AuthUser → M User
  register input actor = do
    raise_if (not (includes_role input.role (grantable_roles actor.role)))
        (forbidden role_not_grantable)
    let cooperative_id = cooperative_for input actor
    raise_if (not (is_some cooperative_id) && not (same_role input.role buyer))
        (bad_request cooperative_required)
    existing ← find_user (has_email input.email)
    raise_if (is_some existing) (conflict email_taken)
    password_hash ← hash_password crypto input.password
    create_user env (record {
      email = some input.email;
      phone_number = stored_phone input.phone_number;
      password_hash = password_hash;
      first_name = input.first_name;
      last_name = input.last_name;
      role = input.role;
      cooperative_id = cooperative_id;
      status = pending_verification;
      must_change_password = false;
      temporary_password_expires_at = none;
    })

  unfoldable pub register_handler : Caller → RegisterInput → M User
  register_handler caller input = do
    actor ← require_user caller
    user ← register input actor
    record_audit_log caller create user_entity user.id
    pure user

abbrev pub has_code : Text → Farmer → Bool
has_code code f = same_text f.farmer_code code

abbrev pub linked_user : Option ℕ → List User → Option User
linked_user none users = none
linked_user (some id) users = find? (has_id id) users

abbrev pub by_phone : Option Text → List User → Option User
by_phone none users = none
by_phone (some p) users = find? (has_phone p) users

abbrev pub by_farmer : Option Farmer → List User → Option User
by_farmer none users = none
by_farmer (some f) users = if f.is_deleted then none else linked_user f.user_id users

abbrev pub account_by : IdentifierKind → Text → Accounts → Option User
account_by email value a = find? (has_email (lower value)) a.users
account_by farmer_code value a = by_farmer (find? (has_code (upper value)) a.farmers) a.users
account_by phone value a = by_phone (normalize_phone value) a.users

-- `findByIdentifier`
unfoldable pub find_by_identifier : Text → M (Option User)
find_by_identifier identifier =
    gets_accounts (account_by (classify_identifier (trim identifier)) (trim identifier))

abbrev pub live : Option User → Option User
live none = none
live (some u) = if u.is_deleted then none else some u

abbrev pub may_sign_in : UserStatus → Bool
may_sign_in active = true
may_sign_in pending_verification = true
may_sign_in suspended = false
may_sign_in deactivated = false

abbrev pub is_unverified : UserStatus → Bool
is_unverified pending_verification = true
is_unverified active = false
is_unverified suspended = false
is_unverified deactivated = false

abbrev pub claims_of : User → Bool → AccessClaims
claims_of u must_change = record {
  sub = u.id;
  role = u.role;
  cooperative_id = u.cooperative_id;
  must_change_password = must_change;
}

-- What the handlers answer with; `user` is there after a login.
pub record Session : Type 0 where
  pub access_token : Text
  pub refresh_token : Text
  pub must_change_password : Bool
  pub user : Option User

-- The row after a wrong password.
abbrev pub failed_attempt : ℕ → Option ℕ → User → User
failed_attempt count until u = record u { failed_login_count = count; locked_until = until }

abbrev pub with_token : Option Text → User → User
with_token hash u = record u { refresh_token_hash = hash }

abbrev pub signed_in : ℕ → Text → User → User
signed_in now token_hash u = record u {
  failed_login_count = 0;
  locked_until = none;
  last_login_at = some now;
  refresh_token_hash = some token_hash;
}

module _ (env : Env) where
  -- Whether the time, if there is one, is still to come, or is past.
  unfoldable pub is_future : Option ℕ → M Bool
  is_future none = pure false
  is_future (some t) = do now ← new_date env; pure (ltb now t)

  unfoldable pub is_past : Option ℕ → M Bool
  is_past none = pure false
  is_past (some t) = do now ← new_date env; pure (ltb t now)

  abbrev lock_time : Bool → M (Option ℕ)
  lock_time true = do now ← new_date env; pure (some (now + lockout_minutes * 60_000))
  lock_time false = pure none

  -- The branch of a wrong password.
  unfoldable pub reject_password : User → M Session
  reject_password u = do
    let failed_count = u.failed_login_count + 1
    let should_lock = leb max_failed_attempts failed_count
    until ← lock_time should_lock
    update_user u.id (failed_attempt (if should_lock then 0 else failed_count) until)
    raise (unauthorized invalid_credentials)

  -- An unclaimed temporary password that has expired.
  unfoldable pub refuse_expired : User → M (Unit {0})
  refuse_expired u = do
    expired ← if u.must_change_password then is_past u.temporary_password_expires_at else pure false
    raise_if expired (api (with_code temporary_password_expired (new_error 403 temporary_expired)))

  -- The maintenance gate at the login.
  unfoldable pub refuse_under_maintenance : User → M (Unit {0})
  refuse_under_maintenance u =
      if same_role u.role super_admin || u.maintenance_allowed
      then skip
      else (do status ← get_status env; raise_if status.maintenance_mode maintenance_error)

abbrev pub with_password : ℕ → Text → Text → UserStatus → User → User
with_password now password_hash token_hash status r = record r {
  password_hash = password_hash;
  must_change_password = false;
  temporary_password_expires_at = none;
  password_changed_at = some now;
  failed_login_count = 0;
  locked_until = none;
  refresh_token_hash = some token_hash;
  status = if is_unverified status then active else r.status;
}

module _ (env : Env) (crypto : Crypto) where
  unfoldable pub open_session : User → M Session
  open_session u = do
    access_token ← sign_access_token crypto env (claims_of u u.must_change_password)
    refresh_token ← sign_refresh_token crypto env u.id
    now ← new_date env
    update_user u.id (signed_in now (env.sha256 refresh_token))
    pure (record {
      access_token = access_token;
      refresh_token = refresh_token;
      must_change_password = u.must_change_password;
      user = some u;
    })

  -- The login to the account that the identifier names.
  unfoldable pub login_to : User → Text → M Session
  login_to u password = do
    locked ← is_future env u.locked_until
    raise_if locked (forbidden account_locked)
    raise_if (not (may_sign_in u.status)) (forbidden account_inactive)
    if not (crypto.compare password u.password_hash)
        then reject_password env u
        else (do refuse_expired env u; refuse_under_maintenance env u; open_session u)

  -- An identifier and a password. The comparison with DUMMY_HASH has no effect.
  unfoldable pub login : Text → Text → M Session
  login identifier password = do
    found ← find_by_identifier identifier
    u ← or_raise (live found) (unauthorized invalid_credentials)
    login_to u password

  unfoldable pub login_handler : Caller → Text → Text → M Session
  login_handler caller identifier password =
      on_failure
        (do
          result ← login identifier password
          let id : Option ℕ = elim result.user [ none ↦ none | some u ↦ some u.id ]
          record_audit_entry caller login_action user_entity id
          pure result)
        (record_audit_entry caller login_failed user_entity none)

  abbrev pub holds_token : Text → Option User → Option User
  holds_token token none = none
  holds_token token (some u) =
      if u.is_deleted || not (same_text_option u.refresh_token_hash (some (env.sha256 token)))
      then none
      else some u

  unfoldable pub refresh : Text → M Session
  refresh token = do
    payload ← verify_refresh_token crypto env token
    sub ← or_raise payload (unauthorized invalid_refresh_token)
    found ← find_user (has_id sub)
    u ← or_raise (holds_token token found) (unauthorized stale_refresh_token)
    access_token ← sign_access_token crypto env (claims_of u u.must_change_password)
    refresh_token ← sign_refresh_token crypto env u.id
    update_user u.id (with_token (some (env.sha256 refresh_token)))
    pure (record {
      access_token = access_token;
      refresh_token = refresh_token;
      must_change_password = u.must_change_password;
      user = none;
    })

  unfoldable pub change_password : ℕ → Text → Text → M Session
  change_password user_id current_password new_password = do
    found ← find_user (has_id user_id)
    u ← or_raise (live found) (unauthorized unauthorized_request)
    raise_if (not (crypto.compare current_password u.password_hash)) (unauthorized wrong_password)
    raise_if (crypto.compare new_password u.password_hash) (bad_request same_password)
    password_hash ← hash_password crypto new_password
    refresh_token ← sign_refresh_token crypto env u.id
    now ← new_date env
    update_user u.id (with_password now password_hash (env.sha256 refresh_token) u.status)
    access_token ← sign_access_token crypto env (claims_of u false)
    pure (record {
      access_token = access_token;
      refresh_token = refresh_token;
      must_change_password = false;
      user = none;
    })

  unfoldable pub change_password_handler : Caller → Text → Text → M Session
  change_password_handler caller current_password new_password = do
    u ← require_user caller
    result ← change_password u.id current_password new_password
    record_audit_log caller update user_entity u.id
    pure result

unfoldable pub logout : ℕ → M (Unit {0})
logout user_id = do update_user user_id (with_token none); skip

unfoldable pub logout_handler : Caller → M (Unit {0})
logout_handler caller = do
  u ← require_user caller
  logout u.id
  record_audit_log caller logout_action user_entity u.id
