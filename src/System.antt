-- ===== src/System.antt =====
-- modules/system/system.service.ts, middleware/maintenance.ts and the routes of
-- modules/system/system.routes.ts: the maintenance switch, its caches and its gate.
pub mod Effects
pub mod Switch
use coffee_traceability_back.Prelude.{
  ℕ, ◌+◌, String, Bool, true, false, not, Option, none, some, List, [], ◌∷◌, ◌==◌, ltb, ◌&&◌, ◌||◌,
  if◌then◌else◌, find?, or_else,
}
use coffee_traceability_back.Errors.{
  Failure, ok, api, new_error, with_code, under_maintenance, maintenance, unauthorized,
  unauthorized_request,
}
use coffee_traceability_back.Schema.{
  SystemSetting, Accounts, User, maintenance_toggle, system_setting,
}
use coffee_traceability_back.World.{
  Env, Db, World, M, SystemStatus, pure, gets, gets_accounts, ◌>>=◌, ◌>>◌, raise_if, modify_db,
  new_date,
}
use coffee_traceability_back.Scope.{Caller, AuthUser, is_super, require_user, require_permission}
use coffee_traceability_back.Audit.{record_audit_log}
use coffee_traceability_back.Notifications.{notify_system_event}

-- SETTING_TTL_MS and USER_ACCESS_TTL_MS
abbrev pub setting_ttl_ms : ℕ
setting_ttl_ms = 10_000

abbrev pub user_access_ttl_ms : ℕ
user_access_ttl_ms = 10_000

-- `loadSetting`, of the row with the identifier `singleton`, if it is there.
abbrev pub status_of : Option SystemSetting → SystemStatus
status_of none = record { maintenance_mode = false; maintenance_message = none }
status_of (some s) = record {
  maintenance_mode = s.maintenance_mode;
  maintenance_message = s.maintenance_message;
}

abbrev set_setting_cache : Option (SystemStatus × ℕ) → M (Unit {0})
set_setting_cache c w = (ok tt, record w { setting_cache = c })

abbrev pub fresh_status : Option (SystemStatus × ℕ) → ℕ → Option SystemStatus
fresh_status none now = none
fresh_status (some (value, expires_at)) now = if ltb now expires_at then some value else none

-- The entries of the map from users to their access.
abbrev pub access_of : ℕ → List (ℕ × (Bool × ℕ)) → Option (Bool × ℕ)
access_of id [] = none
access_of id (e ∷ es) = if e.0 == id then some e.1 else access_of id es

abbrev pub without_access : ℕ → List (ℕ × (Bool × ℕ)) → List (ℕ × (Bool × ℕ))
without_access id [] = []
without_access id (e ∷ es) = let rest = without_access id es in if e.0 == id then rest else e ∷ rest

abbrev pub fresh_access : Option (Bool × ℕ) → ℕ → Option Bool
fresh_access none now = none
fresh_access (some (allowed, expires_at)) now = if ltb now expires_at then some allowed else none

abbrev set_access : ℕ → Bool × ℕ → M (Unit {0})
set_access id e w = (ok tt, record w { access_cache = (id, e) ∷ without_access id w.access_cache })

-- The flag of the user's row; a user who is not there has no access.
abbrev pub allowed_in : ℕ → Accounts → Bool
allowed_in id a = elim (find? (λ (u : User). u.id == id) a.users) [
  | none ↦ false
  | some u ↦ u.maintenance_allowed
]

-- `invalidateUserAccess`
unfoldable pub invalidate_user_access : ℕ → M (Unit {0})
invalidate_user_access id w = (ok tt, record w { access_cache = without_access id w.access_cache })

module _ (env : Env) where
  or_load_status : ℕ → Option SystemStatus → M SystemStatus
  or_load_status now (some value) = pure value
  or_load_status now none = do
    value ← gets (λ w. status_of w.db.setting)
    set_setting_cache (some (value, now + setting_ttl_ms))
    pure value

  unfoldable pub get_status : M SystemStatus
  unfolding or_load_status
  get_status = do
    now ← new_date env
    cached ← gets (λ w. fresh_status w.setting_cache now)
    or_load_status now cached

  or_load_access : ℕ → ℕ → Option Bool → M Bool
  or_load_access user_id now (some allowed) = pure allowed
  or_load_access user_id now none = do
    allowed ← gets_accounts (allowed_in user_id)
    set_access user_id (allowed, now + user_access_ttl_ms)
    pure allowed

  unfoldable pub is_maintenance_allowed_for_user : ℕ → M Bool
  unfolding or_load_access
  is_maintenance_allowed_for_user user_id = do
    now ← new_date env
    cached ← gets (λ w. fresh_access (access_of user_id w.access_cache) now)
    or_load_access user_id now cached

-- `setMaintenance`: the row is created or rewritten, and the cache is dropped.
unfoldable pub set_maintenance : Bool → Option String → ℕ → M SystemStatus
set_maintenance mode message updated_by_id = do
  let row : SystemSetting = record {
    maintenance_mode = mode;
    maintenance_message = message;
    updated_by_id = some updated_by_id;
  }
  modify_db (λ d. record d { setting = some row })
  set_setting_cache none
  pure (status_of (some row))

-- The 503 that carries the code MAINTENANCE.
abbrev pub maintenance_error : Failure
maintenance_error = api (with_code maintenance (new_error 503 under_maintenance))

abbrev event_title : SystemStatus → String
event_title s = if s.maintenance_mode then "System entering maintenance" else "System back online"

abbrev event_message : SystemStatus → String
event_message s =
    if s.maintenance_mode
    then or_else s.maintenance_message
        "The system is temporarily unavailable while maintenance is carried out."
    else "Maintenance is complete and the system is fully available again."

module _ (env : Env) where
  -- The gate for a caller without the privilege, while the switch is on.
  unfoldable pub pass_if_allowed : ℕ → M (Unit {0})
  pass_if_allowed user_id = do
    allowed ← is_maintenance_allowed_for_user env user_id
    raise_if (not allowed) maintenance_error

  unfoldable pub maintenance_gate : Caller → M (Unit {0})
  maintenance_gate caller = do
    u ← require_user caller
    status ← get_status env
    if not status.maintenance_mode || is_super u then pure tt else pass_if_allowed u.id

  -- The row `singleton` stands as the number 0.
  pub maintenance_handler : Caller → Bool → Option String → M SystemStatus
  maintenance_handler caller mode message = do
    require_permission env ("system:maintenance" ∷ []) caller
    u ← require_user caller
    status ← set_maintenance mode message u.id
    record_audit_log caller maintenance_toggle system_setting 0
    notify_system_event env (event_title status) (event_message status) (some u.id)
    pure status
