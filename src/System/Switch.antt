-- ===== src/System/Switch.antt =====
-- The maintenance switch and its gate (`setMaintenance`, `maintenanceGate`).
use coffee_traceability_back.Prelude.{
  ℕ, ◌≡◌, refl, String, Bool, not, ◌||◌, Option, none, some, if◌then◌else◌, inl, inr, Bool-cases,
}
use coffee_traceability_back.Schema.{Accounts}
use coffee_traceability_back.Errors.{ok, err}
use coffee_traceability_back.World.{Env, World}
use coffee_traceability_back.Scope.{Caller, AuthUser, is_super, require_user}
use coffee_traceability_back.System.{
  get_status, or_load_status, set_maintenance, maintenance_gate, maintenance_error, pass_if_allowed,
  access_of, is_maintenance_allowed_for_user, or_load_access, allowed_in,
}

-- Whether the gate lets the caller pass in a state of the switch.
abbrev pub passes : Bool → AuthUser → Accounts → Bool
passes mode u a = not mode || is_super u || allowed_in u.id a

module _ (env : Env) (mode : Bool) (message : Option String) (by_id : ℕ) (w : World) where
  -- What is read right after the switch is set is what was set, though the setting before may have
  -- been in the cache.
  pub get_status-set_maintenance :
      (get_status env (set_maintenance mode message by_id w).1).0
      ≡ ok (record { maintenance_mode = mode; maintenance_message = message })
  unfolding get_status set_maintenance or_load_status
  get_status-set_maintenance = refl

  -- Right after the switch is set, the gate lets a caller pass just if the switch is off, they are a
  -- SUPER_ADMIN, or their row has the flag, where the flag is not in the cache; others get the 503
  -- that says MAINTENANCE.
  pub maintenance_gate-set_maintenance :
      (caller : Caller) (u : AuthUser)
      → caller.user ≡ some u
      → access_of u.id w.access_cache ≡ none
      → (maintenance_gate env caller (set_maintenance mode message by_id w).1).0
        ≡ (if passes mode u w.db.accounts then ok tt else err maintenance_error)
  unfolding maintenance_gate require_user get_status set_maintenance or_load_status pass_if_allowed
      is_maintenance_allowed_for_user or_load_access
  maintenance_gate-set_maintenance caller u known cold = elim (Bool-cases mode) [
    | inr off ↦ rw (known, off) refl
    | inl on ↦ elim (Bool-cases (is_super u)) [
      | inl super ↦ rw (known, on, super) refl
      | inr plain ↦ elim (Bool-cases (allowed_in u.id w.db.accounts)) [
        | inl allowed ↦ rw (known, on, plain, cold, allowed) refl
        | inr refused ↦ rw (known, on, plain, cold, refused) refl
      ]
    ]
  ]
