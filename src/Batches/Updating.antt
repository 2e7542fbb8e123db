-- ===== src/Batches/Updating.antt =====
-- PATCH /batches/:id/status, and the invariants of the coffee's tables.
use coffee_traceability_back.Prelude.{ℕ, ◌≡◌, ◌≢◌, Option, false}
use coffee_traceability_back.Schema.{BatchStatus, sold, same_status}
use coffee_traceability_back.World.{Env, World}
use coffee_traceability_back.World.Keeps.{Keeps, Keeps-guard, keeps_rules}
use coffee_traceability_back.Ledger.Effects.{record_event-Keeps}
use coffee_traceability_back.Notifications.Effects.{notify_batch_status_change-Keeps}
use coffee_traceability_back.Audit.Effects.{record_audit_log-Keeps}
use coffee_traceability_back.Scope.{Caller}
use coffee_traceability_back.Scope.Effects.{
  require_user-Keeps, assert_ownership-Keeps, require_permission-Keeps, farmer_scope_id-Keeps,
}
use coffee_traceability_back.Batches.{
  update_batch_status, assert_batch_in_scope, update_status_handler,
}
use coffee_traceability_back.Custody.Moves.{Sound, Sound-outside, Sound-blind, transition-Keeps}

not_sold : (s : BatchStatus) → same_status s sold ≡ false → s ≢ sold
not_sold s h e = cc (rw e at h)

module _ (env : Env) where
  update_batch_status-Keeps :
      (id : ℕ) (s : BatchStatus) (actor : Option ℕ)
      → Keeps Sound (update_batch_status env id s actor)
  unfolding update_batch_status
  update_batch_status-Keeps id s actor =
      search
        (
          Keeps-guard, keeps_rules, transition-Keeps, not_sold, record_event-Keeps,
          notify_batch_status_change-Keeps, Sound-outside, Sound-blind,
        )
        depth 16

  assert_batch_in_scope-Keeps :
      (caller : Caller) (id : ℕ) → Keeps Sound (assert_batch_in_scope caller id)
  unfolding assert_batch_in_scope
  assert_batch_in_scope-Keeps caller id =
      search (keeps_rules, assert_ownership-Keeps, farmer_scope_id-Keeps) depth 12

  update_status_handler-Keeps :
      (caller : Caller) (id : ℕ) (s : BatchStatus)
      → Keeps Sound (update_status_handler env caller id s)
  unfolding update_status_handler
  update_status_handler-Keeps caller id s =
      search
        (
          keeps_rules, require_permission-Keeps, assert_batch_in_scope-Keeps, require_user-Keeps,
          update_batch_status-Keeps, record_audit_log-Keeps, Sound-outside,
        )
        depth 16

-- A change of status keeps the coffee's tables sound, however it ends.
pub update_status-Sound :
    (env : Env) (caller : Caller) (id : ℕ) (s : BatchStatus) (w : World)
    → Sound w.db
    → Sound (update_status_handler env caller id s w).1.db
update_status-Sound env caller id s w = (update_status_handler-Keeps env caller id s).at w
