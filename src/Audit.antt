-- ===== src/Audit.antt =====
-- modules/auditLogs/auditLog.service.ts: one row for each change that a request makes.
pub mod Effects
use coffee_traceability_back.Prelude.{ℕ, Option, none, some, ◌∷◌}
use coffee_traceability_back.Schema.{AuditAction, AuditEntity}
use coffee_traceability_back.World.{M, safely, modify_db}
use coffee_traceability_back.Scope.{Caller}

abbrev user_id_of : Caller → Option ℕ
user_id_of caller = elim caller.user [ none ↦ none | some u ↦ some u.id ]

-- `recordAuditLog`; an entry need not name a row.
unfoldable pub record_audit_entry : Caller → AuditAction → AuditEntity → Option ℕ → M (Unit {0})
record_audit_entry caller action entity_type entity_id = safely (
    modify_db (λ d. record d {
      audit_log =
          record {
            user_id = user_id_of caller;
            action = action;
            entity_type = entity_type;
            entity_id = entity_id;
          }
          ∷ d.audit_log;
    }))

unfoldable pub record_audit_log : Caller → AuditAction → AuditEntity → ℕ → M (Unit {0})
unfolding record_audit_entry
record_audit_log caller action entity_type entity_id =
    record_audit_entry caller action entity_type (some entity_id)
