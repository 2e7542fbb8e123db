-- ===== src/Audit/Effects.antt =====
-- The write of an audit entry.
use coffee_traceability_back.Prelude.{List, ℕ, Option, some, refl}
use coffee_traceability_back.Schema.{AuditAction, AuditEntity, AuditEntry}
use coffee_traceability_back.World.{Db}
use coffee_traceability_back.World.Keeps.{Keeps, IsOutside, Keeps-modify_db, Keeps-safely}
use coffee_traceability_back.Audit.{record_audit_log, record_audit_entry}
use coffee_traceability_back.Scope.{Caller}

-- A property of the database that does not look at the audit log.
pub record IsUnlogged (P : Db → Type 0) : Type 0 where
  pub audit_log : (d : Db) (rows : List AuditEntry) → P d → P (record d { audit_log = rows })

pub unlogged : {P : Db → Type 0} → IsOutside P → IsUnlogged P
unlogged out = record { audit_log = λ d rows h. out.carry d (record d { audit_log = rows }) refl h }

pub record_audit_entry-Keeps :
    {P : Db → Type 0} (log : IsUnlogged P) (caller : Caller) (action : AuditAction)
    (e : AuditEntity) (id : Option ℕ)
    → Keeps P (record_audit_entry caller action e id)
unfolding record_audit_entry
record_audit_entry-Keeps log caller action e id =
    Keeps-safely _ (Keeps-modify_db _ λ d h. log.audit_log d _ h)

pub record_audit_log-Keeps :
    {P : Db → Type 0} (out : IsOutside P) (caller : Caller) (action : AuditAction) (e : AuditEntity)
    (id : ℕ)
    → Keeps P (record_audit_log caller action e id)
unfolding record_audit_log
record_audit_log-Keeps out caller action e id =
    record_audit_entry-Keeps (unlogged out) caller action e (some id)

pub record_audit-Keeps :
    {P : Db → Type 0} (log : IsUnlogged P) (caller : Caller) (action : AuditAction)
    (e : AuditEntity) (id : ℕ)
    → Keeps P (record_audit_log caller action e id)
unfolding record_audit_log
record_audit-Keeps log caller action e id = record_audit_entry-Keeps log caller action e (some id)
