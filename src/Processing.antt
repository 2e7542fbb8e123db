-- ===== src/Processing.antt =====
-- modules/processing/processing.routes.ts: a processing run, which moves a new batch on.
pub mod Carrying
pub mod Isolation
pub mod Recording
use coffee_traceability_back.Prelude.{
  order_desc, ℕ, String, Option, some, List, [], ◌∷◌, select, ◌==◌,
}
use coffee_traceability_back.Errors.{
  not_found, bad_request, batch_not_found, starts_before_registration,
}
use coffee_traceability_back.Schema.{
  ProcessingMethod, ProcessingRecord, CoffeeBatch, registered, in_processing, same_status,
  processing_completed, Payload, AuditAction, processing_entity,
}
use coffee_traceability_back.World.{
  Env, M, pure, gets_trade, or_raise, with_transaction, ◌>>=◌, ◌>>◌, raise_if, when, modify_trade,
  new_date, new_id,
}
use coffee_traceability_back.Dates.{is_before_day}
use coffee_traceability_back.Ledger.{record_event}
use coffee_traceability_back.Notifications.{notify_processing_recorded}
use coffee_traceability_back.Audit.{record_audit_log}
use coffee_traceability_back.Scope.{Caller, require_user, assert_ownership, require_permission}
use coffee_traceability_back.Batches.{find_live, transition_batch_status}

-- The validated body of the request.
pub record ProcessingInput : Type 0 where
  pub batch_id : ℕ
  pub method : ProcessingMethod
  pub start_date : ℕ
  pub end_date : Option ℕ
  pub output_weight_kg : Option ℕ
  pub quality_notes : Option String

module _ (env : Env) where
  insert_record : ProcessingInput → ℕ → M ProcessingRecord
  insert_record body user_id = do
    id ← new_id env
    now ← new_date env
    let row : ProcessingRecord = record {
      id = id;
      batch_id = body.batch_id;
      method = body.method;
      processed_by_id = some user_id;
      start_date = body.start_date;
      end_date = body.end_date;
      output_weight_kg = body.output_weight_kg;
      quality_notes = body.quality_notes;
      created_at = now;
    }
    modify_trade (λ t. record t { processing_records = row ∷ t.processing_records })
    pure row

  start_processing : CoffeeBatch → M (Unit {0})
  start_processing batch = do transition_batch_status env batch.id in_processing; pure tt

  -- The transaction: the record, and the move out of REGISTERED that it allows.
  pub record_processing : CoffeeBatch → ProcessingInput → ℕ → M ProcessingRecord
  unfolding insert_record start_processing
  record_processing batch body user_id = do
    created ← insert_record body user_id
    when (same_status batch.status registered) (start_processing batch)
    pure created

  pub create_handler : Caller → ProcessingInput → M ProcessingRecord
  create_handler caller body = do
    require_permission env ("processing:create" ∷ []) caller
    found ← gets_trade (find_live body.batch_id)
    batch ← or_raise found (not_found batch_not_found)
    assert_ownership caller (some batch.cooperative_id)
    u ← require_user caller
    raise_if (is_before_day body.start_date batch.created_at)
        (bad_request starts_before_registration)
    row ← with_transaction (record_processing batch body u.id)
    record_event env body.batch_id processing_completed
        (Payload.processing body.method body.start_date)
    notify_processing_recorded env batch.cooperative_id batch.batch_code body.method (some u.id)
    record_audit_log caller AuditAction.create processing_entity row.id
    pure row

  pub list_handler : Caller → ℕ → M (List ProcessingRecord)
  list_handler caller batch_id = do
    require_permission env ("processing:view" ∷ []) caller
    found ← gets_trade (find_live batch_id)
    owning ← or_raise found (not_found batch_not_found)
    assert_ownership caller (some owning.cooperative_id)
    gets_trade (λ t.
        order_desc (λ (r : ProcessingRecord). r.start_date)
          (select (λ (r : ProcessingRecord). r.batch_id == batch_id) t.processing_records))
