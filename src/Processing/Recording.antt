-- ===== src/Processing/Recording.antt =====
-- POST /processing, and the invariants of the coffee's tables.
use coffee_traceability_back.Prelude.{ℕ, ◌∷◌, All-imp, arith}
use coffee_traceability_back.Schema.{CoffeeBatch, ProcessingRecord, Trade, in_processing}
use coffee_traceability_back.World.{Env, World, modify_trade}
use coffee_traceability_back.World.Keeps.{Keeps, keeps_rules}
use coffee_traceability_back.Ledger.Effects.{record_event-Keeps}
use coffee_traceability_back.Notifications.Effects.{notify_processing_recorded-Keeps}
use coffee_traceability_back.Audit.Effects.{record_audit_log-Keeps}
use coffee_traceability_back.Scope.{Caller}
use coffee_traceability_back.Scope.Effects.{
  require_user-Keeps, assert_ownership-Keeps, require_permission-Keeps,
}
use coffee_traceability_back.Custody.{IsSound, RecordedIn}
use coffee_traceability_back.Custody.Moves.{Sound, Sound-outside, Sound-blind, transition-Keeps}
use coffee_traceability_back.Processing.{
  ProcessingInput, insert_record, start_processing, record_processing, create_handler,
}

recorded-IsSound :
    (r : ProcessingRecord) (t : Trade)
    → IsSound t
    → IsSound (record t { processing_records = r ∷ t.processing_records })
recorded-IsSound r t h = record {
  unique = h.unique;
  stored = h.stored;
  single = h.single;
  capacity = h.capacity;
  covered = h.covered;
  processed =
      All-imp (RecordedIn t.processing_records) _ t.batches
        (λ b old claims. ground (arith, old claims)) h.processed;
  sales = h.sales;
  totals = h.totals;
  unique_deliveries = h.unique_deliveries;
}

module _ (env : Env) where
  insert-Keeps :
      (r : ProcessingRecord)
      → Keeps Sound (modify_trade (λ t. record t { processing_records = r ∷ t.processing_records }))
  insert-Keeps r = record { at = λ w h. recorded-IsSound r w.db.trade h }

  start_processing-Keeps : (b : CoffeeBatch) → Keeps Sound (start_processing env b)
  unfolding start_processing
  start_processing-Keeps b =
      search (keeps_rules, transition-Keeps env b.id in_processing (λ e. cc)) depth 8

  record_processing-Keeps :
      (b : CoffeeBatch) (body : ProcessingInput) (user_id : ℕ)
      → Keeps Sound (record_processing env b body user_id)
  unfolding record_processing insert_record
  record_processing-Keeps b body user_id =
      search (keeps_rules, insert-Keeps, start_processing-Keeps) depth 12

  create_handler-Keeps :
      (caller : Caller) (body : ProcessingInput) → Keeps Sound (create_handler env caller body)
  unfolding create_handler
  create_handler-Keeps caller body =
      search
        (
          keeps_rules, require_permission-Keeps, assert_ownership-Keeps, require_user-Keeps,
          record_processing-Keeps, record_event-Keeps, notify_processing_recorded-Keeps,
          record_audit_log-Keeps, Sound-outside, Sound-blind,
        )
        depth 24

-- A processing run keeps the coffee's tables sound, however it ends.
pub record_run-Sound :
    (env : Env) (caller : Caller) (body : ProcessingInput) (w : World)
    → Sound w.db
    → Sound (create_handler env caller body w).1.db
record_run-Sound env caller body w = (create_handler-Keeps env caller body).at w
