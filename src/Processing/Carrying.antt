-- ===== src/Processing/Carrying.antt =====
-- POST /processing, and properties of the batches' table.
use coffee_traceability_back.Prelude.{List}
use coffee_traceability_back.Schema.{CoffeeBatch}
use coffee_traceability_back.World.{Env}
use coffee_traceability_back.World.Keeps.{Keeps}
use coffee_traceability_back.Notifications.Effects.{notify_processing_recorded-Keeps}
use coffee_traceability_back.Scope.{Caller}
use coffee_traceability_back.Batches.Carrying.{
  OfBatches, IsCarried, Keeps-elsewhere, carrying_rules,
}
use coffee_traceability_back.Processing.{
  ProcessingInput, insert_record, start_processing, record_processing, create_handler,
}

module _ {Q : List CoffeeBatch → Type 0} (c : IsCarried Q) (env : Env) where
  pub record_run-Carried :
      (caller : Caller) (body : ProcessingInput)
      → Keeps (OfBatches Q) (create_handler env caller body)
  unfolding create_handler record_processing insert_record start_processing
  record_run-Carried caller body =
      search (carrying_rules, c.moved, Keeps-elsewhere, notify_processing_recorded-Keeps) depth 24
        fits 6000
