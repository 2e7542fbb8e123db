-- ===== src/Deliveries/Carrying.antt =====
-- The assignment of deliveries, and properties of the batches' table.
use coffee_traceability_back.Prelude.{ℕ, List}
use coffee_traceability_back.Schema.{CoffeeBatch}
use coffee_traceability_back.World.{Env, modify_trade}
use coffee_traceability_back.World.Keeps.{Keeps}
use coffee_traceability_back.Notifications.Effects.{notify_deliveries_assigned-Keeps}
use coffee_traceability_back.Scope.{Caller}
use coffee_traceability_back.Batches.Carrying.{
  OfBatches, IsCarried, Keeps-elsewhere, carrying_rules,
}
use coffee_traceability_back.Deliveries.{
  add_weight, write_assignment, assign_in_tx, record_grades, assign_deliveries_to_batch,
  assign_handler,
}

module _ {Q : List CoffeeBatch → Type 0} (c : IsCarried Q) (env : Env) where
  add_weight-Carried : (id weight : ℕ) → Keeps (OfBatches Q) (modify_trade (add_weight id weight))
  add_weight-Carried id weight = record { at = λ w h. c.heavier id weight w.db.trade.batches h }

  assign_in_tx-Carried :
      (batch_id : ℕ) (ids : List ℕ) → Keeps (OfBatches Q) (assign_in_tx env batch_id ids)
  unfolding assign_in_tx write_assignment
  assign_in_tx-Carried batch_id ids =
      search (carrying_rules, add_weight-Carried, Keeps-elsewhere) depth 16

  pub assign-Carried :
      (caller : Caller) (batch_id : ℕ) (ids : List ℕ)
      → Keeps (OfBatches Q) (assign_handler env caller batch_id ids)
  unfolding assign_handler assign_deliveries_to_batch record_grades
  assign-Carried caller batch_id ids =
      search (carrying_rules, assign_in_tx-Carried, notify_deliveries_assigned-Keeps) depth 32 fits
        6000
