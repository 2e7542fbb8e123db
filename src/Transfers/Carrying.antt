-- ===== src/Transfers/Carrying.antt =====
-- The opening and the confirmation of a transfer, and properties of the batches' table.
use coffee_traceability_back.Prelude.{ℕ, List}
use coffee_traceability_back.Schema.{CoffeeBatch}
use coffee_traceability_back.World.{Env}
use coffee_traceability_back.World.Keeps.{Keeps}
use coffee_traceability_back.Notifications.Effects.{
  notify_transfer_initiated-Keeps, notify_transfer_confirmed-Keeps,
}
use coffee_traceability_back.Scope.{Caller}
use coffee_traceability_back.Scope.Effects.{authorize-Keeps}
use coffee_traceability_back.Batches.Carrying.{
  OfBatches, IsCarried, Keeps-elsewhere, carrying_rules,
}
use coffee_traceability_back.Transfers.{
  TransferInput, ConfirmTransferResult, close_sale, confirm_transfer_in_tx, record_sale_event,
  record_transfer_confirmed_events, insert_transfer, initiate_handler, confirm_handler,
}

module _ {Q : List CoffeeBatch → Type 0} (c : IsCarried Q) (env : Env) where
  pub confirm_transfer_in_tx-Carried :
      (id : ℕ) → Keeps (OfBatches Q) (confirm_transfer_in_tx env id)
  unfolding confirm_transfer_in_tx close_sale
  confirm_transfer_in_tx-Carried id = search (carrying_rules, c.moved, Keeps-elsewhere) depth 16

  pub record_transfer_confirmed_events-Carried :
      (result : ConfirmTransferResult)
      → Keeps (OfBatches Q) (record_transfer_confirmed_events env result)
  unfolding record_transfer_confirmed_events record_sale_event
  record_transfer_confirmed_events-Carried result = search carrying_rules depth 12

  pub insert_transfer-Carried :
      (body : TransferInput) (user_id : ℕ) → Keeps (OfBatches Q) (insert_transfer env body user_id)
  unfolding insert_transfer
  insert_transfer-Carried body user_id = search (carrying_rules, Keeps-elsewhere) depth 8

  pub initiate-Carried :
      (caller : Caller) (body : TransferInput)
      → Keeps (OfBatches Q) (initiate_handler env caller body)
  unfolding initiate_handler
  initiate-Carried caller body =
      search
        (carrying_rules, authorize-Keeps, insert_transfer-Carried, notify_transfer_initiated-Keeps)
        depth 20 fits 6000

  pub confirm-Carried :
      (caller : Caller) (id : ℕ) → Keeps (OfBatches Q) (confirm_handler env caller id)
  unfolding confirm_handler
  confirm-Carried caller id =
      search
        (
          carrying_rules, authorize-Keeps, confirm_transfer_in_tx-Carried,
          record_transfer_confirmed_events-Carried, notify_transfer_confirmed-Keeps,
        )
        depth 24 fits 6000
