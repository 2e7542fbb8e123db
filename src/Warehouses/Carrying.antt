-- ===== src/Warehouses/Carrying.antt =====
-- POST /warehouses/store and the removal, and properties of the batches' table.
use coffee_traceability_back.Prelude.{ℕ, List}
use coffee_traceability_back.Schema.{CoffeeBatch, Warehouse}
use coffee_traceability_back.World.{Env}
use coffee_traceability_back.World.Keeps.{Keeps}
use coffee_traceability_back.Notifications.Effects.{notify_warehouse_stored-Keeps}
use coffee_traceability_back.Scope.{Caller}
use coffee_traceability_back.Batches.Carrying.{
  OfBatches, IsCarried, Keeps-elsewhere, carrying_rules,
}
use coffee_traceability_back.Warehouses.{
  StoreInput, insert_inventory, enter_storage, store_in_tx, store_and_announce, store_handler,
  remove_handler,
}

module _ {Q : List CoffeeBatch → Type 0} (c : IsCarried Q) (env : Env) where
  store_in_tx-Carried :
      (warehouse : Warehouse) (batch : CoffeeBatch) (warehouse_id batch_id weight : ℕ)
      → Keeps (OfBatches Q) (store_in_tx env warehouse batch warehouse_id batch_id weight)
  unfolding store_in_tx enter_storage insert_inventory
  store_in_tx-Carried warehouse batch warehouse_id batch_id weight =
      search (carrying_rules, c.moved, Keeps-elsewhere) depth 16

  pub store-Carried :
      (caller : Caller) (body : StoreInput) → Keeps (OfBatches Q) (store_handler env caller body)
  unfolding store_handler store_and_announce
  store-Carried caller body =
      search (carrying_rules, store_in_tx-Carried, notify_warehouse_stored-Keeps) depth 24 fits 6000

  pub remove-Carried :
      (caller : Caller) (id : ℕ) → Keeps (OfBatches Q) (remove_handler env caller id)
  unfolding remove_handler
  remove-Carried caller id = search (carrying_rules, Keeps-elsewhere) depth 16
