-- ===== src/Warehouses/Isolation.antt =====
-- POST /warehouses/store and the removal, for a caller of another cooperative.
use coffee_traceability_back.Prelude.{ℕ, ◌≡◌, some}
use coffee_traceability_back.Schema.{CoffeeBatch, WarehouseInventory, Trade}
use coffee_traceability_back.World.{Env}
use coffee_traceability_back.World.Ensures.{Ensures}
use coffee_traceability_back.Scope.{Caller}
use coffee_traceability_back.Scope.Isolation.{IsForeign, Same, isolation_rules}
use coffee_traceability_back.Batches.{find_live, find_batch}
use coffee_traceability_back.Warehouses.{row_has_id, StoreInput, store_handler, remove_handler}
use coffee_traceability_back.Prelude.{find?}

module _ (env : Env) (caller : Caller) (t : Trade) where
  pub store_handler-Same :
      (body : StoreInput)
      (far : (b : CoffeeBatch)
        → find_live body.batch_id t ≡ some b
        → IsForeign caller b.cooperative_id)
      → Ensures t (Same t) (store_handler env caller body)
  unfolding store_handler
  store_handler-Same body far = search (isolation_rules, far) depth 16 fits 4000

  pub remove_handler-Same :
      (id : ℕ)
      (far : (r : WarehouseInventory) (b : CoffeeBatch)
        → find? (row_has_id id) t.inventory ≡ some r
        → find_batch r.batch_id t ≡ some b
        → IsForeign caller b.cooperative_id)
      → Ensures t (Same t) (remove_handler env caller id)
  unfolding remove_handler
  remove_handler-Same id far = search (isolation_rules, far) depth 16 fits 4000
