-- ===== src/Warehouses/Handling.antt =====
-- POST /warehouses/store and the removal, and the invariants of the coffee's tables.
use coffee_traceability_back.Prelude.{ℕ, ◌≡◌, refl, sym, subst, some, arith, ◌≤◌}
use coffee_traceability_back.Schema.{CoffeeBatch, Warehouse, Trade}
use coffee_traceability_back.World.{Env, World, modify_trade}
use coffee_traceability_back.World.Keeps.{Keeps, keeps_rules}
use coffee_traceability_back.World.Ensures.{
  Ensures, Ensures-bind, Ensures-read, Ensures-found, Ensures-then, Ensures-transaction,
}
use coffee_traceability_back.Ledger.Effects.{record_event-Keeps}
use coffee_traceability_back.Notifications.Effects.{notify_warehouse_stored-Keeps}
use coffee_traceability_back.Scope.{Caller}
use coffee_traceability_back.Scope.Effects.{
  require_user-Keeps, assert_ownership-Keeps, require_permission-Keeps,
}
use coffee_traceability_back.Batches.{find_live}
use coffee_traceability_back.Custody.{IsSound}
use coffee_traceability_back.Audit.Effects.{record_audit_log-Keeps}
use coffee_traceability_back.Custody.Moves.{Sound, Sound-outside, Sound-blind}
use coffee_traceability_back.Custody.Rows.{
  shut-Single, shut-Stored, shut-Covered, load_of-shut-le, All-of_live,
}
use coffee_traceability_back.Warehouses.{
  StoreInput, find_warehouse, row_has_id, close_row, store_in_tx, store_and_announce, store_handler,
  remove_handler,
}
use coffee_traceability_back.Warehouses.Storing.{StillHolds, store_in_tx-Sound}

module _ (t : Trade) (h : IsSound t) where
  -- Rows read just before the transaction still hold in it.
  read_just_now :
      (warehouse : Warehouse) (batch : CoffeeBatch) (warehouse_id batch_id : ℕ)
      → find_warehouse warehouse_id t ≡ some warehouse
      → find_live batch_id t ≡ some batch
      → StillHolds warehouse batch warehouse_id batch_id t
  read_just_now warehouse batch warehouse_id batch_id found_x found_b = record {
    capacity = λ x e. ground (arith, found_x, e);
    weight =
        All-of_live (λ b. batch.total_weight_kg ≤ b.total_weight_kg) batch_id t.batches h.unique
          found_b (omega arith);
  }

  store_in_tx-Ensures :
      (env : Env) (warehouse : Warehouse) (batch : CoffeeBatch) (warehouse_id batch_id stored : ℕ)
      → find_warehouse warehouse_id t ≡ some warehouse
      → find_live batch_id t ≡ some batch
      → Ensures t IsSound (store_in_tx env warehouse batch warehouse_id batch_id stored)
  store_in_tx-Ensures env warehouse batch warehouse_id batch_id stored found_x found_b = record {
    at = λ w same.
        store_in_tx-Sound env warehouse batch warehouse_id batch_id stored w
          (subst (StillHolds warehouse batch warehouse_id batch_id) (sym same)
            (read_just_now warehouse batch warehouse_id batch_id found_x found_b))
          (subst IsSound (sym same) h);
  }

  module _ (env : Env) (caller : Caller) (body : StoreInput) where
    store_and_announce-Ensures :
        (warehouse : Warehouse) (batch : CoffeeBatch) (user_id : ℕ)
        → find_warehouse body.warehouse_id t ≡ some warehouse
        → find_live body.batch_id t ≡ some batch
        → Ensures t IsSound (store_and_announce env caller body warehouse batch user_id)
    unfolding store_and_announce
    store_and_announce-Ensures warehouse batch user_id found_x found_b =
        search
          (
            Ensures-then, Ensures-transaction, store_in_tx-Ensures, h, keeps_rules,
            record_event-Keeps, notify_warehouse_stored-Keeps, record_audit_log-Keeps,
            Sound-outside, Sound-blind,
          )
          depth 12

    store_handler-Ensures : Ensures t IsSound (store_handler env caller body)
    unfolding store_handler
    store_handler-Ensures =
        search
          (
            Ensures-read, Ensures-found, Ensures-bind, h, require_permission-Keeps,
            assert_ownership-Keeps, require_user-Keeps, store_and_announce-Ensures,
          )
          depth 16

-- A store keeps the coffee's tables sound, however it ends.
pub store_handler-Sound :
    (env : Env) (caller : Caller) (body : StoreInput) (w : World)
    → Sound w.db
    → Sound (store_handler env caller body w).1.db
store_handler-Sound env caller body w h =
    (store_handler-Ensures w.db.trade h env caller body).at w refl

close_row-IsSound : (id now : ℕ) (t : Trade) → IsSound t → IsSound (close_row id now t)
close_row-IsSound id now t h = record {
  unique = h.unique;
  stored = shut-Stored (row_has_id id) now t.batches t.inventory h.stored;
  single = shut-Single (row_has_id id) now t.inventory h.single;
  capacity = λ k x c found cap.
      omega (arith, h.capacity k x c found cap, load_of-shut-le (row_has_id id) now k t.inventory);
  covered = shut-Covered (row_has_id id) now t.batches t.inventory h.covered;
  processed = h.processed;
  sales = h.sales;
  totals = h.totals;
  unique_deliveries = h.unique_deliveries;
}

close-Keeps : (id now : ℕ) → Keeps Sound (modify_trade (close_row id now))
close-Keeps id now = record { at = λ w h. close_row-IsSound id now w.db.trade h }

remove_handler-Keeps :
    (env : Env) (caller : Caller) (id : ℕ) → Keeps Sound (remove_handler env caller id)
unfolding remove_handler
remove_handler-Keeps env caller id =
    search
      (
        keeps_rules, require_permission-Keeps, assert_ownership-Keeps, close-Keeps,
        record_audit_log-Keeps, Sound-outside,
      )
      depth 16

-- A removal keeps the coffee's tables sound, however it ends.
pub remove_handler-Sound :
    (env : Env) (caller : Caller) (id : ℕ) (w : World)
    → Sound w.db
    → Sound (remove_handler env caller id w).1.db
remove_handler-Sound env caller id w = (remove_handler-Keeps env caller id).at w
