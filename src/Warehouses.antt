-- ===== src/Warehouses.antt =====
-- modules/warehouses/warehouse.routes.ts: what is stored where. A weight in a request is a number of
-- milligrams, and `kg` rounds it to the hundredths of a kilogram in which the tables keep weights; on
-- these the rounding of the source does nothing.
pub mod Carrying
pub mod Isolation
pub mod Storing
pub mod Handling
pub mod Granting
use coffee_traceability_back.Prelude.{
  order_desc, ℕ, ◌+◌, ◌/◌, String, Bool, true, false, Option, none, some, List, [], ◌∷◌, ◌==◌, ◌&&◌,
  ltb, if◌then◌else◌, find?, any, select, update_where, sum_by, is_some,
}
use coffee_traceability_back.Prelude.Int.{pos, sub_ℕ, ltb_ℤ}
use coffee_traceability_back.Errors.{
  not_found, bad_request, warehouse_not_found, batch_not_found, already_stored, more_than_batch,
  not_enough_space, inventory_not_found, already_checked_out,
}
use coffee_traceability_back.Schema.{
  Warehouse, WarehouseInventory, CoffeeBatch, Trade, in_storage, warehouse_stored, Payload,
  AuditAction, inventory_entity, warehouse_entity,
}
use coffee_traceability_back.World.{
  Env, M, pure, gets_trade, or_raise, with_transaction, ◌>>=◌, ◌>>◌, raise_if, modify_trade,
  new_date, new_id,
}
use coffee_traceability_back.Ledger.{record_event}
use coffee_traceability_back.Notifications.{notify_warehouse_stored}
use coffee_traceability_back.Audit.{record_audit_log}
use coffee_traceability_back.Scope.{
  Caller, require_user, assert_ownership, require_permission, scope_cooperative_id,
}
use coffee_traceability_back.Batches.{
  find_live, find_batch, transition_batch_status, is_open, holds, removed,
}

-- `Math.round(value * 100) / 100`, from milligrams to hundredths of a kilogram.
unfoldable pub kg : ℕ → ℕ
kg milligrams = (milligrams + 5_000) / 10_000

abbrev pub find_warehouse : ℕ → Trade → Option Warehouse
find_warehouse id t = find? (λ (x : Warehouse). x.id == id) t.warehouses

abbrev pub weight_in : ℕ → WarehouseInventory → ℕ
weight_in warehouse_id r = if r.warehouse_id == warehouse_id && is_open r then r.weight_kg else 0

-- `aggregate({ where: { warehouseId, removedAt: null }, _sum: { weightKg } })`
abbrev pub load_of : ℕ → List WarehouseInventory → ℕ
load_of warehouse_id rows = sum_by (weight_in warehouse_id) rows

-- Whether the weight exceeds `free`, the capacity less the load, which may be negative.
-- No capacity is no limit.
abbrev pub overfills : ℕ → Option ℕ → ℕ → Bool
overfills stored none load = false
overfills stored (some capacity) load = ltb_ℤ (sub_ℕ capacity load) (pos stored)

pub record StoreInput : Type 0 where
  pub warehouse_id : ℕ
  pub batch_id : ℕ
  pub weight_mg : ℕ

abbrev pub row_has_id : ℕ → WarehouseInventory → Bool
row_has_id id r = r.id == id

abbrev pub close_row : ℕ → ℕ → Trade → Trade
close_row inventory_id now t = record t {
  inventory = update_where (row_has_id inventory_id) (removed now) t.inventory;
}

module _ (env : Env) where
  insert_inventory : ℕ → ℕ → ℕ → M WarehouseInventory
  insert_inventory warehouse_id batch_id weight = do
    id ← new_id env
    stored_at ← new_date env
    let row : WarehouseInventory = record {
      id = id;
      warehouse_id = warehouse_id;
      batch_id = batch_id;
      weight_kg = weight;
      stored_at = stored_at;
      removed_at = none;
    }
    modify_trade (λ t. record t { inventory = row ∷ t.inventory })
    pure row

  enter_storage : ℕ → ℕ → ℕ → M WarehouseInventory
  enter_storage warehouse_id batch_id weight = do
    transition_batch_status env batch_id in_storage
    insert_inventory warehouse_id batch_id weight

  -- The transaction of a store, over the warehouse and the batch that were read before it.
  pub store_in_tx : Warehouse → CoffeeBatch → ℕ → ℕ → ℕ → M WarehouseInventory
  store_in_tx warehouse batch warehouse_id batch_id stored_weight = do
    already ← gets_trade (λ t. any (holds batch_id) t.inventory)
    raise_if already (bad_request already_stored)
    raise_if (ltb batch.total_weight_kg stored_weight) (bad_request more_than_batch)
    current_load ← gets_trade (λ t. load_of warehouse_id t.inventory)
    raise_if (overfills stored_weight warehouse.capacity_kg current_load)
        (bad_request not_enough_space)
    enter_storage warehouse_id batch_id stored_weight

  store_and_announce : Caller → StoreInput → Warehouse → CoffeeBatch → ℕ → M WarehouseInventory
  unfolding kg
  store_and_announce caller body warehouse batch user_id = do
    let stored_weight = kg body.weight_mg
    inventory ←
        with_transaction (store_in_tx warehouse batch body.warehouse_id body.batch_id stored_weight)
    record_event env body.batch_id warehouse_stored (Payload.stored body.warehouse_id stored_weight)
    notify_warehouse_stored env batch.cooperative_id batch.batch_code warehouse.name stored_weight
        (some user_id)
    record_audit_log caller AuditAction.create inventory_entity inventory.id
    pure inventory

  pub store_handler : Caller → StoreInput → M WarehouseInventory
  store_handler caller body = do
    require_permission env ("warehouse:store" ∷ []) caller
    found_warehouse ← gets_trade (find_warehouse body.warehouse_id)
    found_batch ← gets_trade (find_live body.batch_id)
    warehouse ← or_raise found_warehouse (not_found warehouse_not_found)
    batch ← or_raise found_batch (not_found batch_not_found)
    assert_ownership caller (some warehouse.cooperative_id)
    assert_ownership caller (some batch.cooperative_id)
    u ← require_user caller
    store_and_announce caller body warehouse batch u.id

  pub remove_handler : Caller → ℕ → M WarehouseInventory
  remove_handler caller inventory_id = do
    require_permission env ("warehouse:remove" ∷ []) caller
    found ← gets_trade (λ t. find? (row_has_id inventory_id) t.inventory)
    inventory ← or_raise found (not_found inventory_not_found)
    owner ← gets_trade (find_batch inventory.batch_id)
    batch ← or_raise owner (not_found inventory_not_found)
    assert_ownership caller (some batch.cooperative_id)
    raise_if (is_some inventory.removed_at) (bad_request already_checked_out)
    now ← new_date env
    modify_trade (close_row inventory_id now)
    record_audit_log caller AuditAction.update inventory_entity inventory.id
    pure (record inventory { removed_at = some now })

  pub create_handler : Caller → ℕ → String → Option String → Option ℕ → M Warehouse
  create_handler caller cooperative_id name location capacity_kg = do
    require_permission env ("warehouse:create" ∷ []) caller
    assert_ownership caller (some cooperative_id)
    id ← new_id env
    let row : Warehouse = record {
      id = id;
      cooperative_id = cooperative_id;
      name = name;
      location = location;
      capacity_kg = capacity_kg;
    }
    modify_trade (λ t. record t { warehouses = row ∷ t.warehouses })
    record_audit_log caller AuditAction.create warehouse_entity row.id
    pure row

  -- The open rows of the warehouses in scope; `none` is an absent filter.
  abbrev is_current : Option ℕ → Option ℕ → Trade → WarehouseInventory → Bool
  is_current cooperative_id warehouse_id t r =
      is_open r
      && elim (find_warehouse r.warehouse_id t) [
        | none ↦ false
        | some x ↦ elim cooperative_id [ none ↦ true | some c ↦ x.cooperative_id == c ]
      ]
      && elim warehouse_id [ none ↦ true | some id ↦ r.warehouse_id == id ]

  pub list_inventory : Caller → Option ℕ → Option ℕ → M (List WarehouseInventory)
  list_inventory caller requested warehouse_id = do
    require_permission env ("warehouse:view" ∷ []) caller
    cooperative_id ← scope_cooperative_id caller requested
    gets_trade (λ t.
        order_desc (λ (r : WarehouseInventory). r.stored_at)
          (select (is_current cooperative_id warehouse_id t) t.inventory))

  -- No cooperative is no filter.
  pub list_handler : Caller → Option ℕ → M (List Warehouse)
  list_handler caller requested = do
    require_permission env ("warehouse:view" ∷ []) caller
    cooperative_id ← scope_cooperative_id caller requested
    gets_trade (λ t.
        select
          (λ (x : Warehouse). elim cooperative_id [ none ↦ true | some c ↦ x.cooperative_id == c ])
          t.warehouses)
