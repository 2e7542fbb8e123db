-- ===== src/Reports/Inventory.antt =====
-- The warehouse inventory snapshot of modules/reports/inventory.service.ts, and its handler.
-- Weights are hundredths of a kilogram, and a percentage is a number of tenths.
pub mod Load
use coffee_traceability_back.Prelude.{
  true, ℕ, ◌+◌, ◌-◌, ◌*◌, ◌/◌, ◌==◌, ◌&&◌, ltb, String, Bool, Option, none, some, List, [], ◌∷◌,
  length, select, find?, sum_by, map, order_by, if◌then◌else◌,
}
use coffee_traceability_back.Schema.{Text, CoffeeBatch, Warehouse, WarehouseInventory, Trade}
use coffee_traceability_back.World.{Env, World, M, gets_trade, new_date, ◌>>=◌, ◌>>◌}
use coffee_traceability_back.Scope.{Caller, assert_ownership, require_permission}
use coffee_traceability_back.Batches.{is_open}
use coffee_traceability_back.Reports.Statement.{round2}

-- The foreign key leaves no row without a batch, so the code is never missing.
pub record WarehouseInventoryItem : Type 0 where
  pub batch_code : Option Text
  pub weight_kg : ℕ
  pub days_in_storage : ℕ
  pub stored_at : Text

pub record WarehouseInventoryRow : Type 0 where
  pub warehouse_id : ℕ
  pub warehouse_name : String
  pub location : Option String
  pub batches_stored : ℕ
  pub stored_weight_kg : ℕ
  pub capacity_kg : Option ℕ
  pub capacity_used_pct : Option ℕ
  pub items : List WarehouseInventoryItem

pub record WarehouseInventorySnapshot : Type 0 where
  pub rows : List WarehouseInventoryRow
  pub generated_at : Text

abbrev pub ms_per_day : ℕ
ms_per_day = 86_400_000

abbrev code_of : ℕ → List CoffeeBatch → Option Text
code_of id batches = elim (find? (λ (b : CoffeeBatch). b.id == id) batches) [
  | none ↦ none
  | some b ↦ some b.batch_code
]

-- A time in the future makes zero days, as the subtraction does that stops at zero.
abbrev pub item_of : Env → ℕ → Trade → WarehouseInventory → WarehouseInventoryItem
item_of env now t inv = record {
  batch_code = code_of inv.batch_id t.batches;
  weight_kg = round2 true (inv.weight_kg * 100);
  days_in_storage = (now - inv.stored_at) / ms_per_day;
  stored_at = env.to_iso inv.stored_at;
}

-- `Math.round((stored / capacity) * 1000) / 10`, where there is a capacity above zero.
abbrev pub used_pct : ℕ → Option ℕ → Option ℕ
used_pct stored none = none
used_pct stored (some capacity) =
    if ltb 0 capacity then some ((stored * 2_000 + capacity) / (capacity * 2)) else none

-- The active inventory of a warehouse, the oldest row first.
abbrev pub stored_in : ℕ → Trade → List WarehouseInventory
stored_in warehouse_id t =
    order_by (λ (a b : WarehouseInventory). ltb a.stored_at b.stored_at)
      (select (λ r. r.warehouse_id == warehouse_id && is_open r) t.inventory)

abbrev pub inventory_row : Env → ℕ → Trade → Warehouse → WarehouseInventoryRow
inventory_row env now t x =
    let items = map (item_of env now t) (stored_in x.id t) in
    let stored = round2 true (sum_by (λ (i : WarehouseInventoryItem). i.weight_kg) items * 100) in
    record {
      warehouse_id = x.id;
      warehouse_name = x.name;
      location = x.location;
      batches_stored = length items;
      stored_weight_kg = stored;
      capacity_kg = x.capacity_kg;
      capacity_used_pct = used_pct stored x.capacity_kg;
      items = items;
    }

-- `collate` is the order of names in the database.
abbrev pub warehouses_of : (String → String → Bool) → ℕ → Trade → List Warehouse
warehouses_of collate cooperative_id t =
    order_by (λ (a b : Warehouse). collate a.name b.name)
      (select (λ (x : Warehouse). x.cooperative_id == cooperative_id) t.warehouses)

unfoldable pub get_warehouse_inventory_snapshot :
    Env → (String → String → Bool) → ℕ → M WarehouseInventorySnapshot
get_warehouse_inventory_snapshot env collate cooperative_id = do
  now ← new_date env
  gets_trade (λ t. record {
    rows = map (inventory_row env now t) (warehouses_of collate cooperative_id t);
    generated_at = env.to_iso now;
  })

unfoldable pub warehouse_inventory_handler :
    Env → (String → String → Bool) → Caller → ℕ → M WarehouseInventorySnapshot
warehouse_inventory_handler env collate caller cooperative_id = do
  require_permission env ("reports:view" ∷ []) caller
  assert_ownership caller (some cooperative_id)
  get_warehouse_inventory_snapshot env collate cooperative_id
