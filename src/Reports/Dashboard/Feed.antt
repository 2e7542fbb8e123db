-- ===== src/Reports/Dashboard/Feed.antt =====
-- The feed of the dashboard: `getActivityFeed`. The text of an entry is a constructor of `Activity` with
-- the values that it quotes, and the time is the number whose text the code sorts by.
use coffee_traceability_back.Prelude.{
  ℕ, ◌==◌, ◌&&◌, String, Option, none, some, List, ◌++◌, select, find?, map, order_desc, take_rows,
}
use coffee_traceability_back.Schema.{
  Text, CoffeeBatch, Delivery, ProcessingRecord, ProcessingMethod, Warehouse, WarehouseInventory,
  OwnershipTransfer, is_confirmed, Farmer,
}
use coffee_traceability_back.World.{World}
use coffee_traceability_back.Reports.Sales.{buyer_of, name_of}
use coffee_traceability_back.Reports.Dashboard.Grouping.{is_batch_of, is_scoped, batch_by_id}

-- A batch or a farmer that a row refers to may be missing here, though the foreign key forbids it.
pub data Activity : Type 0 where
  delivery_recorded_by : Option (String × String) → ℕ → Option String → Activity
  batch_created_as : Text → ℕ → Option String → Activity
  processing_started : Option Text → ProcessingMethod → Activity
  stored_in_warehouse : Option Text → ℕ → Option String → Activity
  ownership_transferred_to : Option (Text × ℕ) → Option String → Activity

pub record ActivityItem : Type 0 where
  pub id : ℕ
  pub activity : Activity
  pub at : ℕ

-- The newest rows, at most so many.
abbrev newest : {A : Type 0} → ℕ → (A → ℕ) → List A → List A
newest limit time rows = take_rows limit (order_desc time rows)

module _ (w : World) where
  abbrev farmer_name_of : ℕ → Option (String × String)
  farmer_name_of id = elim (find? (λ (f : Farmer). f.id == id) w.db.accounts.farmers) [
    | none ↦ none
    | some f ↦ some (f.first_name, f.last_name)
  ]

  abbrev code_of : ℕ → Option Text
  code_of id = elim (batch_by_id id w.db.trade.batches) [ none ↦ none | some b ↦ some b.batch_code ]

  abbrev code_and_weight_of : ℕ → Option (Text × ℕ)
  code_and_weight_of id = elim (batch_by_id id w.db.trade.batches) [
    | none ↦ none
    | some b ↦ some (b.batch_code, b.total_weight_kg)
  ]

  abbrev warehouse_name_of : ℕ → Option String
  warehouse_name_of id = elim (find? (λ (x : Warehouse). x.id == id) w.db.trade.warehouses) [
    | none ↦ none
    | some x ↦ some x.name
  ]

  abbrev delivery_item : Delivery → ActivityItem
  delivery_item d = record {
    id = d.id;
    activity = delivery_recorded_by (farmer_name_of d.farmer_id) d.weight_kg d.quality_grade;
    at = d.created_at;
  }

  abbrev batch_item : CoffeeBatch → ActivityItem
  batch_item b = record {
    id = b.id;
    activity = batch_created_as b.batch_code b.total_weight_kg b.origin_region;
    at = b.created_at;
  }

  abbrev run_item : ProcessingRecord → ActivityItem
  run_item r = record {
    id = r.id;
    activity = processing_started (code_of r.batch_id) r.method;
    at = r.created_at;
  }

  abbrev storage_item : WarehouseInventory → ActivityItem
  storage_item r = record {
    id = r.id;
    activity =
        stored_in_warehouse (code_of r.batch_id) r.weight_kg (warehouse_name_of r.warehouse_id);
    at = r.stored_at;
  }

  abbrev sale_item : OwnershipTransfer → ActivityItem
  sale_item x = record {
    id = x.id;
    activity =
        ownership_transferred_to (code_and_weight_of x.batch_id)
          (name_of (buyer_of x.buyer_id w.db.accounts.buyers));
    at = x.transferred_at;
  }

module _ (cooperative_id limit : ℕ) (w : World) where
  abbrev recent_deliveries : List Delivery
  recent_deliveries =
      newest limit (λ d. d.created_at)
        (select (λ (d : Delivery). d.cooperative_id == cooperative_id) w.db.trade.deliveries)

  abbrev recent_batches : List CoffeeBatch
  recent_batches =
      newest limit (λ b. b.created_at) (select (is_batch_of cooperative_id) w.db.trade.batches)

  abbrev recent_runs : List ProcessingRecord
  recent_runs =
      newest limit (λ r. r.created_at)
        (select (λ (r : ProcessingRecord). is_scoped cooperative_id w.db.trade.batches r.batch_id)
          w.db.trade.processing_records)

  abbrev recent_storage : List WarehouseInventory
  recent_storage =
      newest limit (λ r. r.stored_at)
        (select (λ (r : WarehouseInventory). is_scoped cooperative_id w.db.trade.batches r.batch_id)
          w.db.trade.inventory)

  abbrev recent_sales : List OwnershipTransfer
  recent_sales =
      newest limit (λ x. x.transferred_at)
        (select
          (λ (x : OwnershipTransfer).
            is_scoped cooperative_id w.db.trade.batches x.batch_id && is_confirmed x.status)
          w.db.trade.transfers)

-- Each source is cut before they are merged.
abbrev pub get_activity_feed : ℕ → ℕ → World → List ActivityItem
get_activity_feed cooperative_id limit w =
    newest limit (λ (i : ActivityItem). i.at)
      (map (delivery_item w) (recent_deliveries cooperative_id limit w)
        ++ (map (batch_item w) (recent_batches cooperative_id limit w)
            ++ (map (run_item w) (recent_runs cooperative_id limit w)
                ++ (map (storage_item w) (recent_storage cooperative_id limit w)
                    ++ map (sale_item w) (recent_sales cooperative_id limit w)))))
