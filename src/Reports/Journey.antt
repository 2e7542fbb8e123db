-- ===== src/Reports/Journey.antt =====
-- The movement report of a batch in modules/reports/report.service.ts, and its handler. A stage and the
-- note beside it are constructors where the code writes a text. A row that a foreign key promises is
-- looked up all the same.
pub mod Storing
use text.Mathlib.Text.{◌==◌ as str_eq}
use coffee_traceability_back.Prelude.{
  ℕ, ◌+◌, ◌==◌, ◌&&◌, String, Bool, true, false, Option, none, some, List, [], ◌∷◌, ◌++◌, select,
  find?, sum_by, length, map, order_by, ltb, if◌then◌else◌,
}
use coffee_traceability_back.Errors.{unexpected, not_found, batch_not_found}
use coffee_traceability_back.Schema.{
  Text, BatchStatus, CoffeeBatch, Delivery, ProcessingRecord, ProcessingMethod, Warehouse,
  WarehouseInventory, OwnershipTransfer, is_confirmed, Cooperative, Buyer, Trade, Accounts,
}
use coffee_traceability_back.World.{Env, World, M, gets, gets_trade, or_raise, ◌>>=◌, ◌>>◌}
use coffee_traceability_back.Scope.{Caller, assert_ownership, require_permission}
use coffee_traceability_back.Batches.{find_live, find_batch}
use coffee_traceability_back.Reports.Range.{iso_of}
use coffee_traceability_back.Reports.Sales.{buyer_of, name_of}

pub data Stage : Type 0 where
  harvest_and_delivery batch_registered processing_stage warehouse_storage sold_stage : Stage

pub data Note : Type 0 where
  delivered_in : ℕ → ℕ → Note
  created_as : Text → Note
  by_method : ProcessingMethod → Option Text → Note
  removed_on : Text → Note
  currently_stored : Note
  sold_to : String → Note

pub record TimelineEntry : Type 0 where
  pub stage : Stage
  pub date : Text
  pub location : Option String
  pub notes : Option Note

pub record BatchMovement : Type 0 where
  pub batch_code : Text
  pub status : BatchStatus
  pub total_weight_kg : ℕ
  pub origin_region : Option String
  pub cooperative : Option (String × String)
  pub timeline : List TimelineEntry

-- `x || undefined`
abbrev pub or_undefined : Option String → Option String
or_undefined none = none
or_undefined (some text) = if str_eq text "" then none else some text

-- `iso.split("T")[0]`
abbrev pub day_of : Text → Text
day_of [] = []
day_of (c ∷ t) = let rest = day_of t in if c == b'T' then [] else c ∷ rest

-- The rows of a batch in ascending order of a time.
module _ {A : Type 0} (batch_of : A → Option ℕ) (time : A → ℕ) where
  abbrev pub is_row_of : ℕ → A → Bool
  is_row_of batch_id a = elim (batch_of a) [ none ↦ false | some b ↦ b == batch_id ]

  abbrev pub rows_of : ℕ → List A → List A
  rows_of batch_id rows =
      order_by (λ (a b : A). ltb (time a) (time b)) (select (is_row_of batch_id) rows)

abbrev pub deliveries_of : ℕ → Trade → List Delivery
deliveries_of batch_id t =
    rows_of (λ (d : Delivery). d.batch_id) (λ d. d.delivery_date) batch_id t.deliveries

abbrev pub runs_of : ℕ → Trade → List ProcessingRecord
runs_of batch_id t =
    rows_of (λ (r : ProcessingRecord). some r.batch_id) (λ r. r.start_date) batch_id
      t.processing_records

abbrev pub storage_of : ℕ → Trade → List WarehouseInventory
storage_of batch_id t =
    rows_of (λ (r : WarehouseInventory). some r.batch_id) (λ r. r.stored_at) batch_id t.inventory

abbrev pub transfers_of : ℕ → Trade → List OwnershipTransfer
transfers_of batch_id t =
    rows_of (λ (x : OwnershipTransfer). some x.batch_id) (λ x. x.transferred_at) batch_id
      t.transfers

abbrev pub cooperative_of : ℕ → List Cooperative → Option (String × String)
cooperative_of id rows = elim (find? (λ (c : Cooperative). c.id == id) rows) [
  | none ↦ none
  | some c ↦ some (c.name, c.county)
]

abbrev pub warehouse_of : ℕ → Trade → Option Warehouse
warehouse_of id t = find? (λ (x : Warehouse). x.id == id) t.warehouses

abbrev harvest_entries : Env → CoffeeBatch → List Delivery → List TimelineEntry
harvest_entries env b [] = []
harvest_entries env b (d ∷ ds) =
    record {
      stage = harvest_and_delivery;
      date = env.to_iso d.delivery_date;
      location = or_undefined b.origin_region;
      notes =
          some (delivered_in (length (d ∷ ds)) (sum_by (λ (x : Delivery). x.weight_kg) (d ∷ ds)));
    }
    ∷ []

abbrev name_in : Option (String × String) → Option String
name_in none = none
name_in (some c) = some c.0

abbrev registration_entry : Env → Option String → CoffeeBatch → TimelineEntry
registration_entry env place b = record {
  stage = batch_registered;
  date = env.to_iso b.created_at;
  location = place;
  notes = some (created_as b.batch_code);
}

abbrev run_entry : Env → Option String → ProcessingRecord → TimelineEntry
run_entry env place r = record {
  stage = processing_stage;
  date = env.to_iso r.start_date;
  location = place;
  notes = some (
      by_method r.method
        (elim r.end_date [ none ↦ none | some end ↦ some (day_of (env.to_iso end)) ]));
}

-- `inv.warehouse.location || inv.warehouse.name`
abbrev place_of : Option Warehouse → Option String
place_of none = none
place_of (some x) = elim (or_undefined x.location) [ none ↦ some x.name | some l ↦ some l ]

abbrev pub storage_entry : Env → Trade → WarehouseInventory → TimelineEntry
storage_entry env t inv = record {
  stage = warehouse_storage;
  date = env.to_iso inv.stored_at;
  location = place_of (warehouse_of inv.warehouse_id t);
  notes = some (elim inv.removed_at [
    | none ↦ currently_stored
    | some removed ↦ removed_on (day_of (env.to_iso removed))
  ]);
}

abbrev sale_entry : Env → List Buyer → OwnershipTransfer → TimelineEntry
sale_entry env buyers x = record {
  stage = sold_stage;
  date = env.to_iso x.transferred_at;
  location = none;
  notes = elim (name_of (buyer_of x.buyer_id buyers)) [
    | none ↦ none
    | some name ↦ some (sold_to name)
  ];
}

-- The stages one after another, whatever their dates are.
abbrev pub timeline_of : Env → Accounts → Trade → CoffeeBatch → List TimelineEntry
timeline_of env a t b =
    let place = name_in (cooperative_of b.cooperative_id a.cooperatives) in
    harvest_entries env b (deliveries_of b.id t)
    ++ (registration_entry env place b
        ∷ (map (run_entry env place) (runs_of b.id t)
            ++ (map (storage_entry env t) (storage_of b.id t)
                ++ map (sale_entry env a.buyers) (
                    select (λ (x : OwnershipTransfer). is_confirmed x.status)
                      (transfers_of b.id t)))))

abbrev pub movement_of : Env → World → CoffeeBatch → BatchMovement
movement_of env w b = record {
  batch_code = b.batch_code;
  status = b.status;
  total_weight_kg = b.total_weight_kg;
  origin_region = b.origin_region;
  cooperative = cooperative_of b.cooperative_id w.db.accounts.cooperatives;
  timeline = timeline_of env w.db.accounts w.db.trade b;
}

-- `throw new Error(…)` is no `ApiError`.
unfoldable pub get_batch_movement : Env → ℕ → M BatchMovement
get_batch_movement env batch_id = do
  found ← gets_trade (find_batch batch_id)
  b ← or_raise found unexpected
  gets (λ w. movement_of env w b)

-- The check of report.controller.ts, which does not ask for a farmer's own deliveries.
unfoldable pub assert_batch_in_scope : Caller → ℕ → M (Unit {0})
assert_batch_in_scope caller batch_id = do
  found ← gets_trade (find_live batch_id)
  b ← or_raise found (not_found batch_not_found)
  assert_ownership caller (some b.cooperative_id)

unfoldable pub movement_handler : Env → Caller → ℕ → M BatchMovement
movement_handler env caller batch_id = do
  require_permission env ("reports:view" ∷ []) caller
  assert_batch_in_scope caller batch_id
  get_batch_movement env batch_id
