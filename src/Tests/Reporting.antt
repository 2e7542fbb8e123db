-- ===== src/Tests/Reporting.antt =====
-- The theorems on the reports at a concrete cooperative, and runs of them.
use coffee_traceability_back.Prelude.{
  ◌≡◌, refl, some, none, List, [], ◌∷◌, map, select, Option, All, any, true, false, Bool, arith, ℕ,
  String,
}
use coffee_traceability_back.Schema.{Delivery, Farmer, farmer, in_storage, sold, TransferStatus}
use coffee_traceability_back.World.{World}
use coffee_traceability_back.World.Returns.{Returns, IfOk}
use coffee_traceability_back.Scope.{Caller}
use coffee_traceability_back.Reports.Statement.Scoping.{IsRowOf, statement_handler-IsRowOf}
use coffee_traceability_back.Texts.{codes}
use coffee_traceability_back.Reports.Sheet.{sheet_of, get_batch_traceability_sheet}
use coffee_traceability_back.Reports.Sheet.Adding.{
  weight_of_rows, get_batch_traceability_sheet-AddsUp,
}
use coffee_traceability_back.Batches.Scanning.{origin_of, verify_by_qr_handler}
use coffee_traceability_back.Batches.Scanning.Privacy.{
  KeepsFarmer, KeepsDelivery, rewritten, verify_by_qr_handler-Private,
}
use coffee_traceability_back.Samples.{
  farmer_row, env, batch, delivery, peopled, world, sold_once, sold_once-IsSound,
}
use coffee_traceability_back.Prelude.Int.{pos, negsuc}
use coffee_traceability_back.Reports.Sales.{get_sales_ledger}
use coffee_traceability_back.Reports.Sales.Covering.{all_time, is_sale_of, get_sales_ledger-Covers}
use coffee_traceability_back.Reports.Yield.{yield_of, days_between}
use coffee_traceability_back.Reports.Operations.{get_operations_summary}
use coffee_traceability_back.Reports.Operations.Counting.{
  counted_as, all_counted, IsNearest, get_operations_summary-Counts,
}
use coffee_traceability_back.Custody.{IsSound}
use coffee_traceability_back.Reports.Inventory.{
  get_warehouse_inventory_snapshot, inventory_row, warehouses_of,
}
use coffee_traceability_back.Reports.Inventory.Load.{
  IsMeasured, get_warehouse_inventory_snapshot-IsMeasured,
}
use coffee_traceability_back.Reports.Statement.{
  StatementOptions, is_covered, get_farmer_statement, statement_handler,
}
use coffee_traceability_back.Reports.Statement.Totals.{IsTotal, get_farmer_statement-IsTotal}
use coffee_traceability_back.Reports.Statement.Rows.{Accounts, get_farmer_statement-Accounts}

abbrev graded : Delivery
graded = record (delivery 2 none) {
  weight_kg = 701;
  quality_grade = some "AA";
  price_per_kg = some 1_550;
}

-- Four deliveries of one farmer, the last of them after the period.
abbrev delivered : World
delivered = record (peopled 0) {
  db = record (peopled 0).db {
    trade = record (peopled 0).db.trade {
      deliveries =
          delivery 1 none
          ∷ graded
          ∷ record graded { id = 3 }
          ∷ record graded { id = 4; delivery_date = 2_000 }
          ∷ [];
    };
  };
}

abbrev options : StatementOptions
options = record { from_date = none; to_date = some 1_000; farmer_id = none }

abbrev covered_now : List Delivery
covered_now = select (is_covered 7 options) delivered.db.trade.deliveries

statement_run :
    map {B = ℕ × ℕ × ℕ × Option String}
      (λ r. (r.delivery_count, r.total_kg, r.total_value, r.most_common_grade))
      (get_farmer_statement env 7 options delivered).rows
    ≡ (3, 1_902, 21_731, some "AA") ∷ []
unfolding get_farmer_statement
statement_run = refl

get_farmer_statement-IsTotal_example :
    IsTotal covered_now (get_farmer_statement env 7 options delivered)
get_farmer_statement-IsTotal_example =
    get_farmer_statement-IsTotal env 7 options delivered (refl, (refl, (refl, tt)))

get_farmer_statement-Accounts_example :
    Accounts covered_now (get_farmer_statement env 7 options delivered).rows
get_farmer_statement-Accounts_example =
    get_farmer_statement-Accounts env 7 options delivered (refl, (refl, (refl, tt)))

abbrev grower : Caller
grower = record {
  user =
      some
        (record { id = 20; role = farmer; cooperative_id = some 7; must_change_password = false });
  farmer_id = some 11;
}

statement_handler-IsRowOf_example :
    Returns (λ s. All (IsRowOf 11) s.rows) (statement_handler env grower 7 options)
statement_handler-IsRowOf_example =
    statement_handler-IsRowOf env grower 7 options 11 (_, refl, refl, refl)

-- The batch of 500 is stored in the warehouse, which holds 600.
abbrev filled : World
filled = record (world in_storage []) {
  db = record (world in_storage []).db {
    trade = record (world in_storage []).db.trade {
      inventory =
          record {
            id = 30;
            warehouse_id = 4;
            batch_id = 1;
            weight_kg = 500;
            stored_at = 970;
            removed_at = none;
          }
          ∷ [];
    };
  };
}

filled-IsSound : IsSound filled.db.trade
filled-IsSound = record {
  unique = (refl, tt);
  stored = ((λ still. ((λ id. refl), tt)), tt);
  single = ((λ still. refl), tt);
  capacity = λ id x c found cap. ground arith;
  covered = ((λ still. ((λ id. omega arith), tt)), tt);
  processed = ((λ claims. refl), tt);
  sales = ((λ claims. absurd cc), tt);
  totals = (refl, tt);
  unique_deliveries = (refl, (refl, tt));
}

abbrev unordered : String → String → Bool
unordered a b = false

get_warehouse_inventory_snapshot-IsMeasured_example :
    IfOk
      (λ s. All (IsMeasured filled.db.trade) s.rows)
      (get_warehouse_inventory_snapshot env unordered 7 filled).0
get_warehouse_inventory_snapshot-IsMeasured_example =
    get_warehouse_inventory_snapshot-IsMeasured env unordered 7 filled filled-IsSound (refl, tt)

snapshot_run :
    map {B = ℕ × Option ℕ}
      (λ r. (r.stored_weight_kg, r.capacity_used_pct))
      (map (inventory_row env 1_000 filled.db.trade) (warehouses_of unordered 7 filled.db.trade))
    ≡ (500, some 833) ∷ []
snapshot_run = refl

get_sales_ledger-Covers_example :
    any (is_sale_of []) (get_sales_ledger env 7 all_time sold_once).rows ≡ true
get_sales_ledger-Covers_example =
    get_sales_ledger-Covers env sold_once (batch sold) sold_once-IsSound refl refl

-- The confirmed transfer and the open one have no price.
sales_run :
    map (λ r. r.status) (get_sales_ledger env 7 all_time sold_once).rows
    ≡ TransferStatus.pending ∷ TransferStatus.confirmed ∷ []
unfolding get_sales_ledger
sales_run = refl

-- 5 kg came out of 15 kg: 33.3 per cent, in one day and a half, which is two.
yield_run : (yield_of 1_500 500 ≡ some 333) × (days_between 1_000 129_601_000 ≡ pos 2)
yield_run = (refl, refl)

-- The end is a day before the start.
backwards_run : days_between 86_400_000 0 ≡ negsuc 0
backwards_run = refl

get_operations_summary-Counts_example :
    (counted_as sold (get_operations_summary env 7 all_time sold_once).batches_by_status ≡ 1)
    × (all_counted (get_operations_summary env 7 all_time sold_once).batches_by_status ≡ 1)
    × IsNearest 1_000 2 500
unfolding get_operations_summary all_counted
get_operations_summary-Counts_example = get_operations_summary-Counts env 7 all_time sold_once sold

get_batch_traceability_sheet-AddsUp_example :
    weight_of_rows (sheet_of env 1_000 sold_once (batch sold)).deliveries
    ≡ (sheet_of env 1_000 sold_once (batch sold)).total_weight_kg
unfolding get_batch_traceability_sheet
get_batch_traceability_sheet-AddsUp_example =
    get_batch_traceability_sheet-AddsUp env 1 sold_once _
      (sheet_of env 1_000 sold_once (batch sold)) sold_once-IsSound refl

abbrev grown : Farmer → Farmer
grown x = record x { last_name = "C"; national_id = some (codes "1"); phone_number = none }

abbrev repriced : Delivery → Delivery
repriced d = record d { weight_kg = 1; price_per_kg = some 9; quality_grade = none }

grown-KeepsFarmer : KeepsFarmer grown
grown-KeepsFarmer = record { id = λ x. refl; first_name = λ x. refl; farm_location = λ x. refl }

repriced-KeepsDelivery : KeepsDelivery repriced
repriced-KeepsDelivery = record {
  farmer_id = λ d. refl;
  batch_id = λ d. refl;
  delivery_date = λ d. refl;
}

verify_by_qr_handler-Private_example :
    (verify_by_qr_handler env 50 (rewritten grown repriced (peopled 0))).0
    ≡ (verify_by_qr_handler env 50 (peopled 0)).0
verify_by_qr_handler-Private_example =
    verify_by_qr_handler-Private grown repriced grown-KeepsFarmer repriced-KeepsDelivery env 50
      (peopled 0)

-- Two farmers of one first name are counted as one.
namesakes_run :
    (origin_of
      (farmer_row ∷ record farmer_row { id = 12; last_name = "C" } ∷ [])
      (delivery 1 (some 1) ∷ record (delivery 2 (some 1)) { farmer_id = 12 } ∷ [])).farmer_count
    ≡ 1
namesakes_run = refl
