-- ===== src/Reports/Sheet.antt =====
-- The traceability sheet of modules/reports/report.service.ts, and the handlers of the sheet and of the
-- ledger's history. The PDF is the sheet, laid out.
pub mod Adding
use coffee_traceability_back.Prelude.{
  ℕ, ◌==◌, ◌&&◌, String, Bool, true, false, Option, none, some, List, [], ◌∷◌, select, find?,
  length, map, order_by, ltb,
}
use Prim.Native.String.{◌++◌}
use coffee_traceability_back.Errors.{not_found, batch_not_found}
use coffee_traceability_back.Schema.{
  Text, BatchStatus, CoffeeBatch, Delivery, ProcessingRecord, ProcessingMethod, Warehouse,
  WarehouseInventory, OwnershipTransfer, TransferStatus, Buyer, Farmer, LedgerEvent, LedgerStatus,
}
use coffee_traceability_back.World.{
  Env, World, M, pure, gets, gets_trade, or_raise, ◌>>=◌, ◌>>◌, new_date,
}
use coffee_traceability_back.Scope.{Caller, require_permission}
use coffee_traceability_back.Batches.{find_live}
use coffee_traceability_back.Ledger.{Verdict, verify_chain, events_of}
use coffee_traceability_back.Reports.Range.{iso_of}
use coffee_traceability_back.Reports.Sales.{buyer_of, name_of, country_of}
use coffee_traceability_back.Reports.Journey.{
  deliveries_of, runs_of, storage_of, transfers_of, cooperative_of, warehouse_of,
  assert_batch_in_scope,
}

pub record TraceabilityDelivery : Type 0 where
  pub farmer_name : Option String
  pub weight_kg : ℕ
  pub quality_grade : Option String
  pub delivery_date : Text

pub record TraceabilityProcessing : Type 0 where
  pub method : ProcessingMethod
  pub start_date : Text
  pub end_date : Option Text
  pub output_weight_kg : Option ℕ

pub record TraceabilityWarehouse : Type 0 where
  pub warehouse_name : Option String
  pub location : Option String
  pub stored_at : Text
  pub removed_at : Option Text

pub record TraceabilitySale : Type 0 where
  pub buyer_name : Option String
  pub country : Option String
  pub status : TransferStatus
  pub transferred_at : Text

pub record BatchTraceabilitySheet : Type 0 where
  pub batch_code : Text
  pub status : BatchStatus
  pub origin_region : Option String
  pub harvest_season : Option String
  pub total_weight_kg : ℕ
  pub cooperative : Option (String × String)
  pub deliveries : List TraceabilityDelivery
  pub processing : List TraceabilityProcessing
  pub warehouse_history : List TraceabilityWarehouse
  pub sales : List TraceabilitySale
  pub chain : Verdict
  pub confirmed_events : ℕ
  pub generated_at : Text

abbrev full_name : Option Farmer → Option String
full_name none = none
full_name (some f) = some (f.first_name ++ " " ++ f.last_name)

abbrev pub farmer_of : ℕ → List Farmer → Option Farmer
farmer_of id farmers = find? (λ (f : Farmer). f.id == id) farmers

abbrev sheet_delivery : Env → List Farmer → Delivery → TraceabilityDelivery
sheet_delivery env farmers d = record {
  farmer_name = full_name (farmer_of d.farmer_id farmers);
  weight_kg = d.weight_kg;
  quality_grade = d.quality_grade;
  delivery_date = env.to_iso d.delivery_date;
}

abbrev sheet_run : Env → ProcessingRecord → TraceabilityProcessing
sheet_run env r = record {
  method = r.method;
  start_date = env.to_iso r.start_date;
  end_date = iso_of env r.end_date;
  output_weight_kg = r.output_weight_kg;
}

abbrev sheet_storage : Env → Option Warehouse → WarehouseInventory → TraceabilityWarehouse
sheet_storage env x inv = record {
  warehouse_name = elim x [ none ↦ none | some y ↦ some y.name ];
  location = elim x [ none ↦ none | some y ↦ y.location ];
  stored_at = env.to_iso inv.stored_at;
  removed_at = iso_of env inv.removed_at;
}

abbrev sheet_sale : Env → List Buyer → OwnershipTransfer → TraceabilitySale
sheet_sale env buyers x = record {
  buyer_name = name_of (buyer_of x.buyer_id buyers);
  country = country_of (buyer_of x.buyer_id buyers);
  status = x.status;
  transferred_at = env.to_iso x.transferred_at;
}

abbrev pub is_settled : LedgerStatus → Bool
is_settled LedgerStatus.confirmed = true
is_settled _ = false

-- The settled events of a batch.
abbrev pub is_settled_of : ℕ → LedgerEvent → Bool
is_settled_of batch_id e = e.batch_id == batch_id && is_settled e.status

abbrev pub sheet_of : Env → ℕ → World → CoffeeBatch → BatchTraceabilitySheet
sheet_of env now w b = record {
  batch_code = b.batch_code;
  status = b.status;
  origin_region = b.origin_region;
  harvest_season = b.harvest_season;
  total_weight_kg = b.total_weight_kg;
  cooperative = cooperative_of b.cooperative_id w.db.accounts.cooperatives;
  deliveries = map (sheet_delivery env w.db.accounts.farmers) (deliveries_of b.id w.db.trade);
  processing = map (sheet_run env) (runs_of b.id w.db.trade);
  warehouse_history =
      map
        (λ (inv : WarehouseInventory).
          sheet_storage env (warehouse_of inv.warehouse_id w.db.trade) inv)
        (storage_of b.id w.db.trade);
  sales = map (sheet_sale env w.db.accounts.buyers) (transfers_of b.id w.db.trade);
  chain = verify_chain env b.id w.db.ledger;
  confirmed_events = length (select (is_settled_of b.id) w.db.ledger);
  generated_at = env.to_iso now;
}

unfoldable pub get_batch_traceability_sheet : Env → ℕ → M BatchTraceabilitySheet
get_batch_traceability_sheet env batch_id = do
  found ← gets_trade (find_live batch_id)
  b ← or_raise found (not_found batch_not_found)
  now ← new_date env
  gets (λ w. sheet_of env now w b)

pub traceability_handler : Env → Caller → ℕ → M BatchTraceabilitySheet
traceability_handler env caller batch_id = do
  require_permission env ("reports:view" ∷ []) caller
  assert_batch_in_scope caller batch_id
  get_batch_traceability_sheet env batch_id

-- The whole ledger of a batch, oldest event first, and the verdict on its chain.
pub history_handler : Env → Caller → ℕ → M (List LedgerEvent × Verdict)
history_handler env caller batch_id = do
  require_permission env ("blockchain:view" ∷ []) caller
  assert_batch_in_scope caller batch_id
  gets (λ w. (events_of env.tie_of_all batch_id w.db.ledger, verify_chain env batch_id w.db.ledger))
