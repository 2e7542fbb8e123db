-- ===== src/Batches/Scanning.antt =====
-- The public page that the code on a bag leads to: `getPublicBatchTraceability` of
-- modules/coffeeBatches/coffeeBatch.service.ts and `verifyByQrHandler` of coffeeBatch.controller.ts.
pub mod Privacy
use text.Mathlib.Text.{◌==◌ as str_eq}
use coffee_traceability_back.Prelude.{
  ℕ, ◌==◌, ◌&&◌, String, Bool, true, false, not, Option, none, some, List, [], ◌∷◌, select, find?,
  any, length, map, order_by, ltb, if◌then◌else◌,
}
use coffee_traceability_back.Errors.{not_found, no_batch_for_code, invalid_qr_code}
use coffee_traceability_back.Schema.{
  Text, BatchStatus, CoffeeBatch, Delivery, ProcessingRecord, ProcessingMethod, Warehouse,
  WarehouseInventory, OwnershipTransfer, TransferStatus, Buyer, Farmer, LedgerEvent, EventType,
  QrVerification,
}
use coffee_traceability_back.World.{
  Env, World, M, pure, gets, gets_trade, or_raise, ◌>>=◌, ◌>>◌, modify_db, new_date, new_id,
}
use coffee_traceability_back.Ledger.{verify_chain, is_intact}
use coffee_traceability_back.Reports.Sales.{buyer_of, name_of, country_of}
use coffee_traceability_back.Reports.Journey.{
  deliveries_of, runs_of, storage_of, transfers_of, cooperative_of, warehouse_of,
}
use coffee_traceability_back.Reports.Sheet.{is_settled_of, farmer_of}

pub record PublicOrigin : Type 0 where
  pub farmer_count : ℕ
  pub contributor_first_names : List String
  pub regions : List String
  pub first_delivered_at : Option ℕ
  pub last_delivered_at : Option ℕ

-- The steps are the columns that the query selects.
pub record PublicBatch : Type 0 where
  pub batch_code : Text
  pub status : BatchStatus
  pub origin_region : Option String
  pub harvest_season : Option String
  pub total_weight_kg : ℕ
  pub created_at : ℕ
  pub cooperative : Option (String × String)
  pub processing_records : List (ProcessingMethod × ℕ × Option ℕ)
  pub warehouse_inventory : List (ℕ × Option ℕ × Option (String × Option String))
  pub ownership_transfers : List (TransferStatus × ℕ × Option String × Option String)
  pub blockchain_txs : List (EventType × Option Text × Option ℕ)
  pub origin : PublicOrigin
  -- `chainValid: chain.valid`
  pub chain_valid : Bool

abbrev has_text : String → List String → Bool
has_text text seen = any (str_eq text) seen

-- `Array.from(new Set(texts.filter((c) => !!c)))`, behind the texts of `seen`.
abbrev pub distinct_behind : List String → List (Option String) → List String
distinct_behind seen [] = []
distinct_behind seen (none ∷ texts) = distinct_behind seen texts
distinct_behind seen (some text ∷ texts) = elim (str_eq text "") [
  | true ↦ distinct_behind seen texts
  | false ↦ elim (has_text text seen) [
    | true ↦ distinct_behind seen texts
    | false ↦ text ∷ distinct_behind (text ∷ seen) texts
  ]
]

abbrev pub first_name_of : Option Farmer → Option String
first_name_of none = none
first_name_of (some f) = some f.first_name

abbrev pub region_of : Option Farmer → Option String
region_of none = none
region_of (some f) = f.farm_location

abbrev first_of : List ℕ → Option ℕ
first_of [] = none
first_of (date ∷ dates) = some date

abbrev last_of : List ℕ → Option ℕ
last_of [] = none
last_of (date ∷ []) = some date
last_of (date ∷ next ∷ dates) = last_of (next ∷ dates)

-- The origin, from the deliveries' dates and what is read of the farmer of each.
abbrev pub origin_from : List ℕ → List (Option String) → List (Option String) → PublicOrigin
origin_from dates names places =
    let contributors = distinct_behind [] names in
    record {
      farmer_count = length contributors;
      contributor_first_names = contributors;
      regions = distinct_behind [] places;
      first_delivered_at = first_of dates;
      last_delivered_at = last_of dates;
    }

abbrev pub origin_of : List Farmer → List Delivery → PublicOrigin
origin_of farmers ds =
    origin_from (map (λ (d : Delivery). d.delivery_date) ds)
      (map (λ (d : Delivery). first_name_of (farmer_of d.farmer_id farmers)) ds)
      (map (λ (d : Delivery). region_of (farmer_of d.farmer_id farmers)) ds)

abbrev place_of : Option Warehouse → Option (String × Option String)
place_of none = none
place_of (some x) = some (x.name, x.location)

-- Times that may be absent, absent ones last.
abbrev is_sooner : Option ℕ → Option ℕ → Bool
is_sooner none b = false
is_sooner (some a) none = true
is_sooner (some a) (some b) = ltb a b

abbrev pub page_of : Env → World → CoffeeBatch → Bool → PublicBatch
page_of env w b chain_valid = record {
  batch_code = b.batch_code;
  status = b.status;
  origin_region = b.origin_region;
  harvest_season = b.harvest_season;
  total_weight_kg = b.total_weight_kg;
  created_at = b.created_at;
  cooperative = cooperative_of b.cooperative_id w.db.accounts.cooperatives;
  processing_records =
      map (λ (r : ProcessingRecord). (r.method, r.start_date, r.end_date))
        (runs_of b.id w.db.trade);
  warehouse_inventory =
      map
        (λ (inv : WarehouseInventory).
          (inv.stored_at, inv.removed_at, place_of (warehouse_of inv.warehouse_id w.db.trade)))
        (storage_of b.id w.db.trade);
  ownership_transfers =
      map
        (λ (x : OwnershipTransfer). (
          x.status,
          x.transferred_at,
          name_of (buyer_of x.buyer_id w.db.accounts.buyers),
          country_of (buyer_of x.buyer_id w.db.accounts.buyers),
        ))
        (transfers_of b.id w.db.trade);
  blockchain_txs =
      map (λ (e : LedgerEvent). (e.event_type, e.tx_hash, e.confirmed_at))
        (order_by (λ (d e : LedgerEvent). is_sooner d.confirmed_at e.confirmed_at)
          (select (is_settled_of b.id) w.db.ledger));
  origin = origin_of w.db.accounts.farmers (deliveries_of b.id w.db.trade);
  chain_valid = chain_valid;
}

abbrev pub has_token : ℕ → CoffeeBatch → Bool
has_token token b = b.qr_code_token == token

abbrev pub is_public : ℕ → CoffeeBatch → Bool
is_public token b = has_token token b && not b.is_deleted

-- No caller: the page is read as it was before the scan is written.
unfoldable pub verify_by_qr_handler : Env → ℕ → M PublicBatch
verify_by_qr_handler env token = do
  found ← gets_trade (λ t. find? (is_public token) t.batches)
  batch ← or_raise found (not_found no_batch_for_code)
  page ← gets (λ w. page_of env w batch)
  known ← gets_trade (λ t. find? (has_token token) t.batches)
  batch_record ← or_raise known (not_found invalid_qr_code)
  id ← new_id env
  now ← new_date env
  modify_db (λ d. record d {
    qr_verifications =
        record { id = id; batch_id = batch_record.id; verified_at = now } ∷ d.qr_verifications;
  })
  chain ← gets (λ w. verify_chain env batch_record.id w.db.ledger)
  pure (page (is_intact chain))
