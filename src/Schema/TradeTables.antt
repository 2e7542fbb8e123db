-- ===== src/Schema/TradeTables.antt =====
-- The tables of the coffee's way from delivery to sale.
use coffee_traceability_back.Prelude.{ℕ, String, Bool, Option, List}
use coffee_traceability_back.Schema.Enums.{
  BatchStatus, ProcessingMethod, TransferStatus, GroupStatus, Entity,
}

-- A text that the code builds or takes apart, as its code points.
abbrev pub Text : Type 0
Text = List ℕ

pub record CoffeeBatch : Type 0 where
  pub id : ℕ
  pub batch_code : Text
  pub cooperative_id : ℕ
  pub status : BatchStatus
  pub total_weight_kg : ℕ
  pub origin_region : Option String
  pub harvest_season : Option String
  pub qr_code_token : ℕ
  pub is_deleted : Bool
  pub created_at : ℕ

pub record Delivery : Type 0 where
  pub id : ℕ
  pub delivery_code : Text
  pub farmer_id : ℕ
  pub cooperative_id : ℕ
  pub weight_kg : ℕ
  pub quality_grade : Option String
  pub moisture_level : Option ℕ
  pub price_per_kg : Option ℕ
  pub delivery_date : ℕ
  pub notes : Option String
  pub batch_id : Option ℕ
  pub created_at : ℕ

pub record ProcessingRecord : Type 0 where
  pub id : ℕ
  pub batch_id : ℕ
  pub method : ProcessingMethod
  pub processed_by_id : Option ℕ
  pub start_date : ℕ
  pub end_date : Option ℕ
  pub output_weight_kg : Option ℕ
  pub quality_notes : Option String
  pub created_at : ℕ

pub record Warehouse : Type 0 where
  pub id : ℕ
  pub cooperative_id : ℕ
  pub name : String
  pub location : Option String
  pub capacity_kg : Option ℕ

pub record WarehouseInventory : Type 0 where
  pub id : ℕ
  pub warehouse_id : ℕ
  pub batch_id : ℕ
  pub weight_kg : ℕ
  pub stored_at : ℕ
  pub removed_at : Option ℕ

pub record OwnershipTransfer : Type 0 where
  pub id : ℕ
  pub batch_id : ℕ
  pub from_entity_type : Entity
  pub from_entity_id : ℕ
  pub buyer_id : Option ℕ
  pub initiated_by_id : Option ℕ
  pub sale_price_per_kg : Option ℕ
  pub status : TransferStatus
  pub transferred_at : ℕ

-- A lot with the identifiers of its member batches (the rows of `batch_group_members`).
pub record BatchGroup : Type 0 where
  pub id : ℕ
  pub group_code : Text
  pub cooperative_id : ℕ
  pub note : Option String
  pub status : GroupStatus
  pub created_by_id : Option ℕ
  pub members : List ℕ
  pub created_at : ℕ

pub record Trade : Type 0 where
  pub batches : List CoffeeBatch
  pub deliveries : List Delivery
  pub processing_records : List ProcessingRecord
  pub warehouses : List Warehouse
  pub inventory : List WarehouseInventory
  pub transfers : List OwnershipTransfer
  pub groups : List BatchGroup
