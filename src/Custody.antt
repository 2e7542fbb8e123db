-- ===== src/Custody.antt =====
-- What is to hold of the coffee's tables between two requests, across batches, deliveries, processing,
-- warehouses and transfers.
pub mod Storage
pub mod Rows
pub mod Claims
pub mod Moves
use coffee_traceability_back.Prelude.{
  ℕ, ◌≡◌, ◌≤◌, Bool, true, false, ◌&&◌, ◌||◌, some, List, [], ◌∷◌, ◌==◌, All, any, sum_by,
  if◌then◌else◌, same_option,
}
use coffee_traceability_back.Schema.{
  BatchStatus, registered, in_storage, sold, exported, same_status, CoffeeBatch, Delivery,
  Warehouse, WarehouseInventory, OwnershipTransfer, ProcessingRecord, Trade, is_confirmed,
}
use coffee_traceability_back.Batches.{is_open, holds, has_id, is_record_of}
use coffee_traceability_back.Warehouses.{find_warehouse, load_of}

-- Every batch of that number is in storage.
abbrev pub IsStored : ℕ → CoffeeBatch → Type 0
IsStored id b = b.id ≡ id → b.status ≡ in_storage

abbrev pub InStorage : List CoffeeBatch → ℕ → Type 0
InStorage batches id = All (IsStored id) batches

abbrev pub StoredRow : List CoffeeBatch → WarehouseInventory → Type 0
StoredRow batches r = is_open r ≡ true → InStorage batches r.batch_id

-- An open inventory row is of a batch whose status is IN_STORAGE.
abbrev pub Stored : Trade → Type 0
Stored t = All (StoredRow t.batches) t.inventory

-- No batch has two open rows.
abbrev pub Single : List WarehouseInventory → Type 0
Single [] = Unit
Single (r ∷ rows) = (is_open r ≡ true → any (holds r.batch_id) rows ≡ false) × Single rows

-- The open rows of a warehouse with a capacity weigh no more than it.
abbrev pub Capacity : Trade → Type 0
Capacity t =
    (id : ℕ) (x : Warehouse) (capacity : ℕ)
    → find_warehouse id t ≡ some x
    → x.capacity_kg ≡ some capacity
    → load_of id t.inventory ≤ capacity

-- An open row weighs no more than its batch.
abbrev pub AtLeast : ℕ → ℕ → CoffeeBatch → Type 0
AtLeast id weight b = b.id ≡ id → weight ≤ b.total_weight_kg

abbrev pub Bounds : WarehouseInventory → CoffeeBatch → Type 0
Bounds r = AtLeast r.batch_id r.weight_kg

abbrev pub CoveredRow : List CoffeeBatch → WarehouseInventory → Type 0
CoveredRow batches r = is_open r ≡ true → All (Bounds r) batches

abbrev pub Covered : Trade → Type 0
Covered t = All (CoveredRow t.batches) t.inventory

-- The statuses that a batch reaches only through processing, and only through a sale.
abbrev pub was_processed : BatchStatus → Bool
was_processed registered = false
was_processed BatchStatus.rejected = false
was_processed _ = true

abbrev pub was_sold : BatchStatus → Bool
was_sold s = same_status s sold || same_status s exported

abbrev pub RecordedIn : List ProcessingRecord → CoffeeBatch → Type 0
RecordedIn records b = was_processed b.status ≡ true → any (is_record_of b.id) records ≡ true

abbrev pub Processed : Trade → Type 0
Processed t = All (RecordedIn t.processing_records) t.batches

abbrev pub confirmed_for : ℕ → OwnershipTransfer → Bool
confirmed_for batch_id x = x.batch_id == batch_id && is_confirmed x.status

abbrev pub SoldBy : List OwnershipTransfer → CoffeeBatch → Type 0
SoldBy transfers b = was_sold b.status ≡ true → any (confirmed_for b.id) transfers ≡ true

-- A batch that is SOLD or EXPORTED has a confirmed transfer.
abbrev pub Sales : Trade → Type 0
Sales t = All (SoldBy t.transfers) t.batches

abbrev pub share_of : ℕ → Delivery → ℕ
share_of batch_id d = if same_option d.batch_id (some batch_id) then d.weight_kg else 0

abbrev pub delivered : ℕ → List Delivery → ℕ
delivered batch_id deliveries = sum_by (share_of batch_id) deliveries

abbrev pub TotalOf : List Delivery → CoffeeBatch → Type 0
TotalOf deliveries b = b.total_weight_kg ≡ delivered b.id deliveries

-- The total of a batch is the sum of its deliveries.
abbrev pub Totals : Trade → Type 0
Totals t = All (TotalOf t.deliveries) t.batches

abbrev pub delivery_has_id : ℕ → Delivery → Bool
delivery_has_id id d = d.id == id

-- No two batches have one number.
abbrev pub Unique : List CoffeeBatch → Type 0
Unique [] = Unit
Unique (b ∷ bs) = (any (has_id b.id) bs ≡ false) × Unique bs

-- No two deliveries have one number.
abbrev pub UniqueDeliveries : List Delivery → Type 0
UniqueDeliveries [] = Unit
UniqueDeliveries (d ∷ ds) = (any (delivery_has_id d.id) ds ≡ false) × UniqueDeliveries ds

pub record IsSound (t : Trade) : Type 0 where
  pub unique : Unique t.batches
  pub stored : Stored t
  pub single : Single t.inventory
  pub capacity : Capacity t
  pub covered : Covered t
  pub processed : Processed t
  pub sales : Sales t
  pub totals : Totals t
  pub unique_deliveries : UniqueDeliveries t.deliveries
