-- ===== src/Reports/Inventory/Load.antt =====
-- The snapshot against the warehouses' load and capacity.
use native.Mathlib.Nat.{div-lt_iff_lt-mul}
use coffee_traceability_back.Prelude.{
  true, ℕ, ◌+◌, ◌*◌, ◌≡◌, ◌≤◌, ◌<◌, ◌∙◌, refl, Bool, String, Option, none, some, List, [], ◌∷◌,
  sum_by, select, map, arith, All, All-select, ltb, ◌==◌, ◌&&◌, Bool-cases, inl, inr, zero,
}
use coffee_traceability_back.Schema.{Warehouse, WarehouseInventory, Trade}
use coffee_traceability_back.World.{Env, World}
use coffee_traceability_back.World.Returns.{IfOk}
use coffee_traceability_back.Warehouses.{find_warehouse, load_of}
use coffee_traceability_back.Batches.{is_open}
use coffee_traceability_back.Custody.{IsSound}
use coffee_traceability_back.Reports.Statement.Totals.{round2-exact}
use coffee_traceability_back.Prelude.{sum_by-map, sum_by-pointwise, sum_by-order_by, All-order_by}
use coffee_traceability_back.Reports.Inventory.{
  WarehouseInventoryRow, item_of, used_pct, stored_in, inventory_row, warehouses_of,
  get_warehouse_inventory_snapshot,
}

-- The weights of the rows that the report selects are the warehouse's load.
sum_by-active :
    (id : ℕ) (rows : List WarehouseInventory)
    → sum_by
        (λ (r : WarehouseInventory). r.weight_kg)
        (select (λ r. r.warehouse_id == id && is_open r) rows)
      ≡ load_of id rows
sum_by-active id [] = refl
sum_by-active id (r ∷ rows) = ground (arith, sum_by-active id rows)

module _ (env : Env) (now : ℕ) (t : Trade) where
  stored_weight-load_of :
      (x : Warehouse) → (inventory_row env now t x).stored_weight_kg ≡ load_of x.id t.inventory
  stored_weight-load_of x =
      round2-exact true _
      ∙ sum_by-map (λ i. i.weight_kg) (item_of env now t) (stored_in x.id t)
      ∙ sum_by-pointwise _ (λ r. r.weight_kg) (stored_in x.id t)
          (λ r. round2-exact true r.weight_kg)
      ∙ sum_by-order_by _ (λ r. r.weight_kg) _
      ∙ sum_by-active x.id t.inventory

-- At most a hundred per cent, where there is a figure.
abbrev IsWithin : Option ℕ → Type 0
IsWithin none = Unit
IsWithin (some pct) = pct ≤ 1_000

used_pct-IsWithin :
    (stored : ℕ) (capacity : Option ℕ)
    → ((c : ℕ) → capacity ≡ some c → stored ≤ c)
    → IsWithin (used_pct stored capacity)
used_pct-IsWithin stored none fits = tt
used_pct-IsWithin stored (some c) fits = elim (Bool-cases (ltb 0 c)) [
  | inl positive ↦
      (let above : zero < c * 2 = ground (arith, positive) in
        let below : stored * 2_000 + c < 1_001 * (c * 2) = grind (arith, fits c refl, above) in
        rw positive (omega (arith, (div-lt_iff_lt-mul above).1 below)))
  | inr nothing ↦ rw nothing tt
]

-- What a row of the snapshot says of the warehouses.
pub record IsMeasured (t : Trade) (r : WarehouseInventoryRow) : Type 0 where
  stored : r.stored_weight_kg ≡ load_of r.warehouse_id t.inventory
  within : IsWithin r.capacity_used_pct

-- A warehouse is the one that is found by its identifier.
abbrev pub IsKeyed : Trade → Type 0
IsKeyed t = All (λ (x : Warehouse). find_warehouse x.id t ≡ some x) t.warehouses

module _ (env : Env) (now : ℕ) (t : Trade) (sound : IsSound t) where
  rows-IsMeasured :
      (xs : List Warehouse)
      → All (λ (x : Warehouse). find_warehouse x.id t ≡ some x) xs
      → All (IsMeasured t) (map (inventory_row env now t) xs)
  rows-IsMeasured [] keyed = tt
  rows-IsMeasured (x ∷ xs) keyed = (
    record {
      stored = stored_weight-load_of env now t x;
      within = used_pct-IsWithin _ x.capacity_kg (λ c limit.
          rw (stored_weight-load_of env now t x) (sound.capacity x.id x c keyed.0 limit));
    },
    rows-IsMeasured xs keyed.1,
  )

-- Over sound tables whose warehouses have different identifiers, the snapshot's weight of each
-- warehouse is the load that the check of a store reads, and no warehouse is shown as filled by more
-- than a hundred per cent.
pub get_warehouse_inventory_snapshot-IsMeasured :
    (env : Env) (collate : String → String → Bool) (cooperative_id : ℕ) (w : World)
    → IsSound w.db.trade
    → IsKeyed w.db.trade
    → IfOk
        (λ s. All (IsMeasured w.db.trade) s.rows)
        (get_warehouse_inventory_snapshot env collate cooperative_id w).0
unfolding get_warehouse_inventory_snapshot
get_warehouse_inventory_snapshot-IsMeasured env collate cooperative_id w sound keyed =
    rows-IsMeasured env (env.clock w.reads) w.db.trade sound
      (warehouses_of collate cooperative_id w.db.trade)
      (All-order_by _ _ _ (All-select _ _ w.db.trade.warehouses keyed))
