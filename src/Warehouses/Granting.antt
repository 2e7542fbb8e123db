-- ===== src/Warehouses/Granting.antt =====
-- What the transaction of a store has done, by how it ended.
use coffee_traceability_back.Prelude.{
  ℕ, ◌+◌, ◌≤◌, ◌≡◌, refl, ap, true, false, some, none, Option, List, ◌∷◌, any, Bool-cases, inl, inr,
  arith, ltb,
}
use coffee_traceability_back.Errors.{Result, ok, err}
use coffee_traceability_back.Schema.{
  BatchStatus, in_storage, CoffeeBatch, Warehouse, WarehouseInventory,
}
use coffee_traceability_back.World.{Env, World, Db, continue}
use coffee_traceability_back.Batches.{holds, transition_batch_status}
use coffee_traceability_back.Batches.Transition.{Transitions, transition_batch_status_lem}
use coffee_traceability_back.Warehouses.Storing.{overfills_lem}
use coffee_traceability_back.Warehouses.{
  load_of, overfills, enter_storage, insert_inventory, store_in_tx,
}

-- No capacity is no limit.
abbrev pub IsWithin : ℕ → Option ℕ → Type 0
IsWithin weight none = Unit
IsWithin weight (some capacity) = weight ≤ capacity

within :
    (stored load : ℕ) (limit : Option ℕ)
    → overfills stored limit load ≡ false
    → IsWithin (stored + load) limit
within stored load none fits = tt
within stored load (some capacity) fits = overfills_lem stored load capacity fits

on_top : {r : WarehouseInventory} {xs ys : List WarehouseInventory} → xs ≡ ys → r ∷ xs ≡ r ∷ ys
on_top {r} e = ap (λ rows. r ∷ rows) e

-- A refused store has written nothing. One that returns a row has opened that row, and no other, for
-- the batch, which had none; its weight is within the batch's and the warehouse's.
module _ (warehouse : Warehouse) (batch : CoffeeBatch) (warehouse_id batch_id stored : ℕ)
    (w : World) where
  abbrev pub Stores : Result WarehouseInventory × World → Type 0
  Stores (err e, w') = w'.db ≡ w.db
  Stores (ok row, w') =
      (w'.db.trade.inventory ≡ row ∷ w.db.trade.inventory)
      × (holds batch_id row ≡ true)
      × (row.warehouse_id ≡ warehouse_id)
      × (row.weight_kg ≡ stored)
      × (any (holds batch_id) w.db.trade.inventory ≡ false)
      × (stored ≤ batch.total_weight_kg)
      × IsWithin (stored + load_of warehouse_id w.db.trade.inventory) warehouse.capacity_kg

  -- The row is there, on top of the old ones.
  abbrev Opens : Result WarehouseInventory × World → Type 0
  Opens (err e, w') = w'.db ≡ w.db
  Opens (ok row, w') =
      (w'.db.trade.inventory ≡ row ∷ w.db.trade.inventory)
      × (holds batch_id row ≡ true)
      × (row.warehouse_id ≡ warehouse_id)
      × (row.weight_kg ≡ stored)

  Opens-Stores :
      (r : Result WarehouseInventory) (w' : World)
      → any (holds batch_id) w.db.trade.inventory ≡ false
      → ltb batch.total_weight_kg stored ≡ false
      → overfills stored warehouse.capacity_kg (load_of warehouse_id w.db.trade.inventory) ≡ false
      → Opens (r, w')
      → Stores (r, w')
  Opens-Stores (err e) w' alone light fits o = o
  Opens-Stores (ok row) w' alone light fits (top, here, place, weight) =
      (top, here, place, weight, alone, ground arith, within stored _ warehouse.capacity_kg fits)

  module _ (env : Env) where
    inventory_kept :
        (previous : BatchStatus) (w' : World)
        → Transitions env batch_id in_storage w (ok previous, w')
        → w'.db.trade.inventory ≡ w.db.trade.inventory
    inventory_kept previous w' (b, found, from, inl (same, here)) =
        ap (λ (d : Db). d.trade.inventory) here
    inventory_kept previous w' (b, found, from, inr (edge, guard, changed)) =
        ap (λ (d : Db). d.trade.inventory) changed

    inserted :
        (r : Result BatchStatus) (w' : World)
        → Transitions env batch_id in_storage w (r, w')
        → Opens (continue r (λ _. insert_inventory env warehouse_id batch_id stored) w')
    unfolding insert_inventory
    inserted (err e) w' tr = tr
    inserted (ok previous) w' tr =
        (on_top (inventory_kept previous w' tr), ground arith, refl, refl)

    enter_storage-Opens : Opens (enter_storage env warehouse_id batch_id stored w)
    unfolding enter_storage
    enter_storage-Opens =
        let (r, w') = transition_batch_status env batch_id in_storage w in
        inserted r w' (transition_batch_status_lem env batch_id in_storage w)

    -- The transaction of a store, whichever check refuses, or none: refused, it has written nothing;
    -- granted, it has opened one row of the given weight for a batch that had none, and the weight is
    -- within the batch's total and, with the load before, within the warehouse's capacity.
    pub store_in_tx-Stores : Stores (store_in_tx env warehouse batch warehouse_id batch_id stored w)
    unfolding store_in_tx
    store_in_tx-Stores = elim (Bool-cases (any (holds batch_id) w.db.trade.inventory)) [
      | inl already ↦ rw already refl
      | inr alone ↦ rw alone (elim (Bool-cases (ltb batch.total_weight_kg stored)) [
        | inl heavy ↦ rw heavy refl
        | inr light ↦
            rw light
              (elim (Bool-cases (
                overfills stored warehouse.capacity_kg
                  (load_of warehouse_id w.db.trade.inventory))) [
                    | inl full ↦ rw full refl
                    | inr fits ↦ rw fits (
                        let (r, w') = enter_storage env warehouse_id batch_id stored w in
                        Opens-Stores r w' alone light fits enter_storage-Opens)
                  ])
      ])
    ]
