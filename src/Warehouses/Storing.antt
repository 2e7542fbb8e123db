-- ===== src/Warehouses/Storing.antt =====
-- The transaction of a store, and the invariants of the coffee's tables: what was read before it is
-- kept apart from what holds in it.
use coffee_traceability_back.Prelude.{
  ℕ, ◌+◌, ◌≤◌, ◌≡◌, sym, subst, ◌∙◌, All-imp, false, some, ◌∷◌, List, All, any, Bool-cases, inl,
  inr, arith, ltb, find?, ◌==◌, ◌&&◌,
}
use coffee_traceability_back.Errors.{Result, ok, err}
use coffee_traceability_back.Schema.{
  BatchStatus, in_storage, CoffeeBatch, Warehouse, WarehouseInventory, Trade,
}
use coffee_traceability_back.World.{Env, World, continue}
use coffee_traceability_back.Batches.{is_open, holds, transition_batch_status}
use coffee_traceability_back.Batches.Transition.{Transitions, transition_batch_status_lem}
use coffee_traceability_back.Custody.{IsSound, AtLeast, InStorage}
use coffee_traceability_back.Custody.Moves.{Sound, Transitions-Entered, transition-Sound}
use coffee_traceability_back.Warehouses.{
  find_warehouse, load_of, overfills, enter_storage, insert_inventory, store_in_tx,
}

pub overfills_lem :
    (stored load capacity : ℕ)
    → overfills stored (some capacity) load ≡ false
    → stored + load ≤ capacity
overfills_lem stored load capacity h = ground arith

-- The new row fits its warehouse.
abbrev Room : ℕ → ℕ → List Warehouse → List WarehouseInventory → Type 0
Room warehouse_id weight warehouses rows =
    (x : Warehouse) (capacity : ℕ)
    → find? (λ (y : Warehouse). y.id == warehouse_id) warehouses ≡ some x
    → x.capacity_kg ≡ some capacity
    → weight + load_of warehouse_id rows ≤ capacity

opened-Sound :
    (r : WarehouseInventory) (t : Trade)
    → IsSound t
    → InStorage t.batches r.batch_id
    → any (holds r.batch_id) t.inventory ≡ false
    → All (AtLeast r.batch_id r.weight_kg) t.batches
    → Room r.warehouse_id r.weight_kg t.warehouses t.inventory
    → IsSound (record t { inventory = r ∷ t.inventory })
opened-Sound r t h here alone weight room = record {
  unique = h.unique;
  stored = ((λ o. here), h.stored);
  single = ((λ o. alone), h.single);
  capacity = λ id x c found cap. elim (Bool-cases (r.warehouse_id == id && is_open r)) [
    | inl e ↦
        let same : r.warehouse_id ≡ id = ground arith in
        let room' : Room id r.weight_kg t.warehouses t.inventory =
          subst (λ k. Room k r.weight_kg t.warehouses t.inventory) same room in
        rw e (room' x c found cap)
    | inr e ↦ rw e (omega (arith, h.capacity id x c found cap))
  ];
  covered = ((λ o. weight), h.covered);
  processed = h.processed;
  sales = h.sales;
  totals = h.totals;
  unique_deliveries = h.unique_deliveries;
}

module _ (env : Env) (warehouse_id batch_id weight : ℕ) where
  insert_inventory-Sound :
      (w : World)
      → Sound w.db
      → InStorage w.db.trade.batches batch_id
      → any (holds batch_id) w.db.trade.inventory ≡ false
      → All (AtLeast batch_id weight) w.db.trade.batches
      → Room warehouse_id weight w.db.trade.warehouses w.db.trade.inventory
      → Sound (insert_inventory env warehouse_id batch_id weight w).1.db
  unfolding insert_inventory
  insert_inventory-Sound w h here alone bound room =
      opened-Sound _ w.db.trade h here alone bound room

  -- From a batch with no open row and a warehouse with room, a store keeps the invariants.
  enter_storage-Sound :
      (w : World)
      → Sound w.db
      → any (holds batch_id) w.db.trade.inventory ≡ false
      → All (AtLeast batch_id weight) w.db.trade.batches
      → Room warehouse_id weight w.db.trade.warehouses w.db.trade.inventory
      → Sound (enter_storage env warehouse_id batch_id weight w).1.db
  unfolding enter_storage
  enter_storage-Sound w h alone bound room =
      let (r, w') = transition_batch_status env batch_id in_storage w in
      go r w' (transition_batch_status_lem env batch_id in_storage w)
        (transition-Sound env batch_id in_storage w (λ e. cc) h)
    where
      go :
          (r : Result BatchStatus) (w' : World)
          → Transitions env batch_id in_storage w (r, w')
          → Sound w'.db
          → Sound (continue r (λ _. insert_inventory env warehouse_id batch_id weight) w').1.db
      go (err e) w' tr h' = h'
      go (ok previous) w' tr h' =
          let entered = Transitions-Entered env batch_id w w' previous tr h in
          insert_inventory-Sound w' h' entered.in_storage (rw entered.same_inventory alone)
            (entered.same_weights weight bound)
            (rw (entered.same_warehouses, entered.same_inventory) room)

-- The rows that a store was checked against before its transaction, as the tables have them in it:
-- the capacity is as it was, and the batch weighs no less.
pub record StillHolds (warehouse : Warehouse) (batch : CoffeeBatch) (warehouse_id batch_id : ℕ)
    (t : Trade) : Type 0 where
  pub capacity :
      (x : Warehouse)
      → find_warehouse warehouse_id t ≡ some x
      → x.capacity_kg ≡ warehouse.capacity_kg
  pub weight : All (AtLeast batch_id batch.total_weight_kg) t.batches

module _ (env : Env) (warehouse : Warehouse) (batch : CoffeeBatch)
    (warehouse_id batch_id stored : ℕ) where
  AtLeast-mono :
      (batches : List CoffeeBatch)
      → stored ≤ batch.total_weight_kg
      → All (AtLeast batch_id batch.total_weight_kg) batches
      → All (AtLeast batch_id stored) batches
  AtLeast-mono batches le =
      All-imp (AtLeast batch_id batch.total_weight_kg) (AtLeast batch_id stored) batches
        (λ b h e. omega (arith, h e))

  Room-of_guard :
      (t : Trade)
      → overfills stored warehouse.capacity_kg (load_of warehouse_id t.inventory) ≡ false
      → StillHolds warehouse batch warehouse_id batch_id t
      → Room warehouse_id stored t.warehouses t.inventory
  Room-of_guard t guard still x c found cap =
      let declared : warehouse.capacity_kg ≡ some c = sym (still.capacity x found) ∙ cap in
      overfills_lem stored (load_of warehouse_id t.inventory) c
        (subst (λ o. overfills stored o (load_of warehouse_id t.inventory) ≡ false) declared guard)

  -- The transaction of a store keeps the invariants: whichever check refuses, or none.
  pub store_in_tx-Sound :
      (w : World)
      → StillHolds warehouse batch warehouse_id batch_id w.db.trade
      → Sound w.db
      → Sound (store_in_tx env warehouse batch warehouse_id batch_id stored w).1.db
  unfolding store_in_tx
  store_in_tx-Sound w still h = elim (Bool-cases (any (holds batch_id) w.db.trade.inventory)) [
    | inl already ↦ rw already h
    | inr alone ↦ rw alone (elim (Bool-cases (ltb batch.total_weight_kg stored)) [
      | inl heavy ↦ rw heavy h
      | inr light ↦
          rw light
            (elim (Bool-cases (
              overfills stored warehouse.capacity_kg (load_of warehouse_id w.db.trade.inventory))) [
                | inl full ↦ rw full h
                | inr fits ↦ rw fits (
                    enter_storage-Sound env warehouse_id batch_id stored w h alone
                      (AtLeast-mono w.db.trade.batches (ground arith) still.weight)
                      (Room-of_guard w.db.trade fits still))
              ])
    ])
  ]
