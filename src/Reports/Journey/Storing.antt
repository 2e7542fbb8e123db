-- ===== src/Reports/Journey/Storing.antt =====
-- The movement report against the invariants of the coffee's tables.
use coffee_traceability_back.Prelude.{
  ℕ, ◌≡◌, ◌==◌, ◌&&◌, ◌||◌, ◌∙◌, refl, sym, ap, Bool, true, false, Option, none, some, List, [],
  ◌∷◌, ◌++◌, select, any, map, arith, Option-cases, All-find?, All, Bool-cases, inl, inr, subst,
  fun_ext, find?-passes, any-map, any-order_by, ltb,
}
use coffee_traceability_back.Errors.{ok}
use coffee_traceability_back.Schema.{
  in_storage, CoffeeBatch, Delivery, WarehouseInventory, OwnershipTransfer, ProcessingRecord, Trade,
  Accounts, is_confirmed,
}
use coffee_traceability_back.World.{Env, World}
use coffee_traceability_back.Batches.{has_id, is_open, find_batch}
use coffee_traceability_back.Custody.{IsSound, IsStored, StoredRow}
use coffee_traceability_back.Reports.Sales.{name_of, buyer_of}
use coffee_traceability_back.Reports.Journey.{
  BatchMovement, TimelineEntry, Note, currently_stored, is_row_of, storage_of, runs_of,
  transfers_of, deliveries_of, harvest_entries, run_entry, storage_entry, sale_entry, timeline_of,
  name_in, cooperative_of, registration_entry, movement_of, get_batch_movement,
}

abbrev pub says_stored : Note → Bool
says_stored currently_stored = true
says_stored _ = false

-- An entry that says that the batch is in a warehouse now.
abbrev pub is_kept : TimelineEntry → Bool
is_kept e = elim e.notes [ none ↦ false | some n ↦ says_stored n ]

any-append :
    {A : Type 0} (p : A → Bool) (xs ys : List A) → any p (xs ++ ys) ≡ (any p xs || any p ys)
any-append p [] ys = refl
any-append p (x ∷ xs) ys = ground (arith, any-append p xs ys)

any-none :
    {A B : Type 0} (p : B → Bool) (f : A → B) (xs : List A)
    → ((a : A) → p (f a) ≡ false)
    → any p (map f xs) ≡ false
any-none p f [] never = refl
any-none p f (x ∷ xs) never = ground (arith, never x, any-none p f xs never)

any-middle :
    {A : Type 0} (p : A → Bool) (xs : List A) (x : A) (ys zs vs : List A)
    → any p xs ≡ false
    → p x ≡ false
    → any p ys ≡ false
    → any p vs ≡ false
    → any p (xs ++ (x ∷ (ys ++ (zs ++ vs)))) ≡ any p zs
any-middle p xs x ys zs vs first here second last =
    any-append p xs (x ∷ (ys ++ (zs ++ vs)))
    ∙ ground (arith, first, here, second, last, any-append p ys (zs ++ vs), any-append p zs vs)

module _ (env : Env) (a : Accounts) (t : Trade) (b : CoffeeBatch) where
  harvest-none : (ds : List Delivery) → any is_kept (harvest_entries env b ds) ≡ false
  harvest-none [] = refl
  harvest-none (d ∷ ds) = refl

  run-none : (place : Option _) (r : ProcessingRecord) → is_kept (run_entry env place r) ≡ false
  run-none place r = refl

  sale-none : (x : OwnershipTransfer) → is_kept (sale_entry env a.buyers x) ≡ false
  sale-none x = elim (Option-cases (name_of (buyer_of x.buyer_id a.buyers))) [
    | inl e ↦ ground (arith, e)
    | inr (name, e) ↦ ground (arith, e)
  ]

  storage-open : (r : WarehouseInventory) → is_kept (storage_entry env t r) ≡ is_open r
  storage-open r = elim (Option-cases r.removed_at) [
    | inl e ↦ ground (arith, e)
    | inr (removed, e) ↦ ground (arith, e)
  ]

  -- The rows that are kept, in the timeline and in the table.
  any-timeline_of :
      any is_kept (timeline_of env a t b)
      ≡ any is_kept (map (storage_entry env t) (storage_of b.id t))
  any-timeline_of =
      let place = name_in (cooperative_of b.cooperative_id a.cooperatives) in
      let sales = select (λ (x : OwnershipTransfer). is_confirmed x.status) (transfers_of b.id t) in
      any-middle is_kept (harvest_entries env b (deliveries_of b.id t))
        (registration_entry env place b) (map (run_entry env place) (runs_of b.id t))
        (map (storage_entry env t) (storage_of b.id t)) (map (sale_entry env a.buyers) sales)
        (harvest-none (deliveries_of b.id t)) refl
        (any-none is_kept (run_entry env place) (runs_of b.id t) (run-none place))
        (any-none is_kept (sale_entry env a.buyers) sales sale-none)

  stored_rows : List WarehouseInventory → List WarehouseInventory
  stored_rows rows =
      select (is_row_of (λ (r : WarehouseInventory). some r.batch_id) (λ r. r.stored_at) b.id) rows

  kept-open : any is_kept (timeline_of env a t b) ≡ any is_open (stored_rows t.inventory)
  unfolding stored_rows
  kept-open =
      any-timeline_of
      ∙ any-map is_kept (storage_entry env t) (storage_of b.id t)
      ∙ ap (λ p. any p (storage_of b.id t)) (fun_ext storage-open)
      ∙ any-order_by (λ (x y : WarehouseInventory). ltb x.stored_at y.stored_at) is_open
          (stored_rows t.inventory)

  kept-in_storage :
      (rows : List WarehouseInventory)
      → All (StoredRow t.batches) rows
      → find_batch b.id t ≡ some b
      → any is_open (stored_rows rows) ≡ true
      → b.status ≡ in_storage
  unfolding stored_rows
  kept-in_storage [] all found h = absurd (cc h)
  kept-in_storage (r ∷ rows) all found h = elim (Bool-cases ((r.batch_id == b.id) && is_open r)) [
    | inl here ↦
        All-find? (IsStored r.batch_id) (has_id b.id) t.batches (all.0 (ground (arith, here))) found
          (ground (arith, here))
    | inr there ↦ kept-in_storage rows all.1 found (ground (arith, there, h))
  ]

-- Over sound tables, the movement report says that a batch is in a warehouse now only where its status
-- in the report is IN_STORAGE.
pub get_batch_movement-IsStored :
    (env : Env) (id : ℕ) (w w' : World) (m : BatchMovement)
    → IsSound w.db.trade
    → get_batch_movement env id w ≡ (ok m, w')
    → any is_kept m.timeline ≡ true
    → m.status ≡ in_storage
unfolding get_batch_movement
get_batch_movement-IsStored env id w w' m sound shown kept =
    elim (Option-cases (find_batch id w.db.trade)) [
      | inl e ↦ absurd (cc (rw e at shown))
      | inr (b, e) ↦
          (let same : movement_of env w b ≡ m = cc (rw e at shown) in
            let own : b.id ≡ id = ground (arith, find?-passes (has_id id) w.db.trade.batches e) in
            ap (λ (x : BatchMovement). x.status) (sym same)
            ∙ kept-in_storage env w.db.accounts w.db.trade b w.db.trade.inventory sound.stored
                (subst (λ k. find_batch k w.db.trade ≡ some b) (sym own) e)
                (sym (kept-open env w.db.accounts w.db.trade b)
                  ∙ ap (λ (x : BatchMovement). any is_kept x.timeline) same
                  ∙ kept))
    ]
