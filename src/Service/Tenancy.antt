-- ===== src/Service/Tenancy.antt =====
-- The modelled requests, by the cooperative whose coffee they are about.
use coffee_traceability_back.Prelude.{
  Bool, true, All, All-find?, find?-passes, Option-cases, inl, inr, ap, ◌∙◌, ◌==◌, ℕ, ◌≡◌, refl,
  sym, subst, Option, none, some, find?,
}
use coffee_traceability_back.Schema.{
  CoffeeBatch, WarehouseInventory, OwnershipTransfer, BatchGroup, Trade,
}
use coffee_traceability_back.World.{Env, World}
use coffee_traceability_back.Scope.{Caller}
use coffee_traceability_back.Scope.Isolation.{IsForeign}
use coffee_traceability_back.Notifications.{contains}
use coffee_traceability_back.Batches.{find_live, find_batch}
use coffee_traceability_back.Batches.Isolation.{update_status_handler-Same}
use coffee_traceability_back.Processing.Isolation.{create_handler-Same}
use coffee_traceability_back.Warehouses.{row_has_id}
use coffee_traceability_back.Warehouses.Isolation.{store_handler-Same, remove_handler-Same}
use coffee_traceability_back.Transfers.{find_transfer}
use coffee_traceability_back.Transfers.Isolation.{initiate_handler-Same, confirm_handler-Same}
use coffee_traceability_back.Lots.{find_group}
use coffee_traceability_back.Lots.Isolation.{sell_handler-Same, confirm_sale_handler-Same}
use coffee_traceability_back.Deliveries.Isolation.{assign_handler-Same}
use coffee_traceability_back.Service.{
  Request, update_status, assign, processing, store, remove, initiate, confirm, sell_lot,
  confirm_lot, handle,
}

abbrev owner : Option CoffeeBatch → Option ℕ
owner none = none
owner (some b) = some b.cooperative_id

abbrev owner_of_row : Option WarehouseInventory → Trade → Option ℕ
owner_of_row none t = none
owner_of_row (some r) t = owner (find_batch r.batch_id t)

abbrev owner_of_transfer : Option OwnershipTransfer → Trade → Option ℕ
owner_of_transfer none t = none
owner_of_transfer (some x) t = owner (find_batch x.batch_id t)

abbrev is_in : BatchGroup → CoffeeBatch → Bool
is_in g b = contains b.id g.members

-- The cooperative of the lot's coffee, read off its first batch.
abbrev owner_of_group : Option BatchGroup → Trade → Option ℕ
owner_of_group none t = none
owner_of_group (some g) t = owner (find? (is_in g) t.batches)

-- Every batch of a lot is of the lot's cooperative.
abbrev pub Unmixed : Trade → Type 0
Unmixed t =
    All (λ g. All (λ b. is_in g b ≡ true → b.cooperative_id ≡ g.cooperative_id) t.batches) t.groups

-- The cooperative whose coffee a request is about, if that is there.
abbrev pub owner_of : Request → Trade → Option ℕ
owner_of (update_status id s) t = owner (find_live id t)
owner_of (assign id ids) t = owner (find_live id t)
owner_of (processing body) t = owner (find_live body.batch_id t)
owner_of (store body) t = owner (find_live body.batch_id t)
owner_of (remove id) t = owner_of_row (find? (row_has_id id) t.inventory) t
owner_of (initiate body) t = owner (find_live body.batch_id t)
owner_of (confirm id) t = owner_of_transfer (find_transfer id t) t
owner_of (sell_lot id body) t = owner_of_group (find_group id t) t
owner_of (confirm_lot id) t = owner_of_group (find_group id t) t

module _ (caller : Caller) (c : ℕ) (foreign : IsForeign caller c) (t : Trade) where
  same_owner : (k : ℕ) → some k ≡ some c → IsForeign caller k
  same_owner k e = (let here : k ≡ c = cc in subst (IsForeign caller) (sym here) foreign)

  far_batch :
      (o : Option CoffeeBatch)
      → owner o ≡ some c
      → (b : CoffeeBatch) → o ≡ some b
      → IsForeign caller b.cooperative_id
  far_batch o e b found = same_owner b.cooperative_id (rw found at e)

  -- The lot is its batches' cooperative's.
  far_lot :
      (id : ℕ)
      → Unmixed t
      → owner_of_group (find_group id t) t ≡ some c
      → (g : BatchGroup) → find_group id t ≡ some g
      → IsForeign caller g.cooperative_id
  far_lot id unmixed e g found =
      let e2 : owner (find? (is_in g) t.batches) ≡ some c = rw found at e in
      let own =
        All-find?
          (λ (k : BatchGroup).
            All (λ b. is_in k b ≡ true → b.cooperative_id ≡ k.cooperative_id) t.batches)
          (λ (k : BatchGroup). k.id == id) t.groups unmixed found in
      elim (Option-cases (find? (is_in g) t.batches)) [
        | inl missing ↦ absurd (cc (rw missing at e2))
        | inr (b, first) ↦
            (let same : b.cooperative_id ≡ g.cooperative_id =
                All-find?
                  (λ (k : CoffeeBatch). is_in g k ≡ true → k.cooperative_id ≡ g.cooperative_id)
                  (is_in g) t.batches own first (find?-passes (is_in g) t.batches first) in
              same_owner g.cooperative_id (ap some (sym same) ∙ (rw first at e2)))
      ]

-- A request about the coffee of a cooperative that its caller may not touch leaves the coffee's tables
-- as they are. For a lot, the coffee's cooperative is that of its batches, and the tables hold no lot
-- with a batch of another cooperative than the lot's.
pub handle-Same :
    (env : Env) (caller : Caller) (r : Request) (w : World) (c : ℕ)
    → IsForeign caller c
    → Unmixed w.db.trade
    → owner_of r w.db.trade ≡ some c
    → (handle env caller r w).db.trade ≡ w.db.trade
unfolding handle
handle-Same env caller (update_status id s) w c foreign unmixed e =
    (update_status_handler-Same caller w.db.trade id
        (far_batch caller c foreign w.db.trade (find_live id w.db.trade) e) env s).at
      w refl
handle-Same env caller (assign id ids) w c foreign unmixed e =
    (assign_handler-Same env caller w.db.trade id ids
        (far_batch caller c foreign w.db.trade (find_live id w.db.trade) e)).at
      w refl
handle-Same env caller (processing body) w c foreign unmixed e =
    (create_handler-Same env caller w.db.trade body
        (far_batch caller c foreign w.db.trade (find_live body.batch_id w.db.trade) e)).at
      w refl
handle-Same env caller (store body) w c foreign unmixed e =
    (store_handler-Same env caller w.db.trade body
        (far_batch caller c foreign w.db.trade (find_live body.batch_id w.db.trade) e)).at
      w refl
handle-Same env caller (remove id) w c foreign unmixed e =
    (remove_handler-Same env caller w.db.trade id (λ r b row batch.
        same_owner caller c foreign w.db.trade b.cooperative_id (rw (row, batch) at e))).at
      w refl
handle-Same env caller (initiate body) w c foreign unmixed e =
    (initiate_handler-Same env caller w.db.trade body
        (far_batch caller c foreign w.db.trade (find_live body.batch_id w.db.trade) e)).at
      w refl
handle-Same env caller (confirm id) w c foreign unmixed e =
    (confirm_handler-Same env caller w.db.trade id (λ x b transfer batch.
        same_owner caller c foreign w.db.trade b.cooperative_id (rw (transfer, batch) at e))).at
      w refl
handle-Same env caller (sell_lot id body) w c foreign unmixed e =
    (sell_handler-Same env caller w.db.trade id body
        (far_lot caller c foreign w.db.trade id unmixed e)).at
      w refl
handle-Same env caller (confirm_lot id) w c foreign unmixed e =
    (confirm_sale_handler-Same env caller w.db.trade id
        (far_lot caller c foreign w.db.trade id unmixed e)).at
      w refl
