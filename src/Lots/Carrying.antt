-- ===== src/Lots/Carrying.antt =====
-- The sale of a lot and its confirmation, and properties of the batches' table.
use coffee_traceability_back.Prelude.{ℕ, List, [], ◌∷◌}
use coffee_traceability_back.Schema.{CoffeeBatch, OwnershipTransfer}
use coffee_traceability_back.World.{Env}
use coffee_traceability_back.World.Keeps.{Keeps, Keeps-bind, Keeps-pure, keeps_rules}
use coffee_traceability_back.Notifications.Effects.{
  notify_transfer_initiated-Keeps, notify_transfer_confirmed-Keeps,
}
use coffee_traceability_back.Scope.{Caller}
use coffee_traceability_back.Batches.Carrying.{
  OfBatches, IsCarried, Keeps-elsewhere, carrying_rules,
}
use coffee_traceability_back.Transfers.{ConfirmTransferResult}
use coffee_traceability_back.Transfers.Carrying.{
  confirm_transfer_in_tx-Carried, record_transfer_confirmed_events-Carried, insert_transfer-Carried,
}
use coffee_traceability_back.Lots.{
  SaleInput, open_transfers, sell_handler, confirm_all, confirm_lot_in_tx, announce,
  confirm_sale_handler,
}

module _ {Q : List CoffeeBatch → Type 0} (c : IsCarried Q) (env : Env) where
  open_transfers-Carried :
      (ids : List ℕ) (body : SaleInput) (user_id : ℕ)
      → Keeps (OfBatches Q) (open_transfers env ids body user_id)
  unfolding open_transfers
  open_transfers-Carried ids body user_id = search (keeps_rules, insert_transfer-Carried c) depth 10

  pub sell-Carried :
      (caller : Caller) (id : ℕ) (body : SaleInput)
      → Keeps (OfBatches Q) (sell_handler env caller id body)
  unfolding sell_handler
  sell-Carried caller id body =
      search (carrying_rules, open_transfers-Carried, notify_transfer_initiated-Keeps) depth 32 fits
        6000

  confirm_all-Carried :
      (pending : List OwnershipTransfer) → Keeps (OfBatches Q) (confirm_all env pending)
  unfolding confirm_all
  confirm_all-Carried [] = search keeps_rules
  confirm_all-Carried (x ∷ xs) =
      Keeps-bind _ _ (confirm_transfer_in_tx-Carried c env x.id)
        λ result. Keeps-bind _ _ (confirm_all-Carried xs) λ rest. Keeps-pure (result ∷ rest)

  confirm_lot_in_tx-Carried :
      (id : ℕ) (pending : List OwnershipTransfer)
      → Keeps (OfBatches Q) (confirm_lot_in_tx env id pending)
  unfolding confirm_lot_in_tx
  confirm_lot_in_tx-Carried id pending =
      search (keeps_rules, confirm_all-Carried, Keeps-elsewhere) depth 8

  announce-Carried :
      (user_id : ℕ) (result : ConfirmTransferResult)
      → Keeps (OfBatches Q) (announce env user_id result)
  unfolding announce
  announce-Carried user_id result =
      search
        (
          carrying_rules,
          record_transfer_confirmed_events-Carried c,
          notify_transfer_confirmed-Keeps,
        )
        depth 8

  pub confirm_sale-Carried :
      (caller : Caller) (id : ℕ) → Keeps (OfBatches Q) (confirm_sale_handler env caller id)
  unfolding confirm_sale_handler
  confirm_sale-Carried caller id =
      search (carrying_rules, confirm_lot_in_tx-Carried, announce-Carried) depth 32 fits 6000
