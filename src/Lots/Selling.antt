-- ===== src/Lots/Selling.antt =====
-- The sale of a lot and its confirmation, and the invariants of the coffee's tables.
use coffee_traceability_back.Prelude.{ℕ, List, [], ◌∷◌}
use coffee_traceability_back.Schema.{OwnershipTransfer}
use coffee_traceability_back.World.{Env, World, modify_trade}
use coffee_traceability_back.World.Keeps.{Keeps, Keeps-bind, Keeps-pure, keeps_rules}
use coffee_traceability_back.Notifications.Effects.{
  notify_transfer_initiated-Keeps, notify_transfer_confirmed-Keeps,
}
use coffee_traceability_back.Audit.Effects.{record_audit_log-Keeps}
use coffee_traceability_back.Scope.{Caller}
use coffee_traceability_back.Scope.Effects.{
  require_user-Keeps, assert_ownership-Keeps, require_permission-Keeps,
}
use coffee_traceability_back.Custody.Moves.{Sound, Sound-outside, Sound-blind}
use coffee_traceability_back.Transfers.{ConfirmTransferResult}
use coffee_traceability_back.Transfers.Selling.{
  confirm_transfer_in_tx-Keeps, record_transfer_confirmed_events-Keeps, insert_transfer-Keeps,
}
use coffee_traceability_back.Lots.{
  SaleInput, mark_sold, open_transfers, sell_handler, confirm_all, confirm_lot_in_tx, announce,
  confirm_sale_handler,
}

module _ (env : Env) where
  mark_sold-Keeps : (id : ℕ) → Keeps Sound (modify_trade (mark_sold id))
  mark_sold-Keeps id = record {
    at = λ w h. record {
      unique = h.unique;
      stored = h.stored;
      single = h.single;
      capacity = h.capacity;
      covered = h.covered;
      processed = h.processed;
      sales = h.sales;
      totals = h.totals;
      unique_deliveries = h.unique_deliveries;
    };
  }

  open_transfers-Keeps :
      (ids : List ℕ) (body : SaleInput) (user_id : ℕ)
      → Keeps Sound (open_transfers env ids body user_id)
  unfolding open_transfers
  open_transfers-Keeps ids body user_id = search (keeps_rules, insert_transfer-Keeps) depth 10

  sell_handler-Keeps :
      (caller : Caller) (id : ℕ) (body : SaleInput) → Keeps Sound (sell_handler env caller id body)
  unfolding sell_handler
  sell_handler-Keeps caller id body =
      search
        (
          keeps_rules, require_permission-Keeps, assert_ownership-Keeps, require_user-Keeps,
          open_transfers-Keeps, notify_transfer_initiated-Keeps, record_audit_log-Keeps,
          Sound-outside, Sound-blind,
        )
        depth 32 fits 6000

  confirm_all-Keeps : (pending : List OwnershipTransfer) → Keeps Sound (confirm_all env pending)
  unfolding confirm_all
  confirm_all-Keeps [] = search keeps_rules
  confirm_all-Keeps (x ∷ xs) =
      Keeps-bind _ _ (confirm_transfer_in_tx-Keeps env x.id)
        λ result. Keeps-bind _ _ (confirm_all-Keeps xs) λ rest. Keeps-pure (result ∷ rest)

  confirm_lot_in_tx-Keeps :
      (id : ℕ) (pending : List OwnershipTransfer) → Keeps Sound (confirm_lot_in_tx env id pending)
  unfolding confirm_lot_in_tx
  confirm_lot_in_tx-Keeps id pending =
      search (keeps_rules, confirm_all-Keeps, mark_sold-Keeps) depth 8

  announce-Keeps :
      (user_id : ℕ) (result : ConfirmTransferResult) → Keeps Sound (announce env user_id result)
  unfolding announce
  announce-Keeps user_id result =
      search
        (
          keeps_rules, record_transfer_confirmed_events-Keeps, notify_transfer_confirmed-Keeps,
          Sound-blind,
        )
        depth 8

  confirm_sale_handler-Keeps :
      (caller : Caller) (id : ℕ) → Keeps Sound (confirm_sale_handler env caller id)
  unfolding confirm_sale_handler
  confirm_sale_handler-Keeps caller id =
      search
        (
          keeps_rules, require_permission-Keeps, assert_ownership-Keeps, require_user-Keeps,
          confirm_lot_in_tx-Keeps, announce-Keeps, record_audit_log-Keeps, Sound-outside,
        )
        depth 32 fits 6000

-- The opening of a lot's sale keeps the coffee's tables sound, however it ends.
pub sell_handler-Sound :
    (env : Env) (caller : Caller) (id : ℕ) (body : SaleInput) (w : World)
    → Sound w.db
    → Sound (sell_handler env caller id body w).1.db
sell_handler-Sound env caller id body w = (sell_handler-Keeps env caller id body).at w

-- The confirmation of a lot's sale keeps the coffee's tables sound, however it ends.
pub confirm_sale_handler-Sound :
    (env : Env) (caller : Caller) (id : ℕ) (w : World)
    → Sound w.db
    → Sound (confirm_sale_handler env caller id w).1.db
confirm_sale_handler-Sound env caller id w = (confirm_sale_handler-Keeps env caller id).at w
