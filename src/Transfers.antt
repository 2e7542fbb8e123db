-- ===== src/Transfers.antt =====
-- modules/ownershipTransfers: a sale is opened as a PENDING transfer and closed by a confirmation.
pub mod Carrying
pub mod Isolation
pub mod Selling
pub mod Resale
use coffee_traceability_back.Prelude.{
  ℕ, String, Bool, not, Option, none, some, List, [], ◌∷◌, ◌==◌, find?, update_where, select,
  or_else,
}
use coffee_traceability_back.Errors.{
  not_found, bad_request, request_error, batch_not_found, transfer_not_found, transfer_finalized,
}
use coffee_traceability_back.Schema.{
  Text, OwnershipTransfer, TransferStatus, Entity, Buyer, Trade, sold, is_pending,
  ownership_transferred, sale_recorded, Payload, AuditAction, transfer_entity,
}
use coffee_traceability_back.World.{
  Env, World, M, pure, gets, gets_trade, gets_accounts, or_raise, with_transaction, ◌>>=◌, ◌>>◌,
  raise_if, when_some, modify_trade, new_date, new_id,
}
use coffee_traceability_back.Ledger.{record_event}
use coffee_traceability_back.Notifications.{notify_transfer_initiated, notify_transfer_confirmed}
use coffee_traceability_back.Audit.{record_audit_log}
use coffee_traceability_back.Scope.{
  Caller, require_user, assert_ownership, authorize, require_permission, staff_roles,
}
use coffee_traceability_back.Batches.{find_live, find_batch, transition_batch_status}

pub record TransferInput : Type 0 where
  pub batch_id : ℕ
  pub from_entity_type : Entity
  pub from_entity_id : ℕ
  pub buyer_id : ℕ
  pub sale_price_per_kg : Option ℕ

-- `ConfirmTransferResult`
pub record ConfirmTransferResult : Type 0 where
  pub updated : OwnershipTransfer
  pub batch_code : Text
  pub cooperative_id : ℕ
  pub buyer_name : Option String

abbrev pub transfer_has_id : ℕ → OwnershipTransfer → Bool
transfer_has_id id x = x.id == id

abbrev pub find_transfer : ℕ → Trade → Option OwnershipTransfer
find_transfer id t = find? (transfer_has_id id) t.transfers

abbrev pub confirm_row : ℕ → OwnershipTransfer → OwnershipTransfer
confirm_row now x = record x { status = TransferStatus.confirmed; transferred_at = now }

abbrev pub confirm_transfer_row : ℕ → ℕ → Trade → Trade
confirm_transfer_row id now t = record t {
  transfers = update_where (transfer_has_id id) (confirm_row now) t.transfers;
}

-- The company's name of the buyer of a transfer, if both are there.
abbrev pub buyer_name_of : Option ℕ → World → Option String
buyer_name_of none w = none
buyer_name_of (some id) w = elim (find? (λ (b : Buyer). b.id == id) w.db.accounts.buyers) [
  | none ↦ none
  | some b ↦ some b.company_name
]

-- "a buyer"
abbrev pub unnamed_buyer : String
unnamed_buyer = "a buyer"

module _ (env : Env) where
  close_sale : ℕ → ℕ → M ℕ
  close_sale transfer_id batch_id = do
    now ← new_date env
    modify_trade (confirm_transfer_row transfer_id now)
    transition_batch_status env batch_id sold
    pure now

  pub confirm_transfer_in_tx : ℕ → M ConfirmTransferResult
  confirm_transfer_in_tx transfer_id = do
    found ← gets_trade (find_transfer transfer_id)
    transfer ← or_raise found (not_found transfer_not_found)
    owner ← gets_trade (find_batch transfer.batch_id)
    batch ← or_raise owner (not_found transfer_not_found)
    buyer_name ← gets (buyer_name_of transfer.buyer_id)
    raise_if (not (is_pending transfer.status)) (bad_request transfer_finalized)
    now ← close_sale transfer.id transfer.batch_id
    pure (record {
      updated = confirm_row now transfer;
      batch_code = batch.batch_code;
      cooperative_id = batch.cooperative_id;
      buyer_name = buyer_name;
    })

  pub record_sale_event : OwnershipTransfer → ℕ → M (Unit {0})
  record_sale_event updated price = do
    now ← new_date env
    record_event env updated.batch_id sale_recorded
        (Payload.sale updated.id updated.buyer_id price now)

  pub record_transfer_confirmed_events : ConfirmTransferResult → M (Unit {0})
  unfolding record_sale_event
  record_transfer_confirmed_events result = do
    now ← new_date env
    record_event env result.updated.batch_id ownership_transferred (
        Payload.transferred result.updated.id result.updated.buyer_id
          result.updated.from_entity_type now)
    when_some result.updated.sale_price_per_kg (record_sale_event result.updated)

  -- The table's foreign key refuses the buyer that is not there.
  pub insert_transfer : TransferInput → ℕ → M OwnershipTransfer
  insert_transfer body user_id = do
    known ← gets_accounts (λ a. find? (λ (y : Buyer). y.id == body.buyer_id) a.buyers)
    buyer ← or_raise known request_error
    id ← new_id env
    created_at ← new_date env
    let row : OwnershipTransfer = record {
      id = id;
      batch_id = body.batch_id;
      from_entity_type = body.from_entity_type;
      from_entity_id = body.from_entity_id;
      buyer_id = some body.buyer_id;
      initiated_by_id = some user_id;
      sale_price_per_kg = body.sale_price_per_kg;
      status = TransferStatus.pending;
      transferred_at = created_at;
    }
    modify_trade (λ t. record t { transfers = row ∷ t.transfers })
    pure row

  pub initiate_handler : Caller → TransferInput → M OwnershipTransfer
  initiate_handler caller body = do
    authorize staff_roles caller
    found ← gets_trade (find_live body.batch_id)
    batch ← or_raise found (not_found batch_not_found)
    assert_ownership caller (some batch.cooperative_id)
    u ← require_user caller
    transfer ← insert_transfer body u.id
    buyer_name ← gets (buyer_name_of (some body.buyer_id))
    notify_transfer_initiated env batch.cooperative_id batch.batch_code
        (or_else buyer_name unnamed_buyer) (some u.id)
    record_audit_log caller AuditAction.create transfer_entity transfer.id
    pure transfer

  pub confirm_handler : Caller → ℕ → M OwnershipTransfer
  confirm_handler caller transfer_id = do
    authorize staff_roles caller
    found ← gets_trade (find_transfer transfer_id)
    transfer ← or_raise found (not_found transfer_not_found)
    owner ← gets_trade (find_batch transfer.batch_id)
    batch ← or_raise owner (not_found transfer_not_found)
    assert_ownership caller (some batch.cooperative_id)
    u ← require_user caller
    raise_if (not (is_pending transfer.status)) (bad_request transfer_finalized)
    result ← with_transaction (confirm_transfer_in_tx transfer.id)
    record_transfer_confirmed_events result
    record_audit_log caller AuditAction.update transfer_entity result.updated.id
    notify_transfer_confirmed env result.updated.batch_id result.cooperative_id result.batch_code
        (or_else result.buyer_name unnamed_buyer) result.updated.initiated_by_id (some u.id)
    pure result.updated

  pub list_handler : Caller → ℕ → M (List OwnershipTransfer)
  list_handler caller batch_id = do
    require_permission env ("batches:view" ∷ []) caller
    found ← gets_trade (find_live batch_id)
    batch ← or_raise found (not_found batch_not_found)
    assert_ownership caller (some batch.cooperative_id)
    gets_trade (λ t. select (λ (x : OwnershipTransfer). x.batch_id == batch_id) t.transfers)
