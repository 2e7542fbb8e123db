-- ===== src/Lots.antt =====
-- modules/batchGroups/batchGroup.routes.ts: a lot bundles batches for one sale.
pub mod Carrying
pub mod Isolation
pub mod Listing
pub mod Selling
use coffee_traceability_back.Prelude.{
  ℕ, ◌+◌, String, Bool, true, false, not, Option, none, some, List, [], ◌∷◌, ◌==◌, ◌&&◌, ◌||◌,
  find?, any, select, update_where, length, ltb, or_else,
}
use coffee_traceability_back.Errors.{
  not_found, bad_request, batches_not_found, ineligible_batches, lot_not_found, lot_sold, lot_empty,
  buyer_not_found, not_sellable, already_pending, no_pending_sale, invalid_lot,
}
use coffee_traceability_back.Schema.{
  BatchGroup, GroupStatus, open_lot, sold_lot, CoffeeBatch, BatchStatus, sold, exported, in_storage,
  in_transit, includes, OwnershipTransfer, Entity, Buyer, Trade, is_pending, AuditAction,
  group_entity,
}
use coffee_traceability_back.Texts.{codes}
use coffee_traceability_back.World.{
  Env, M, pure, gets_trade, gets_accounts, or_raise, with_transaction, ◌>>=◌, ◌>>◌, raise_if,
  for_each, skip, modify_trade, new_date, new_id,
}
use coffee_traceability_back.EntityCode.{next_entity_code}
use coffee_traceability_back.Notifications.{
  contains, notify_transfer_initiated, notify_transfer_confirmed,
}
use coffee_traceability_back.Audit.{record_audit_log}
use coffee_traceability_back.Scope.{Caller, require_user, assert_ownership, require_permission}
use coffee_traceability_back.Transfers.{
  TransferInput, ConfirmTransferResult, unnamed_buyer, confirm_transfer_in_tx,
  record_transfer_confirmed_events, insert_transfer,
}

-- TERMINAL_STATUSES
abbrev pub terminal_statuses : List BatchStatus
terminal_statuses = sold ∷ exported ∷ BatchStatus.rejected ∷ []

-- SELLABLE_STATUSES
abbrev pub sellable_statuses : List BatchStatus
sellable_statuses = in_storage ∷ in_transit ∷ []

abbrev pub is_terminal : CoffeeBatch → Bool
is_terminal b = includes b.status terminal_statuses

abbrev pub is_sellable : CoffeeBatch → Bool
is_sellable b = includes b.status sellable_statuses

-- `new Set(ids).size === ids.length`
abbrev pub has_no_duplicates : List ℕ → Bool
has_no_duplicates [] = true
has_no_duplicates (a ∷ xs) = not (contains a xs) && has_no_duplicates xs

-- `findMany({ where: { id: { in: batchIds }, isDeleted: false } })`
abbrev pub is_member : List ℕ → CoffeeBatch → Bool
is_member ids b = contains b.id ids && not b.is_deleted

abbrev pub members_of : List ℕ → Trade → List CoffeeBatch
members_of ids t = select (λ (b : CoffeeBatch). contains b.id ids) t.batches

abbrev pub is_pending_for : List ℕ → OwnershipTransfer → Bool
is_pending_for ids x = contains x.batch_id ids && is_pending x.status

abbrev pub pending_for : List ℕ → Trade → List OwnershipTransfer
pending_for ids t = select (is_pending_for ids) t.transfers

abbrev pub combined_weight : List CoffeeBatch → ℕ
combined_weight [] = 0
combined_weight (b ∷ bs) = b.total_weight_kg + combined_weight bs

-- `serializeGroup`: the weight of a lot is read off its members.
pub serialize_group : BatchGroup → Trade → BatchGroup × ℕ
serialize_group group t = (group, combined_weight (members_of group.members t))

abbrev pub is_sold_lot : GroupStatus → Bool
is_sold_lot open_lot = false
is_sold_lot sold_lot = true

abbrev pub is_empty : List ℕ → Bool
is_empty [] = true
is_empty (x ∷ xs) = false

abbrev pub find_group : ℕ → Trade → Option BatchGroup
find_group id t = find? (λ (g : BatchGroup). g.id == id) t.groups

abbrev pub mark_sold : ℕ → Trade → Trade
mark_sold id t = record t {
  groups =
      update_where (λ (g : BatchGroup). g.id == id) (λ g. record g { status = sold_lot }) t.groups;
}

-- What a sale of a lot asks for, but for the batch.
pub record SaleInput : Type 0 where
  pub buyer_id : ℕ
  pub sale_price_per_kg : Option ℕ
  pub from_entity_type : Entity
  pub from_entity_id : ℕ

-- `for (const batch of batches) assertOwnership(req, batch)`
assert_all : Caller → List CoffeeBatch → M (Unit {0})
assert_all caller batches = for_each batches (λ b. assert_ownership caller (some b.cooperative_id))

-- `batches[0].cooperativeId`; the body's minimum of two ids leaves no empty list here.
abbrev first_cooperative : List CoffeeBatch → Option ℕ
first_cooperative [] = none
first_cooperative (b ∷ bs) = some b.cooperative_id

module _ (env : Env) where
  insert_group : ℕ → Option String → ℕ → List ℕ → M BatchGroup
  insert_group cooperative_id note user_id batch_ids = do
    group_code ← next_entity_code env (codes "group") (codes "LOT") 5
    id ← new_id env
    now ← new_date env
    let row : BatchGroup = record {
      id = id;
      group_code = group_code;
      cooperative_id = cooperative_id;
      note = note;
      status = open_lot;
      created_by_id = some user_id;
      members = batch_ids;
      created_at = now;
    }
    modify_trade (λ t. record t { groups = row ∷ t.groups })
    pure row

  pub create_handler : Caller → List ℕ → Option String → M (BatchGroup × ℕ)
  unfolding assert_all insert_group
  create_handler caller batch_ids note = do
    require_permission env ("lots:manage" ∷ []) caller
    raise_if (ltb (length batch_ids) 2 || not (has_no_duplicates batch_ids))
        (bad_request invalid_lot)
    batches ← gets_trade (λ t. select (is_member batch_ids) t.batches)
    raise_if (not (length batches == length batch_ids)) (not_found batches_not_found)
    assert_all caller batches
    cooperative_id ← or_raise (first_cooperative batches) (not_found batches_not_found)
    u ← require_user caller
    raise_if (any is_terminal batches) (bad_request ineligible_batches)
    group ← with_transaction (insert_group cooperative_id note u.id batch_ids)
    record_audit_log caller AuditAction.create group_entity group.id
    gets_trade (serialize_group group)

  open_transfers : List ℕ → SaleInput → ℕ → M (Unit {0})
  open_transfers batch_ids body user_id = for_each batch_ids λ batch_id. do
    insert_transfer env
        (record {
          batch_id = batch_id;
          from_entity_type = body.from_entity_type;
          from_entity_id = body.from_entity_id;
          buyer_id = body.buyer_id;
          sale_price_per_kg = body.sale_price_per_kg;
        })
        user_id
    skip

  pub sell_handler : Caller → ℕ → SaleInput → M (Unit {0})
  unfolding open_transfers
  sell_handler caller group_id body = do
    require_permission env ("lots:manage" ∷ []) caller
    found ← gets_trade (find_group group_id)
    group ← or_raise found (not_found lot_not_found)
    assert_ownership caller (some group.cooperative_id)
    u ← require_user caller
    raise_if (is_sold_lot group.status) (bad_request lot_sold)
    raise_if (is_empty group.members) (bad_request lot_empty)
    found_buyer ← gets_accounts (λ a. find? (λ (b : Buyer). b.id == body.buyer_id) a.buyers)
    buyer ← or_raise found_buyer (not_found buyer_not_found)
    members ← gets_trade (members_of group.members)
    raise_if (any (λ b. not (is_sellable b)) members) (bad_request not_sellable)
    outstanding ← gets_trade (λ t. any (is_pending_for group.members) t.transfers)
    raise_if outstanding (bad_request already_pending)
    with_transaction (open_transfers group.members body u.id)
    notify_transfer_initiated env group.cooperative_id group.group_code buyer.company_name
        (some u.id)
    record_audit_log caller AuditAction.create group_entity group.id

  -- `for (const t of pending) confirmed.push(await confirmTransferInTx(tx, t.id))`
  pub confirm_all : List OwnershipTransfer → M (List ConfirmTransferResult)
  confirm_all [] = pure []
  confirm_all (x ∷ xs) = do
    result ← confirm_transfer_in_tx env x.id
    rest ← confirm_all xs
    pure (result ∷ rest)

  -- The transaction of a confirmation: all the transfers, then the lot.
  pub confirm_lot_in_tx : ℕ → List OwnershipTransfer → M (List ConfirmTransferResult)
  confirm_lot_in_tx group_id pending = do
    confirmed ← confirm_all pending
    modify_trade (mark_sold group_id)
    pure confirmed

  announce : ℕ → ConfirmTransferResult → M (Unit {0})
  announce user_id result = do
    record_transfer_confirmed_events env result
    notify_transfer_confirmed env result.updated.batch_id result.cooperative_id result.batch_code
        (or_else result.buyer_name unnamed_buyer) result.updated.initiated_by_id (some user_id)

  pub confirm_sale_handler : Caller → ℕ → M (BatchGroup × ℕ)
  unfolding announce
  confirm_sale_handler caller group_id = do
    require_permission env ("lots:manage" ∷ []) caller
    found ← gets_trade (find_group group_id)
    group ← or_raise found (not_found lot_not_found)
    assert_ownership caller (some group.cooperative_id)
    u ← require_user caller
    raise_if (is_sold_lot group.status) (bad_request lot_sold)
    raise_if (is_empty group.members) (bad_request lot_empty)
    pending ← gets_trade (pending_for group.members)
    raise_if (length pending == 0) (bad_request no_pending_sale)
    results ← with_transaction (confirm_lot_in_tx group.id pending)
    for_each results (announce u.id)
    record_audit_log caller AuditAction.update group_entity group.id
    after ← gets_trade (find_group group_id)
    updated ← or_raise after (not_found lot_not_found)
    gets_trade (serialize_group updated)

  pub get_handler : Caller → ℕ → M (BatchGroup × ℕ)
  get_handler caller group_id = do
    require_permission env ("lots:view" ∷ []) caller
    found ← gets_trade (find_group group_id)
    group ← or_raise found (not_found lot_not_found)
    assert_ownership caller (some group.cooperative_id)
    gets_trade (serialize_group group)
