-- ===== src/Batches.antt =====
-- modules/coffeeBatches/coffeeBatch.service.ts and coffeeBatch.controller.ts: the life of a batch.
pub mod Carrying
pub mod Isolation
pub mod Listing
pub mod Scanning
pub mod Lifecycle
pub mod Transition
pub mod Updating
use coffee_traceability_back.Prelude.{
  ℕ, String, Bool, true, false, not, Option, none, some, List, [], ◌∷◌, ◌==◌, ◌&&◌, ◌||◌,
  if◌then◌else◌, find?, any, update_where, is_some, same_option, select,
}
use coffee_traceability_back.Errors.{
  bad_request, not_found, forbidden, record_not_found, invalid_cooperative, batch_not_found,
  cannot_transition, no_processing_record, sold_by_transfer, stored_by_warehouse, not_your_batch,
  no_batch_for_code,
}
use coffee_traceability_back.Schema.{
  BatchStatus, registered, in_processing, processed, in_storage, in_transit, sold, exported,
  same_status, includes, EventType, batch_created, processing_completed, warehouse_stored,
  sale_recorded, ownership_transferred, CoffeeBatch, Delivery, ProcessingRecord, WarehouseInventory,
  Trade, Cooperative, Payload, AuditAction, coffee_batch, Farmer,
}
use coffee_traceability_back.Texts.{codes}
use coffee_traceability_back.World.{
  Env, Db, World, M, pure, gets_trade, gets_accounts, or_raise, with_transaction, ◌>>=◌, ◌>>◌,
  raise_if, when, when_some, skip, modify_trade, new_date, new_id,
}
use coffee_traceability_back.EntityCode.{next_entity_code}
use coffee_traceability_back.Ledger.{record_event}
use coffee_traceability_back.Notifications.{notify_batch_status_change}
use coffee_traceability_back.Audit.{record_audit_log}
use coffee_traceability_back.Scope.{
  AuthUser, Caller, require_user, assert_ownership, farmer_scope_id, require_permission,
}

-- ALLOWED_TRANSITIONS
abbrev pub allowed_transitions : BatchStatus → List BatchStatus
allowed_transitions registered = in_processing ∷ BatchStatus.rejected ∷ []
allowed_transitions in_processing = processed ∷ BatchStatus.rejected ∷ []
allowed_transitions processed = in_storage ∷ BatchStatus.rejected ∷ []
allowed_transitions in_storage = in_transit ∷ sold ∷ BatchStatus.rejected ∷ []
allowed_transitions in_transit = sold ∷ in_storage ∷ []
allowed_transitions sold = exported ∷ []
allowed_transitions exported = []
allowed_transitions BatchStatus.rejected = []

-- STATUS_EVENT
abbrev pub status_event : BatchStatus → EventType
status_event registered = processing_completed
status_event in_processing = processing_completed
status_event processed = processing_completed
status_event in_storage = warehouse_stored
status_event in_transit = ownership_transferred
status_event sold = sale_recorded
status_event exported = sale_recorded
status_event BatchStatus.rejected = processing_completed

abbrev pub has_id : ℕ → CoffeeBatch → Bool
has_id id b = b.id == id

abbrev pub is_live : ℕ → CoffeeBatch → Bool
is_live id b = b.id == id && not b.is_deleted

-- `findFirst({ where: { id, isDeleted: false } })`
abbrev pub find_live : ℕ → Trade → Option CoffeeBatch
find_live id t = find? (is_live id) t.batches

abbrev pub find_batch : ℕ → Trade → Option CoffeeBatch
find_batch id t = find? (has_id id) t.batches

abbrev pub is_open : WarehouseInventory → Bool
is_open r = not (is_some r.removed_at)

-- `where: { batchId, removedAt: null }`
abbrev pub holds : ℕ → WarehouseInventory → Bool
holds batch_id r = r.batch_id == batch_id && is_open r

abbrev pub is_record_of : ℕ → ProcessingRecord → Bool
is_record_of batch_id r = r.batch_id == batch_id

abbrev pub has_record : ℕ → Trade → Bool
has_record batch_id t = any (is_record_of batch_id) t.processing_records

abbrev pub with_status : BatchStatus → CoffeeBatch → CoffeeBatch
with_status s b = record b { status = s }

abbrev pub removed : ℕ → WarehouseInventory → WarehouseInventory
removed now r = record r { removed_at = some now }

abbrev pub set_status : ℕ → BatchStatus → Trade → Trade
set_status id s t = record t { batches = update_where (has_id id) (with_status s) t.batches }

abbrev pub close_rows : ℕ → ℕ → Trade → Trade
close_rows batch_id now t = record t {
  inventory = update_where (holds batch_id) (removed now) t.inventory;
}

-- The statuses that claim a processing record, and those that end a stay in a warehouse.
abbrev pub claims_processing : BatchStatus → Bool
claims_processing s = same_status s in_processing || same_status s processed

abbrev pub leaves_storage : BatchStatus → Bool
leaves_storage s =
    same_status s sold || same_status s in_transit || same_status s BatchStatus.rejected

module _ (env : Env) where
  close_inventory : ℕ → M (Unit {0})
  close_inventory batch_id = do now ← new_date env; modify_trade (close_rows batch_id now)

  -- The part of `transitionBatchStatus` behind the comparison with the present status.
  move_status : CoffeeBatch → ℕ → BatchStatus → M BatchStatus
  move_status batch batch_id new_status = do
    raise_if (not (includes new_status (allowed_transitions batch.status)))
        (bad_request cannot_transition)
    recorded ← gets_trade (has_record batch_id)
    raise_if (claims_processing new_status && not recorded) (bad_request no_processing_record)
    modify_trade (set_status batch_id new_status)
    when (leaves_storage new_status) (close_inventory batch_id)
    pure batch.status

  pub transition_batch_status : ℕ → BatchStatus → M BatchStatus
  unfolding move_status close_inventory
  transition_batch_status batch_id new_status = do
    found ← gets_trade (find_live batch_id)
    batch ← or_raise found (not_found batch_not_found)
    if same_status batch.status new_status
        then pure batch.status
        else move_status batch batch_id new_status

  pub update_batch_status : ℕ → BatchStatus → Option ℕ → M CoffeeBatch
  update_batch_status id new_status actor_id = do
    raise_if (same_status new_status sold) (bad_request sold_by_transfer)
    raise_if (same_status new_status in_storage) (bad_request stored_by_warehouse)
    previous ← with_transaction (transition_batch_status id new_status)
    found ← gets_trade (find_batch id)
    updated ← or_raise found record_not_found
    changed_at ← new_date env
    record_event env id (status_event new_status)
        (Payload.status_changed previous new_status changed_at)
    when (not (same_status previous new_status)) (
        notify_batch_status_change env id updated.batch_code updated.cooperative_id previous
          new_status actor_id)
    pure updated

  pub create_batch : ℕ → Option String → Option String → M CoffeeBatch
  create_batch cooperative_id origin_region harvest_season = do
    found ← gets_accounts (λ a. find? (λ (c : Cooperative). c.id == cooperative_id) a.cooperatives)
    cooperative ← or_raise found (bad_request invalid_cooperative)
    batch_code ← next_entity_code env (codes "batch") (codes "BATCH") 5
    qr_code_token ← new_id env
    id ← new_id env
    created_at ← new_date env
    let batch : CoffeeBatch = record {
      id = id;
      batch_code = batch_code;
      cooperative_id = cooperative_id;
      status = registered;
      total_weight_kg = 0;
      origin_region = origin_region;
      harvest_season = harvest_season;
      qr_code_token = qr_code_token;
      is_deleted = false;
      created_at = created_at;
    }
    modify_trade (λ t. record t { batches = batch ∷ t.batches })
    record_event env batch.id batch_created (Payload.created batch_code cooperative_id created_at)
    pure batch

-- A farmer's batches are those that one of their deliveries went into.
abbrev pub went_into : ℕ → ℕ → Delivery → Bool
went_into farmer_id batch_id d = d.farmer_id == farmer_id && same_option d.batch_id (some batch_id)

abbrev pub is_associated : ℕ → ℕ → Trade → Bool
is_associated farmer_id batch_id t = any (went_into farmer_id batch_id) t.deliveries

pub assert_batch_in_scope : Caller → ℕ → M (Unit {0})
assert_batch_in_scope caller batch_id = do
  found ← gets_trade (find_live batch_id)
  batch ← or_raise found (not_found batch_not_found)
  assert_ownership caller (some batch.cooperative_id)
  own ← farmer_scope_id caller
  associated ← gets_trade (λ t. elim own [ none ↦ true | some f ↦ is_associated f batch_id t ])
  raise_if (not associated) (forbidden not_your_batch)

module _ (env : Env) where
  pub update_status_handler : Caller → ℕ → BatchStatus → M CoffeeBatch
  update_status_handler caller id new_status = do
    require_permission env ("batches:transition" ∷ []) caller
    assert_batch_in_scope caller id
    u ← require_user caller
    batch ← update_batch_status env id new_status (some u.id)
    record_audit_log caller AuditAction.update coffee_batch batch.id
    pure batch

  pub create_handler : Caller → ℕ → Option String → Option String → M CoffeeBatch
  create_handler caller cooperative_id origin_region harvest_season = do
    require_permission env ("batches:create" ∷ []) caller
    assert_ownership caller (some cooperative_id)
    batch ← create_batch env cooperative_id origin_region harvest_season
    record_audit_log caller AuditAction.create coffee_batch batch.id
    pure batch
