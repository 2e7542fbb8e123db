-- ===== src/Tests.antt =====
-- The theorems at concrete inputs, and runs of the handlers.
mod People
mod Records
mod Reporting
mod Offices
mod Boards
use coffee_traceability_back.Prelude.{◌≡◌, refl, some, none, List, [], ◌∷◌}
use coffee_traceability_back.Prelude.{All, String, ◌&&◌}
use coffee_traceability_back.Schema.{
  open_lot, auditor, registered, in_processing, in_storage, in_transit, processed, sold, exported,
  washed, cooperative, TransferStatus, batch_created, Payload,
}
use coffee_traceability_back.Errors.{ok}
use coffee_traceability_back.Scope.{Caller}
use coffee_traceability_back.Batches.{transition_batch_status, update_status_handler}
use coffee_traceability_back.Batches.Lifecycle.{Course, start, move, Visits, exported-Visits}
use coffee_traceability_back.Batches.Transition.{
  Transitions, transition_batch_status_lem, transition-again,
}
use coffee_traceability_back.Batches.Updating.{update_status-Sound}
use coffee_traceability_back.Custody.Moves.{Sound}
use coffee_traceability_back.Deliveries.{assign_handler}
use coffee_traceability_back.Deliveries.Handling.{assign_handler-Sound}
use coffee_traceability_back.Ledger.{verify_chain, check_from, events_of, record_event}
use coffee_traceability_back.Ledger.Settling.{IsIntact, record_event-IsIntact}
use coffee_traceability_back.Lots.{confirm_sale_handler, sell_handler}
use coffee_traceability_back.Lots.Selling.{confirm_sale_handler-Sound, sell_handler-Sound}
use coffee_traceability_back.Processing.{create_handler}
use coffee_traceability_back.Processing.Recording.{record_run-Sound}
use coffee_traceability_back.Service.{
  Request, assign, store, confirm, confirm_lot, remove, serve, handle,
}
use coffee_traceability_back.Service.Histories.{serve-Sound}
use coffee_traceability_back.Service.Courses.{FollowsFrom, serve-FollowsFrom}
use coffee_traceability_back.Transfers.{
  confirm_handler, initiate_handler, confirm_transfer_in_tx, confirm_row, confirm_transfer_row,
}
use coffee_traceability_back.Transfers.Selling.{confirm_handler-Sound, initiate_handler-Sound}
use coffee_traceability_back.Transfers.Resale.{Confirms, confirm_transfer_in_tx-Confirms}
use coffee_traceability_back.Warehouses.{store_handler, remove_handler, store_in_tx}
use coffee_traceability_back.Warehouses.Granting.{Stores, store_in_tx-Stores}
use coffee_traceability_back.Warehouses.Handling.{store_handler-Sound, remove_handler-Sound}
use coffee_traceability_back.Service.Tenancy.{handle-Same}
use coffee_traceability_back.World.{World, with_transaction}
use coffee_traceability_back.World.Returns.{Returns}
use coffee_traceability_back.Batches.Listing.{
  BatchQuery, IsVisible, list_handler-IsVisible, list_handler as list_batch_handler,
}
use coffee_traceability_back.Deliveries.Listing.{
  DeliveryQuery, IsOf, list_handler-IsOf, list_handler as list_delivery_handler,
}
use coffee_traceability_back.Notifications.Serving.{count_unread, mark_all_as_read}
use coffee_traceability_back.Notifications.Inbox.{count_unread-mark_all_as_read}
use coffee_traceability_back.Permissions.{
  role_has_permission, set_role_permissions, is_permission_key, has_key,
}
use coffee_traceability_back.Permissions.Granting.{granted-set_role_permissions}
use coffee_traceability_back.Texts.{codes}
use coffee_traceability_back.EntityCode.{next_value}
use coffee_traceability_back.EntityCode.Sequence.{next_value-next_value}
use coffee_traceability_back.Samples.{
  env, admin, staff_of, batch, warehouse, transfer, stocked, sold_once, stocked-IsSound,
}

-- A second delivery is assigned to the batch, the batch is stored, taken out and sold.
abbrev history : List (Caller × Request)
history =
    (admin, assign 1 (6 ∷ []))
    ∷ (admin, store (record { warehouse_id = 4; batch_id = 1; weight_mg = 5_000_000 }))
    ∷ (admin, remove 100)
    ∷ (admin, confirm 5)
    ∷ []

serve-Sound_example : Sound (serve env history stocked).db
serve-Sound_example = serve-Sound env history stocked stocked-IsSound

serve-FollowsFrom_example : FollowsFrom 1 processed (serve env history stocked).db.trade.batches
serve-FollowsFrom_example = serve-FollowsFrom env history stocked 1 processed ((λ number. refl), tt)

store_in_tx-Stores_example :
    Stores warehouse
      (batch processed)
      4
      1
      500
      stocked
      (store_in_tx env warehouse (batch processed) 4 1 500 stocked)
store_in_tx-Stores_example = store_in_tx-Stores warehouse (batch processed) 4 1 500 stocked env

transition_batch_status_example :
    Transitions env 1 in_storage stocked (transition_batch_status env 1 in_storage stocked)
transition_batch_status_example = transition_batch_status_lem env 1 in_storage stocked

abbrev course : Course registered exported
course =
    move {t = sold}
      (move {t = in_storage}
        (move {t = processed} (move {t = in_processing} (move {t = registered} start refl) refl)
          refl)
        refl)
      refl

exported-Visits_example :
    Visits in_processing course
    × Visits processed course
    × Visits in_storage course
    × Visits sold course
exported-Visits_example = exported-Visits course

confirm_transfer_in_tx-Confirms_example :
    Confirms env 8 sold_once (with_transaction (confirm_transfer_in_tx env 8) sold_once)
confirm_transfer_in_tx-Confirms_example = confirm_transfer_in_tx-Confirms env 8 sold_once

-- A lot of the batch.
abbrev with_lot : World
with_lot = record stocked {
  db = record stocked.db {
    trade = record stocked.db.trade {
      groups =
          record {
            id = 4;
            group_code = [];
            cooperative_id = 7;
            note = none;
            status = open_lot;
            created_by_id = none;
            members = 1 ∷ [];
            created_at = 50;
          }
          ∷ [];
    };
  };
}

handle-Same_example :
    (handle env (staff_of 8) (confirm_lot 4) with_lot).db.trade ≡ with_lot.db.trade
handle-Same_example =
    handle-Same env (staff_of 8) (confirm_lot 4) with_lot 7 (_, refl, refl)
      (((λ inside. refl), tt), tt) refl

abbrev batch_query : BatchQuery
batch_query = record { page = 1; limit = 20; cooperative_id = some 8; status = none }

list_batches_example :
    Returns (λ shown. All (IsVisible 7) shown.0) (list_batch_handler env (staff_of 7) batch_query)
list_batches_example = list_handler-IsVisible env (staff_of 7) batch_query 7 (_, refl, refl, refl)
