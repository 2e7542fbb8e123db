-- ===== src/Service/Histories.antt =====
-- Histories of the modelled requests, and the invariants of the coffee's tables.
use coffee_traceability_back.Prelude.{List, [], ◌∷◌}
use coffee_traceability_back.World.{Env, World}
use coffee_traceability_back.Scope.{Caller}
use coffee_traceability_back.Batches.Updating.{update_status-Sound}
use coffee_traceability_back.Processing.Recording.{record_run-Sound}
use coffee_traceability_back.Warehouses.Handling.{store_handler-Sound, remove_handler-Sound}
use coffee_traceability_back.Transfers.Selling.{initiate_handler-Sound, confirm_handler-Sound}
use coffee_traceability_back.Lots.Selling.{sell_handler-Sound, confirm_sale_handler-Sound}
use coffee_traceability_back.Deliveries.Handling.{assign_handler-Sound}
use coffee_traceability_back.Custody.Moves.{Sound}
use coffee_traceability_back.Service.{
  Request, update_status, assign, processing, store, remove, initiate, confirm, sell_lot,
  confirm_lot, handle, serve,
}

module _ (env : Env) where
  handle-Sound :
      (caller : Caller) (r : Request) (w : World) → Sound w.db → Sound (handle env caller r w).db
  unfolding handle
  handle-Sound caller (update_status id s) w h = update_status-Sound env caller id s w h
  handle-Sound caller (assign id ids) w h = assign_handler-Sound env caller id ids w h
  handle-Sound caller (processing body) w h = record_run-Sound env caller body w h
  handle-Sound caller (store body) w h = store_handler-Sound env caller body w h
  handle-Sound caller (remove id) w h = remove_handler-Sound env caller id w h
  handle-Sound caller (initiate body) w h = initiate_handler-Sound env caller body w h
  handle-Sound caller (confirm id) w h = confirm_handler-Sound env caller id w h
  handle-Sound caller (sell_lot id body) w h = sell_handler-Sound env caller id body w h
  handle-Sound caller (confirm_lot id) w h = confirm_sale_handler-Sound env caller id w h

  -- From sound tables, the tables are sound after any history of requests, of any callers, answered
  -- or refused: every batch weighs what was delivered into it, is stored at most once, and only while
  -- it is IN_STORAGE, no warehouse holds more than its capacity, and a batch has a status beyond
  -- REGISTERED only with a processing record (unless REJECTED), and SOLD only with a confirmed transfer.
  pub serve-Sound :
      (rs : List (Caller × Request)) (w : World) → Sound w.db → Sound (serve env rs w).db
  serve-Sound [] w h = h
  serve-Sound (r ∷ rs) w h = serve-Sound rs (handle env r.0 r.1 w) (handle-Sound r.0 r.1 w h)
