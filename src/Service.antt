-- ===== src/Service.antt =====
-- The requests that write to the coffee's tables after intake and registration, as routes/index.ts
-- hands them to their handlers, and a history of them. The server answers a failed request with an
-- error and goes on with what the handler has left.
pub mod Accounts
pub mod Courses
pub mod Histories
pub mod Tenancy
use coffee_traceability_back.Prelude.{ℕ, List, [], ◌∷◌}
use coffee_traceability_back.Schema.{BatchStatus}
use coffee_traceability_back.World.{Env, World, M, ◌>>=◌, ◌>>◌, skip}
use coffee_traceability_back.Scope.{Caller}
use coffee_traceability_back.Batches
use coffee_traceability_back.Processing.{ProcessingInput}
use coffee_traceability_back.Processing
use coffee_traceability_back.Warehouses.{StoreInput, store_handler, remove_handler}
use coffee_traceability_back.Transfers.{TransferInput, initiate_handler, confirm_handler}
use coffee_traceability_back.Lots.{SaleInput, sell_handler, confirm_sale_handler}
use coffee_traceability_back.Deliveries.{assign_handler}

pub data Request : Type 0 where
  update_status : ℕ → BatchStatus → Request
  assign : ℕ → List ℕ → Request
  processing : ProcessingInput → Request
  store : StoreInput → Request
  remove : ℕ → Request
  initiate : TransferInput → Request
  confirm : ℕ → Request
  sell_lot : ℕ → SaleInput → Request
  confirm_lot : ℕ → Request

unfoldable pub handle : Env → Caller → Request → World → World
handle env caller (update_status id s) w = (Batches.update_status_handler env caller id s w).1
handle env caller (assign id ids) w = (assign_handler env caller id ids w).1
handle env caller (processing body) w = (Processing.create_handler env caller body w).1
handle env caller (store body) w = (store_handler env caller body w).1
handle env caller (remove id) w = (remove_handler env caller id w).1
handle env caller (initiate body) w = (initiate_handler env caller body w).1
handle env caller (confirm id) w = (confirm_handler env caller id w).1
handle env caller (sell_lot id body) w = (sell_handler env caller id body w).1
handle env caller (confirm_lot id) w = (confirm_sale_handler env caller id w).1

-- The world after a history of requests, each with who sent it.
abbrev pub serve : Env → List (Caller × Request) → World → World
serve env [] w = w
serve env (r ∷ rs) w = serve env rs (handle env r.0 r.1 w)
