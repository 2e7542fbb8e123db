-- ===== src/Service/Courses.antt =====
-- Histories of the modelled requests against the state machine of a batch: however the handlers write,
-- what shows of a batch's status is a course of allowed moves.
use coffee_traceability_back.Prelude.{
  ℕ, ◌≡◌, sym, subst, some, inl, inr, find?, find?-passes, update_where, List, [], ◌∷◌, All,
  All-imp, All-find?, All-update_where, arith,
}
use coffee_traceability_back.Errors.{Result, ok, err}
use coffee_traceability_back.Schema.{BatchStatus, CoffeeBatch, Trade}
use coffee_traceability_back.World.{Env, World}
use coffee_traceability_back.Scope.{Caller}
use coffee_traceability_back.Batches.{has_id, with_status, is_live, transition_batch_status}
use coffee_traceability_back.Batches.Carrying.{OfBatches, IsCarried, update_status-Carried}
use coffee_traceability_back.Batches.Lifecycle.{Course, start, move}
use coffee_traceability_back.Batches.Transition.{
  Edge, moved, Transitions, transition_batch_status_lem,
}
use coffee_traceability_back.Deliveries.Carrying.{assign-Carried}
use coffee_traceability_back.Lots.Carrying.{sell-Carried, confirm_sale-Carried}
use coffee_traceability_back.Processing.Carrying.{record_run-Carried}
use coffee_traceability_back.Transfers.Carrying.{initiate-Carried, confirm-Carried}
use coffee_traceability_back.Warehouses.Carrying.{store-Carried, remove-Carried}
use coffee_traceability_back.Service.{
  Request, update_status, assign, processing, store, remove, initiate, confirm, sell_lot,
  confirm_lot, handle, serve,
}

-- The rows of the batch have the status.
abbrev pub IsAt : ℕ → BatchStatus → List CoffeeBatch → Type 0
IsAt id s bs = All (λ (b : CoffeeBatch). b.id ≡ id → b.status ≡ s) bs

-- Their status ends a course from `s`.
abbrev pub FollowsFrom : ℕ → BatchStatus → List CoffeeBatch → Type 0
FollowsFrom id s bs = All (λ (b : CoffeeBatch). b.id ≡ id → Course s b.status) bs

moved-batches :
    (id : ℕ) (s : BatchStatus) (now : ℕ) (t : Trade)
    → (moved id s now t).batches ≡ update_where (has_id id) (with_status s) t.batches
moved-batches id s now t = ground arith

module _ (id : ℕ) (s : BatchStatus) where
  -- An allowed move of the batch that was found.
  Edge-FollowsFrom :
      (other : ℕ) (u : BatchStatus) (bs : List CoffeeBatch) (b : CoffeeBatch)
      → find? (is_live other) bs ≡ some b
      → Edge b.status u
      → FollowsFrom id s bs
      → FollowsFrom id s (update_where (has_id other) (with_status u) bs)
  Edge-FollowsFrom other u bs b found edge h =
      let course : b.id ≡ id → Course s b.status = All-find? _ (is_live other) bs h found in
      let number : b.id ≡ other = ground (arith, find?-passes (is_live other) bs found) in
      All-update_where _ _ (has_id other) (with_status u) bs
        (λ x hit old same. move (course (ground (arith, number))) edge) (λ x miss e. e) h

  moved-FollowsFrom :
      (env : Env) (other : ℕ) (u : BatchStatus) (w : World) (r : Result BatchStatus) (w' : World)
      → Transitions env other u w (r, w')
      → FollowsFrom id s w.db.trade.batches
      → FollowsFrom id s w'.db.trade.batches
  moved-FollowsFrom env other u w (err e) w' same h =
      subst (OfBatches (FollowsFrom id s)) (sym same) h
  moved-FollowsFrom env other u w (ok previous) w' (b, found, from, outcome) h = elim outcome [
    | inl (_, same) ↦ subst (OfBatches (FollowsFrom id s)) (sym same) h
    | inr (edge, guard, changed) ↦ subst (OfBatches (FollowsFrom id s)) (sym changed) (
        subst (FollowsFrom id s) (sym (moved-batches other u (env.clock w.reads) w.db.trade))
          (Edge-FollowsFrom other u w.db.trade.batches b found (rw from at edge) h))
  ]

  FollowsFrom-IsCarried : IsCarried (FollowsFrom id s)
  FollowsFrom-IsCarried = record {
    heavier = λ other weight bs h.
        All-update_where _ _ (has_id other) _ bs (λ b hit e. e) (λ b miss e. e) h;
    moved = λ env other u. record {
      at = λ w h.
          let (r, w') = transition_batch_status env other u w in
          moved-FollowsFrom env other u w r w' (transition_batch_status_lem env other u w) h;
    };
  }

module _ {Q : List CoffeeBatch → Type 0} (c : IsCarried Q) (env : Env) where
  handle-Carried :
      (caller : Caller) (r : Request) (w : World)
      → OfBatches Q w.db
      → OfBatches Q (handle env caller r w).db
  unfolding handle
  handle-Carried caller (update_status id s) w = (update_status-Carried c env caller id s).at w
  handle-Carried caller (assign id ids) w = (assign-Carried c env caller id ids).at w
  handle-Carried caller (processing body) w = (record_run-Carried c env caller body).at w
  handle-Carried caller (store body) w = (store-Carried c env caller body).at w
  handle-Carried caller (remove id) w = (remove-Carried c env caller id).at w
  handle-Carried caller (initiate body) w = (initiate-Carried c env caller body).at w
  handle-Carried caller (confirm id) w = (confirm-Carried c env caller id).at w
  handle-Carried caller (sell_lot id body) w = (sell-Carried c env caller id body).at w
  handle-Carried caller (confirm_lot id) w = (confirm_sale-Carried c env caller id).at w

  serve-Carried :
      (rs : List (Caller × Request)) (w : World)
      → OfBatches Q w.db
      → OfBatches Q (serve env rs w).db
  serve-Carried [] w h = h
  serve-Carried (r ∷ rs) w h = serve-Carried rs (handle env r.0 r.1 w) (handle-Carried r.0 r.1 w h)

-- The handlers refine the state machine: whatever status a batch had, after any history of requests,
-- of any callers, answered or refused, its status ends a course of allowed moves from there.
pub serve-FollowsFrom :
    (env : Env) (rs : List (Caller × Request)) (w : World) (id : ℕ) (s : BatchStatus)
    → IsAt id s w.db.trade.batches
    → FollowsFrom id s (serve env rs w).db.trade.batches
serve-FollowsFrom env rs w id s at_s = serve-Carried (FollowsFrom-IsCarried id s) env rs w (
    All-imp _ _ w.db.trade.batches (λ b here number. subst (Course s) (sym (here number)) start)
      at_s)
