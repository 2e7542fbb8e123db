-- ===== src/Deliveries/Handling.antt =====
-- The assignment of deliveries, and the invariants of the coffee's tables.
use coffee_traceability_back.Prelude.{
  ℕ, ◌+◌, ◌≡◌, ◌==◌, ◌∙◌, sym, ap, not, true, false, List, [], ◌∷◌, length, select,
  any-update_where, sum_by, All, All-imp, All-update_where, update_where, Bool-cases, inl, inr,
  arith, refl,
}
use coffee_traceability_back.Schema.{CoffeeBatch, Delivery, Trade}
use coffee_traceability_back.World.{Env, World}
use coffee_traceability_back.World.Keeps.{Keeps, keeps_rules}
use coffee_traceability_back.World.Ensures.{Ensures, Ensures-read, Ensures-found, Ensures-guard}
use coffee_traceability_back.Ledger.Effects.{record_event-Keeps}
use coffee_traceability_back.Notifications.Effects.{notify_deliveries_assigned-Keeps}
use coffee_traceability_back.Audit.Effects.{record_audit_log-Keeps}
use coffee_traceability_back.Scope.{Caller}
use coffee_traceability_back.Scope.Effects.{
  require_user-Keeps, assert_ownership-Keeps, require_permission-Keeps,
}
use coffee_traceability_back.Batches.{has_id}
use coffee_traceability_back.Custody.{
  IsSound, IsStored, StoredRow, Bounds, CoveredRow, RecordedIn, SoldBy, TotalOf, Unique,
  UniqueDeliveries, delivery_has_id,
}
use coffee_traceability_back.Custody.Moves.{Sound, Sound-outside, Sound-blind}
use coffee_traceability_back.Deliveries.{
  is_assignable, assign_rows, add_weight, weight_of, write_assignment, assign_in_tx, record_grades,
  assign_deliveries_to_batch, assign_handler,
}
use coffee_traceability_back.Deliveries.Assigning.{
  is_named, assigned, complete, IsComplete, delivered-assigned, delivered-other,
}

abbrev heavier : ℕ → CoffeeBatch → CoffeeBatch
heavier weight b = record b { total_weight_kg = b.total_weight_kg + weight }

module _ (target weight : ℕ) where
  heavier-Unique :
      (bs : List CoffeeBatch)
      → Unique bs
      → Unique (update_where (has_id target) (heavier weight) bs)
  heavier-Unique [] u = tt
  heavier-Unique (b ∷ bs) u = elim (Bool-cases (has_id target b)) [
    | inl e ↦ rw e (
      any-update_where (has_id b.id) (has_id target) (heavier weight) bs (λ x. refl) ∙ u.0,
      heavier-Unique bs u.1,
    )
    | inr e ↦ rw e (
      any-update_where (has_id b.id) (has_id target) (heavier weight) bs (λ x. refl) ∙ u.0,
      heavier-Unique bs u.1,
    )
  ]

  heavier-All :
      (P : CoffeeBatch → Type 0) (bs : List CoffeeBatch)
      → ((b : CoffeeBatch) → P b → P (heavier weight b))
      → All P bs
      → All P (update_where (has_id target) (heavier weight) bs)
  heavier-All P bs kept =
      All-update_where P P (has_id target) (heavier weight) bs (λ b hit h. kept b h) (λ b miss h. h)

module _ (ids : List ℕ) (cooperative_id target : ℕ) where
  assigned-Unique :
      (ds : List Delivery)
      → UniqueDeliveries ds
      → UniqueDeliveries (assigned ids cooperative_id target ds)
  assigned-Unique [] u = tt
  assigned-Unique (d ∷ ds) u = elim (Bool-cases (is_named ids d)) [
    | inl e ↦ rw e (
      any-update_where (delivery_has_id d.id) (is_named ids) _ ds (λ x. refl) ∙ u.0,
      assigned-Unique ds u.1,
    )
    | inr e ↦ rw e (
      any-update_where (delivery_has_id d.id) (is_named ids) _ ds (λ x. refl) ∙ u.0,
      assigned-Unique ds u.1,
    )
  ]

  module _ (t : Trade) (h : IsSound t)
      (same : length (select (is_assignable ids cooperative_id) t.deliveries) ≡ length ids) where
    abbrev added : ℕ
    added = sum_by weight_of (select (is_assignable ids cooperative_id) t.deliveries)

    assigned-IsSound : IsSound (add_weight target added (assign_rows ids target t))
    assigned-IsSound = record {
      unique = heavier-Unique target added t.batches h.unique;
      stored =
          All-imp (StoredRow t.batches) _ t.inventory
            (λ r old o. heavier-All target added (IsStored r.batch_id) t.batches (λ b e. e) (old o))
            h.stored;
      single = h.single;
      capacity = h.capacity;
      covered =
          All-imp (CoveredRow t.batches) _ t.inventory
            (λ r old o.
              heavier-All target added (Bounds r) t.batches (λ b e number. omega (arith, e number))
                (old o))
            h.covered;
      processed =
          heavier-All target added (RecordedIn t.processing_records) t.batches (λ b e. e)
            h.processed;
      sales = heavier-All target added (SoldBy t.transfers) t.batches (λ b e. e) h.sales;
      totals =
          All-update_where (TotalOf t.deliveries)
            (TotalOf (assigned ids cooperative_id target t.deliveries)) (has_id target)
            (heavier added) t.batches here elsewhere h.totals;
      unique_deliveries = assigned-Unique t.deliveries h.unique_deliveries;
    }
      where
        all : IsComplete ids cooperative_id target t.deliveries
        all = complete ids cooperative_id target t.deliveries h.unique_deliveries same

        here :
            (b : CoffeeBatch)
            → has_id target b ≡ true
            → TotalOf t.deliveries b
            → TotalOf (assigned ids cooperative_id target t.deliveries) (heavier added b)
        here b hit e =
            let number : b.id ≡ target = ground arith in
            rw number (
              ap (λ n. n + added) (rw number at e)
              ∙ sym (delivered-assigned ids cooperative_id target t.deliveries all))

        elsewhere :
            (b : CoffeeBatch)
            → has_id target b ≡ false
            → TotalOf t.deliveries b
            → TotalOf (assigned ids cooperative_id target t.deliveries) b
        elsewhere b miss e =
            e
            ∙ sym (
                delivered-other ids cooperative_id target b.id t.deliveries
                  (λ number. absurd (ground arith)) all)

module _ (env : Env) where
  -- The writes of an assignment whose check has passed.
  assign-Ensures :
      (t : Trade) (batch : CoffeeBatch) (batch_id : ℕ) (ids : List ℕ)
      → IsSound t
      → not (length (select (is_assignable ids batch.cooperative_id) t.deliveries) == length ids)
        ≡ false
      → Ensures t IsSound (
          write_assignment env batch batch_id ids
            (select (is_assignable ids batch.cooperative_id) t.deliveries))
  unfolding write_assignment
  assign-Ensures t batch batch_id ids h passed = record {
    at = λ w same. rw same (assigned-IsSound ids batch.cooperative_id batch_id t h (ground arith));
  }

  assign_in_tx-Ensures :
      (t : Trade) (batch_id : ℕ) (ids : List ℕ)
      → IsSound t
      → Ensures t IsSound (assign_in_tx env batch_id ids)
  unfolding assign_in_tx
  assign_in_tx-Ensures t batch_id ids h =
      search (Ensures-read, Ensures-found, Ensures-guard, assign-Ensures, h) depth 12

  assign_in_tx-Keeps : (batch_id : ℕ) (ids : List ℕ) → Keeps Sound (assign_in_tx env batch_id ids)
  assign_in_tx-Keeps batch_id ids = record {
    at = λ w h. (assign_in_tx-Ensures w.db.trade batch_id ids h).at w refl;
  }

  assign_handler-Keeps :
      (caller : Caller) (batch_id : ℕ) (ids : List ℕ)
      → Keeps Sound (assign_handler env caller batch_id ids)
  unfolding assign_handler assign_deliveries_to_batch record_grades
  assign_handler-Keeps caller batch_id ids =
      search
        (
          keeps_rules, require_permission-Keeps, assert_ownership-Keeps, require_user-Keeps,
          assign_in_tx-Keeps, record_event-Keeps, notify_deliveries_assigned-Keeps,
          record_audit_log-Keeps, Sound-outside, Sound-blind,
        )
        depth 32 fits 6000

-- An assignment keeps the coffee's tables sound, however it ends.
pub assign_handler-Sound :
    (env : Env) (caller : Caller) (batch_id : ℕ) (ids : List ℕ) (w : World)
    → Sound w.db
    → Sound (assign_handler env caller batch_id ids w).1.db
assign_handler-Sound env caller batch_id ids w = (assign_handler-Keeps env caller batch_id ids).at w
