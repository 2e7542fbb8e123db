-- ===== src/Batches/Carrying.antt =====
-- Properties of the batches' table that every handler carries along, because the handlers touch the
-- table only through `transitionBatchStatus` and the adding of weight.
use coffee_traceability_back.Prelude.{ℕ, ◌+◌, ◌≡◌, subst, sym, Option, List, update_where}
use coffee_traceability_back.Schema.{BatchStatus, CoffeeBatch, Trade}
use coffee_traceability_back.World.{Env, Db, modify_trade}
use coffee_traceability_back.World.Keeps.{Keeps, IsOutside, outside, keeps_rules}
use coffee_traceability_back.Ledger.Effects.{record_event-Keeps}
use coffee_traceability_back.Notifications.Effects.{
  IsBlind, blind, notify_batch_status_change-Keeps,
}
use coffee_traceability_back.Audit.Effects.{record_audit_log-Keeps}
use coffee_traceability_back.Scope.{Caller}
use coffee_traceability_back.Scope.Effects.{
  require_user-Keeps, assert_ownership-Keeps, require_permission-Keeps, farmer_scope_id-Keeps,
}
use coffee_traceability_back.Batches.{
  has_id, transition_batch_status, update_batch_status, assert_batch_in_scope,
  update_status_handler,
}

abbrev pub OfBatches : (List CoffeeBatch → Type 0) → Db → Type 0
OfBatches Q d = Q d.trade.batches

pub record IsCarried (Q : List CoffeeBatch → Type 0) : Type 0 where
  pub heavier :
      (id weight : ℕ) (bs : List CoffeeBatch)
      → Q bs
      → Q (
          update_where
            (has_id id)
            (λ b. record b { total_weight_kg = b.total_weight_kg + weight })
            bs)
  pub moved :
      (env : Env) (id : ℕ) (s : BatchStatus)
      → Keeps (OfBatches Q) (transition_batch_status env id s)

module _ (Q : List CoffeeBatch → Type 0) where
  pub OfBatches-outside : IsOutside (OfBatches Q)
  OfBatches-outside = outside (λ t. Q t.batches)

  pub OfBatches-blind : IsBlind (OfBatches Q)
  OfBatches-blind = blind OfBatches-outside

  -- A write to the other tables of the coffee.
  pub Keeps-elsewhere :
      (f : Trade → Trade)
      → ((t : Trade) → (f t).batches ≡ t.batches)
      → Keeps (OfBatches Q) (modify_trade f)
  Keeps-elsewhere f same = record { at = λ w h. subst Q (sym (same w.db.trade)) h }

pub ruleset carrying_rules = (
  keeps_rules, OfBatches-outside, OfBatches-blind, record_audit_log-Keeps, record_event-Keeps,
  require_user-Keeps, assert_ownership-Keeps, require_permission-Keeps,
)

module _ {Q : List CoffeeBatch → Type 0} (c : IsCarried Q) (env : Env) where
  update_batch_status-Carried :
      (id : ℕ) (s : BatchStatus) (actor : Option ℕ)
      → Keeps (OfBatches Q) (update_batch_status env id s actor)
  unfolding update_batch_status
  update_batch_status-Carried id s actor =
      search (carrying_rules, c.moved, notify_batch_status_change-Keeps) depth 16

  assert_batch_in_scope-Carried :
      (caller : Caller) (id : ℕ) → Keeps (OfBatches Q) (assert_batch_in_scope caller id)
  unfolding assert_batch_in_scope
  assert_batch_in_scope-Carried caller id =
      search (keeps_rules, assert_ownership-Keeps, farmer_scope_id-Keeps) depth 12

  pub update_status-Carried :
      (caller : Caller) (id : ℕ) (s : BatchStatus)
      → Keeps (OfBatches Q) (update_status_handler env caller id s)
  unfolding update_status_handler
  update_status-Carried caller id s =
      search (carrying_rules, assert_batch_in_scope-Carried, update_batch_status-Carried) depth 16
