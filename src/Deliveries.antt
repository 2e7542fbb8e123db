-- ===== src/Deliveries.antt =====
-- modules/deliveries: intake of coffee, and its assignment to a batch.
pub mod Carrying
pub mod Isolation
pub mod Listing
pub mod Assigning
pub mod Handling
use coffee_traceability_back.Prelude.{
  ℕ, ◌+◌, String, Bool, not, Option, none, some, List, [], ◌∷◌, ◌==◌, ◌&&◌, ltb, find?, select,
  update_where, sum_by, length, is_some,
}
use coffee_traceability_back.Errors.{
  not_found, bad_request, farmer_not_in_cooperative, batch_not_found, delivery_not_found,
  invalid_deliveries,
}
use coffee_traceability_back.Schema.{
  Text, Delivery, CoffeeBatch, Farmer, Trade, quality_graded, Payload, AuditAction, delivery_entity,
  coffee_batch,
}
use coffee_traceability_back.Texts.{codes}
use coffee_traceability_back.World.{
  Env, M, pure, gets_trade, gets_accounts, or_raise, with_transaction, ◌>>=◌, ◌>>◌, raise_if, when,
  modify_trade, new_date, new_id,
}
use coffee_traceability_back.EntityCode.{next_entity_code}
use coffee_traceability_back.Ledger.{record_event}
use coffee_traceability_back.Notifications.{
  contains, notify_delivery_created, notify_deliveries_assigned,
}
use coffee_traceability_back.Audit.{record_audit_log}
use coffee_traceability_back.Scope.{
  Caller, require_user, assert_ownership, require_permission, farmer_scope_id,
  assert_farmer_ownership,
}
use coffee_traceability_back.Batches.{find_live, find_batch, has_id}

pub record DeliveryInput : Type 0 where
  pub farmer_id : ℕ
  pub cooperative_id : ℕ
  pub weight_kg : ℕ
  pub quality_grade : Option String
  pub moisture_level : Option ℕ
  pub price_per_kg : Option ℕ
  pub notes : Option String

abbrev is_farmer_of : ℕ → ℕ → Farmer → Bool
is_farmer_of farmer_id cooperative_id f =
    f.id == farmer_id && f.cooperative_id == cooperative_id && not f.is_deleted

-- The deliveries that a request may assign: those named, unassigned, of the batch's cooperative.
abbrev pub is_assignable : List ℕ → ℕ → Delivery → Bool
is_assignable ids cooperative_id d =
    contains d.id ids && not (is_some d.batch_id) && d.cooperative_id == cooperative_id

abbrev pub assign_rows : List ℕ → ℕ → Trade → Trade
assign_rows ids batch_id t = record t {
  deliveries =
      update_where (λ (d : Delivery). contains d.id ids)
        (λ d. record d { batch_id = some batch_id }) t.deliveries;
}

abbrev pub add_weight : ℕ → ℕ → Trade → Trade
add_weight batch_id weight t = record t {
  batches =
      update_where (has_id batch_id)
        (λ b. record b { total_weight_kg = b.total_weight_kg + weight }) t.batches;
}

abbrev pub weight_of : Delivery → ℕ
weight_of d = d.weight_kg

-- `!!d.qualityGrade`: neither null nor empty.
abbrev pub grade_of : Option String → Option String
grade_of none = none
grade_of (some g) = elim g [ String.[] ↦ none | String.◌∷◌ c s ↦ some (String.◌∷◌ c s) ]

abbrev grade_row :
    Delivery → Option String → List (Text × String × Option ℕ) → List (Text × String × Option ℕ)
grade_row d none rows = rows
grade_row d (some g) rows = (d.delivery_code, g, d.moisture_level) ∷ rows

-- The graded deliveries, as the ledger event tells them.
abbrev pub graded_rows : List Delivery → List (Text × String × Option ℕ)
graded_rows [] = []
graded_rows (d ∷ ds) = grade_row d (grade_of d.quality_grade) (graded_rows ds)

module _ (env : Env) where
  pub create_delivery : DeliveryInput → Option ℕ → M Delivery
  create_delivery body actor_id = do
    found ← gets_accounts (λ a. find? (is_farmer_of body.farmer_id body.cooperative_id) a.farmers)
    farmer ← or_raise found (bad_request farmer_not_in_cooperative)
    delivery_code ← next_entity_code env (codes "delivery") (codes "DEL") 6
    id ← new_id env
    now ← new_date env
    let row : Delivery = record {
      id = id;
      delivery_code = delivery_code;
      farmer_id = body.farmer_id;
      cooperative_id = body.cooperative_id;
      weight_kg = body.weight_kg;
      quality_grade = body.quality_grade;
      moisture_level = body.moisture_level;
      price_per_kg = body.price_per_kg;
      delivery_date = now;
      notes = body.notes;
      batch_id = none;
      created_at = now;
    }
    modify_trade (λ t. record t { deliveries = row ∷ t.deliveries })
    notify_delivery_created env body.cooperative_id delivery_code farmer.user_id body.weight_kg
        actor_id
    pure row

  pub create_handler : Caller → DeliveryInput → M Delivery
  create_handler caller body = do
    require_permission env ("deliveries:create" ∷ []) caller
    assert_ownership caller (some body.cooperative_id)
    u ← require_user caller
    delivery ← create_delivery body (some u.id)
    record_audit_log caller AuditAction.create delivery_entity delivery.id
    pure delivery

  write_assignment :
      CoffeeBatch → ℕ → List ℕ → List Delivery → M (CoffeeBatch × List (Text × String × Option ℕ))
  write_assignment batch batch_id delivery_ids deliveries = do
    modify_trade (assign_rows delivery_ids batch_id)
    let added_weight = sum_by weight_of deliveries
    modify_trade (add_weight batch_id added_weight)
    pure (
      record batch { total_weight_kg = batch.total_weight_kg + added_weight },
      graded_rows deliveries,
    )

  -- The transaction of an assignment; it returns the batch and the graded deliveries.
  pub assign_in_tx : ℕ → List ℕ → M (CoffeeBatch × List (Text × String × Option ℕ))
  assign_in_tx batch_id delivery_ids = do
    found ← gets_trade (find_batch batch_id)
    batch ← or_raise found (not_found batch_not_found)
    deliveries ←
        gets_trade (λ t. select (is_assignable delivery_ids batch.cooperative_id) t.deliveries)
    raise_if (not (length deliveries == length delivery_ids)) (bad_request invalid_deliveries)
    write_assignment batch batch_id delivery_ids deliveries

  record_grades : ℕ → List (Text × String × Option ℕ) → M (Unit {0})
  record_grades batch_id graded = do
    now ← new_date env
    record_event env batch_id quality_graded (Payload.graded graded now)

  pub assign_deliveries_to_batch : ℕ → List ℕ → Option ℕ → M CoffeeBatch
  unfolding record_grades
  assign_deliveries_to_batch batch_id delivery_ids actor_id = do
    assigned ← with_transaction (assign_in_tx batch_id delivery_ids)
    let batch = assigned.0
    let graded = assigned.1
    when (ltb 0 (length graded)) (record_grades batch_id graded)
    notify_deliveries_assigned env batch.cooperative_id batch.batch_code (length delivery_ids)
        actor_id
    pure batch

  pub assign_handler : Caller → ℕ → List ℕ → M CoffeeBatch
  assign_handler caller batch_id delivery_ids = do
    require_permission env ("deliveries:create" ∷ []) caller
    found ← gets_trade (find_live batch_id)
    target ← or_raise found (not_found batch_not_found)
    assert_ownership caller (some target.cooperative_id)
    u ← require_user caller
    batch ← assign_deliveries_to_batch batch_id delivery_ids (some u.id)
    record_audit_log caller AuditAction.update coffee_batch batch.id
    pure batch

  pub get_by_id_handler : Caller → ℕ → M Delivery
  get_by_id_handler caller id = do
    require_permission env ("deliveries:view" ∷ []) caller
    found ← gets_trade (λ t. find? (λ (d : Delivery). d.id == id) t.deliveries)
    delivery ← or_raise found (not_found delivery_not_found)
    assert_ownership caller (some delivery.cooperative_id)
    scope ← farmer_scope_id caller
    assert_farmer_ownership scope (some delivery.farmer_id)
    pure delivery
