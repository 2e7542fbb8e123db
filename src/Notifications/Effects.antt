-- ===== src/Notifications/Effects.antt =====
-- The writes of the notifications.
use coffee_traceability_back.Prelude.{refl, ℕ, String, Option, List, [], ◌∷◌}
use coffee_traceability_back.Schema.{
  Text, Notice, Notification, BatchStatus, ProcessingMethod, UserStatus,
}
use coffee_traceability_back.World.{Env, Db}
use coffee_traceability_back.World.Keeps.{
  IsOutside, Keeps, Keeps-pure, Keeps-modify_db, keeps_rules,
}
use coffee_traceability_back.Notifications.{
  insert_rows, create, fan_out, notify_delivery_created, notify_deliveries_assigned,
  notify_contributing_farmers, notify_batch_status_change, notify_processing_recorded,
  notify_warehouse_stored, notify_transfer_initiated, notify_transfer_confirmed,
  notify_user_status_change,
}

-- A property of the database that does not look at the inbox.
pub record IsBlind (P : Db → Type 0) : Type 0 where
  pub inbox : (d : Db) (rows : List Notification) → P d → P (record d { inbox = rows })

module _ (env : Env) {P : Db → Type 0} (blind : IsBlind P) where
  insert_rows-Keeps : (n : Notice) (us : List ℕ) → Keeps P (insert_rows env n us)
  unfolding insert_rows
  insert_rows-Keeps n us = search (keeps_rules, Keeps-modify_db, blind.inbox) depth 8

  create-Keeps : (u : ℕ) (n : Notice) → Keeps P (create env u n)
  unfolding create
  create-Keeps u n = search (keeps_rules, Keeps-modify_db, blind.inbox) depth 10

  fan_out-Keeps : (us : List ℕ) (n : Notice) → Keeps P (fan_out env us n)
  unfolding fan_out
  fan_out-Keeps [] n = Keeps-pure tt
  fan_out-Keeps (u ∷ us) n = insert_rows-Keeps n _

  farmers-Keeps :
      (b : ℕ) (n : Notice) (actor : Option ℕ) → Keeps P (notify_contributing_farmers env b n actor)
  unfolding notify_contributing_farmers
  farmers-Keeps b n actor = search (keeps_rules, fan_out-Keeps) depth 8

  pub notify_delivery_created-Keeps :
      (coop : ℕ) (code : Text) (u : Option ℕ) (weight : ℕ) (actor : Option ℕ)
      → Keeps P (notify_delivery_created env coop code u weight actor)
  unfolding notify_delivery_created
  notify_delivery_created-Keeps coop code u weight actor =
      search (keeps_rules, fan_out-Keeps, create-Keeps) depth 10

  pub notify_deliveries_assigned-Keeps :
      (coop : ℕ) (code : Text) (count : ℕ) (actor : Option ℕ)
      → Keeps P (notify_deliveries_assigned env coop code count actor)
  unfolding notify_deliveries_assigned
  notify_deliveries_assigned-Keeps coop code count actor =
      search (keeps_rules, fan_out-Keeps) depth 8

  pub notify_batch_status_change-Keeps :
      (b : ℕ) (code : Text) (coop : ℕ) (from to : BatchStatus) (actor : Option ℕ)
      → Keeps P (notify_batch_status_change env b code coop from to actor)
  unfolding notify_batch_status_change
  notify_batch_status_change-Keeps b code coop from to actor =
      search (keeps_rules, fan_out-Keeps, farmers-Keeps) depth 10

  pub notify_processing_recorded-Keeps :
      (coop : ℕ) (code : Text) (method : ProcessingMethod) (actor : Option ℕ)
      → Keeps P (notify_processing_recorded env coop code method actor)
  unfolding notify_processing_recorded
  notify_processing_recorded-Keeps coop code method actor =
      search (keeps_rules, fan_out-Keeps) depth 8

  pub notify_warehouse_stored-Keeps :
      (coop : ℕ) (code : Text) (name : String) (weight : ℕ) (actor : Option ℕ)
      → Keeps P (notify_warehouse_stored env coop code name weight actor)
  unfolding notify_warehouse_stored
  notify_warehouse_stored-Keeps coop code name weight actor =
      search (keeps_rules, fan_out-Keeps) depth 8

  pub notify_transfer_initiated-Keeps :
      (coop : ℕ) (code : Text) (name : String) (actor : Option ℕ)
      → Keeps P (notify_transfer_initiated env coop code name actor)
  unfolding notify_transfer_initiated
  notify_transfer_initiated-Keeps coop code name actor = search (keeps_rules, fan_out-Keeps) depth 8

  pub notify_transfer_confirmed-Keeps :
      (b coop : ℕ) (code : Text) (name : String) (initiator actor : Option ℕ)
      → Keeps P (notify_transfer_confirmed env b coop code name initiator actor)
  unfolding notify_transfer_confirmed
  notify_transfer_confirmed-Keeps b coop code name initiator actor =
      search (keeps_rules, fan_out-Keeps, create-Keeps, farmers-Keeps) depth 12

module _ (env : Env) {P : Db → Type 0} (blind : IsBlind P) where
  pub notify_user_status_change-Keeps :
      (u : ℕ) (status : UserStatus) (actor : Option ℕ)
      → Keeps P (notify_user_status_change env u status actor)
  unfolding notify_user_status_change
  notify_user_status_change-Keeps u status actor = search (keeps_rules, create-Keeps, blind) depth 8

pub blind : {P : Db → Type 0} → IsOutside P → IsBlind P
blind out = record { inbox = λ d rows h. out.carry d (record d { inbox = rows }) refl h }
