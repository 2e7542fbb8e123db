-- ===== src/Notifications.antt =====
-- modules/notifications/notification.service.ts: who is told of a domain event. The insert of
-- notifications may fail at any time (`Env.outage`); each `notify_*` absorbs that.
pub mod Effects
pub mod Inbox
pub mod Privacy
pub mod Serving
use coffee_traceability_back.Prelude.{
  ℕ, suc, Bool, true, false, not, Option, none, some, List, [], ◌∷◌, ◌++◌, ◌==◌, ◌&&◌, ◌||◌,
  if◌then◌else◌, select, update_where, any, length, map, is_some, same_option, String, find?,
}
use coffee_traceability_back.Errors.{request_error}
use coffee_traceability_back.Schema.{
  Text, Notice, Notification, User, UserRole, UserStatus, cooperative_admin, cooperative_staff,
  includes_role, is_active_status, BatchStatus, sold, exported, same_status, ProcessingMethod,
  Delivery, Farmer, delivery_registered, delivery_recorded, deliveries_added, status_updated,
  coffee_sold, coffee_sold_to, processing_noted, batch_stored, sale_awaiting, sale_confirmed,
  your_sale_confirmed, account_status, announcement,
}
use coffee_traceability_back.World.{
  Env, Db, World, M, pure, raise, gets, ◌>>=◌, ◌>>◌, raise_if, when, when_some, skip, safely,
  next_outage, new_date, new_id, reserve_ids, modify_db,
}

-- OPS_ROLES
abbrev pub ops_roles : List UserRole
ops_roles = cooperative_admin ∷ cooperative_staff ∷ []

abbrev pub unread : Notice → ℕ → ℕ → ℕ → Notification
unread notice now id user_id = record {
  id = id;
  user_id = user_id;
  notice = notice;
  is_read = false;
  read_at = none;
  created_at = now;
}

-- A row for each user, with the identifiers from the `k`-th on.
abbrev pub unread_rows : Env → Notice → ℕ → ℕ → List ℕ → List Notification
unread_rows env notice now k [] = []
unread_rows env notice now k (u ∷ us) =
    unread notice now (env.uuid k) u ∷ unread_rows env notice now (suc k) us

-- `actorId && id !== actorId`: no actor excludes nobody.
abbrev pub is_other : Option ℕ → ℕ → Bool
is_other none id = true
is_other (some actor) id = not (id == actor)

abbrev pub is_recipient : ℕ → List UserRole → Option ℕ → User → Bool
is_recipient cooperative_id roles actor_id u =
    same_option u.cooperative_id (some cooperative_id)
    && is_active_status u.status
    && not u.is_deleted
    && includes_role u.role roles
    && is_other actor_id u.id

abbrev pub contains : ℕ → List ℕ → Bool
contains a xs = any (λ b. b == a) xs

-- `[...new Set(ids)]`: the first of equal values stays.
abbrev distinct_behind : List ℕ → List ℕ → List ℕ
distinct_behind seen [] = []
distinct_behind seen (a ∷ xs) = elim (contains a seen) [
  | true ↦ distinct_behind seen xs
  | false ↦ a ∷ distinct_behind (a ∷ seen) xs
]

abbrev pub distinct : List ℕ → List ℕ
distinct ids = distinct_behind [] ids

-- The user accounts, other than the actor's, of the farmers whose deliveries the batch holds.
abbrev pub farmer_accounts : List Farmer → Option ℕ → List Delivery → List ℕ
farmer_accounts farmers actor_id [] = []
farmer_accounts farmers actor_id (d ∷ ds) =
    let rest = farmer_accounts farmers actor_id ds in
    elim (find? (λ (f : Farmer). f.id == d.farmer_id) farmers) [
      | none ↦ rest
      | some f ↦ elim f.user_id [
        | none ↦ rest
        | some u ↦ if is_other actor_id u then u ∷ rest else rest
      ]
    ]

pub contributors : ℕ → Option ℕ → World → List ℕ
contributors batch_id actor_id w = distinct (
    farmer_accounts w.db.accounts.farmers actor_id
      (select (λ (d : Delivery). same_option d.batch_id (some batch_id)) w.db.trade.deliveries))

pub recipients_in : ℕ → List UserRole → Option ℕ → World → List ℕ
recipients_in cooperative_id roles actor_id w =
    map (λ (u : User). u.id)
      (select (is_recipient cooperative_id roles actor_id) w.db.accounts.users)

-- The active users but for the actor.
abbrev is_active_other : Option ℕ → User → Bool
is_active_other actor_id u = is_active_status u.status && not u.is_deleted && is_other actor_id u.id

pub active_users : Option ℕ → World → List ℕ
active_users actor_id w =
    map (λ (u : User). u.id) (select (is_active_other actor_id) w.db.accounts.users)

module _ (env : Env) where
  -- One insert of a row for each user, which may fail.
  pub insert_rows : Notice → List ℕ → M (Unit {0})
  insert_rows notice user_ids = do
    failed ← next_outage env
    raise_if failed request_error
    now ← new_date env
    k ← reserve_ids (length user_ids)
    modify_db (λ d. record d { inbox = unread_rows env notice now k user_ids ++ d.inbox })

  -- One insert of a row, which may fail too.
  pub create : ℕ → Notice → M Notification
  create user_id notice = do
    failed ← next_outage env
    raise_if failed request_error
    now ← new_date env
    id ← new_id env
    let row : Notification = unread notice now id user_id
    modify_db (λ d. record d { inbox = row ∷ d.inbox })
    pure row

  -- No insert is made for an empty list.
  pub fan_out : List ℕ → Notice → M (Unit {0})
  fan_out [] notice = skip
  fan_out (u ∷ us) notice = insert_rows notice (u ∷ us)

  pub notify_delivery_created : ℕ → Text → Option ℕ → ℕ → Option ℕ → M (Unit {0})
  notify_delivery_created cooperative_id delivery_code farmer_user_id weight_kg actor_id =
      safely (do
        staff ← gets (recipients_in cooperative_id ops_roles actor_id)
        fan_out staff (delivery_registered delivery_code weight_kg)
        when_some farmer_user_id (λ u.
            when (not (same_option (some u) actor_id))
              (create u (delivery_recorded delivery_code weight_kg) >> skip)))

  pub notify_deliveries_assigned : ℕ → Text → ℕ → Option ℕ → M (Unit {0})
  notify_deliveries_assigned cooperative_id batch_code delivery_count actor_id = safely (do
    staff ← gets (recipients_in cooperative_id ops_roles actor_id)
    fan_out staff (deliveries_added batch_code delivery_count))

  pub notify_contributing_farmers : ℕ → Notice → Option ℕ → M (Unit {0})
  notify_contributing_farmers batch_id notice actor_id = do
    user_ids ← gets (contributors batch_id actor_id)
    fan_out user_ids notice

  pub notify_batch_status_change :
      ℕ → Text → ℕ → BatchStatus → BatchStatus → Option ℕ → M (Unit {0})
  notify_batch_status_change batch_id batch_code cooperative_id from_status to_status actor_id =
      safely (do
        staff ← gets (recipients_in cooperative_id ops_roles actor_id)
        fan_out staff (status_updated batch_code from_status to_status)
        when (same_status to_status sold || same_status to_status exported)
            (notify_contributing_farmers batch_id (coffee_sold batch_code to_status) actor_id))

  pub notify_processing_recorded : ℕ → Text → ProcessingMethod → Option ℕ → M (Unit {0})
  notify_processing_recorded cooperative_id batch_code method actor_id = safely (do
    staff ← gets (recipients_in cooperative_id ops_roles actor_id)
    fan_out staff (processing_noted batch_code method))

  pub notify_warehouse_stored : ℕ → Text → String → ℕ → Option ℕ → M (Unit {0})
  notify_warehouse_stored cooperative_id batch_code warehouse_name weight_kg actor_id = safely (do
    staff ← gets (recipients_in cooperative_id ops_roles actor_id)
    fan_out staff (batch_stored batch_code weight_kg warehouse_name))

  pub notify_transfer_initiated : ℕ → Text → String → Option ℕ → M (Unit {0})
  notify_transfer_initiated cooperative_id batch_code buyer_name actor_id = safely (do
    admins ← gets (recipients_in cooperative_id (cooperative_admin ∷ []) actor_id)
    fan_out admins (sale_awaiting batch_code buyer_name))

  pub notify_transfer_confirmed : ℕ → ℕ → Text → String → Option ℕ → Option ℕ → M (Unit {0})
  notify_transfer_confirmed batch_id cooperative_id batch_code buyer_name initiated_by_id actor_id =
      safely (do
        staff ← gets (recipients_in cooperative_id ops_roles actor_id)
        fan_out staff (sale_confirmed batch_code buyer_name)
        when_some initiated_by_id (λ u.
            when (not (same_option (some u) actor_id) && not (contains u staff))
              (create u (your_sale_confirmed batch_code buyer_name) >> skip))
        notify_contributing_farmers batch_id (coffee_sold_to batch_code buyer_name) actor_id)

  pub notify_user_status_change : ℕ → UserStatus → Option ℕ → M (Unit {0})
  notify_user_status_change user_id new_status actor_id =
      when (not (same_option (some user_id) actor_id))
        (safely (create user_id (account_status new_status) >> skip))

  pub notify_system_event : String → String → Option ℕ → M (Unit {0})
  notify_system_event title message actor_id =
      safely
        (do user_ids ← gets (active_users actor_id); fan_out user_ids (announcement title message))
