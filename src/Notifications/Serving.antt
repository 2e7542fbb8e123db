-- ===== src/Notifications/Serving.antt =====
-- The inbox of a user: the core of modules/notifications/notification.service.ts and the handlers of
-- notification.routes.ts. Only the announcement of an administrator names another user.
use coffee_traceability_back.Prelude.{
  ℕ, Bool, not, Option, none, some, true, List, [], ◌∷◌, ◌==◌, ◌&&◌, if◌then◌else◌, ltb, select,
  update_where, length, order_desc, take_rows,
}
use coffee_traceability_back.Errors.{not_found, notification_not_found}
use coffee_traceability_back.Schema.{Notice, Notification, create as created, notification_entity}
use coffee_traceability_back.World.{Env, M, pure, gets, ◌>>=◌, ◌>>◌, raise_if, modify_db, new_date}
use coffee_traceability_back.Scope.{Caller, require_user, require_permission}
use coffee_traceability_back.Audit.{record_audit_log}
use coffee_traceability_back.Notifications.{create}

-- The bell badge.
abbrev pub is_unread_of : ℕ → Notification → Bool
is_unread_of user_id n = n.user_id == user_id && not n.is_read

unfoldable pub count_unread : ℕ → M ℕ
count_unread user_id = gets (λ w. length (select (is_unread_of user_id) w.db.inbox))

abbrev pub read_now : ℕ → Notification → Notification
read_now now n = record n { is_read = true; read_at = some now }

-- `updateMany` answers with the number of rows that it has written.
unfoldable pub mark_all_as_read : Env → ℕ → M ℕ
mark_all_as_read env user_id = do
  now ← new_date env
  count ← gets (λ w. length (select (is_unread_of user_id) w.db.inbox))
  modify_db (λ d. record d { inbox = update_where (is_unread_of user_id) (read_now now) d.inbox })
  pure count

-- `none` is an absent filter; PENDING is unread.
abbrev is_listed : ℕ → Option Bool → Notification → Bool
is_listed user_id read n =
    n.user_id == user_id
    && elim read [ none ↦ true | some r ↦ if r then n.is_read else not n.is_read ]

-- Newest first; without a limit, fifty.
unfoldable pub list_for_user : ℕ → Option Bool → Option ℕ → M (List Notification)
list_for_user user_id read limit = gets (λ w.
    take_rows (elim limit [ none ↦ 50 | some n ↦ n ])
      (order_desc (λ (n : Notification). n.created_at)
        (select (is_listed user_id read) w.db.inbox)))

abbrev pub is_own : ℕ → ℕ → Notification → Bool
is_own id user_id n = n.id == id && n.user_id == user_id

abbrev pub is_own_unread : ℕ → ℕ → Notification → Bool
is_own_unread id user_id n = is_own id user_id n && not n.is_read

-- Whether the user has that notification, read before or not.
unfoldable pub mark_as_read : Env → ℕ → ℕ → M Bool
mark_as_read env id user_id = do
  now ← new_date env
  count ← gets (λ w. length (select (is_own_unread id user_id) w.db.inbox))
  modify_db
      (λ d. record d { inbox = update_where (is_own_unread id user_id) (read_now now) d.inbox })
  exists ← gets (λ w. length (select (is_own id user_id) w.db.inbox))
  pure (if ltb 0 count then true else ltb 0 exists)

unfoldable pub delete : ℕ → ℕ → M Bool
delete id user_id = do
  count ← gets (λ w. length (select (is_own id user_id) w.db.inbox))
  modify_db (λ d. record d { inbox = select (λ n. not (is_own id user_id n)) d.inbox })
  pure (ltb 0 count)

module _ (env : Env) where
  unfoldable pub list_handler : Caller → Option Bool → ℕ → M (List Notification)
  list_handler caller read limit = do u ← require_user caller; list_for_user u.id read (some limit)

  unfoldable pub unread_count_handler : Caller → M ℕ
  unread_count_handler caller = do u ← require_user caller; count_unread u.id

  unfoldable pub read_all_handler : Caller → M ℕ
  read_all_handler caller = do u ← require_user caller; mark_all_as_read env u.id

  -- Another user's notification is not found.
  unfoldable pub read_handler : Caller → ℕ → M ℕ
  read_handler caller id = do
    u ← require_user caller
    found ← mark_as_read env id u.id
    raise_if (not found) (not_found notification_not_found)
    pure id

  unfoldable pub delete_handler : Caller → ℕ → M ℕ
  delete_handler caller id = do
    u ← require_user caller
    found ← delete id u.id
    raise_if (not found) (not_found notification_not_found)
    pure id

  -- The announcement, which the administrator writes into another user's inbox.
  unfoldable pub create_handler : Caller → ℕ → Notice → M Notification
  create_handler caller user_id notice = do
    require_permission env ("users:manage" ∷ []) caller
    notification ← create env user_id notice
    record_audit_log caller created notification_entity notification.id
    pure notification
