-- ===== src/Notifications/Inbox.antt =====
-- The unread notifications of a user.
use coffee_traceability_back.Prelude.{
  ℕ, ◌≡◌, refl, ap, ◌==◌, if◌then◌else◌, List, [], ◌∷◌, length, select, update_where, arith,
}
use coffee_traceability_back.Errors.{ok}
use coffee_traceability_back.Schema.{Notification}
use coffee_traceability_back.World.{Env, World}
use coffee_traceability_back.Notifications.Serving.{
  is_unread_of, read_now, count_unread, mark_all_as_read,
}

unread-mark :
    (user_id other now : ℕ) (rows : List Notification)
    → length (select (is_unread_of other) (update_where (is_unread_of user_id) (read_now now) rows))
      ≡ (if other == user_id then 0 else length (select (is_unread_of other) rows))
unread-mark user_id other now [] = ground arith
unread-mark user_id other now (n ∷ ns) = ground (arith, unread-mark user_id other now ns)

-- After a user has marked all as read, none of theirs is unread, and the unread ones of every other
-- user are as many as before; the answer is how many of theirs were unread.
pub count_unread-mark_all_as_read :
    (env : Env) (user_id other : ℕ) (w : World)
    → ((count_unread other (mark_all_as_read env user_id w).1).0
        ≡ ok (if other == user_id then 0 else length (select (is_unread_of other) w.db.inbox)))
      × ((mark_all_as_read env user_id w).0 ≡ (count_unread user_id w).0)
unfolding count_unread mark_all_as_read
count_unread-mark_all_as_read env user_id other w =
    (ap ok (unread-mark user_id other (env.clock w.reads) w.db.inbox), refl)
