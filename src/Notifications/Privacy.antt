-- ===== src/Notifications/Privacy.antt =====
-- The inbox requests of one user, and the notifications of the others.
use coffee_traceability_back.Prelude.{
  ℕ, ◌≡◌, ◌≢◌, ◌==◌, ◌∙◌, refl, sym, ap, Bool, true, false, not, Option, some, List, [], ◌∷◌,
  length, select, update_where, any, ltb, arith, Bool-cases, inl, inr,
}
use coffee_traceability_back.Errors.{ok, not_found, notification_not_found}
use coffee_traceability_back.Schema.{Notification}
use coffee_traceability_back.World.{Env, World, Db, M, pure, raise_if, ◌>>◌, modify_db}
use coffee_traceability_back.World.Keeps.{Keeps, Keeps-bind, keeps_rules}
use coffee_traceability_back.Scope.{Caller, AuthUser, require_user}
use coffee_traceability_back.Notifications.Serving.{
  is_unread_of, is_own, is_own_unread, read_now, mark_as_read, mark_all_as_read, delete,
  list_for_user, count_unread, list_handler, unread_count_handler, read_all_handler, read_handler,
  delete_handler,
}

-- What a user asks of their inbox.
pub data InboxRequest : Type 0 where
  list : Option Bool → ℕ → InboxRequest
  count : InboxRequest
  read_all : InboxRequest
  read : ℕ → InboxRequest
  remove : ℕ → InboxRequest

unfoldable pub answer : Env → Caller → InboxRequest → World → World
answer env caller (list state limit) w = (list_handler env caller state limit w).1
answer env caller count w = (unread_count_handler env caller w).1
answer env caller read_all w = (read_all_handler env caller w).1
answer env caller (read id) w = (read_handler env caller id w).1
answer env caller (remove id) w = (delete_handler env caller id w).1

abbrev pub answer_inbox : Env → Caller → List InboxRequest → World → World
answer_inbox env caller [] w = w
answer_inbox env caller (r ∷ rs) w = answer_inbox env caller rs (answer env caller r w)

-- The notifications of a user, in the order of the table.
abbrev pub inbox_of : ℕ → List Notification → List Notification
inbox_of user_id rows = select (λ (n : Notification). n.user_id == user_id) rows

module _ (user_id other : ℕ) (apart : other ≢ user_id) where
  inbox_of-update :
      (p : Notification → Bool) (now : ℕ) (rows : List Notification)
      → ((n : Notification) → p n ≡ true → n.user_id ≡ user_id)
      → inbox_of other (update_where p (read_now now) rows) ≡ inbox_of other rows
  inbox_of-update p now [] own = refl
  inbox_of-update p now (n ∷ ns) own = elim (Bool-cases (p n)) [
    | inl hit ↦ rw hit (
        let mine : n.user_id ≡ user_id = own n hit in
        ground (arith, mine, apart, inbox_of-update p now ns own))
    | inr miss ↦ rw miss (ground (arith, inbox_of-update p now ns own))
  ]

  inbox_of-delete :
      (id : ℕ) (rows : List Notification)
      → inbox_of other (select (λ n. not (is_own id user_id n)) rows) ≡ inbox_of other rows
  inbox_of-delete id [] = refl
  inbox_of-delete id (n ∷ ns) = ground (arith, apart, inbox_of-delete id ns)

module _ (rows : List Notification) (user_id other : ℕ) (apart : other ≢ user_id) where
  -- The other user's notifications are those.
  abbrev Theirs : Db → Type 0
  Theirs d = inbox_of other d.inbox ≡ rows

  read-Keeps :
      (p : Notification → Bool) (now : ℕ)
      → ((n : Notification) → p n ≡ true → n.user_id ≡ user_id)
      → Keeps Theirs (modify_db (λ d. record d { inbox = update_where p (read_now now) d.inbox }))
  read-Keeps p now own = record {
    at = λ w h. inbox_of-update user_id other apart p now w.db.inbox own ∙ h;
  }

  own_unread : (id : ℕ) (n : Notification) → is_own_unread id user_id n ≡ true → n.user_id ≡ user_id
  own_unread id n h = ground (arith, h)

  unread_own : (n : Notification) → is_unread_of user_id n ≡ true → n.user_id ≡ user_id
  unread_own n h = ground (arith, h)

  mark_as_read-Keeps : (env : Env) (id : ℕ) → Keeps Theirs (mark_as_read env id user_id)
  unfolding mark_as_read
  mark_as_read-Keeps env id = search (keeps_rules, read-Keeps, own_unread id) depth 10

  mark_all_as_read-Keeps : (env : Env) → Keeps Theirs (mark_all_as_read env user_id)
  unfolding mark_all_as_read
  mark_all_as_read-Keeps env = search (keeps_rules, read-Keeps, unread_own) depth 10

  remove-Keeps :
      (id : ℕ)
      → Keeps Theirs
          (modify_db (λ d. record d { inbox = select (λ n. not (is_own id user_id n)) d.inbox }))
  remove-Keeps id = record { at = λ w h. inbox_of-delete user_id other apart id w.db.inbox ∙ h }

  delete-Keeps : (id : ℕ) → Keeps Theirs (delete id user_id)
  unfolding delete
  delete-Keeps id = search (keeps_rules, remove-Keeps) depth 10

  list-Keeps :
      (state : Option Bool) (limit : Option ℕ) → Keeps Theirs (list_for_user user_id state limit)
  unfolding list_for_user
  list-Keeps state limit = search keeps_rules

  count-Keeps : Keeps Theirs (count_unread user_id)
  unfolding count_unread
  count-Keeps = search keeps_rules

  ruleset inbox_rules = (
    keeps_rules, mark_as_read-Keeps, mark_all_as_read-Keeps, delete-Keeps, list-Keeps, count-Keeps,
  )

-- The caller is signed in as the user.
abbrev pub IsUser : Caller → ℕ → Type 0
IsUser caller user_id = (u : AuthUser) × (caller.user ≡ some u) × (u.id ≡ user_id)

abbrev found_or_raise : ℕ → Bool → M ℕ
found_or_raise id found = raise_if (not found) (not_found notification_not_found) >> pure id

module _ (env : Env) (caller : Caller) (user_id other : ℕ) (signed : IsUser caller user_id)
    (apart : other ≢ user_id) where
  answer-Theirs :
      (r : InboxRequest) (w : World)
      → inbox_of other (answer env caller r w).db.inbox ≡ inbox_of other w.db.inbox
  unfolding answer list_handler unread_count_handler read_all_handler read_handler delete_handler
      require_user
  answer-Theirs (list state limit) w =
      rw (signed.1, signed.2)
        ((list-Keeps (inbox_of other w.db.inbox) user_id other apart state (some limit)).at w refl)
  answer-Theirs count w =
      rw (signed.1, signed.2)
        ((count-Keeps (inbox_of other w.db.inbox) user_id other apart).at w refl)
  answer-Theirs read_all w =
      rw (signed.1, signed.2)
        ((mark_all_as_read-Keeps (inbox_of other w.db.inbox) user_id other apart env).at w refl)
  answer-Theirs (read id) w =
      rw (signed.1, signed.2)
        ((Keeps-bind (mark_as_read env id user_id) (found_or_raise id)
            (mark_as_read-Keeps (inbox_of other w.db.inbox) user_id other apart env id)
            (λ found. search keeps_rules)).at
          w refl)
  answer-Theirs (remove id) w =
      rw (signed.1, signed.2)
        ((Keeps-bind (delete id user_id) (found_or_raise id)
            (delete-Keeps (inbox_of other w.db.inbox) user_id other apart id)
            (λ found. search keeps_rules)).at
          w refl)

  -- Whatever a user asks of their inbox, as often as they like, and whichever notifications they name,
  -- the notifications of any other user are what they were.
  pub answer_inbox-Theirs :
      (rs : List InboxRequest) (w : World)
      → inbox_of other (answer_inbox env caller rs w).db.inbox ≡ inbox_of other w.db.inbox
  answer_inbox-Theirs [] w = refl
  answer_inbox-Theirs (r ∷ rs) w =
      answer_inbox-Theirs rs (answer env caller r w) ∙ answer-Theirs r w

module _ (user_id id : ℕ) where
  any-own :
      (rows : List Notification)
      → ltb 0 (length (select (is_own id user_id) rows)) ≡ any (is_own id user_id) rows
  any-own [] = refl
  any-own (n ∷ ns) = ground (arith, any-own ns)

  unread-own :
      (rows : List Notification)
      → ltb 0 (length (select (is_own_unread id user_id) rows)) ≡ true
      → any (is_own id user_id) rows ≡ true
  unread-own [] h = absurd (cc h)
  unread-own (n ∷ ns) h = ground (arith, unread-own ns, h)

  any-read :
      (now : ℕ) (rows : List Notification)
      → any (is_own id user_id) (update_where (is_own_unread id user_id) (read_now now) rows)
        ≡ any (is_own id user_id) rows
  any-read now [] = refl
  any-read now (n ∷ ns) = ground (arith, any-read now ns)

  none_unread :
      (now : ℕ) (rows : List Notification)
      → any (is_own_unread id user_id) (update_where (is_own_unread id user_id) (read_now now) rows)
        ≡ false
  none_unread now [] = refl
  none_unread now (n ∷ ns) = ground (arith, none_unread now ns)

  -- Marking one as read answers whether the user has a notification of that number, read before or not,
  -- and afterwards none of that number is unread: a second call, or a race of two, answers the same.
  pub mark_as_read_lem :
      (env : Env) (w : World)
      → ((mark_as_read env id user_id w).0 ≡ ok (any (is_own id user_id) w.db.inbox))
        × (any (is_own_unread id user_id) (mark_as_read env id user_id w).1.db.inbox ≡ false)
  unfolding mark_as_read
  mark_as_read_lem env w =
      let now = env.clock w.reads in
      let rows = w.db.inbox in
      let rows' = update_where (is_own_unread id user_id) (read_now now) rows in
      (
        elim (Bool-cases (ltb 0 (length (select (is_own_unread id user_id) rows)))) [
          | inl some_unread ↦ rw some_unread (ap ok (sym (unread-own rows some_unread)))
          | inr none_left ↦ rw none_left (ap ok (any-own rows' ∙ any-read now rows))
        ],
        none_unread now rows,
      )
