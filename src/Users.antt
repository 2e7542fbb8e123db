-- ===== src/Users.antt =====
-- modules/users/user.service.ts with the handlers of modules/users/user.controller.ts.
pub mod Effects
pub mod Scoping
use coffee_traceability_back.Prelude.{
  ℕ, Bool, true, false, not, Option, none, some, List, [], ◌∷◌, ◌==◌, ◌&&◌, ◌||◌, if◌then◌else◌,
  find?, same_option, is_some, select, order_desc, page_of, length,
}
use coffee_traceability_back.Errors.{not_found, forbidden, user_not_found, other_cooperative_user}
use coffee_traceability_back.Schema.{
  User, UserRole, UserStatus, Accounts, same_role, update, user_entity,
}
use coffee_traceability_back.World.{
  Env, World, M, pure, gets_accounts, or_raise, ◌>>=◌, ◌>>◌, raise_if,
}
use coffee_traceability_back.Scope.{
  Caller, AuthUser, is_super, require_user, require_permission, scope_cooperative_id,
}
use coffee_traceability_back.Audit.{record_audit_log}
use coffee_traceability_back.Notifications.{notify_user_status_change}
use coffee_traceability_back.System.{invalidate_user_access}
use coffee_traceability_back.Accounts.{find_user, has_id, update_user}

abbrev pub is_live_user : ℕ → User → Bool
is_live_user id u = u.id == id && not u.is_deleted

unfoldable pub get_me : ℕ → M User
get_me id = do found ← find_user (has_id id); or_raise found (not_found user_not_found)

unfoldable pub update_user_status : ℕ → UserStatus → M User
update_user_status id status = do
  found ← find_user (is_live_user id)
  or_raise found (not_found user_not_found)
  update_user id (λ u. record u { status = status })

unfoldable pub set_maintenance_access : ℕ → Bool → M User
set_maintenance_access id allowed = do
  found ← find_user (is_live_user id)
  or_raise found (not_found user_not_found)
  update_user id (λ u. record u { maintenance_allowed = allowed })

-- A null on either side is a mismatch.
abbrev pub is_colleague : Option ℕ → Option ℕ → Bool
is_colleague none own = false
is_colleague (some c) own = same_option (some c) own

unfoldable pub assert_target : AuthUser → ℕ → M (Unit {0})
assert_target actor user_id = do
  found ← find_user (is_live_user user_id)
  target ← or_raise found (not_found user_not_found)
  raise_if (not (is_colleague target.cooperative_id actor.cooperative_id))
      (forbidden other_cooperative_user)

unfoldable pub assert_user_in_scope : Caller → ℕ → M (Unit {0})
assert_user_in_scope caller user_id = do
  actor ← require_user caller
  if is_super actor then pure tt else assert_target actor user_id

pub record UserQuery : Type 0 where
  pub page : ℕ
  pub limit : ℕ
  pub cooperative_id : Option ℕ
  pub role : Option UserRole

abbrev pub is_listed : Option ℕ → Option UserRole → User → Bool
is_listed cooperative_id role u =
    not u.is_deleted
    && elim cooperative_id [ none ↦ true | some c ↦ same_option u.cooperative_id (some c) ]
    && elim role [ none ↦ true | some r ↦ same_role u.role r ]

abbrev pub list_users : UserQuery → Option ℕ → Accounts → List User × ℕ
list_users q cooperative_id a =
    let rows = select (is_listed cooperative_id q.role) a.users in
    (page_of q.page q.limit (order_desc (λ (u : User). u.created_at) rows), length rows)

unfoldable pub me_handler : Caller → M User
me_handler caller = do u ← require_user caller; get_me u.id

module _ (env : Env) where
  unfoldable pub list_handler : Caller → UserQuery → M (List User × ℕ)
  list_handler caller q = do
    require_permission env ("users:view" ∷ []) caller
    u ← require_user caller
    cooperative_id ← if is_super u then pure q.cooperative_id else scope_cooperative_id caller none
    gets_accounts (list_users q cooperative_id)

  unfoldable pub update_status_handler : Caller → ℕ → UserStatus → M User
  update_status_handler caller id status = do
    require_permission env ("users:manage" ∷ []) caller
    assert_user_in_scope caller id
    user ← update_user_status id status
    actor ← require_user caller
    notify_user_status_change env user.id status (some actor.id)
    record_audit_log caller update user_entity user.id
    pure user

  unfoldable pub maintenance_access_handler : Caller → ℕ → Bool → M User
  maintenance_access_handler caller id allowed = do
    require_permission env ("users:manage" ∷ []) caller
    assert_user_in_scope caller id
    user ← set_maintenance_access id allowed
    invalidate_user_access user.id
    record_audit_log caller update user_entity user.id
    pure user
