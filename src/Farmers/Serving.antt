-- ===== src/Farmers/Serving.antt =====
-- The handlers of modules/farmers/farmer.controller.ts, each behind the permission of its route.
use coffee_traceability_back.Prelude.{
  ℕ, Bool, true, false, not, Option, none, some, List, [], ◌∷◌, ◌==◌, ◌&&◌, ◌||◌, if◌then◌else◌,
  is_some, select, order_desc, page_of, length, map, find?,
}
use coffee_traceability_back.Errors.{forbidden, no_permission}
use coffee_traceability_back.Schema.{
  Text, Farmer, User, Accounts, create, update, delete, user_entity, farmer_entity,
}
use coffee_traceability_back.World.{Env, M, pure, gets_accounts, ◌>>=◌, ◌>>◌, raise_if}
use coffee_traceability_back.Texts.{codes}
use coffee_traceability_back.Permissions.{role_has_permission}
use coffee_traceability_back.Scope.{
  Caller, AuthUser, require_permission, scope_cooperative_id, assert_ownership,
}
use coffee_traceability_back.Audit.{record_audit_log, record_audit_entry}
use coffee_traceability_back.Accounts.{FarmerData, has_id}
use coffee_traceability_back.Credentials.{Crypto}
use coffee_traceability_back.Farmers.{
  IssuedCredentials, create_farmer, create_farmer_with_account, create_farmer_account, FarmerPatch,
  reset_farmer_password, get_farmer_by_id, update_farmer, soft_delete_farmer,
}

pub record FarmerQuery : Type 0 where
  pub page : ℕ
  pub limit : ℕ
  pub cooperative_id : Option ℕ
  pub search : Option Text

-- The database's test that a text contains another in any case.
abbrev Containment : Type 0
Containment = Text → Text → Bool

abbrev matches : Containment → Text → Farmer → Bool
matches contains s f =
    contains (codes f.first_name) s || contains (codes f.last_name) s || contains f.farmer_code s

-- An absent filter passes every row, and so does an empty search.
abbrev pub is_listed : Containment → Option ℕ → Option Text → Farmer → Bool
is_listed contains cooperative_id search f =
    not f.is_deleted
    && elim cooperative_id [ none ↦ true | some c ↦ f.cooperative_id == c ]
    && elim search [
      | none ↦ true
      | some s ↦ elim s [ [] ↦ true | c ∷ cs ↦ matches contains (c ∷ cs) f ]
    ]

-- A row with `hasLogin`.
abbrev with_login : List User → Farmer → Farmer × Bool
with_login users f =
    (f, elim f.user_id [ none ↦ false | some id ↦ is_some (find? (has_id id) users) ])

abbrev pub list_farmers : Containment → FarmerQuery → Option ℕ → Accounts → List (Farmer × Bool) × ℕ
list_farmers contains q cooperative_id a =
    let rows = select (is_listed contains cooperative_id q.search) a.farmers in
    let shown = page_of q.page q.limit (order_desc (λ (f : Farmer). f.created_at) rows) in
    (map (with_login a.users) shown, length rows)

pub list_handler : Env → Containment → Caller → FarmerQuery → M (List (Farmer × Bool) × ℕ)
list_handler env contains caller q = do
  require_permission env ("farmers:view" ∷ []) caller
  cooperative_id ← scope_cooperative_id caller q.cooperative_id
  gets_accounts (list_farmers contains q cooperative_id)

-- `!req.user || !(await roleHasPermission(…))`
unfoldable pub may_issue : Env → Option AuthUser → M Bool
may_issue env none = pure false
may_issue env (some u) = role_has_permission env u.role "farmers:manage-account"

module _ (env : Env) where
  pub get_by_id_handler : Caller → ℕ → M Farmer
  get_by_id_handler caller id = do
    require_permission env ("farmers:view" ∷ []) caller
    row ← get_farmer_by_id id
    assert_ownership caller (some row.cooperative_id)
    pure row

  unfoldable pub update_handler : Caller → ℕ → FarmerPatch → M Farmer
  update_handler caller id body = do
    require_permission env ("farmers:create" ∷ []) caller
    existing ← get_farmer_by_id id
    assert_ownership caller (some existing.cooperative_id)
    row ← update_farmer id body
    record_audit_log caller update farmer_entity row.id
    pure row

  unfoldable pub delete_handler : Caller → ℕ → M (Unit {0})
  delete_handler caller id = do
    require_permission env ("farmers:create" ∷ []) caller
    existing ← get_farmer_by_id id
    assert_ownership caller (some existing.cooperative_id)
    row ← soft_delete_farmer id
    record_audit_log caller delete farmer_entity row.id

  -- The branch without a login.
  unfoldable pub register_only : Caller → FarmerData → M (Farmer × Option IssuedCredentials)
  register_only caller data_ = do
    row ← create_farmer env data_
    record_audit_log caller create farmer_entity row.id
    pure (row, none)

module _ (env : Env) (crypto : Crypto) where
  -- The branch with a login.
  unfoldable pub register_with_login :
      Caller → FarmerData → Option Text → M (Farmer × Option IssuedCredentials)
  register_with_login caller data_ email = do
    allowed ← may_issue env caller.user
    raise_if (not allowed) (forbidden no_permission)
    issued ← create_farmer_with_account env crypto data_ email
    record_audit_log caller create farmer_entity issued.0.id
    record_audit_entry caller create user_entity none
    pure (issued.0, some issued.1)

  unfoldable pub create_handler :
      Caller → Bool → FarmerData → Option Text → M (Farmer × Option IssuedCredentials)
  create_handler caller create_login data_ email = do
    require_permission env ("farmers:create" ∷ []) caller
    assert_ownership caller (some data_.cooperative_id)
    if not create_login
        then register_only env caller data_
        else register_with_login caller data_ email

  unfoldable pub create_account_handler : Caller → ℕ → Option Text → M IssuedCredentials
  create_account_handler caller id email = do
    require_permission env ("farmers:manage-account" ∷ []) caller
    row ← get_farmer_by_id id
    assert_ownership caller (some row.cooperative_id)
    credentials ← create_farmer_account env crypto row.id email
    record_audit_entry caller create user_entity none
    pure credentials

  unfoldable pub reset_password_handler : Caller → ℕ → M IssuedCredentials
  reset_password_handler caller id = do
    require_permission env ("farmers:manage-account" ∷ []) caller
    row ← get_farmer_by_id id
    assert_ownership caller (some row.cooperative_id)
    credentials ← reset_farmer_password env crypto row.id
    record_audit_entry caller update user_entity row.user_id
    pure credentials
