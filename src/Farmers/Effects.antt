-- ===== src/Farmers/Effects.antt =====
-- What the functions of the farmers' service make of the table of users.
use coffee_traceability_back.Prelude.{ℕ, Bool, Option, none, some, ◌<◌, arith}
use coffee_traceability_back.Schema.{Text}
use coffee_traceability_back.World.{Env, Db}
use coffee_traceability_back.World.Keeps.{Keeps, keeps_rules}
use coffee_traceability_back.Scope.{Caller, AuthUser}
use coffee_traceability_back.Scope.Effects.{require_permission-Keeps, assert_ownership-Keeps}
use coffee_traceability_back.Permissions.Cache.{role_has_permission-Keeps}
use coffee_traceability_back.Audit.Effects.{record_audit_entry-Keeps, record_audit-Keeps}
use coffee_traceability_back.EntityCode.Effects.{draw_code-Keeps}
use coffee_traceability_back.Credentials.{Crypto}
use coffee_traceability_back.Credentials.Effects.{hash_password-Keeps, generate-Keeps}
use coffee_traceability_back.Accounts.{FarmerData}
use coffee_traceability_back.Accounts.Effects.{
  OfUsers, OfUsers-unlogged, OfUsers-uncounted, update_farmer_row-Keeps, create_farmer_row-Keeps,
}
use coffee_traceability_back.Accounts.Orderly.{IsOrderly, IsOrderly-update, IsOrderly-create}
use coffee_traceability_back.Farmers.{
  assert_cooperative, assert_identifiers_free, get_farmer_by_id, generate_farmer_code,
  create_farmer, new_credential, create_farmer_with_account, create_farmer_account, FarmerPatch,
  reset_farmer_password, update_farmer, soft_delete_farmer,
}
use coffee_traceability_back.Farmers.Serving.{
  may_issue, register_only, register_with_login, create_handler, update_handler, delete_handler,
  create_account_handler, reset_password_handler,
}

module _ {P : Db → Type 0} where
  pub assert_cooperative-Keeps : (id : ℕ) → Keeps P (assert_cooperative id)
  unfolding assert_cooperative
  assert_cooperative-Keeps id = search keeps_rules depth 8

  pub assert_identifiers_free-Keeps :
      (email phone : Option Text) → Keeps P (assert_identifiers_free email phone)
  unfolding assert_identifiers_free
  assert_identifiers_free-Keeps email phone = search keeps_rules depth 12

  pub get_farmer_by_id-Keeps : (id : ℕ) → Keeps P (get_farmer_by_id id)
  unfolding get_farmer_by_id
  get_farmer_by_id-Keeps id = search keeps_rules depth 8

  may_issue-Keeps : (env : Env) (u : Option AuthUser) → Keeps P (may_issue env u)
  unfolding may_issue
  may_issue-Keeps env none = search keeps_rules
  may_issue-Keeps env (some u) = role_has_permission-Keeps env u.role _

none_failed : 0 < 5
none_failed = omega arith

ruleset farmer_rules = (
  keeps_rules, assert_cooperative-Keeps, assert_identifiers_free-Keeps, get_farmer_by_id-Keeps,
  require_permission-Keeps, assert_ownership-Keeps, record_audit_entry-Keeps, record_audit-Keeps,
  OfUsers-unlogged, update_farmer_row-Keeps, create_farmer_row-Keeps, IsOrderly-update,
  IsOrderly-create, none_failed,
)

module _ (env : Env) where
  pub generate_farmer_code-Keeps : Keeps (OfUsers IsOrderly) (generate_farmer_code env)
  unfolding generate_farmer_code
  generate_farmer_code-Keeps = draw_code-Keeps OfUsers-uncounted env _ _ 5

  create_farmer-IsOrderly :
      (data_ : FarmerData) → Keeps (OfUsers IsOrderly) (create_farmer env data_)
  unfolding create_farmer
  create_farmer-IsOrderly data_ = search (farmer_rules, generate_farmer_code-Keeps) depth 10

  register_only-IsOrderly :
      (caller : Caller) (data_ : FarmerData)
      → Keeps (OfUsers IsOrderly) (register_only env caller data_)
  unfolding register_only
  register_only-IsOrderly caller data_ = search (farmer_rules, create_farmer-IsOrderly) depth 10

module _ (env : Env) (crypto : Crypto) where
  pub new_credential-Keeps : {P : Db → Type 0} → Keeps P (new_credential env crypto)
  unfolding new_credential
  new_credential-Keeps = search (keeps_rules, hash_password-Keeps, generate-Keeps) depth 10

  with_account-IsOrderly :
      (data_ : FarmerData) (email : Option Text)
      → Keeps (OfUsers IsOrderly) (create_farmer_with_account env crypto data_ email)
  unfolding create_farmer_with_account
  with_account-IsOrderly data_ email =
      search (farmer_rules, new_credential-Keeps, generate_farmer_code-Keeps) depth 14 fits 4000

  with_login-IsOrderly :
      (caller : Caller) (data_ : FarmerData) (email : Option Text)
      → Keeps (OfUsers IsOrderly) (register_with_login env crypto caller data_ email)
  unfolding register_with_login
  with_login-IsOrderly caller data_ email =
      search (farmer_rules, may_issue-Keeps, with_account-IsOrderly) depth 12 fits 4000

  pub create_handler-IsOrderly :
      (caller : Caller) (create_login : Bool) (data_ : FarmerData) (email : Option Text)
      → Keeps (OfUsers IsOrderly) (create_handler env crypto caller create_login data_ email)
  unfolding create_handler
  create_handler-IsOrderly caller create_login data_ email =
      search (farmer_rules, register_only-IsOrderly, with_login-IsOrderly) depth 12 fits 4000

  account-IsOrderly :
      (id : ℕ) (email : Option Text)
      → Keeps (OfUsers IsOrderly) (create_farmer_account env crypto id email)
  unfolding create_farmer_account
  account-IsOrderly id email = search (farmer_rules, new_credential-Keeps) depth 14 fits 4000

  pub create_account_handler-IsOrderly :
      (caller : Caller) (id : ℕ) (email : Option Text)
      → Keeps (OfUsers IsOrderly) (create_account_handler env crypto caller id email)
  unfolding create_account_handler
  create_account_handler-IsOrderly caller id email =
      search (farmer_rules, account-IsOrderly) depth 12 fits 4000

  reset-IsOrderly : (id : ℕ) → Keeps (OfUsers IsOrderly) (reset_farmer_password env crypto id)
  unfolding reset_farmer_password
  reset-IsOrderly id = search (farmer_rules, new_credential-Keeps) depth 14 fits 4000

  pub reset_password_handler-IsOrderly :
      (caller : Caller) (id : ℕ)
      → Keeps (OfUsers IsOrderly) (reset_password_handler env crypto caller id)
  unfolding reset_password_handler
  reset_password_handler-IsOrderly caller id =
      search (farmer_rules, reset-IsOrderly) depth 12 fits 4000

module _ (env : Env) (caller : Caller) (id : ℕ) where
  update_farmer-IsOrderly :
      (patch : FarmerPatch) → Keeps (OfUsers IsOrderly) (update_farmer id patch)
  unfolding update_farmer
  update_farmer-IsOrderly patch = search farmer_rules depth 10

  pub update_handler-IsOrderly :
      (patch : FarmerPatch) → Keeps (OfUsers IsOrderly) (update_handler env caller id patch)
  unfolding update_handler
  update_handler-IsOrderly patch = search (farmer_rules, update_farmer-IsOrderly) depth 12 fits 4000

  soft_delete-IsOrderly : Keeps (OfUsers IsOrderly) (soft_delete_farmer id)
  unfolding soft_delete_farmer
  soft_delete-IsOrderly = search farmer_rules depth 14 fits 4000

  pub delete_handler-IsOrderly : Keeps (OfUsers IsOrderly) (delete_handler env caller id)
  unfolding delete_handler
  delete_handler-IsOrderly = search (farmer_rules, soft_delete-IsOrderly) depth 12 fits 4000
