-- ===== src/Buyers.antt =====
-- modules/buyers/buyer.routes.ts. A login has at most one buyer (`@unique` on `user_id` in
-- prisma/schema.prisma).
pub mod Creating
use coffee_traceability_back.Prelude.{
  ℕ, String, Bool, true, false, Option, none, some, List, [], ◌∷◌, ◌==◌, if◌then◌else◌, find?, any,
  select, update_where, order_by, same_option,
}
use coffee_traceability_back.Errors.{unique_violation, record_not_found}
use coffee_traceability_back.Schema.{
  Buyer, UserRole, super_admin, cooperative_admin, cooperative_staff, auditor, buyer, same_role,
  create, verify, buyer_row,
}
use coffee_traceability_back.World.{
  Env, World, M, pure, gets, gets_accounts, or_raise, ◌>>=◌, ◌>>◌, raise_if, new_id,
}
use coffee_traceability_back.Accounts.{modify_accounts}
use coffee_traceability_back.Scope.{Caller, AuthUser, require_user, authorize, staff_roles}
use coffee_traceability_back.Audit.{record_audit_log}

-- The body of a creation.
pub record BuyerData : Type 0 where
  pub company_name : String
  pub country : Option String
  pub contact_email : Option String
  pub contact_phone : Option String

abbrev pub has_login : ℕ → Buyer → Bool
has_login user_id b = same_option b.user_id (some user_id)

abbrev pub is_buyer : ℕ → Buyer → Bool
is_buyer id b = b.id == id

abbrev new_buyer : ℕ → ℕ → BuyerData → Buyer
new_buyer id user_id data_ = record {
  id = id;
  user_id = some user_id;
  company_name = data_.company_name;
  country = data_.country;
  contact_email = data_.contact_email;
  contact_phone = data_.contact_phone;
  is_verified = false;
}

-- `prisma.buyer.create`
unfoldable pub insert_buyer : Env → ℕ → BuyerData → M Buyer
insert_buyer env user_id data_ = do
  clash ← gets_accounts (λ a. any (has_login user_id) a.buyers)
  raise_if clash unique_violation
  id ← new_id env
  let row = new_buyer id user_id data_
  modify_accounts (λ a. record a { buyers = row ∷ a.buyers })
  pure row

-- The new buyer is given the login of the caller.
unfoldable pub create_handler : Env → Caller → BuyerData → M Buyer
create_handler env caller body = do
  authorize staff_roles caller
  u ← require_user caller
  row ← insert_buyer env u.id body
  record_audit_log caller create buyer_row row.id
  pure row

abbrev list_roles : List UserRole
list_roles = super_admin ∷ cooperative_admin ∷ cooperative_staff ∷ auditor ∷ buyer ∷ []

abbrev is_shown_to : AuthUser → Buyer → Bool
is_shown_to u b = if same_role u.role buyer then has_login u.id b else true

-- `precedes` is the database's order of texts.
unfoldable pub list_handler : (String → String → Bool) → Caller → M (List Buyer)
list_handler precedes caller = do
  authorize list_roles caller
  u ← require_user caller
  gets_accounts (λ a.
      order_by (λ (b c : Buyer). precedes b.company_name c.company_name)
        (select (is_shown_to u) a.buyers))

unfoldable pub verify_handler : Caller → ℕ → M Buyer
verify_handler caller id = do
  authorize (super_admin ∷ cooperative_admin ∷ []) caller
  found ← gets_accounts (λ a. find? (is_buyer id) a.buyers)
  row ← or_raise found record_not_found
  modify_accounts (λ a. record a {
    buyers = update_where (is_buyer id) (λ (b : Buyer). record b { is_verified = true }) a.buyers;
  })
  record_audit_log caller verify buyer_row row.id
  pure (record row { is_verified = true })
