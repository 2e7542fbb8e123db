-- ===== src/Farmers.antt =====
-- modules/farmers/farmer.service.ts with the handlers of modules/farmers/farmer.controller.ts:
-- farmers are registered and get their logins.
pub mod Effects
pub mod Granting
pub mod Issuing
pub mod Removal
pub mod Serving
use coffee_traceability_back.Prelude.{
  ℕ, String, Bool, true, false, not, Option, none, some, List, [], ◌∷◌, ◌==◌, ◌&&◌, ◌||◌,
  if◌then◌else◌, find?, is_some, or_else, or_stay, any, select, order_desc, page_of, length, map,
}
use coffee_traceability_back.Errors.{
  Failure, unique_violation, bad_request, unauthorized, forbidden, conflict, not_found,
  invalid_cooperative, email_taken, phone_taken, farmer_not_found, login_exists, no_login,
  no_permission,
}
use coffee_traceability_back.Schema.{
  Text, User, Farmer, Cooperative, Accounts, farmer, active, deactivated, create, update, delete,
  user_entity, farmer_entity,
}
use coffee_traceability_back.Texts.{codes, same_text_option}
use coffee_traceability_back.Texts.Chars.{trim, lower}
use coffee_traceability_back.Identifiers.{normalize_phone}
use coffee_traceability_back.World.{
  Env, Db, World, M, pure, gets_accounts, or_raise, ◌>>=◌, ◌>>◌, raise_if, when_some, skip,
  new_date, with_transaction,
}
use coffee_traceability_back.Permissions.{role_has_permission}
use coffee_traceability_back.Scope.{
  Caller, AuthUser, require_permission, scope_cooperative_id, assert_ownership,
}
use coffee_traceability_back.Audit.{record_audit_log, record_audit_entry}
use coffee_traceability_back.EntityCode.{next_entity_code}
use coffee_traceability_back.Accounts.{
  UserData, FarmerData, has_id, has_email, has_phone, find_user, create_user, update_user,
  create_farmer_row, update_farmer_row, is_farmer_row,
}
use coffee_traceability_back.Credentials.{
  Crypto, hash_password, generate_temporary_password, temporary_password_expiry,
}

pub record IssuedCredentials : Type 0 where
  pub identifier : Text
  pub temporary_password : Text
  pub expires_at : ℕ

-- `x ? normalizePhone(x) ?? x : x`, and the same with null in place of an empty text.
abbrev pub phone_or_raw : Option Text → Option Text
phone_or_raw none = none
phone_or_raw (some []) = some []
phone_or_raw (some (c ∷ t)) = some (or_else (normalize_phone (c ∷ t)) (c ∷ t))

abbrev pub phone_or_null : Option Text → Option Text
phone_or_null none = none
phone_or_null (some []) = none
phone_or_null (some (c ∷ t)) = some (or_else (normalize_phone (c ∷ t)) (c ∷ t))

-- `farmer.phoneNumber ? normalizePhone(farmer.phoneNumber) : null`
abbrev pub normal_phone : Option Text → Option Text
normal_phone none = none
normal_phone (some []) = none
normal_phone (some (c ∷ t)) = normalize_phone (c ∷ t)

abbrev non_empty : Text → Option Text
non_empty [] = none
non_empty (c ∷ t) = some (c ∷ t)

abbrev pub normalize_email : Option Text → Option Text
normalize_email none = none
normalize_email (some t) = non_empty (lower (trim t))

-- The row of a farmer's login: the role is a literal, the cooperative that of the farmer.
abbrev pub build_farmer_user : Option Text → Option Text → String → String → ℕ → Text → ℕ → UserData
build_farmer_user email phone first_name last_name cooperative_id password_hash expires_at =
    record {
      email = email;
      phone_number = phone;
      password_hash = password_hash;
      first_name = first_name;
      last_name = last_name;
      role = farmer;
      cooperative_id = some cooperative_id;
      status = active;
      must_change_password = true;
      temporary_password_expires_at = some expires_at;
    }

unfoldable pub assert_cooperative : ℕ → M (Unit {0})
assert_cooperative id = do
  found ← gets_accounts (λ a. find? (λ (c : Cooperative). c.id == id) a.cooperatives)
  raise_if (not (is_some found)) (bad_request invalid_cooperative)

unfoldable pub assert_identifiers_free : Option Text → Option Text → M (Unit {0})
assert_identifiers_free email phone = do
  when_some email
      (λ e. do taken ← find_user (has_email e); raise_if (is_some taken) (conflict email_taken))
  when_some phone
      (λ p. do taken ← find_user (has_phone p); raise_if (is_some taken) (conflict phone_taken))

abbrev pub is_live_farmer : ℕ → Farmer → Bool
is_live_farmer id f = f.id == id && not f.is_deleted

unfoldable pub get_farmer_by_id : ℕ → M Farmer
get_farmer_by_id id = do
  found ← gets_accounts (λ a. find? (is_live_farmer id) a.farmers)
  or_raise found (not_found farmer_not_found)

abbrev pub with_temporary : Text → ℕ → User → User
with_temporary password_hash expires_at u = record u {
  password_hash = password_hash;
  must_change_password = true;
  temporary_password_expires_at = some expires_at;
  refresh_token_hash = none;
  failed_login_count = 0;
  locked_until = none;
}

module _ (env : Env) where
  unfoldable pub generate_farmer_code : M Text
  generate_farmer_code = next_entity_code env (codes "farmer") (codes "FARM") 5

  unfoldable pub create_farmer : FarmerData → M Farmer
  create_farmer data_ = do
    assert_cooperative data_.cooperative_id
    with_transaction (do
      farmer_code ← generate_farmer_code
      create_farmer_row env farmer_code none (phone_or_raw data_.phone_number) data_)

module _ (env : Env) (crypto : Crypto) where
  -- A new temporary password with its hash and the end of its time.
  unfoldable pub new_credential : M (Text × Text × ℕ)
  new_credential = do
    temporary_password ← generate_temporary_password crypto
    password_hash ← hash_password crypto temporary_password
    now ← new_date env
    pure (temporary_password, password_hash, temporary_password_expiry now)

  unfoldable pub create_farmer_with_account :
      FarmerData → Option Text → M (Farmer × IssuedCredentials)
  create_farmer_with_account data_ email_option = do
    assert_cooperative data_.cooperative_id
    let email = normalize_email email_option
    let phone = phone_or_null data_.phone_number
    assert_identifiers_free email phone
    c ← new_credential
    row ← with_transaction (do
      farmer_code ← generate_farmer_code env
      user ← create_user env (
          build_farmer_user email phone data_.first_name data_.last_name data_.cooperative_id c.1
            c.2)
      create_farmer_row env farmer_code (some user.id) phone data_)
    pure (row, record { identifier = row.farmer_code; temporary_password = c.0; expires_at = c.2 })

  unfoldable pub create_farmer_account : ℕ → Option Text → M IssuedCredentials
  create_farmer_account farmer_id email_option = do
    row ← get_farmer_by_id farmer_id
    raise_if (is_some row.user_id) (conflict login_exists)
    let email = normalize_email email_option
    let phone = normal_phone row.phone_number
    assert_identifiers_free email phone
    c ← new_credential
    with_transaction (do
      user ←
          create_user env
            (build_farmer_user email phone row.first_name row.last_name row.cooperative_id c.1 c.2)
      update_farmer_row row.id (λ f. record f { user_id = some user.id }))
    pure (record { identifier = row.farmer_code; temporary_password = c.0; expires_at = c.2 })

  unfoldable pub reset_farmer_password : ℕ → M IssuedCredentials
  reset_farmer_password farmer_id = do
    row ← get_farmer_by_id farmer_id
    user_id ← or_raise row.user_id (bad_request no_login)
    c ← new_credential
    update_user user_id (with_temporary c.1 c.2)
    pure (record { identifier = row.farmer_code; temporary_password = c.0; expires_at = c.2 })

abbrev pub locked_out : User → User
locked_out u = record u { status = deactivated; refresh_token_hash = none }

abbrev pub removed : Farmer → Farmer
removed f = record f { is_deleted = true; is_active = false }

-- `updateFarmerSchema`, a missing field staying as it is.
pub record FarmerPatch : Type 0 where
  pub first_name : Option String
  pub last_name : Option String
  pub national_id : Option Text
  pub phone_number : Option Text
  pub farm_location : Option String
  pub is_active : Option Bool

abbrev pub corrected : FarmerPatch → Farmer → Farmer
corrected patch f = record f {
  first_name = or_else patch.first_name f.first_name;
  last_name = or_else patch.last_name f.last_name;
  national_id = or_stay patch.national_id f.national_id;
  phone_number = or_stay patch.phone_number f.phone_number;
  farm_location = or_stay patch.farm_location f.farm_location;
  is_active = or_else patch.is_active f.is_active;
}

-- Whether another farmer has the national identity.
abbrev pub is_taken_by : ℕ → Option Text → Farmer → Bool
is_taken_by id national_id f =
    not (is_farmer_row id f) && is_some national_id && same_text_option f.national_id national_id

-- The national identity is unique in the table.
unfoldable pub update_farmer : ℕ → FarmerPatch → M Farmer
update_farmer id patch = do
  get_farmer_by_id id
  clash ← gets_accounts (λ a. any (is_taken_by id patch.national_id) a.farmers)
  raise_if clash unique_violation
  update_farmer_row id (corrected patch)

unfoldable pub soft_delete_farmer : ℕ → M Farmer
soft_delete_farmer id = do
  row ← get_farmer_by_id id
  with_transaction (do
    when_some row.user_id (λ u. do update_user u locked_out; skip)
    update_farmer_row id removed)
