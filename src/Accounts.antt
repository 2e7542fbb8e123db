-- ===== src/Accounts.antt =====
-- The tables of users and farmers (`prisma.user`, `prisma.farmer`), with the constraints of
-- prisma/schema.prisma: emails and phone numbers of users are unique, an email in any case.
pub mod Effects
pub mod Lookup
pub mod Orderly
use coffee_traceability_back.Prelude.{
  ℕ, String, Bool, true, false, not, Option, none, some, List, [], ◌∷◌, ◌==◌, ◌&&◌, ◌||◌,
  if◌then◌else◌, find?, any, update_where, is_some, same_option,
}
use coffee_traceability_back.Errors.{Failure, unique_violation, record_not_found}
use coffee_traceability_back.Schema.{Text, User, Farmer, Accounts, UserRole, UserStatus}
use coffee_traceability_back.Texts.{same_text, same_text_option}
use coffee_traceability_back.Texts.Chars.{lower}
use coffee_traceability_back.World.{
  Env, Db, World, M, pure, gets_accounts, or_raise, ◌>>=◌, ◌>>◌, raise_if, modify_db, new_date,
  new_id,
}

abbrev pub modify_accounts : (Accounts → Accounts) → M (Unit {0})
modify_accounts f = modify_db (λ d. record d { accounts = f d.accounts })

abbrev pub has_id : ℕ → User → Bool
has_id id u = u.id == id

-- A column that may be null; the type of an email compares without regard to case.
abbrev pub has_email : Text → User → Bool
has_email email u = elim u.email [ none ↦ false | some e ↦ same_text (lower e) (lower email) ]

abbrev pub has_phone : Text → User → Bool
has_phone phone u = elim u.phone_number [ none ↦ false | some p ↦ same_text p phone ]

abbrev pub is_farmer_row : ℕ → Farmer → Bool
is_farmer_row id f = f.id == id

-- `prisma.user.findUnique`
abbrev pub find_user : (User → Bool) → M (Option User)
find_user p = gets_accounts (λ a. find? p a.users)

abbrev pub taken_by : {A : Type 0} → (A → User → Bool) → Option A → List User → Bool
taken_by test none users = false
taken_by test (some a) users = any (test a) users

-- Whether the insert of a user with this email and phone number violates a constraint.
abbrev pub violates : Option Text → Option Text → List User → Bool
violates email phone users = taken_by has_email email users || taken_by has_phone phone users

-- The columns that the code gives a new user; the others have their defaults.
pub record UserData : Type 0 where
  pub email : Option Text
  pub phone_number : Option Text
  pub password_hash : Text
  pub first_name : String
  pub last_name : String
  pub role : UserRole
  pub cooperative_id : Option ℕ
  pub status : UserStatus
  pub must_change_password : Bool
  pub temporary_password_expires_at : Option ℕ

abbrev pub new_user : ℕ → ℕ → UserData → User
new_user id created_at data_ = record {
  id = id;
  email = data_.email;
  phone_number = data_.phone_number;
  password_hash = data_.password_hash;
  first_name = data_.first_name;
  last_name = data_.last_name;
  role = data_.role;
  status = data_.status;
  cooperative_id = data_.cooperative_id;
  last_login_at = none;
  failed_login_count = 0;
  locked_until = none;
  refresh_token_hash = none;
  maintenance_allowed = false;
  is_deleted = false;
  must_change_password = data_.must_change_password;
  password_changed_at = none;
  temporary_password_expires_at = data_.temporary_password_expires_at;
  created_at = created_at;
}

-- `prisma.user.create`
unfoldable pub create_user : Env → UserData → M User
create_user env data_ = do
  clash ← gets_accounts (λ a. violates data_.email data_.phone_number a.users)
  raise_if clash unique_violation
  id ← new_id env
  now ← new_date env
  let row = new_user id now data_
  modify_accounts (λ a. record a { users = row ∷ a.users })
  pure row

-- `prisma.user.update` by the identifier; the answer is the row as it is written.
unfoldable pub update_user : ℕ → (User → User) → M User
update_user id f = do
  found ← find_user (has_id id)
  row ← or_raise found record_not_found
  modify_accounts (λ a. record a { users = update_where (has_id id) f a.users })
  pure (f row)

-- `prisma.farmer.update` by the identifier.
unfoldable pub update_farmer_row : ℕ → (Farmer → Farmer) → M Farmer
update_farmer_row id f = do
  found ← gets_accounts (λ a. find? (is_farmer_row id) a.farmers)
  row ← or_raise found record_not_found
  modify_accounts (λ a. record a { farmers = update_where (is_farmer_row id) f a.farmers })
  pure (f row)

-- The columns that the code gives a new farmer, but for the code and the login.
pub record FarmerData : Type 0 where
  pub cooperative_id : ℕ
  pub first_name : String
  pub last_name : String
  pub national_id : Option Text
  pub phone_number : Option Text
  pub farm_location : Option String

abbrev pub new_farmer : ℕ → ℕ → Text → Option ℕ → Option Text → FarmerData → Farmer
new_farmer id created_at code user_id phone data_ = record {
  id = id;
  user_id = user_id;
  cooperative_id = data_.cooperative_id;
  farmer_code = code;
  first_name = data_.first_name;
  last_name = data_.last_name;
  national_id = data_.national_id;
  phone_number = phone;
  farm_location = data_.farm_location;
  is_active = true;
  is_deleted = false;
  created_at = created_at;
}

-- The unique columns of a farmer: the code, the national identity and the login.
abbrev pub clashes : Text → Option ℕ → Option Text → Farmer → Bool
clashes code user_id national_id f =
    same_text f.farmer_code code
    || is_some user_id && same_option f.user_id user_id
    || is_some national_id && same_text_option f.national_id national_id

-- `prisma.farmer.create`
unfoldable pub create_farmer_row : Env → Text → Option ℕ → Option Text → FarmerData → M Farmer
create_farmer_row env code user_id phone data_ = do
  clash ← gets_accounts (λ a. any (clashes code user_id data_.national_id) a.farmers)
  raise_if clash unique_violation
  id ← new_id env
  now ← new_date env
  let row = new_farmer id now code user_id phone data_
  modify_accounts (λ a. record a { farmers = row ∷ a.farmers })
  pure row
