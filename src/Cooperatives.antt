-- ===== src/Cooperatives.antt =====
-- modules/cooperatives: the service, the controller and the roles of the routes. The one constraint on
-- the columns is that no two cooperatives have the same registration number.
pub mod Directory
use text.Mathlib.Text.{◌==◌ as str_eq}
use coffee_traceability_back.Prelude.{
  ℕ, String, Bool, true, false, not, Option, none, some, List, [], ◌∷◌, ◌==◌, ◌&&◌, ◌||◌,
  if◌then◌else◌, find?, any, select, update_where, length, order_desc, page_of, or_else, or_stay,
}
use coffee_traceability_back.Errors.{
  unique_violation, record_not_found, not_found, cooperative_not_found,
}
use coffee_traceability_back.Schema.{
  Cooperative, super_admin, cooperative_admin, create, update, delete, cooperative_row,
}
use coffee_traceability_back.World.{
  Env, M, pure, gets_accounts, or_raise, ◌>>=◌, ◌>>◌, raise_if, new_date, new_id,
}
use coffee_traceability_back.Accounts.{modify_accounts}
use coffee_traceability_back.Scope.{
  Caller, is_super, require_user, authorize, assert_ownership, scope_cooperative_id,
}
use coffee_traceability_back.Audit.{record_audit_log}

-- The body of a creation.
pub record CooperativeData : Type 0 where
  pub name : String
  pub registration_no : Option String
  pub county : String
  pub sub_county : Option String
  pub contact_email : Option String
  pub contact_phone : Option String
  pub address : Option String

-- The body of an update: what is absent stays.
pub record CooperativePatch : Type 0 where
  pub name : Option String
  pub registration_no : Option String
  pub county : Option String
  pub sub_county : Option String
  pub contact_email : Option String
  pub contact_phone : Option String
  pub address : Option String

abbrev pub is_cooperative : ℕ → Cooperative → Bool
is_cooperative id c = c.id == id

abbrev pub is_registered_as : Option String → Cooperative → Bool
is_registered_as none c = false
is_registered_as (some number) c = elim c.registration_no [
  | none ↦ false
  | some r ↦ str_eq r number
]

abbrev new_cooperative : ℕ → ℕ → CooperativeData → Cooperative
new_cooperative id created_at data_ = record {
  id = id;
  name = data_.name;
  registration_no = data_.registration_no;
  county = data_.county;
  sub_county = data_.sub_county;
  contact_email = data_.contact_email;
  contact_phone = data_.contact_phone;
  address = data_.address;
  is_active = true;
  created_at = created_at;
}

unfoldable pub create_cooperative : Env → CooperativeData → M Cooperative
create_cooperative env data_ = do
  clash ← gets_accounts (λ a. any (is_registered_as data_.registration_no) a.cooperatives)
  raise_if clash unique_violation
  id ← new_id env
  now ← new_date env
  let row = new_cooperative id now data_
  modify_accounts (λ a. record a { cooperatives = row ∷ a.cooperatives })
  pure row

-- The filters and the page of a listing; an absent or empty filter passes.
pub record ListQuery : Type 0 where
  pub page : ℕ
  pub limit : ℕ
  pub county : Option String
  pub search : Option String

abbrev passes : Option String → (String → Bool) → Bool
passes none test = true
passes (some text) test = str_eq text "" || test text

-- `contains` is the database's search of a text within another, in any case.
abbrev pub is_match : (String → String → Bool) → ListQuery → Option ℕ → Cooperative → Bool
is_match contains opts id c =
    elim id [ none ↦ true | some own ↦ is_cooperative own c ]
    && passes opts.county (λ county. str_eq c.county county)
    && passes opts.search (contains c.name)

unfoldable pub list_cooperatives :
    (String → String → Bool) → ListQuery → Option ℕ → M (List Cooperative × ℕ)
list_cooperatives contains opts id = do
  matches ← gets_accounts (λ a. select (is_match contains opts id) a.cooperatives)
  pure (
    page_of opts.page opts.limit (order_desc (λ (c : Cooperative). c.created_at) matches),
    length matches,
  )

unfoldable pub get_cooperative_by_id : ℕ → M Cooperative
get_cooperative_by_id id = do
  found ← gets_accounts (λ a. find? (is_cooperative id) a.cooperatives)
  or_raise found (not_found cooperative_not_found)

-- `prisma.cooperative.update` by the identifier, where the number stays or is no other row's.
unfoldable pub write_cooperative : ℕ → Option String → (Cooperative → Cooperative) → M Cooperative
write_cooperative id number f = do
  found ← gets_accounts (λ a. find? (is_cooperative id) a.cooperatives)
  row ← or_raise found record_not_found
  clash ←
      gets_accounts
        (λ a. any (λ c. not (is_cooperative id c) && is_registered_as number c) a.cooperatives)
  raise_if clash unique_violation
  modify_accounts
      (λ a. record a { cooperatives = update_where (is_cooperative id) f a.cooperatives })
  pure (f row)

abbrev pub patched : CooperativePatch → Cooperative → Cooperative
patched patch c = record c {
  name = or_else patch.name c.name;
  registration_no = or_stay patch.registration_no c.registration_no;
  county = or_else patch.county c.county;
  sub_county = or_stay patch.sub_county c.sub_county;
  contact_email = or_stay patch.contact_email c.contact_email;
  contact_phone = or_stay patch.contact_phone c.contact_phone;
  address = or_stay patch.address c.address;
}

unfoldable pub update_cooperative : ℕ → CooperativePatch → M Cooperative
update_cooperative id patch = do
  get_cooperative_by_id id
  write_cooperative id patch.registration_no (patched patch)

unfoldable pub deactivate_cooperative : ℕ → M Cooperative
deactivate_cooperative id = do
  get_cooperative_by_id id
  write_cooperative id none (λ c. record c { is_active = false })

unfoldable pub create_handler : Env → Caller → CooperativeData → M Cooperative
create_handler env caller body = do
  authorize (super_admin ∷ []) caller
  coop ← create_cooperative env body
  record_audit_log caller create cooperative_row coop.id
  pure coop

-- Only a SUPER_ADMIN browses the whole directory.
unfoldable pub list_handler :
    (String → String → Bool) → Caller → ListQuery → M (List Cooperative × ℕ)
list_handler contains caller query = do
  u ← require_user caller
  scoped_id ← if is_super u then pure none else scope_cooperative_id caller none
  list_cooperatives contains query scoped_id

unfoldable pub get_by_id_handler : Caller → ℕ → M Cooperative
get_by_id_handler caller id = do assert_ownership caller (some id); get_cooperative_by_id id

unfoldable pub update_handler : Caller → ℕ → CooperativePatch → M Cooperative
update_handler caller id body = do
  authorize (super_admin ∷ cooperative_admin ∷ []) caller
  assert_ownership caller (some id)
  coop ← update_cooperative id body
  record_audit_log caller update cooperative_row coop.id
  pure coop

unfoldable pub deactivate_handler : Caller → ℕ → M Cooperative
deactivate_handler caller id = do
  authorize (super_admin ∷ []) caller
  coop ← deactivate_cooperative id
  record_audit_log caller delete cooperative_row coop.id
  pure coop
