-- ===== src/Auth/Naming.antt =====
-- The account that an identifier names (`findByIdentifier`), before and after a write of its row.
use coffee_traceability_back.Prelude.{
  ℕ, ◌≡◌, refl, Option, none, some, List, find?, update_where, inl, inr, Bool-cases,
}
use coffee_traceability_back.Schema.{Text, User, Farmer, Accounts}
use coffee_traceability_back.Errors.{ok, err, record_not_found}
use coffee_traceability_back.World.{World}
use coffee_traceability_back.Identifiers.{
  IdentifierKind, email, phone, farmer_code, classify_identifier, normalize_phone,
}
use coffee_traceability_back.Texts.Chars.{trim, lower, upper}
use coffee_traceability_back.Accounts.{has_id, has_email, has_phone, update_user}
use coffee_traceability_back.Accounts.Lookup.{
  KeepsKeys, written, find_id-written, find_email-written, find_phone-written, find_id-of,
}
use coffee_traceability_back.Auth.{account_by, by_farmer, by_phone, linked_user, has_code}

-- The account that the identifier names in the tables.
abbrev pub account_of : Text → Accounts → Option User
account_of identifier = account_by (classify_identifier (trim identifier)) (trim identifier)

-- The tables with the row of one user rewritten.
abbrev pub rewritten : ℕ → (User → User) → Accounts → Accounts
rewritten id f a = record a { users = update_where (has_id id) f a.users }

module _ (id : ℕ) (f : User → User) (keys : KeepsKeys f) (users : List User) where
  linked_user-written :
      (k : Option ℕ)
      → linked_user k (update_where (has_id id) f users) ≡ written id f (linked_user k users)
  linked_user-written none = refl
  linked_user-written (some k) = find_id-written id f keys k users

  by_farmer-written :
      (row : Option Farmer)
      → by_farmer row (update_where (has_id id) f users) ≡ written id f (by_farmer row users)
  by_farmer-written none = refl
  by_farmer-written (some row) = elim (Bool-cases row.is_deleted) [
    | inl gone ↦ rw gone refl
    | inr there ↦ rw there (linked_user-written row.user_id)
  ]

  by_phone-written :
      (p : Option Text)
      → by_phone p (update_where (has_id id) f users) ≡ written id f (by_phone p users)
  by_phone-written none = refl
  by_phone-written (some p) = find_phone-written id f keys p users

pub account_by-written :
    (id : ℕ) (f : User → User) (keys : KeepsKeys f) (kind : IdentifierKind) (value : Text)
    (a : Accounts)
    → account_by kind value (rewritten id f a) ≡ written id f (account_by kind value a)
account_by-written id f keys email value a = find_email-written id f keys (lower value) a.users
account_by-written id f keys phone value a =
    by_phone-written id f keys a.users (normalize_phone value)
account_by-written id f keys farmer_code value a =
    by_farmer-written id f keys a.users (find? (has_code (upper value)) a.farmers)

abbrev IsThere : ℕ → List User → Type 0
IsThere id users = (v : User) × (find? (has_id id) users ≡ some v)

module _ (users : List User) (u : User) where
  linked_user-IsThere : (k : Option ℕ) → linked_user k users ≡ some u → IsThere u.id users
  linked_user-IsThere none e = absurd cc
  linked_user-IsThere (some k) e = find_id-of (has_id k) users u e

  by_farmer-IsThere : (row : Option Farmer) → by_farmer row users ≡ some u → IsThere u.id users
  by_farmer-IsThere none e = absurd cc
  by_farmer-IsThere (some row) e = elim (Bool-cases row.is_deleted) [
    | inl gone ↦ (let e2 = rw gone at e in absurd cc)
    | inr there ↦ linked_user-IsThere row.user_id (rw there at e)
  ]

  by_phone-IsThere : (p : Option Text) → by_phone p users ≡ some u → IsThere u.id users
  by_phone-IsThere none e = absurd cc
  by_phone-IsThere (some p) e = find_id-of (has_phone p) users u e

-- The account has a row under its identifier.
pub account_by-IsThere :
    (kind : IdentifierKind) (value : Text) (a : Accounts) (u : User)
    → account_by kind value a ≡ some u
    → IsThere u.id a.users
account_by-IsThere email value a u e = find_id-of (has_email (lower value)) a.users u e
account_by-IsThere phone value a u e = by_phone-IsThere a.users u (normalize_phone value) e
account_by-IsThere farmer_code value a u e =
    by_farmer-IsThere a.users u (find? (has_code (upper value)) a.farmers) e

-- The write of a row that is there.
pub update_user_lem :
    (id : ℕ) (f : User → User) (w : World) (v : User)
    → find? (has_id id) w.db.accounts.users ≡ some v
    → update_user id f w
      ≡ (ok (f v), record w { db = record w.db { accounts = rewritten id f w.db.accounts } })
unfolding update_user
update_user_lem id f w v e = rw e refl

pub update_user-missing :
    (id : ℕ) (f : User → User) (w : World)
    → find? (has_id id) w.db.accounts.users ≡ none
    → update_user id f w ≡ (err record_not_found, w)
unfolding update_user
update_user-missing id f w e = rw e refl
