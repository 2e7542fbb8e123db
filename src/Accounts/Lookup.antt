-- ===== src/Accounts/Lookup.antt =====
-- Lookups after a write of other columns.
use coffee_traceability_back.Prelude.{
  ℕ, ◌≡◌, refl, Bool, Option, none, some, List, [], ◌∷◌, if◌then◌else◌, find?, update_where, inl,
  inr, Bool-cases, arith, ==_refl,
}
use coffee_traceability_back.Schema.{Text, User}
use coffee_traceability_back.Accounts.{has_id, has_email, has_phone}

-- A write that leaves the columns that lookups test.
pub record KeepsKeys (f : User → User) : Type 0 where
  pub id : (u : User) → (f u).id ≡ u.id
  pub email : (u : User) → (f u).email ≡ u.email
  pub phone_number : (u : User) → (f u).phone_number ≡ u.phone_number

-- What a write to the row `id` makes of the row that a lookup has found.
abbrev pub written : ℕ → (User → User) → Option User → Option User
written id f none = none
written id f (some u) = some (if has_id id u then f u else u)

module _ (id : ℕ) (f : User → User) (keys : KeepsKeys f) where
  pub find_id-written :
      (k : ℕ) (users : List User)
      → find? (has_id k) (update_where (has_id id) f users) ≡ written id f (find? (has_id k) users)
  find_id-written k [] = refl
  find_id-written k (u ∷ us) = ground (arith, keys.id u, find_id-written k us)

  pub find_email-written :
      (e : Text) (users : List User)
      → find? (has_email e) (update_where (has_id id) f users)
        ≡ written id f (find? (has_email e) users)
  find_email-written e [] = refl
  find_email-written e (u ∷ us) = ground (arith, keys.email u, find_email-written e us)

  pub find_phone-written :
      (p : Text) (users : List User)
      → find? (has_phone p) (update_where (has_id id) f users)
        ≡ written id f (find? (has_phone p) users)
  find_phone-written p [] = refl
  find_phone-written p (u ∷ us) = ground (arith, keys.phone_number u, find_phone-written p us)

-- A row that some lookup has found is found by its identifier, which may be that of a row before.
pub find_id-of :
    (p : User → Bool) (users : List User) (u : User)
    → find? p users ≡ some u
    → (v : User) × (find? (has_id u.id) users ≡ some v)
find_id-of p [] u found = absurd cc
find_id-of p (x ∷ xs) u found = elim (Bool-cases (has_id u.id x)) [
  | inl same ↦ rw same (x, refl)
  | inr other ↦ rw other (
      find_id-of p xs u (elim (Bool-cases (p x)) [
        | inl here ↦ ground (arith, here, ==_refl u.id)
        | inr there ↦ rw there at found
      ]))
]
