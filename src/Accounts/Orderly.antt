-- ===== src/Accounts/Orderly.antt =====
-- Tables of users in which an email and a phone number name one account at most, and no count of
-- failed logins has come to the limit.
use coffee_traceability_back.Prelude.{
  ℕ, ◌<◌, ◌≡◌, refl, false, Option, none, some, List, [], ◌∷◌, update_where, any-update_where, inl,
  inr, Bool-cases, All, All-update_where, arith,
}
use coffee_traceability_back.Schema.{Text, User}
use coffee_traceability_back.World.{Env}
use coffee_traceability_back.World.Keeps.{Keeps}
use coffee_traceability_back.Accounts.{
  UserData, has_id, has_email, has_phone, taken_by, violates, create_user, update_user,
}
use coffee_traceability_back.Accounts.Effects.{OfUsers, create_user-Keeps, update_user-Keeps}
use coffee_traceability_back.Accounts.Lookup.{KeepsKeys}

-- No later row has the email or the phone number of a row.
abbrev pub IsKeyed : List User → Type 0
IsKeyed [] = Unit
IsKeyed (u ∷ us) = (violates u.email u.phone_number us ≡ false) × IsKeyed us

abbrev pub IsBelowLimit : User → Type 0
IsBelowLimit u = u.failed_login_count < 5

pub record IsOrderly (users : List User) : Type 0 where
  pub keyed : IsKeyed users
  pub below : All IsBelowLimit users

module _ (id : ℕ) (f : User → User) (keys : KeepsKeys f) where
  emails-written :
      (e : Option Text) (users : List User)
      → taken_by has_email e (update_where (has_id id) f users) ≡ taken_by has_email e users
  emails-written none users = refl
  emails-written (some e) users =
      any-update_where (has_email e) (has_id id) f users (λ u. rw (keys.email u) refl)

  phones-written :
      (p : Option Text) (users : List User)
      → taken_by has_phone p (update_where (has_id id) f users) ≡ taken_by has_phone p users
  phones-written none users = refl
  phones-written (some p) users =
      any-update_where (has_phone p) (has_id id) f users (λ u. rw (keys.phone_number u) refl)

  violates-written :
      (e p : Option Text) (users : List User)
      → violates e p (update_where (has_id id) f users) ≡ violates e p users
  violates-written e p users = rw (emails-written e users, phones-written p users) refl

  IsKeyed-written : (users : List User) → IsKeyed users → IsKeyed (update_where (has_id id) f users)
  IsKeyed-written [] h = tt
  IsKeyed-written (u ∷ us) h = (
    rw (violates-written _ _ us) (elim (Bool-cases (has_id id u)) [
      | inl hit ↦ rw (hit, keys.email u, keys.phone_number u) h.0
      | inr miss ↦ rw miss h.0
    ]),
    IsKeyed-written us h.1,
  )

pub IsOrderly-update :
    (id : ℕ) (f : User → User)
    → KeepsKeys f
    → ((u : User) → IsBelowLimit u → IsBelowLimit (f u))
    → Keeps (OfUsers IsOrderly) (update_user id f)
IsOrderly-update id f keys bound = update_user-Keeps id f λ users h. record {
  keyed = IsKeyed-written id f keys users h.keyed;
  below =
      All-update_where IsBelowLimit IsBelowLimit (has_id id) f users (λ u e. bound u) (λ u e b. b)
        h.below;
}

pub IsOrderly-create :
    (env : Env) (data_ : UserData) → Keeps (OfUsers IsOrderly) (create_user env data_)
IsOrderly-create env data_ =
    create_user-Keeps env data_
      λ users id now free h. record { keyed = (free, h.keyed); below = (omega arith, h.below) }
