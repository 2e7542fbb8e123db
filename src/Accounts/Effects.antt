-- ===== src/Accounts/Effects.antt =====
-- The writes to the tables of users and farmers.
use coffee_traceability_back.Prelude.{
  ℕ, ◌≡◌, false, Option, List, ◌∷◌, update_where, inl, inr, Bool-cases, Option-cases, find?, any,
}
use coffee_traceability_back.Schema.{Text, User, Farmer}
use coffee_traceability_back.World.{Env, Db}
use coffee_traceability_back.World.Keeps.{Keeps}
use coffee_traceability_back.Audit.Effects.{IsUnlogged}
use coffee_traceability_back.EntityCode.Effects.{IsUncounted}
use coffee_traceability_back.Notifications.Effects.{IsBlind}
use coffee_traceability_back.Accounts.{
  UserData, FarmerData, has_id, violates, new_user, create_user, update_user, update_farmer_row,
  create_farmer_row, is_farmer_row, clashes,
}

-- A property of the table of users.
pub record OfUsers (Q : List User → Type 0) (d : Db) : Type 0 where
  pub holds : Q d.accounts.users

pub OfUsers-unlogged : {Q : List User → Type 0} → IsUnlogged (OfUsers Q)
OfUsers-unlogged = record { audit_log = λ d rows h. record { holds = h.holds } }

pub OfUsers-blind : {Q : List User → Type 0} → IsBlind (OfUsers Q)
OfUsers-blind = record { inbox = λ d rows h. record { holds = h.holds } }

pub OfUsers-uncounted : {Q : List User → Type 0} → IsUncounted (OfUsers Q)
OfUsers-uncounted = record { counters = λ d rows h. record { holds = h.holds } }

module _ {Q : List User → Type 0} where
  pub create_user-Keeps :
      (env : Env) (data_ : UserData)
      → ((users : List User) (id now : ℕ)
          → violates data_.email data_.phone_number users ≡ false
          → Q users
          → Q (new_user id now data_ ∷ users))
      → Keeps (OfUsers Q) (create_user env data_)
  unfolding create_user
  create_user-Keeps env data_ add = record {
    at = λ w h. elim (Bool-cases (violates data_.email data_.phone_number w.db.accounts.users)) [
      | inl clash ↦ rw clash h
      | inr free ↦ rw free (record { holds = add w.db.accounts.users _ _ free h.holds })
    ];
  }

  pub update_user-Keeps :
      (id : ℕ) (f : User → User)
      → ((users : List User) → Q users → Q (update_where (has_id id) f users))
      → Keeps (OfUsers Q) (update_user id f)
  unfolding update_user
  update_user-Keeps id f write = record {
    at = λ w h. elim (Option-cases (find? (has_id id) w.db.accounts.users)) [
      | inl missing ↦ rw missing h
      | inr found ↦ rw (found.1) (record { holds = write w.db.accounts.users h.holds })
    ];
  }

  pub update_farmer_row-Keeps :
      (id : ℕ) (f : Farmer → Farmer) → Keeps (OfUsers Q) (update_farmer_row id f)
  unfolding update_farmer_row
  update_farmer_row-Keeps id f = record {
    at = λ w h. elim (Option-cases (find? (is_farmer_row id) w.db.accounts.farmers)) [
      | inl missing ↦ rw missing h
      | inr found ↦ rw (found.1) (record { holds = h.holds })
    ];
  }

  pub create_farmer_row-Keeps :
      (env : Env) (code : Text) (user_id : Option ℕ) (phone : Option Text) (data_ : FarmerData)
      → Keeps (OfUsers Q) (create_farmer_row env code user_id phone data_)
  unfolding create_farmer_row
  create_farmer_row-Keeps env code user_id phone data_ = record {
    at = λ w h.
        elim (Bool-cases (any (clashes code user_id data_.national_id) w.db.accounts.farmers)) [
          | inl clash ↦ rw clash h
          | inr free ↦ rw free (record { holds = h.holds })
        ];
  }
