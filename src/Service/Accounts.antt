-- ===== src/Service/Accounts.antt =====
-- The requests that change users and farmers, as one type, and their dispatch to the handlers of
-- modules/auth, modules/users and modules/farmers.
use coffee_traceability_back.Prelude.{ℕ, Bool, Option, List, [], ◌∷◌}
use coffee_traceability_back.Schema.{Text, UserStatus}
use coffee_traceability_back.World.{Env, World}
use coffee_traceability_back.Scope.{Caller}
use coffee_traceability_back.Credentials.{Crypto}
use coffee_traceability_back.Accounts.{FarmerData}
use coffee_traceability_back.Accounts.Effects.{OfUsers}
use coffee_traceability_back.Accounts.Orderly.{IsOrderly}
use coffee_traceability_back.Auth.{
  RegisterInput, register_handler, login_handler, refresh, change_password_handler, logout_handler,
}
use coffee_traceability_back.Auth.Effects.{
  register_handler-IsOrderly, login_handler-IsOrderly, refresh-IsOrderly,
  change_password_handler-IsOrderly, logout_handler-IsOrderly,
}
use coffee_traceability_back.Users.{update_status_handler, maintenance_access_handler}
use coffee_traceability_back.Users.Effects.{
  update_status_handler-IsOrderly, maintenance_access_handler-IsOrderly,
}
use coffee_traceability_back.Farmers.{FarmerPatch}
use coffee_traceability_back.Farmers.Serving.{
  create_handler, update_handler, delete_handler, create_account_handler, reset_password_handler,
}
use coffee_traceability_back.Farmers.Effects.{
  create_handler-IsOrderly, update_handler-IsOrderly, delete_handler-IsOrderly,
  create_account_handler-IsOrderly, reset_password_handler-IsOrderly,
}

pub data AccountRequest : Type 0 where
  enrol : Caller → RegisterInput → AccountRequest
  sign_in : Caller → Text → Text → AccountRequest
  renew : Text → AccountRequest
  new_password : Caller → Text → Text → AccountRequest
  sign_out : Caller → AccountRequest
  set_status : Caller → ℕ → UserStatus → AccountRequest
  set_access : Caller → ℕ → Bool → AccountRequest
  add_farmer : Caller → Bool → FarmerData → Option Text → AccountRequest
  change_farmer : Caller → ℕ → FarmerPatch → AccountRequest
  remove_farmer : Caller → ℕ → AccountRequest
  issue_login : Caller → ℕ → Option Text → AccountRequest
  reset_login : Caller → ℕ → AccountRequest

module _ (env : Env) (crypto : Crypto) where
  pub answer : AccountRequest → World → World
  answer (enrol caller input) w = (register_handler env crypto caller input w).1
  answer (sign_in caller id password) w = (login_handler env crypto caller id password w).1
  answer (renew token) w = (refresh env crypto token w).1
  answer (new_password caller old new) w = (change_password_handler env crypto caller old new w).1
  answer (sign_out caller) w = (logout_handler caller w).1
  answer (set_status caller id status) w = (update_status_handler env caller id status w).1
  answer (set_access caller id allowed) w = (maintenance_access_handler env caller id allowed w).1
  answer (add_farmer caller login data_ email) w =
      (create_handler env crypto caller login data_ email w).1
  answer (change_farmer caller id patch) w = (update_handler env caller id patch w).1
  answer (remove_farmer caller id) w = (delete_handler env caller id w).1
  answer (issue_login caller id email) w = (create_account_handler env crypto caller id email w).1
  answer (reset_login caller id) w = (reset_password_handler env crypto caller id w).1

  -- The world after any number of requests, in their order.
  abbrev pub answer_all : List AccountRequest → World → World
  answer_all [] w = w
  answer_all (r ∷ rs) w = answer_all rs (answer r w)

  abbrev IsInOrder : World → Type 0
  IsInOrder w = OfUsers IsOrderly w.db

  answer-IsOrderly : (r : AccountRequest) (w : World) → IsInOrder w → IsInOrder (answer r w)
  unfolding answer
  answer-IsOrderly (enrol caller input) w h =
      (register_handler-IsOrderly env crypto caller input).at w h
  answer-IsOrderly (sign_in caller id password) w h =
      (login_handler-IsOrderly env crypto caller id password).at w h
  answer-IsOrderly (renew token) w h = (refresh-IsOrderly env crypto token).at w h
  answer-IsOrderly (new_password caller old new) w h =
      (change_password_handler-IsOrderly env crypto caller old new).at w h
  answer-IsOrderly (sign_out caller) w h = (logout_handler-IsOrderly caller).at w h
  answer-IsOrderly (set_status caller id status) w h =
      (update_status_handler-IsOrderly env caller id status).at w h
  answer-IsOrderly (set_access caller id allowed) w h =
      (maintenance_access_handler-IsOrderly env caller id allowed).at w h
  answer-IsOrderly (add_farmer caller login data_ email) w h =
      (create_handler-IsOrderly env crypto caller login data_ email).at w h
  answer-IsOrderly (change_farmer caller id patch) w h =
      (update_handler-IsOrderly env caller id patch).at w h
  answer-IsOrderly (remove_farmer caller id) w h = (delete_handler-IsOrderly env caller id).at w h
  answer-IsOrderly (issue_login caller id email) w h =
      (create_account_handler-IsOrderly env crypto caller id email).at w h
  answer-IsOrderly (reset_login caller id) w h =
      (reset_password_handler-IsOrderly env crypto caller id).at w h

  all-IsOrderly : (rs : List AccountRequest) (w : World) → IsInOrder w → IsInOrder (answer_all rs w)
  all-IsOrderly [] w h = h
  all-IsOrderly (r ∷ rs) w h = all-IsOrderly rs (answer r w) (answer-IsOrderly r w h)

  -- From an orderly table of users, the table is orderly after any history of registrations, logins,
  -- renewals, changes of password, status or access, and of farmers registered, changed, removed or
  -- given logins, whether answered or refused: no two users have one email (in any case) or one phone
  -- number, and every count of failed logins is below five.
  pub answer_all-IsOrderly :
      (rs : List AccountRequest) (w : World)
      → IsOrderly w.db.accounts.users
      → IsOrderly (answer_all rs w).db.accounts.users
  answer_all-IsOrderly rs w h = (all-IsOrderly rs w (record { holds = h })).holds
