-- ===== src/Tests/People.antt =====
-- The theorems about accounts at concrete inputs.
use coffee_traceability_back.Prelude.{
  ℕ, ◌+◌, ◌≡◌, ◌≢◌, refl, true, false, if◌then◌else◌, some, none, List, [], ◌∷◌, ◌++◌, length,
  find?, arith,
}
use coffee_traceability_back.Schema.{Text, User, Farmer, UserStatus, suspended, cooperative_staff}
use coffee_traceability_back.Errors.{ok, err, forbidden, account_locked}
use coffee_traceability_back.Texts.{codes, same_text_refl}
use coffee_traceability_back.World.{World, SystemStatus, with_transaction, when_some}
use coffee_traceability_back.World.Keeps.{Keeps}
use coffee_traceability_back.World.Returns.{Returns, IfOk}
use coffee_traceability_back.Scope.{Caller}
use coffee_traceability_back.Samples.{env, crypto, farmer_user, farmer_row, peopled, coop_admin}
use coffee_traceability_back.Accounts.{FarmerData, has_id, update_user, update_farmer_row}
use coffee_traceability_back.Accounts.Effects.{OfUsers}
use coffee_traceability_back.Accounts.Orderly.{IsOrderly}
use coffee_traceability_back.Auth.{
  is_future, RegisterInput, Session, register_handler, login, refresh, change_password, logout,
}
use coffee_traceability_back.Auth.Lockout.{try_all, login-failures}
use coffee_traceability_back.Auth.Rotation.{refresh-rotates, change_password-settles, IsSettled}
use coffee_traceability_back.Auth.Ending.{renew_all, logout-ends}
use coffee_traceability_back.Auth.Recovery.{IsSignedIn, login-IsSignedIn}
use coffee_traceability_back.Auth.Middleware.{get, protect}
use coffee_traceability_back.Auth.Guards.{IsAdmitted, protect-IsAdmitted}
use coffee_traceability_back.EntityCode.{entity_code, pad_start, decimal}
use coffee_traceability_back.EntityCode.Numerals.{entity_code-injective}
use coffee_traceability_back.Auth.Granting.{IsEnrolled, ArePrivileged, register_handler-IsEnrolled}
use coffee_traceability_back.Credentials.{
  generate_temporary_password, verify_refresh_token, sign_access_token, sign_refresh_token,
  hash_password,
}
use coffee_traceability_back.Credentials.Temporary.{IsRun, generate_temporary_password-IsRun}
use coffee_traceability_back.Farmers.{
  create_farmer_with_account, soft_delete_farmer, get_farmer_by_id,
}
use coffee_traceability_back.Farmers.Granting.{Issue, create_farmer_with_account-Issue}
use coffee_traceability_back.Farmers.Removal.{soft_delete-login}
use coffee_traceability_back.Identifiers.{normalize_phone, classify_identifier, international}
use coffee_traceability_back.Identifiers.Phones.{
  plus_coded, normalize_phone-spell, normalize_phone-canonical,
}
use coffee_traceability_back.System.{
  get_status, maintenance_gate, set_maintenance, maintenance_error,
}
use coffee_traceability_back.System.Switch.{passes, maintenance_gate-set_maintenance}
use coffee_traceability_back.Auth.Suspension.{refresh-update_user_status}
use coffee_traceability_back.Users.{
  update_user_status, update_status_handler, maintenance_access_handler,
}
use coffee_traceability_back.Users.Scoping.{IsRefused, handlers-IsRefused}
use coffee_traceability_back.Service.Accounts.{
  AccountRequest, sign_in, enrol, answer_all, answer_all-IsOrderly,
}

abbrev anonymous : Caller
anonymous = record { user = none; farmer_id = none }

abbrev manager : Caller
manager = record { user = some coop_admin; farmer_id = none }

abbrev newcomer : RegisterInput
newcomer = record {
  email = codes "c@d";
  password = codes "Secret";
  first_name = "Carl";
  last_name = "D";
  phone_number = none;
  role = cooperative_staff;
  cooperative_id = none;
}

abbrev requests : List AccountRequest
requests = sign_in anonymous (codes "a@b") (codes "no") ∷ enrol manager newcomer ∷ []

answer_all-IsOrderly_example :
    IsOrderly (answer_all env crypto requests (peopled 4)).db.accounts.users
answer_all-IsOrderly_example =
    answer_all-IsOrderly env crypto requests (peopled 4)
      (record { keyed = (refl, tt); below = (omega arith, tt) })

login-failures_example :
    (login env crypto
      (codes "a@b")
      (codes "pw")
      (try_all env crypto (codes "a@b") (codes "x" ∷ codes "y" ∷ []) (peopled 3))).0
    ≡ err (forbidden account_locked)
unfolding classify_identifier
login-failures_example =
    login-failures env crypto (codes "a@b") (codes "x" ∷ codes "y" ∷ []) (codes "pw") (peopled 3)
      (farmer_user 3) (record { named = refl; there = refl; unlocked = refl; may = refl })
      (refl, (refl, tt)) (omega arith) refl (omega arith)

-- The token of the farmer's session, and those issued after it.
abbrev first_token : Text
first_token = 20 ∷ 1 ∷ []

abbrev renewed : ℕ → Session
renewed k = record {
  access_token = 20 ∷ 1_001 ∷ [];
  refresh_token = 20 ∷ 100 ∷ 1_002 ∷ [];
  must_change_password = true;
  user = none;
}

refresh-rotates_example : env.sha256 (20 ∷ 100 ∷ 1_002 ∷ []) ≡ env.sha256 (20 ∷ 100 ∷ 1_002 ∷ [])
unfolding refresh verify_refresh_token sign_access_token sign_refresh_token update_user
refresh-rotates_example =
    refresh-rotates env crypto first_token (20 ∷ 100 ∷ 1_002 ∷ []) (peopled 0)
      (refresh env crypto first_token (peopled 0)).1 _ (renewed 0) _ refl refl refl

abbrev changed : World
changed = (change_password env crypto 20 (codes "pw") (codes "PW") (peopled 0)).1

abbrev chosen : Session
chosen = record {
  access_token = 20 ∷ 1_002 ∷ [];
  refresh_token = 20 ∷ 101 ∷ 1_000 ∷ [];
  must_change_password = false;
  user = none;
}

change_password-settles_example :
    ((u : User) × (find? (has_id 20) changed.db.accounts.users ≡ some u)
      × IsSettled env crypto (codes "PW") chosen u)
    × ¬ (
        (t' : Text) × (s' : Session) × (w'' : World) × (crypto.verify_refresh t'
            (env.clock changed.reads)
          ≡ some 20)
        × (refresh env crypto t' changed ≡ (ok s', w''))
        × (env.sha256 t' ≢ env.sha256 chosen.refresh_token))
unfolding change_password refresh hash_password verify_refresh_token sign_access_token
    sign_refresh_token update_user
change_password-settles_example =
    change_password-settles env crypto (λ plain salt. same_text_refl plain) 20 (codes "pw")
      (codes "PW") (peopled 0) changed chosen refl

-- The token that was signed out has been tried before.
abbrev signed_out : World
signed_out = renew_all env crypto (first_token ∷ []) (logout 20 (peopled 0)).1

logout-ends_example :
    refresh env crypto first_token signed_out ≢ (ok (renewed 0), (logout 20 (peopled 0)).1)
unfolding logout update_user refresh verify_refresh_token sign_access_token sign_refresh_token
logout-ends_example =
    logout-ends env crypto 20 (first_token ∷ []) first_token (peopled 0) (logout 20 (peopled 0)).1 _
      (renewed 0) refl refl

register_handler-IsEnrolled_example :
    Returns (IsEnrolled coop_admin newcomer) (register_handler env crypto manager newcomer)
    × Keeps (OfUsers (ArePrivileged [])) (register_handler env crypto manager newcomer)
register_handler-IsEnrolled_example =
    register_handler-IsEnrolled env crypto newcomer manager coop_admin [] refl refl

abbrev neighbour : FarmerData
neighbour = record {
  cooperative_id = 7;
  first_name = "Dan";
  last_name = "E";
  national_id = none;
  phone_number = none;
  farm_location = none;
}

create_farmer_with_account_example :
    Issue env crypto neighbour
      (peopled 0)
      (create_farmer_with_account env crypto neighbour none (peopled 0))
create_farmer_with_account_example =
    create_farmer_with_account-Issue env crypto neighbour (λ plain salt. same_text_refl plain) none
      (peopled 0)

abbrev after_removal : World
after_removal = (soft_delete_farmer 11 (peopled 0)).1

abbrev gone_row : Farmer
gone_row = record farmer_row { is_deleted = true; is_active = false }

abbrev gone_user : User
gone_user = record (farmer_user 0) { status = UserStatus.deactivated; refresh_token_hash = none }

soft_delete-login_example :
    (login env crypto (codes "a@b") (codes "pw") after_removal).0 ≢ ok (renewed 0)
unfolding soft_delete_farmer get_farmer_by_id update_user update_farmer_row with_transaction
    when_some classify_identifier
soft_delete-login_example =
    soft_delete-login env crypto 11 20 farmer_row gone_row (peopled 0) after_removal (codes "a@b")
      (codes "pw") gone_user (renewed 0) refl refl refl refl refl

maintenance_gate_example :
    (maintenance_gate env manager (set_maintenance true none 9 (peopled 0)).1).0
    ≡ (if passes true coop_admin (peopled 0).db.accounts then ok tt else err maintenance_error)
maintenance_gate_example =
    maintenance_gate-set_maintenance env true none 9 (peopled 0) manager coop_admin refl refl

handlers-IsRefused_example :
    IsRefused (peopled 0) (update_status_handler env manager 20 suspended (peopled 0))
    × IsRefused (peopled 0) (maintenance_access_handler env manager 20 true (peopled 0))
handlers-IsRefused_example =
    handlers-IsRefused env manager coop_admin 20 (farmer_user 0) (peopled 0) refl refl refl refl
      suspended true

normalize_phone-spell_example :
    normalize_phone (codes "+254 (712) 345-678") ≡ some (international (codes "712345678"))
normalize_phone-spell_example =
    normalize_phone-spell plus_coded (codes "712345678") (codes "+254 (712) 345-678") refl refl

normalize_phone-canonical_example :
    (length (codes "+254712345678") ≡ 13)
    × (normalize_phone (codes "+254712345678") ≡ some (codes "+254712345678"))
unfolding normalize_phone
normalize_phone-canonical_example =
    normalize_phone-canonical (codes "0712 345 678") (codes "+254712345678") refl

generate_temporary_password_example :
    (a b c : Text) × ((generate_temporary_password crypto (peopled 0)).0
      ≡ ok (a ++ b'-' ∷ (b ++ b'-' ∷ c)))
    × IsRun 4 a
    × IsRun 4 b
    × IsRun 4 c
generate_temporary_password_example =
    generate_temporary_password-IsRun crypto (λ max i positive. positive) (peopled 0)

refresh-update_user_status_example :
    (refresh env crypto first_token (update_user_status 20 suspended (peopled 0)).1).0
    ≡ ok (renewed 0)
unfolding refresh verify_refresh_token sign_access_token sign_refresh_token update_user
    update_user_status
refresh-update_user_status_example =
    refresh-update_user_status env crypto first_token (peopled 0)
      (update_user_status 20 suspended (peopled 0)).1 (renewed 0) 20 suspended
      (record (farmer_user 0) { status = suspended }) refl refl

-- The farmer, with a password of their own, after a lock that ended at the time 900.
abbrev unlocked_user : User
unlocked_user = record (farmer_user 0) { locked_until = some 900; must_change_password = false }

abbrev after_lock : World
after_lock = record (peopled 0) {
  db = record (peopled 0).db {
    accounts = record (peopled 0).db.accounts { users = unlocked_user ∷ [] };
  };
}

abbrev switched_off : SystemStatus
switched_off = record { maintenance_mode = false; maintenance_message = none }

login-IsSignedIn_example :
    IsSignedIn env crypto unlocked_user (login env crypto (codes "a@b") (codes "pw") after_lock)
unfolding classify_identifier get_status is_future
login-IsSignedIn_example =
    login-IsSignedIn env crypto (codes "a@b") (codes "pw") after_lock unlocked_user switched_off
      refl refl refl refl refl refl refl refl

protect-IsAdmitted_example :
    IfOk
      (IsAdmitted crypto (some (codes "Bearer x")) get (codes "/api/farmers") 1_000)
      (protect env crypto (some (codes "Bearer x")) get (codes "/api/farmers") (peopled 0)).0
protect-IsAdmitted_example =
    protect-IsAdmitted env crypto (some (codes "Bearer x")) get (codes "/api/farmers") (peopled 0)

entity_code-injective_example : 3 + 4 ≡ 7
unfolding entity_code pad_start decimal
entity_code-injective_example = entity_code-injective (codes "FARM") 2026 5 (3 + 4) 7 refl
