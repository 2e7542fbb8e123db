-- ===== src/Samples.antt =====
-- A small cooperative for the tests: one batch with one delivery, one warehouse and one pending sale.
use coffee_traceability_back.Prelude.{
  ℕ, ◌+◌, ◌==◌, ltb, refl, none, some, false, true, [], ◌∷◌, List, Option, arith,
}
use coffee_traceability_back.Schema.{
  BatchStatus, processed, sold, CoffeeBatch, Delivery, ProcessingRecord, Warehouse,
  OwnershipTransfer, Trade, TransferStatus, washed, cooperative, super_admin, cooperative_staff,
  cooperative_admin, farmer, User, UserStatus, Farmer, Cooperative,
}
use coffee_traceability_back.Texts.{codes, same_text}
use coffee_traceability_back.Credentials.{Crypto}
use coffee_traceability_back.World.{Env, World}
use coffee_traceability_back.Scope.{AuthUser, Caller}
use coffee_traceability_back.Custody.{IsSound}

abbrev pub env : Env
env = record {
  clock = λ k. 1_000 + k;
  uuid = λ k. 100 + k;
  full_year = λ date. 2026;
  sha256 = λ text. b'h' ∷ text;
  tie_of_newest = λ a b. ltb a b;
  rounds_up = λ id value. id == 3;
  tie_of_all = λ a b. ltb b a;
  stringify = λ payload. [];
  to_iso = λ date. date ∷ [];
  show_id = λ id. id ∷ [];
  ledger_enabled = false;
  outage = λ k. false;
}

abbrev pub batch : BatchStatus → CoffeeBatch
batch s = record {
  id = 1;
  batch_code = [];
  cooperative_id = 7;
  status = s;
  total_weight_kg = 500;
  origin_region = none;
  harvest_season = none;
  qr_code_token = 50;
  is_deleted = false;
  created_at = 900;
}

abbrev pub delivery : ℕ → Option ℕ → Delivery
delivery id into = record {
  id = id;
  delivery_code = [];
  farmer_id = 11;
  cooperative_id = 7;
  weight_kg = 500;
  quality_grade = none;
  moisture_level = none;
  price_per_kg = none;
  delivery_date = 800;
  notes = none;
  batch_id = into;
  created_at = 800;
}

abbrev run : ProcessingRecord
run = record {
  id = 3;
  batch_id = 1;
  method = washed;
  processed_by_id = none;
  start_date = 950;
  end_date = none;
  output_weight_kg = none;
  quality_notes = none;
  created_at = 960;
}

abbrev pub warehouse : Warehouse
warehouse = record {
  id = 4;
  cooperative_id = 7;
  name = "Main";
  location = none;
  capacity_kg = some 600;
}

abbrev pub transfer : ℕ → TransferStatus → OwnershipTransfer
transfer id s = record {
  id = id;
  batch_id = 1;
  from_entity_type = cooperative;
  from_entity_id = 7;
  buyer_id = none;
  initiated_by_id = none;
  sale_price_per_kg = none;
  status = s;
  transferred_at = 960;
}

abbrev trade : BatchStatus → List OwnershipTransfer → Trade
trade s transfers = record {
  batches = batch s ∷ [];
  deliveries = delivery 2 (some 1) ∷ delivery 6 none ∷ [];
  processing_records = run ∷ [];
  warehouses = warehouse ∷ [];
  inventory = [];
  transfers = transfers;
  groups = [];
}

abbrev pub world : BatchStatus → List OwnershipTransfer → World
world s transfers = record {
  db = record {
    trade = trade s transfers;
    accounts = record { cooperatives = []; buyers = []; farmers = []; users = [] };
    ledger = [];
    inbox = [];
    audit_log = [];
    counters = [];
    role_permissions = [];
    setting = none;
    qr_verifications = [];
  };
  reads = 0;
  drawn = 0;
  inserts = 0;
  permission_cache = none;
  setting_cache = none;
  access_cache = [];
}

abbrev pub admin : Caller
admin = record {
  user =
      some (record {
        id = 9;
        role = super_admin;
        cooperative_id = none;
        must_change_password = false;
      });
  farmer_id = none;
}

-- The processed batch, not yet stored, with a sale that waits for its confirmation.
abbrev pub stocked : World
stocked = world processed (transfer 5 TransferStatus.pending ∷ [])

-- The batch after its sale, with a second transfer that is still open.
abbrev pub sold_once : World
sold_once =
    world sold (transfer 8 TransferStatus.pending ∷ transfer 5 TransferStatus.confirmed ∷ [])

pub stocked-IsSound : IsSound stocked.db.trade
stocked-IsSound = record {
  unique = (refl, tt);
  stored = tt;
  single = tt;
  capacity = λ id x c found cap. omega arith;
  covered = tt;
  processed = ((λ claims. refl), tt);
  sales = ((λ claims. absurd cc), tt);
  totals = (refl, tt);
  unique_deliveries = (refl, (refl, tt));
}

pub sold_once-IsSound : IsSound sold_once.db.trade
sold_once-IsSound = record {
  unique = (refl, tt);
  stored = tt;
  single = tt;
  capacity = λ id x c found cap. omega arith;
  covered = tt;
  processed = ((λ claims. refl), tt);
  sales = ((λ claims. refl), tt);
  totals = (refl, tt);
  unique_deliveries = (refl, (refl, tt));
}

abbrev staff_user : ℕ → AuthUser
staff_user cooperative_id = record {
  id = 10;
  role = cooperative_staff;
  cooperative_id = some cooperative_id;
  must_change_password = false;
}

-- A member of the staff of a cooperative.
abbrev pub staff_of : ℕ → Caller
staff_of cooperative_id = record { user = some (staff_user cooperative_id); farmer_id = none }

-- A bcrypt that keeps the password as it is, and tokens that say what they were signed for.
abbrev pub crypto : Crypto
crypto = record {
  hash = λ plain salt. plain;
  compare = λ plain hash. same_text plain hash;
  sign_access = λ claims now. claims.sub ∷ now ∷ [];
  verify_access = λ token now.
      some
        (record { sub = 20; role = farmer; cooperative_id = some 7; must_change_password = false });
  sign_refresh = λ user jti now. user ∷ jti ∷ now ∷ [];
  verify_refresh = λ token now. elim token [ [] ↦ none | user ∷ rest ↦ some user ];
  random_int = λ max i. 0;
}

-- A farmer's login, with the password `pw` and a session whose token is `20 ∷ 1 ∷ []`.
abbrev pub farmer_user : ℕ → User
farmer_user failed = record {
  id = 20;
  email = some (codes "a@b");
  phone_number = none;
  password_hash = codes "pw";
  first_name = "Ann";
  last_name = "B";
  role = farmer;
  status = UserStatus.active;
  cooperative_id = some 7;
  last_login_at = none;
  failed_login_count = failed;
  locked_until = none;
  refresh_token_hash = some (b'h' ∷ 20 ∷ 1 ∷ []);
  maintenance_allowed = false;
  is_deleted = false;
  must_change_password = true;
  password_changed_at = none;
  temporary_password_expires_at = some 5_000;
  created_at = 100;
}

abbrev pub farmer_row : Farmer
farmer_row = record {
  id = 11;
  user_id = some 20;
  cooperative_id = 7;
  farmer_code = codes "FARM-2026-00001";
  first_name = "Ann";
  last_name = "B";
  national_id = none;
  phone_number = none;
  farm_location = none;
  is_active = true;
  is_deleted = false;
  created_at = 100;
}

abbrev society : Cooperative
society = record {
  id = 7;
  name = "Society";
  registration_no = some "CS-7";
  county = "Nyeri";
  sub_county = none;
  contact_email = none;
  contact_phone = none;
  address = none;
  is_active = true;
  created_at = 1;
}

-- The cooperative with one farmer, who has a login.
abbrev pub peopled : ℕ → World
peopled failed = record (world processed []) {
  db = record (world processed []).db {
    accounts = record {
      cooperatives = society ∷ [];
      buyers = [];
      farmers = farmer_row ∷ [];
      users = farmer_user failed ∷ [];
    };
  };
}

abbrev pub coop_admin : AuthUser
coop_admin = record {
  id = 30;
  role = cooperative_admin;
  cooperative_id = some 8;
  must_change_password = false;
}
