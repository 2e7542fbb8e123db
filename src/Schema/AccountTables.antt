-- ===== src/Schema/AccountTables.antt =====
-- The tables of people and organisations, and those that only grow: ledger, inbox and audit log.
use coffee_traceability_back.Prelude.{ℕ, String, Bool, Option, List}
use coffee_traceability_back.Schema.Enums.{
  UserRole, UserStatus, LedgerStatus, EventType, ProcessingMethod, BatchStatus, Entity,
}
use coffee_traceability_back.Schema.TradeTables.{Text}

pub record Cooperative : Type 0 where
  pub id : ℕ
  pub name : String
  pub registration_no : Option String
  pub county : String
  pub sub_county : Option String
  pub contact_email : Option String
  pub contact_phone : Option String
  pub address : Option String
  pub is_active : Bool
  pub created_at : ℕ

pub record Buyer : Type 0 where
  pub id : ℕ
  pub user_id : Option ℕ
  pub company_name : String
  pub country : Option String
  pub contact_email : Option String
  pub contact_phone : Option String
  pub is_verified : Bool

pub record Farmer : Type 0 where
  pub id : ℕ
  pub user_id : Option ℕ
  pub cooperative_id : ℕ
  pub farmer_code : Text
  pub first_name : String
  pub last_name : String
  pub national_id : Option Text
  pub phone_number : Option Text
  pub farm_location : Option String
  pub is_active : Bool
  pub is_deleted : Bool
  pub created_at : ℕ

pub record User : Type 0 where
  pub id : ℕ
  pub email : Option Text
  pub phone_number : Option Text
  pub password_hash : Text
  pub first_name : String
  pub last_name : String
  pub role : UserRole
  pub status : UserStatus
  pub cooperative_id : Option ℕ
  pub last_login_at : Option ℕ
  pub failed_login_count : ℕ
  pub locked_until : Option ℕ
  pub refresh_token_hash : Option Text
  pub maintenance_allowed : Bool
  pub is_deleted : Bool
  pub must_change_password : Bool
  pub password_changed_at : Option ℕ
  pub temporary_password_expires_at : Option ℕ
  pub created_at : ℕ

-- A scan of a batch's code; the caller's address and browser are left out.
pub record QrVerification : Type 0 where
  pub id : ℕ
  pub batch_id : ℕ
  pub verified_at : ℕ

-- The one row of `system_settings`.
pub record SystemSetting : Type 0 where
  pub maintenance_mode : Bool
  pub maintenance_message : Option String
  pub updated_by_id : Option ℕ

pub record Accounts : Type 0 where
  pub cooperatives : List Cooperative
  pub buyers : List Buyer
  pub farmers : List Farmer
  pub users : List User

-- The payload of a ledger event, one constructor for each shape that the code submits.
pub data Payload : Type 0 where
  created : Text → ℕ → ℕ → Payload
  status_changed : BatchStatus → BatchStatus → ℕ → Payload
  processing : ProcessingMethod → ℕ → Payload
  stored : ℕ → ℕ → Payload
  graded : List (Text × String × Option ℕ) → ℕ → Payload
  transferred : ℕ → Option ℕ → Entity → ℕ → Payload
  sale : ℕ → Option ℕ → ℕ → ℕ → Payload

pub record LedgerEvent : Type 0 where
  pub id : ℕ
  pub batch_id : ℕ
  pub event_type : EventType
  pub tx_hash : Option Text
  pub payload_hash : Text
  pub previous_hash : Option Text
  pub block_hash : Text
  pub payload : Payload
  pub status : LedgerStatus
  pub submitted_at : ℕ
  pub confirmed_at : Option ℕ

-- The text of a notification, one constructor for each template.
pub data Notice : Type 0 where
  delivery_registered : Text → ℕ → Notice
  delivery_recorded : Text → ℕ → Notice
  deliveries_added : Text → ℕ → Notice
  status_updated : Text → BatchStatus → BatchStatus → Notice
  coffee_sold : Text → BatchStatus → Notice
  coffee_sold_to : Text → String → Notice
  processing_noted : Text → ProcessingMethod → Notice
  batch_stored : Text → ℕ → String → Notice
  sale_awaiting : Text → String → Notice
  sale_confirmed : Text → String → Notice
  your_sale_confirmed : Text → String → Notice
  account_status : UserStatus → Notice
  announcement : String → String → Notice

pub record Notification : Type 0 where
  pub id : ℕ
  pub user_id : ℕ
  pub notice : Notice
  pub is_read : Bool
  pub read_at : Option ℕ
  pub created_at : ℕ

pub data AuditAction : Type 0 where
  create update delete verify login login_failed logout maintenance_toggle : AuditAction

pub data AuditEntity : Type 0 where
  coffee_batch delivery_entity processing_entity inventory_entity transfer_entity : AuditEntity
  group_entity warehouse_entity user_entity farmer_entity cooperative_row buyer_row : AuditEntity
  system_setting notification_entity permission_entity : AuditEntity

pub record AuditEntry : Type 0 where
  pub user_id : Option ℕ
  pub action : AuditAction
  pub entity_type : AuditEntity
  pub entity_id : Option ℕ
