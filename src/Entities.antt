-- ===== src/Entities.antt =====
-- src/entities/*.rs: one record for each table's `Model`, with the columns as fields. A UUID is a
-- number, since the program only compares it; a timestamp counts seconds.
use simply_firewall.Prelude.{ℕ, Bool, Option, Text}

abbrev pub Uuid : Type 0
Uuid = ℕ

abbrev pub DateTime : Type 0
DateTime = ℕ

-- entities/api_key.rs
pub record ApiKey : Type 0 where
  pub id : Uuid
  pub name : Text
  pub key_hash : Text
  pub signing_secret : Option Text
  pub prefix : Text
  pub bound_ips : Option Text
  pub is_master : Bool
  pub can_manage_keys : Bool
  pub can_manage_webhooks : Bool
  pub can_create_groups : Bool
  pub parent_key_id : Option Uuid
  pub created_at : DateTime
  pub updated_at : DateTime

-- entities/api_key_group_permission.rs
pub record Permission : Type 0 where
  pub id : Uuid
  pub api_key_id : Uuid
  pub group_id : Uuid
  pub can_read : Bool
  pub can_write : Bool
  pub can_delete : Bool
  pub can_manage : Bool
  pub created_at : DateTime

-- entities/ip_group.rs
pub record IpGroup : Type 0 where
  pub id : Uuid
  pub name : Text
  pub group_type : Text
  pub description : Option Text
  pub owner_key_id : Option Uuid
  pub created_at : DateTime

-- entities/webhook_config.rs
pub record WebhookConfig : Type 0 where
  pub id : Uuid
  pub name : Text
  pub target_url : Text
  pub secret_token : Text
  pub auth_mode : Text
  pub api_key : Option Text
  pub hmac_template : Option Text
  pub signature_header : Option Text
  pub signature_prefix : Option Text
  pub headers_json : Option Text
  pub payload_template : Text
  pub group_id : Uuid
  pub is_active : Bool
  pub events : Option Text
  pub owner_key_id : Option Uuid
  pub created_at : DateTime

-- entities/ip_record.rs
pub record IpRecord : Type 0 where
  pub id : Uuid
  pub target_address : Text
  pub cause : Option Text
  pub is_locked : Bool
  pub created_at : DateTime
  pub updated_at : DateTime
  pub last_seen_at : DateTime
  pub is_deleted : Bool
  pub deleted_at : Option DateTime
  pub deleted_by : Option Text

-- entities/ip_record_group_membership.rs
pub record Membership : Type 0 where
  pub ip_record_id : Uuid
  pub group_id : Uuid

-- entities/webhook_execution.rs
pub record WebhookExecution : Type 0 where
  pub id : Uuid
  pub webhook_id : Uuid
  pub event_type : Text
  pub status_code : Option ℕ
  pub is_success : Bool
  pub duration_ms : ℕ
  pub response_body : Option Text
  pub resolved_target_url : Option Text
  pub target_address : Option Text
  pub cause : Option Text
  pub created_at : DateTime
