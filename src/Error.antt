-- ===== src/Error.antt =====
-- src/error.rs: the errors of the service and the HTTP status of each. A message is a constructor
-- for each format string of the source, with the values that it interpolates.
use simply_firewall.Prelude.{ℕ, Bool, true, false, List, Text, if◌then◌else◌}
use simply_firewall.Entities.{Uuid}

-- What SeaORM reports of a statement: a broken unique constraint, contention, or anything else.
pub data DbErr : Type 0 where
  unique_violation foreign_key_violation record_not_updated transient_lock other_failure : DbErr

pub data Scope : Type 0 where
  can_manage_keys can_create_groups can_manage_webhooks : Scope

pub data Message : Type 0 where
  permission_denied cannot_delete_yourself only_master_itself : Message
  not_lifecycle_holder : (resource action : Text) → Message
  cannot_manage_group : (action group_name : Text) → Message
  beyond_your_own : (action group_name : Text) → Message
  scope_reserved : Scope → Message
  master_target master_only_reassign cannot_create_groups : Message
  master_immutable : (operation : Text) → Message
  no_such_owner master_cannot_own master_permissions verbs_need_read : Message
  either_id_or_name id_or_name_required : Message
  group_exists : (name : Text) → Message
  invalid_cidr : (cidr : Text) → Message
  subtree_cycle : Message
  needs_resolution : (name : Text) (id : Uuid) (entities subtree_keys : ℕ) → Message
  unresolved_entities : (name : Text) (id : Uuid) (entities : ℕ) → Message
  duplicate_resolution : (entity_type : Text) (id : Uuid) → Message
  extra_resolution : (entity_type : Text) (id : Uuid) → Message
  reassign_to_doomed : (owner : Uuid) → Message
  missing_timestamp malformed_timestamp outside_window missing_api_key missing_signature : Message
  signature_shape invalid_api_key no_signing_secret unreadable_body invalid_signature : Message
  signature_used client_ip_not_allowed : Message
  no_delete_access record_protected hard_delete_is_master_only restore_is_master_only : Message
  purge_is_master_only nothing_to_restore target_address_required no_group_delete : Message
  retention_not_positive : Message
  no_group_read target_url_malformed target_url_scheme target_url_host api_key_required : Message
  template_without_body privileged_edit privileged_clone secret_required : Message
  invalid_event : (token : Text) → Message
  invalid_auth_mode : (raw : Text) → Message

-- One entry of the inventory that a refused deletion returns.
pub record OwnedEntity : Type 0 where
  pub entity_type : Text
  pub id : Uuid
  pub name : Text
  pub owner_key_id : Uuid
  pub owner_name : Text

pub data AppError : Type 0 where
  db_error : DbErr → AppError
  invalid_input : Message → AppError
  unauthorized : Message → AppError
  forbidden : Message → AppError
  not_found : AppError
  conflict : Message → AppError
  conflict_with_details : Message → List OwnedEntity → AppError
  body_rejected : ℕ → Message → AppError
  internal : AppError

pub data Result (A : Type 0) : Type 0 where
  ok : A → Result A
  err : AppError → Result A

is_transient_lock_error : DbErr → Bool
is_transient_lock_error DbErr.transient_lock = true
is_transient_lock_error _ = false

-- `IntoResponse for AppError`, its status.
unfoldable pub status : AppError → ℕ
unfolding is_transient_lock_error
status (db_error e) = if is_transient_lock_error e then 503 else 500
status (invalid_input _) = 400
status (unauthorized _) = 401
status (forbidden _) = 403
status not_found = 404
status (conflict _) = 409
status (conflict_with_details _ _) = 409
status (body_rejected code _) = code
status internal = 500

-- Failures of the database, which any statement may have, against answers of the program.
abbrev pub is_db_error : AppError → Bool
is_db_error (db_error _) = true
is_db_error _ = false
