-- ===== src/Records.antt =====
-- src/api/records.rs: the deletion, restoration and purge of IP records. What an endpoint's JSON body
-- decodes to is its argument, or the error of the decoder. The parser and the printers of networks are
-- parameters. An endpoint that enqueues a notification returns it.
pub mod Removed
pub mod Atomic
use simply_firewall.Prelude.{
  nonempty, or_else, ℕ, ◌+◌, Bool, true, false, not, ◌&&◌, ◌||◌, Option, none, some, List, [], ◌∷◌,
  ◌++◌, map, Text, codes, text_eq, if◌then◌else◌, ◌==◌, keep, find, contains, is_empty, is_some,
  unwrap_or, ℤ, pos, negsuc, ltb_ℤ, pos_part,
}
use simply_firewall.Entities.{Uuid, DateTime, ApiKey, Permission, IpGroup, IpRecord}
use simply_firewall.Error.{AppError, Result, invalid_input, forbidden, not_found, Message}
use simply_firewall.Outside.{Outside}
use simply_firewall.Store.{
  AuditAction, Details, Db, Action, pure, raise, lift, ok_or, ◌>>=◌, ◌>>◌, refuse_if, now, execute,
  query,
}
use simply_firewall.Store.Tables.{permission_of}
use simply_firewall.Store.Transaction.{transaction}
use simply_firewall.Store.Aged.{
  record_by_id, record_by_address, delete_records, update_record, delete_membership,
}
use simply_firewall.Support.{Caller, whitelist, create_audit_log, resolve_group_ref}
use simply_firewall.Retention.{purge_expired_ip_records}
use simply_firewall.Dispatch.Prepare.{WebhookEvent}

-- The ipnetwork crate.
pub record Cidrs : Type 1 where
  pub Net : Type 0
  pub parse : Text → Option Net
  pub is_ipv4 : Net → Bool
  pub prefix : Net → ℕ
  pub ip_text : Net → Text
  pub network_text : Net → Text
  pub prefix_text : Net → Text

module _ (c : Cidrs) where
  abbrev is_single_host : c.Net → Bool
  is_single_host net =
      (c.is_ipv4 net && c.prefix net == 32) || (not (c.is_ipv4 net) && c.prefix net == 128)

  normalized : Text → Option c.Net → Text
  normalized input none = input
  normalized input (some net) =
      if is_single_host net then c.ip_text net else c.network_text net ++ b'/' ∷ c.prefix_text net

  unfoldable pub normalize_ip_or_cidr : Text → Text
  unfolding normalized
  normalize_ip_or_cidr input = normalized input (c.parse input)

pub data Removal : Type 0 where
  permanent : (address : Text) → Removal
  soft : (address : Text) (already_deleted : Bool) → Removal

pub record DeleteIpQuery : Type 0 where
  pub target_address : Option Text
  pub group_id : Option Uuid
  pub group_name : Option Text

unfoldable pub merge : DeleteIpQuery → DeleteIpQuery → DeleteIpQuery
merge q other = record {
  target_address = or_else q.target_address other.target_address;
  group_id = or_else q.group_id other.group_id;
  group_name = or_else q.group_name other.group_name;
}

-- The groups that hold a record.
abbrev pub groups_holding : Uuid → Db → List Uuid
groups_holding id db = map (λ m. m.group_id) (keep (λ m. m.ip_record_id == id) db.memberships)

abbrev pub deletable_in : (key : Uuid) → List Uuid → Db → Option Permission
deletable_in key group_ids db =
    find (λ p. p.api_key_id == key && contains p.group_id group_ids && p.can_delete) db.permissions

-- What the soft deletion and the restoration set.
abbrev pub flagged : (by : Text) → DateTime → IpRecord → IpRecord
flagged by now r = record r {
  is_deleted = true;
  deleted_at = some now;
  deleted_by = some by;
  updated_at = now;
}

abbrev pub unflagged : DateTime → IpRecord → IpRecord
unflagged now r = record r {
  is_deleted = false;
  deleted_at = none;
  deleted_by = none;
  updated_at = now;
}

-- The window that is asked for, or the configured one.
abbrev pub chosen_window : (configured : ℤ) → Option ℤ → Result ℤ
chosen_window configured none = Result.ok configured
chosen_window configured (some days) =
    if ltb_ℤ (pos 0) days
    then Result.ok days
    else Result.err (invalid_input Message.retention_not_positive)

module _ (o : Outside) where
  -- The answer of the lookup in the groups found.
  delete_access : (key : Uuid) → List Uuid → Action Bool
  delete_access key group_ids =
      if is_empty group_ids
      then pure false
      else do deletable ← query o (deletable_in key group_ids); pure (is_some deletable)

  unfoldable pub caller_may_delete_record : ApiKey → Uuid → Action Bool
  unfolding delete_access
  caller_may_delete_record key record_id =
      if key.is_master
      then pure true
      else do group_ids ← query o (groups_holding record_id); delete_access key.id group_ids

  unfoldable pub hard_delete : Caller → IpRecord → Action Removal
  hard_delete caller row = do
    execute o (delete_records (λ r. r.id == row.id))
    create_audit_log o caller AuditAction.ip_hard_delete (some row.target_address) none
        (some Details.permanently_deleted)
    pure (permanent row.target_address)

  unfoldable pub soft_delete : Caller → IpRecord → Action Removal
  soft_delete caller row = if row.is_deleted then pure (soft row.target_address true) else do
    clock ← now o
    execute o (update_record row.id (flagged (o.show_uuid caller.key.id) clock))
    create_audit_log o caller AuditAction.ip_soft_delete (some row.target_address) none
        (some (Details.soft_deleted_by caller.key.name caller.key.id))
    pure (soft row.target_address false)

  unfoldable pub delete_ip_record : Caller → Uuid → (hard : Option Bool) → Action Removal
  unfolding hard_delete soft_delete
  delete_ip_record caller id hard = do
    found ← query o (record_by_id id)
    row ← ok_or not_found found
    allowed ← caller_may_delete_record caller.key id
    refuse_if (not allowed) (forbidden Message.no_delete_access)
    refuse_if row.is_locked (forbidden Message.record_protected)
    refuse_if (unwrap_or hard false && not caller.key.is_master)
        (forbidden Message.hard_delete_is_master_only)
    if unwrap_or hard false then hard_delete caller row else soft_delete caller row

  unfoldable pub restore_ip_record : Caller → Uuid → Action Uuid
  restore_ip_record caller id = do
    refuse_if (not caller.key.is_master) (forbidden Message.restore_is_master_only)
    found ← query o (record_by_id id)
    row ← ok_or not_found found
    refuse_if (not row.is_deleted) (invalid_input Message.nothing_to_restore)
    clock ← now o
    execute o (update_record row.id (unflagged clock))
    create_audit_log o caller AuditAction.ip_restore (some row.target_address) none
        (some Details.restored)
    pure row.id

  unfoldable pub purge_ip_records : (configured : ℤ) → Caller → Result (Option ℤ) → Action (ℕ × ℤ)
  purge_ip_records configured caller body = do
    refuse_if (not caller.key.is_master) (forbidden Message.purge_is_master_only)
    older_than_days ← lift body
    retention_days ← lift (chosen_window configured older_than_days)
    purged ← purge_expired_ip_records o retention_days
    create_audit_log o caller AuditAction.ip_purge none none
        (some (Details.purged purged (pos_part retention_days)))
    pure (purged, retention_days)

  require_delete : Option Permission → Action (Unit {0})
  require_delete none = raise (forbidden Message.permission_denied)
  require_delete (some p) = refuse_if (not p.can_delete) (forbidden Message.no_group_delete)

  guard_group_delete : ApiKey → (group : Uuid) → Action (Unit {0})
  unfolding require_delete
  guard_group_delete key group =
      if key.is_master
      then pure tt
      else do perm ← query o (permission_of key.id group); require_delete perm

  -- The body of the transaction.
  remove_from_group : Caller → (target_address : Text) → IpGroup → Action IpRecord
  remove_from_group caller target_address group = do
    found ← query o (record_by_address target_address)
    row ← ok_or not_found found
    refuse_if row.is_locked (forbidden Message.record_protected)
    rows_affected ← execute o (delete_membership row.id group.id)
    refuse_if (rows_affected == 0) not_found
    create_audit_log o caller AuditAction.ip_delete (some target_address) (some group.name) none
    pure row

  abbrev deletion_event : IpRecord → IpGroup → WebhookEvent
  deletion_event row group = record {
    action = codes "IP_DELETE";
    address = row.target_address;
    is_whitelist = text_eq group.group_type whitelist;
    group_id = some group.id;
    group_name = some group.name;
    cause = some (codes "Deleted via API");
  }

  unfoldable pub delete_ip :
      Cidrs → Caller → DeleteIpQuery → Result DeleteIpQuery → Action WebhookEvent
  unfolding guard_group_delete remove_from_group
  delete_ip c caller query_params body = do
    body_params ← lift body
    let params = merge query_params body_params
    given ← ok_or (invalid_input Message.target_address_required) (nonempty params.target_address)
    let target_address = normalize_ip_or_cidr c given
    found ← resolve_group_ref o params.group_id params.group_name
    group ← ok_or not_found found
    guard_group_delete caller.key group.id
    row ← transaction o (remove_from_group caller target_address group)
    pure (deletion_event row group)
