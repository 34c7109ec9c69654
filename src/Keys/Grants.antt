-- ===== src/Keys/Grants.antt =====
-- src/api/keys.rs: `update_key_group_permissions` and `revoke_key_group_permission`.
pub mod Rows
pub mod Bounded
use simply_firewall.Prelude.{
  ℕ, Bool, true, false, not, ◌&&◌, ◌||◌, Option, none, some, Text, codes, if◌then◌else◌, is_some,
  ◌==◌,
}
use simply_firewall.Entities.{Uuid, DateTime, ApiKey, Permission, IpGroup}
use simply_firewall.Error.{AppError, forbidden, invalid_input, not_found, Result, ok, err, Message}
use simply_firewall.Outside.{Outside}
use simply_firewall.Store.{
  AuditAction, Details, Action, pure, raise, lift, ok_or, ◌>>=◌, ◌>>◌, refuse_if, new_uuid, now,
  execute, query,
}
use simply_firewall.Store.Tables.{key_by_id, upsert_permission, delete_permission}
use simply_firewall.Guards.{
  GroupPermInput, resource_owner, guard_group_manage, guard_delegated_group_grant,
  widens_permissions, caller_group_permission, guard_may_administer_any_group,
}
use simply_firewall.Support.{
  Caller, banlist, create_audit_log, get_or_create_group, resolve_group_by_identifier,
  resolve_group_ref_flexible,
}

-- The verbs that imply `can_read`.
abbrev pub verbs_without_read : GroupPermInput → Bool
verbs_without_read payload = (payload.can_write || payload.can_delete) && not payload.can_read

-- Which of the two rules applies is a property of the request (R6).
unfoldable pub guard_change :
    ApiKey
    → (caller_perm target_perm : Option Permission) → (group_name : Text) → GroupPermInput
    → Result (Unit {0})
guard_change key caller_perm target_perm group_name payload =
    if widens_permissions payload target_perm
    then guard_delegated_group_grant key caller_perm group_name (codes "grant") payload
    else guard_group_manage key caller_perm group_name (codes "revoke")

abbrev pub grant_row : (row key group : Uuid) → GroupPermInput → DateTime → Permission
grant_row row key group payload t = record {
  id = row;
  api_key_id = key;
  group_id = group;
  can_read = payload.can_read;
  can_write = payload.can_write;
  can_delete = payload.can_delete;
  can_manage = payload.can_manage;
  created_at = t;
}

module _ (o : Outside) where
  -- The group of the request: found, created under its name, or missing.
  unfoldable pub target_group : ApiKey → Option IpGroup → Option Text → Action IpGroup
  target_group key (some g) name = pure g
  target_group key none none = raise not_found
  target_group key none (some name) = do
    refuse_if (not key.is_master && not key.can_create_groups)
        (forbidden Message.cannot_create_groups)
    get_or_create_group o name banlist (resource_owner key)

  -- The part below the resolution of the group.
  unfoldable pub change_grant :
      Caller → Uuid → ApiKey → IpGroup → GroupPermInput → Action (Unit {0})
  change_grant caller id target_key group payload = do
    caller_perm ← caller_group_permission o caller.key.id group.id
    target_perm ← caller_group_permission o id group.id
    lift (guard_change caller.key caller_perm target_perm group.name payload)
    t ← now o
    row ← new_uuid o
    execute o (upsert_permission (grant_row row id group.id payload t))
    create_audit_log o caller AuditAction.key_perm_update none (some group.name)
        (some (Details.of_key target_key.name id))

  unfoldable pub update_key_group_permissions : Caller → Uuid → GroupPermInput → Action (Unit {0})
  unfolding target_group change_grant
  update_key_group_permissions caller id payload = do
    guard_may_administer_any_group o caller.key
    found ← query o (key_by_id id)
    target_key ← ok_or not_found found
    refuse_if target_key.is_master (invalid_input Message.master_permissions)
    refuse_if (verbs_without_read payload) (invalid_input Message.verbs_need_read)
    existing ← resolve_group_ref_flexible o payload.group_id payload.group_name
    group ← target_group caller.key existing payload.group_name
    change_grant caller id target_key group payload

  unfoldable pub revoke_key_group_permission :
      Caller → Uuid → (identifier : Text) → Action (Unit {0})
  revoke_key_group_permission caller id identifier = do
    guard_may_administer_any_group o caller.key
    found ← resolve_group_by_identifier o identifier
    group ← ok_or not_found found
    target_perm ← caller_group_permission o id group.id
    refuse_if (not (is_some target_perm)) not_found
    caller_perm ← caller_group_permission o caller.key.id group.id
    lift (guard_group_manage caller.key caller_perm group.name (codes "revoke"))
    rows_affected ← execute o (delete_permission id group.id)
    refuse_if (rows_affected == 0) not_found
    target ← query o (key_by_id id)
    target_key ← ok_or not_found target
    create_audit_log o caller AuditAction.key_perm_revoke none (some group.name)
        (some (Details.of_key target_key.name id))
