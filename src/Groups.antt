-- ===== src/Groups.antt =====
-- src/api/groups.rs: the endpoints on IP groups.
use simply_firewall.Prelude.{
  ℕ, Bool, true, false, not, ◌&&◌, ◌||◌, Option, none, some, List, [], map, Text, text_eq, codes,
  if◌then◌else◌, ◌==◌, keep, contains, is_empty, is_some_and,
}
use simply_firewall.Entities.{Uuid, ApiKey, Permission, IpGroup}
use simply_firewall.Error.{DbErr, db_error, forbidden, not_found, conflict, Result, err, Message}
use simply_firewall.Outside.{Outside}
use simply_firewall.Store.{
  AuditAction, Details, Db, Action, pure, lift, ok_or, ◌>>=◌, ◌>>◌, refuse_if, new_uuid, now,
  attempt, execute, query,
}
use simply_firewall.Store.Tables.{
  group_by_id, insert_group, insert_permission, delete_group, reown_group,
}
use simply_firewall.Guards.{resource_owner, guard_resource_lifecycle, resolve_owner_assignment}
use simply_firewall.Support.{Caller, banlist, whitelist, create_audit_log}

pub record CreateIpGroupPayload : Type 0 where
  pub name : Text
  pub group_type : Option Text

pub record CreatedGroup : Type 0 where
  pub id : Uuid
  pub name : Text
  pub group_type : Text

abbrev pub chosen_type : Option Text → Text
chosen_type requested =
    if is_some_and requested (λ t. text_eq t whitelist) then whitelist else banlist

-- A broken unique constraint is a conflict of names; any other error is passed on.
unfoldable pub name_conflict : Text → Result (Unit {0}) → Result (Unit {0})
name_conflict name (err (db_error DbErr.unique_violation)) =
    err (conflict (Message.group_exists name))
name_conflict name r = r

-- Any verb, `can_manage` included, makes a group visible.
abbrev pub has_a_verb : Permission → Bool
has_a_verb p = p.can_read || p.can_write || p.can_delete || p.can_manage

unfoldable pub accessible_groups : Uuid → Db → List Uuid
accessible_groups key db =
    map (λ p. p.group_id) (keep (λ p. p.api_key_id == key && has_a_verb p) db.permissions)

abbrev pub owner_details : Option Uuid → Details
owner_details none = Details.owner_cleared
owner_details (some id) = Details.owner_set id

module _ (o : Outside) where
  -- The grant that the creator of a group gets, unless it is the master.
  unfoldable pub provision : ApiKey → (group : Uuid) → (created_at : ℕ) → Action (Unit {0})
  provision key group created_at = if key.is_master then pure tt else do
    id ← new_uuid o
    execute o (
        insert_permission (record {
          id = id;
          api_key_id = key.id;
          group_id = group;
          can_read = true;
          can_write = true;
          can_delete = true;
          can_manage = false;
          created_at = created_at;
        }))

  unfoldable pub create_ip_group : Caller → CreateIpGroupPayload → Action CreatedGroup
  unfolding name_conflict provision
  create_ip_group caller payload = do
    refuse_if (not caller.key.is_master && not caller.key.can_create_groups)
        (forbidden Message.permission_denied)
    id ← new_uuid o
    created_at ← now o
    outcome ← attempt o (
        insert_group (record {
          id = id;
          name = payload.name;
          group_type = chosen_type payload.group_type;
          description = none;
          owner_key_id = resource_owner caller.key;
          created_at = created_at;
        }))
    lift (name_conflict payload.name outcome)
    provision caller.key id created_at
    create_audit_log o caller AuditAction.group_create none (some payload.name) none
    pure (record { id = id; name = payload.name; group_type = chosen_type payload.group_type })

  unfoldable pub listed_groups : List Uuid → Action (List IpGroup)
  listed_groups ids =
      if is_empty ids then pure [] else query o (λ db. keep (λ g. contains g.id ids) db.groups)

  unfoldable pub list_ip_groups : ApiKey → Action (List IpGroup)
  unfolding listed_groups accessible_groups
  list_ip_groups key =
      if key.is_master
      then query o (λ db. db.groups)
      else do ids ← query o (accessible_groups key.id); listed_groups ids

  unfoldable pub delete_ip_group : Caller → Uuid → Action (Unit {0})
  delete_ip_group caller id = do
    found ← query o (group_by_id id)
    group ← ok_or not_found found
    lift (guard_resource_lifecycle caller.key group.owner_key_id (codes "group") (codes "delete"))
    rows_affected ← execute o (delete_group id)
    refuse_if (rows_affected == 0) not_found
    create_audit_log o caller AuditAction.group_delete none none (some (Details.group_id id))

  unfoldable pub reassign_group_owner : Caller → Uuid → Option Uuid → Action (Uuid × Option Uuid)
  reassign_group_owner caller id requested = do
    refuse_if (not caller.key.is_master) (forbidden Message.master_only_reassign)
    found ← query o (group_by_id id)
    group ← ok_or not_found found
    owner ← resolve_owner_assignment o requested
    execute o (reown_group id owner)
    create_audit_log o caller AuditAction.group_owner_reassign none (some group.name)
        (some (owner_details owner))
    pure (id, owner)
