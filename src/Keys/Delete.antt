-- ===== src/Keys/Delete.antt =====
-- src/api/keys.rs: `delete_api_key`, the cascade gated on the inventory of what the doomed keys own.
-- A `HashMap` or `HashSet` is a list here; the order in which the source walks one is unspecified,
-- and only decides which of several refusals comes first.
pub mod Pending
pub mod Effects
pub mod Cascade
pub mod Webhooks
pub mod Collateral
use simply_firewall.Prelude.{
  ℕ, zero, suc, ◌+◌, ◌-◌, Bool, true, false, not, ◌&&◌, Option, none, some, List, [], ◌∷◌, ◌++◌,
  map, Text, text_eq, codes, if◌then◌else◌, is_some, ◌==◌, keep, find, any, contains, is_empty,
  length, unwrap_or,
}
use simply_firewall.Entities.{Uuid, ApiKey, IpGroup, WebhookConfig}
use simply_firewall.Error.{
  AppError, forbidden, invalid_input, not_found, conflict, conflict_with_details, internal, Result,
  ok, err, Message, OwnedEntity,
}
use simply_firewall.Outside.{Outside}
use simply_firewall.Store.{
  AuditAction, Details, Db, Action, pure, raise, lift, ◌>>=◌, ◌>>◌, refuse_if, execute, query,
}
use simply_firewall.Store.Tables.{
  is_in, delete_keys, delete_group, delete_webhook, update_group_owner, update_webhook_owner,
}
use simply_firewall.Guards.{guard_master_target, guard_master_immutable, resolve_owner_assignment}
use simply_firewall.Support.{Caller, create_audit_log}
use simply_firewall.Keys.Subtree.{collect_key_subtree, find_administrable_key}
use simply_firewall.Keys.Create.{lacks_key_scope}

pub data Resolution : Type 0 where
  delete : Resolution
  reassign : (owner_key_id : Uuid) → Resolution

pub record ResolutionEntry : Type 0 where
  pub entity_type : Text
  pub id : Uuid
  pub resolution : Resolution

abbrev pub group_type : Text
group_type = codes "group"

abbrev pub webhook_type : Text
webhook_type = codes "webhook"

abbrev pub deleted_name : Text
deleted_name = codes "<deleted>"

-- The name of a key, from the rows that the inventory read first.
unfoldable pub owner_name : List ApiKey → Uuid → Text
owner_name owners id = elim (find (λ k. k.id == id) owners) [
  | none ↦ deleted_name
  | some k ↦ k.name
]

abbrev pub group_entity : List ApiKey → IpGroup → OwnedEntity
group_entity owners g = record {
  entity_type = group_type;
  id = g.id;
  name = g.name;
  owner_key_id = unwrap_or g.owner_key_id 0;
  owner_name = owner_name owners (unwrap_or g.owner_key_id 0);
}

abbrev pub webhook_entity : List ApiKey → WebhookConfig → OwnedEntity
webhook_entity owners h = record {
  entity_type = webhook_type;
  id = h.id;
  name = h.name;
  owner_key_id = unwrap_or h.owner_key_id 0;
  owner_name = owner_name owners (unwrap_or h.owner_key_id 0);
}

-- The entry and the entity have the same key in the maps of the source.
abbrev pub same_key : Text → Uuid → ResolutionEntry → Bool
same_key type id e = text_eq e.entity_type type && e.id == id

abbrev pub resolution_of : List ResolutionEntry → OwnedEntity → Option ResolutionEntry
resolution_of entries e = find (same_key e.entity_type e.id) entries

-- Each entity may be named once.
unfoldable pub check_duplicates : (seen entries : List ResolutionEntry) → Result (Unit {0})
check_duplicates seen [] = ok tt
check_duplicates seen (e ∷ es) =
    if any (same_key e.entity_type e.id) seen
    then err (invalid_input (Message.duplicate_resolution e.entity_type e.id))
    else check_duplicates (e ∷ seen) es

abbrev pub unresolved : List ResolutionEntry → List OwnedEntity → List OwnedEntity
unresolved entries = keep (λ e. not (is_some (resolution_of entries e)))

abbrev pub is_inventoried : List OwnedEntity → ResolutionEntry → Bool
is_inventoried inventory r = any (λ e. same_key e.entity_type e.id r) inventory

unfoldable pub check_extra : List OwnedEntity → List ResolutionEntry → Result (Unit {0})
check_extra inventory entries = elim (find (λ r. not (is_inventoried inventory r)) entries) [
  | none ↦ ok tt
  | some r ↦ err (invalid_input (Message.extra_resolution r.entity_type r.id))
]

-- The inventory is refused outright, or the map is checked against it.
unfoldable pub check_map :
    (target : ApiKey) (id : Uuid) (subtree : List Uuid)
    → List OwnedEntity
    → List ResolutionEntry
    → Result (Unit {0})
unfolding check_duplicates check_extra
check_map target id subtree inventory entries =
    if not (is_empty inventory) && is_empty entries
    then err (
        conflict_with_details
          (Message.needs_resolution target.name id (length inventory) (length subtree)) inventory)
    else elim (check_duplicates [] entries) [
      | err e ↦ err e
      | ok _ ↦
          if not (is_empty (unresolved entries inventory))
          then err (
              conflict_with_details
                (Message.unresolved_entities target.name id (length (unresolved entries inventory)))
                (unresolved entries inventory))
          else check_extra inventory entries
    ]

module _ (o : Outside) where
  unfoldable pub inventory_owned_entities : List Uuid → Action (List OwnedEntity)
  inventory_owned_entities subtree = do
    owners ← query o (λ db. keep (λ k. contains k.id subtree) db.api_keys)
    groups ← query o (λ db. keep (λ g. is_in subtree g.owner_key_id) db.groups)
    hooks ← query o (λ db. keep (λ h. is_in subtree h.owner_key_id) db.webhooks)
    pure (map (group_entity owners) groups ++ map (webhook_entity owners) hooks)

  unfoldable pub check_resolution : (doomed : List Uuid) → Resolution → Action (Unit {0})
  check_resolution doomed delete = pure tt
  check_resolution doomed (reassign owner) = do
    resolve_owner_assignment o (some owner)
    refuse_if (contains owner doomed) (invalid_input (Message.reassign_to_doomed owner))

  -- Every reassignment is checked before anything is applied.
  unfoldable pub check_reassignments :
      (doomed : List Uuid) → List ResolutionEntry → Action (Unit {0})
  unfolding check_resolution
  check_reassignments doomed [] = pure tt
  check_reassignments doomed (r ∷ rs) = do
    check_resolution doomed r.resolution
    check_reassignments doomed rs

  -- The `match (entity.entity_type, resolution)`.
  unfoldable pub apply_resolution : OwnedEntity → Resolution → Action (Unit {0})
  apply_resolution e delete =
      if text_eq e.entity_type group_type
      then (do execute o (delete_group e.id); pure tt)
      else if text_eq e.entity_type webhook_type
      then (do execute o (delete_webhook e.id); pure tt)
      else raise internal
  apply_resolution e (reassign owner) =
      if text_eq e.entity_type group_type
      then execute o (update_group_owner e.id (some owner))
      else if text_eq e.entity_type webhook_type
      then execute o (update_webhook_owner e.id (some owner))
      else raise internal

  -- `resolutions[&…]`, which panics on a missing key: `check_map` has ruled that out.
  unfoldable pub apply_found : OwnedEntity → Option ResolutionEntry → Action (Unit {0})
  unfolding apply_resolution
  apply_found e none = raise internal
  apply_found e (some r) = apply_resolution e r.resolution

  unfoldable pub apply_all : List ResolutionEntry → List OwnedEntity → Action (Unit {0})
  unfolding apply_found
  apply_all entries [] = pure tt
  apply_all entries (e ∷ es) = do apply_found e (resolution_of entries e); apply_all entries es

  -- `deleted_entities`, as the loop counts it; the others were reassigned.
  is_deletion : List ResolutionEntry → OwnedEntity → Bool
  is_deletion entries e = elim (resolution_of entries e) [
    | none ↦ false
    | some r ↦ elim r.resolution [ delete ↦ true | reassign _ ↦ false ]
  ]

  unfoldable pub deletion_details :
      ApiKey → Uuid → List Uuid → List OwnedEntity → List ResolutionEntry → Details
  unfolding is_deletion
  deletion_details target id subtree inventory entries =
      Details.deleted_key target.name id (length subtree - 1)
        (length (keep (is_deletion entries) inventory))
        (length (keep (λ e. not (is_deletion entries e)) inventory))

  -- The writes: the resolutions, then the whole subtree, then the audit row.
  unfoldable pub apply_deletion :
      Caller
      → ApiKey
      → Uuid
      → List Uuid
      → List OwnedEntity
      → List ResolutionEntry
      → Action (Unit {0})
  unfolding apply_all deletion_details
  apply_deletion caller target id subtree inventory entries = do
    apply_all entries inventory
    rows_affected ← execute o (delete_keys subtree)
    refuse_if (rows_affected == 0) not_found
    create_audit_log o caller AuditAction.key_delete none none
        (some (deletion_details target id subtree inventory entries))

  unfoldable pub delete_api_key : Caller → Uuid → List ResolutionEntry → Action (Unit {0})
  unfolding check_map check_reassignments inventory_owned_entities apply_deletion
  delete_api_key caller id resolutions = do
    refuse_if (lacks_key_scope caller.key) (forbidden Message.permission_denied)
    refuse_if (id == caller.key.id) (forbidden Message.cannot_delete_yourself)
    target ← find_administrable_key o caller.key id
    lift (guard_master_target caller.key target)
    lift (guard_master_immutable target (codes "deleted"))
    subtree ← collect_key_subtree o id
    refuse_if (contains caller.key.id subtree) (conflict Message.subtree_cycle)
    inventory ← inventory_owned_entities subtree
    lift (check_map target id subtree inventory resolutions)
    check_reassignments subtree resolutions
    apply_deletion caller target id subtree inventory resolutions
