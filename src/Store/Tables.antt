-- ===== src/Store/Tables.antt =====
-- The statements that the handlers issue, as functions of the tables, with the constraints that
-- src/migration declares: primary keys, unique columns, and what a deleted row takes with it.
use simply_firewall.Prelude.{
  ℕ, Bool, not, ◌&&◌, ◌||◌, Option, none, List, [], ◌∷◌, ◌++◌, map, Text, text_eq, ◌==◌,
  if◌then◌else◌, keep, find, any, contains, length, is_some, is_some_and,
}
use simply_firewall.Entities.{Uuid, ApiKey, Permission, IpGroup, WebhookConfig}
use simply_firewall.Error.{DbErr}
use simply_firewall.Store.{AuditLog, Db, Written, stored, refused}

abbrev pub key_by_id : Uuid → Db → Option ApiKey
key_by_id id db = find (λ k. k.id == id) db.api_keys

abbrev pub group_by_id : Uuid → Db → Option IpGroup
group_by_id id db = find (λ g. g.id == id) db.groups

abbrev pub group_by_name : Text → Db → Option IpGroup
group_by_name name db = find (λ g. text_eq g.name name) db.groups

-- The row of a key on a group, unique by `idx-akgp-api_key_id-group_id`.
abbrev pub permission_of : (key group : Uuid) → Db → Option Permission
permission_of key group db = find (λ p. p.api_key_id == key && p.group_id == group) db.permissions

-- A column whose value is among some identifiers; NULL is among none.
abbrev pub is_in : List Uuid → Option Uuid → Bool
is_in ids c = is_some_and c (λ id. contains id ids)

-- The unique columns of `api_keys`: `id`, `key_hash`, and `master_marker`, which is NULL on every
-- row but a master's.
unfoldable pub insert_key : ApiKey → Db → Written (Unit {0})
insert_key row db =
    if any
      (λ k. k.id == row.id || text_eq k.key_hash row.key_hash || (k.is_master && row.is_master))
      db.api_keys
    then refused DbErr.unique_violation
    else stored tt (record db { api_keys = db.api_keys ++ row ∷ [] })

abbrev pub update_row : Uuid → (ApiKey → ApiKey) → ApiKey → ApiKey
update_row id f k = if k.id == id then f k else k

-- `active.update(db)`, which fails if there is no row to update.
unfoldable pub update_key : Uuid → (ApiKey → ApiKey) → Db → Written (Unit {0})
update_key id f db =
    if is_some (key_by_id id db)
    then stored tt (record db { api_keys = map (update_row id f) db.api_keys })
    else refused DbErr.record_not_updated

-- The same with a new `key_hash`, which no other row may have.
unfoldable pub update_key_hash : Uuid → Text → (ApiKey → ApiKey) → Db → Written (Unit {0})
unfolding update_key
update_key_hash id hash f db =
    if any (λ k. not (k.id == id) && text_eq k.key_hash hash) db.api_keys
    then refused DbErr.unique_violation
    else update_key id f db

abbrev pub forget_key : List Uuid → AuditLog → AuditLog
forget_key ids a = if is_in ids a.api_key_id then record a { api_key_id = none } else a

-- `DELETE FROM api_keys WHERE id IN (…)`: grants go with the key, audit rows forget it. The owner
-- and parent columns have no foreign key and stay.
unfoldable pub delete_keys : List Uuid → Db → Written ℕ
delete_keys ids db = stored (length (keep (λ k. contains k.id ids) db.api_keys)) (record db {
  api_keys = keep (λ k. not (contains k.id ids)) db.api_keys;
  permissions = keep (λ p. not (contains p.api_key_id ids)) db.permissions;
  audit_logs = map (forget_key ids) db.audit_logs;
})

unfoldable pub insert_group : IpGroup → Db → Written (Unit {0})
insert_group row db =
    if any (λ g. g.id == row.id || text_eq g.name row.name) db.groups
    then refused DbErr.unique_violation
    else stored tt (record db { groups = db.groups ++ row ∷ [] })

-- `on_conflict(OnConflict::column(Name).do_nothing())`
unfoldable pub insert_group_or_skip : IpGroup → Db → Written (Unit {0})
unfolding insert_group
insert_group_or_skip row db =
    if is_some (group_by_name row.name db) then stored tt db else insert_group row db

abbrev pub set_owner : Uuid → Option Uuid → IpGroup → IpGroup
set_owner id owner g = if g.id == id then record g { owner_key_id = owner } else g

abbrev pub set_webhook_owner : Uuid → Option Uuid → WebhookConfig → WebhookConfig
set_webhook_owner id owner h = if h.id == id then record h { owner_key_id = owner } else h

-- `update_many` on the owner column: no row to update is no error.
unfoldable pub update_group_owner : Uuid → Option Uuid → Db → Written (Unit {0})
update_group_owner id owner db =
    stored tt (record db { groups = map (set_owner id owner) db.groups })

unfoldable pub update_webhook_owner : Uuid → Option Uuid → Db → Written (Unit {0})
update_webhook_owner id owner db =
    stored tt (record db { webhooks = map (set_webhook_owner id owner) db.webhooks })

-- `active.update(db)` on a group.
unfoldable pub reown_group : Uuid → Option Uuid → Db → Written (Unit {0})
unfolding update_group_owner
reown_group id owner db =
    if is_some (group_by_id id db)
    then update_group_owner id owner db
    else refused DbErr.record_not_updated

abbrev pub on_group : Uuid → WebhookConfig → Bool
on_group id h = h.group_id == id

-- `DELETE FROM ip_groups WHERE id = …`: grants, memberships and webhooks of the group go with it,
-- and the executions of those webhooks.
unfoldable pub delete_group : Uuid → Db → Written ℕ
delete_group id db = stored (length (keep (λ g. g.id == id) db.groups)) (record db {
  groups = keep (λ g. not (g.id == id)) db.groups;
  permissions = keep (λ p. not (p.group_id == id)) db.permissions;
  memberships = keep (λ m. not (m.group_id == id)) db.memberships;
  webhooks = keep (λ h. not (on_group id h)) db.webhooks;
  executions =
      keep (λ x. not (any (λ h. on_group id h && h.id == x.webhook_id) db.webhooks)) db.executions;
})

unfoldable pub delete_webhook : Uuid → Db → Written ℕ
delete_webhook id db = stored (length (keep (λ h. h.id == id) db.webhooks)) (record db {
  webhooks = keep (λ h. not (h.id == id)) db.webhooks;
  executions = keep (λ x. not (x.webhook_id == id)) db.executions;
})

-- A grant refers to a key and to a group.
abbrev pub grant_refers : Permission → Db → Bool
grant_refers row db = is_some (key_by_id row.api_key_id db) && is_some (group_by_id row.group_id db)

unfoldable pub insert_permission : Permission → Db → Written (Unit {0})
insert_permission row db =
    if any (λ p. p.id == row.id || (p.api_key_id == row.api_key_id && p.group_id == row.group_id))
      db.permissions
    then refused DbErr.unique_violation
    else if grant_refers row db
    then stored tt (record db { permissions = db.permissions ++ row ∷ [] })
    else refused DbErr.foreign_key_violation

abbrev pub set_verbs : Permission → Permission → Permission
set_verbs row p =
    if p.api_key_id == row.api_key_id && p.group_id == row.group_id
    then record p {
      can_read = row.can_read;
      can_write = row.can_write;
      can_delete = row.can_delete;
      can_manage = row.can_manage;
    }
    else p

-- `on_conflict([ApiKeyId, GroupId]).update_columns([CanRead, CanWrite, CanDelete, CanManage])`
unfoldable pub upsert_permission : Permission → Db → Written (Unit {0})
unfolding insert_permission
upsert_permission row db =
    if is_some (permission_of row.api_key_id row.group_id db)
    then stored tt (record db { permissions = map (set_verbs row) db.permissions })
    else insert_permission row db

unfoldable pub delete_permission : (key group : Uuid) → Db → Written ℕ
delete_permission key group db =
    stored (length (keep (λ p. p.api_key_id == key && p.group_id == group) db.permissions))
      (record db {
        permissions = keep (λ p. not (p.api_key_id == key && p.group_id == group)) db.permissions;
      })

unfoldable pub insert_audit_log : AuditLog → Db → Written (Unit {0})
insert_audit_log row db =
    if any (λ a. a.id == row.id) db.audit_logs
    then refused DbErr.unique_violation
    else if is_some_and row.api_key_id (λ id. not (is_some (key_by_id id db)))
    then refused DbErr.foreign_key_violation
    else stored tt (record db { audit_logs = db.audit_logs ++ row ∷ [] })
