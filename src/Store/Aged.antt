-- ===== src/Store/Aged.antt =====
-- The statements on IP records, their memberships and the executions of webhooks.
use simply_firewall.Prelude.{
  ℕ, Bool, not, ◌&&◌, Option, map, Text, text_eq, ◌==◌, if◌then◌else◌, keep, find, any, length,
  is_some,
}
use simply_firewall.Entities.{Uuid, IpRecord, Membership, WebhookExecution}
use simply_firewall.Error.{DbErr}
use simply_firewall.Store.{Db, Written, stored, refused}

abbrev pub record_by_id : Uuid → Db → Option IpRecord
record_by_id id db = find (λ r. r.id == id) db.ip_records

abbrev pub record_by_address : Text → Db → Option IpRecord
record_by_address address db = find (λ r. text_eq r.target_address address) db.ip_records

-- `DELETE FROM ip_records WHERE …`: the memberships of a row go with it.
abbrev pub without_records : (IpRecord → Bool) → Db → Db
without_records p db = record db {
  ip_records = keep (λ r. not (p r)) db.ip_records;
  memberships =
      keep (λ m. not (any (λ r. p r && r.id == m.ip_record_id) db.ip_records)) db.memberships;
}

unfoldable pub delete_records : (IpRecord → Bool) → Db → Written ℕ
delete_records p db = stored (length (keep p db.ip_records)) (without_records p db)

abbrev pub update_record_at : Uuid → (IpRecord → IpRecord) → IpRecord → IpRecord
update_record_at id f r = if r.id == id then f r else r

-- `active.update(db)`
unfoldable pub update_record : Uuid → (IpRecord → IpRecord) → Db → Written (Unit {0})
update_record id f db =
    if is_some (record_by_id id db)
    then stored tt (record db { ip_records = map (update_record_at id f) db.ip_records })
    else refused DbErr.record_not_updated

abbrev pub is_membership : (record_id group : Uuid) → Membership → Bool
is_membership record_id group m = m.ip_record_id == record_id && m.group_id == group

-- `delete_by_id((record.id, group.id))`
unfoldable pub delete_membership : (record_id group : Uuid) → Db → Written ℕ
delete_membership record_id group db =
    stored (length (keep (is_membership record_id group) db.memberships))
      (record db { memberships = keep (λ m. not (is_membership record_id group m)) db.memberships })

unfoldable pub delete_executions : (WebhookExecution → Bool) → Db → Written ℕ
delete_executions p db =
    stored (length (keep p db.executions))
      (record db { executions = keep (λ x. not (p x)) db.executions })
