-- ===== src/Webhooks/Manage.antt =====
-- src/api/webhooks.rs: the creation, cloning, listing, deletion and reassignment of webhooks.
use simply_firewall.Prelude.{
  nonempty, or_else, Bool, true, not, ◌&&◌, Option, none, some, map, List, [], ◌++◌, ◌∷◌, Text,
  if◌then◌else◌, ◌==◌, keep, is_empty, is_some, unwrap_or,
}
use simply_firewall.Entities.{Uuid, ApiKey, WebhookConfig}
use simply_firewall.Error.{DbErr, invalid_input, forbidden, not_found, Message}
use simply_firewall.Outside.{Outside}
use simply_firewall.Crypto.{generate_signing_secret}
use simply_firewall.Guards.{resource_owner, resolve_owner_assignment}
use simply_firewall.Store.{
  AuditAction, Details, Db, Written, stored, refused, Action, pure, lift, ok_or, ◌>>=◌, ◌>>◌,
  refuse_if, new_uuid, now, execute, query,
}
use simply_firewall.Store.Tables.{group_by_id}
use simply_firewall.Store.Tables
use simply_firewall.Support.{Caller, create_audit_log}
use simply_firewall.Dispatch.Modes.{
  AuthMode, api_key_only, canonical_v1, as_str, from_stored, requires_secret, same_mode,
}
use simply_firewall.Dispatch.Screen.{Url}
use simply_firewall.Webhooks.{
  WebhookSummary, summary_of, webhook_by_id, trimmed, is_privileged, check_target_url, check_events,
  check_template, parsed_mode, require_webhook_scope, find_own_webhook, require_group_read, owns,
}

pub record CreateWebhookPayload : Type 0 where
  pub name : Text
  pub target_url : Text
  pub secret_token : Option Text
  pub headers_json : Option Text
  pub payload_template : Text
  pub group_id : Uuid
  pub is_active : Option Bool
  pub events : Option Text
  pub auth_mode : Option Text
  pub signature_mode : Option Text
  pub api_key : Option Text
  pub hmac_template : Option Text
  pub signature_header : Option Text
  pub signature_prefix : Option Text

-- `Entity::insert`, with the primary key and the foreign key on the group.
unfoldable pub insert_webhook : WebhookConfig → Db → Written (Unit {0})
insert_webhook row db =
    if is_some (webhook_by_id row.id db)
    then refused DbErr.unique_violation
    else if is_some (group_by_id row.group_id db)
    then stored tt (record db { webhooks = db.webhooks ++ row ∷ [] })
    else refused DbErr.foreign_key_violation

unfoldable pub reown_webhook : Uuid → Option Uuid → Db → Written (Unit {0})
unfolding Tables.update_webhook_owner
reown_webhook id owner db =
    if is_some (webhook_by_id id db)
    then Tables.update_webhook_owner id owner db
    else refused DbErr.record_not_updated

module _ (o : Outside) where
  unfoldable pub create_webhook :
      (parse_url : Text → Option Url)
      → Caller
      → CreateWebhookPayload
      → Action (Uuid × Text × AuthMode)
  create_webhook parse_url caller payload = do
    require_webhook_scope o caller.key
    require_group_read o caller.key payload.group_id
    lift (check_target_url parse_url (some payload.target_url))
    lift (check_events payload.events)
    requested ← lift (parsed_mode (or_else payload.auth_mode payload.signature_mode))
    let auth_mode = unwrap_or requested canonical_v1
    let api_key = nonempty (trimmed payload.api_key)
    let hmac_template = nonempty payload.hmac_template
    let secret_token = unwrap_or payload.secret_token []
    refuse_if (requires_secret auth_mode && is_empty secret_token)
        (invalid_input Message.secret_required)
    refuse_if (same_mode auth_mode api_key_only && not (is_some api_key))
        (invalid_input Message.api_key_required)
    lift (check_template hmac_template)
    id ← new_uuid o
    created_at ← now o
    execute o (
        insert_webhook (record {
          id = id;
          name = payload.name;
          target_url = payload.target_url;
          secret_token = secret_token;
          auth_mode = as_str auth_mode;
          api_key = api_key;
          hmac_template = hmac_template;
          signature_header = nonempty (trimmed payload.signature_header);
          signature_prefix = payload.signature_prefix;
          headers_json = payload.headers_json;
          payload_template = payload.payload_template;
          group_id = payload.group_id;
          is_active = unwrap_or payload.is_active true;
          events = payload.events;
          owner_key_id = resource_owner caller.key;
          created_at = created_at;
        }))
    create_audit_log o caller AuditAction.webhook_create none none
        (some (Details.webhook_url payload.target_url))
    pure (id, payload.target_url, auth_mode)

  -- The secret of a clone is never its source's.
  unfoldable pub clone_secret : AuthMode → Action (Option Text)
  clone_secret mode =
      if requires_secret mode
      then (do secret ← generate_signing_secret o; pure (some secret))
      else pure none

  unfoldable pub clone_webhook :
      Caller → Uuid → (name : Text) → Action (WebhookSummary × Option Text)
  unfolding clone_secret
  clone_webhook caller id name = do
    source ← find_own_webhook o caller.key id
    require_group_read o caller.key source.group_id
    refuse_if (is_privileged source && not caller.key.is_master)
        (forbidden Message.privileged_clone)
    let auth_mode = from_stored source.auth_mode
    generated_secret ← clone_secret auth_mode
    new_id ← new_uuid o
    created_at ← now o
    let cloned = record source {
      id = new_id;
      name = name;
      secret_token = unwrap_or generated_secret [];
      auth_mode = as_str auth_mode;
      owner_key_id = resource_owner caller.key;
      created_at = created_at;
    }
    execute o (insert_webhook cloned)
    create_audit_log o caller AuditAction.webhook_clone none none
        (some (Details.webhook_cloned source.name source.id name new_id))
    pure (summary_of cloned, generated_secret)

  unfoldable pub list_webhooks : ApiKey → Action (List WebhookSummary)
  list_webhooks key = do
    require_webhook_scope o key
    webhooks ← query o (λ db. if key.is_master then db.webhooks else keep (owns key) db.webhooks)
    pure (map summary_of webhooks)

  unfoldable pub delete_webhook : Caller → Uuid → Action (Unit {0})
  delete_webhook caller id = do
    _ ← find_own_webhook o caller.key id
    rows_affected ← execute o (Tables.delete_webhook id)
    refuse_if (rows_affected == 0) not_found
    create_audit_log o caller AuditAction.webhook_delete none none (some (Details.webhook_id id))

  unfoldable pub reassign_webhook_owner : Caller → Uuid → Option Uuid → Action (Uuid × Option Uuid)
  reassign_webhook_owner caller id requested = do
    refuse_if (not caller.key.is_master) (forbidden Message.master_only_reassign)
    found ← query o (webhook_by_id id)
    webhook ← ok_or not_found found
    owner ← resolve_owner_assignment o requested
    execute o (reown_webhook id owner)
    create_audit_log o caller AuditAction.webhook_owner_reassign none none
        (some (Details.webhook_owner webhook.name owner))
    pure (id, owner)
