-- ===== src/Webhooks/Edit.antt =====
-- src/api/webhooks.rs: `update_webhook`.
pub mod Vouching
pub mod Updated
use simply_firewall.Prelude.{
  nonempty, or_else, ℕ, Bool, true, false, not, ◌&&◌, ◌||◌, Option, none, some, map, Text, text_eq,
  trim, if◌then◌else◌, ◌==◌, is_empty, is_some, is_some_and, unwrap_or,
}
use simply_firewall.Entities.{Uuid, ApiKey, WebhookConfig}
use simply_firewall.Error.{DbErr, Result, invalid_input, forbidden, Message}
use simply_firewall.Outside.{Outside}
use simply_firewall.Crypto.{generate_signing_secret}
use simply_firewall.Store.{
  AuditAction, Details, Db, Written, stored, refused, Action, pure, lift, ◌>>=◌, ◌>>◌, refuse_if,
  execute,
}
use simply_firewall.Store.Tables.{group_by_id}
use simply_firewall.Support.{Caller, create_audit_log}
use simply_firewall.Dispatch.Modes.{
  AuthMode, api_key_only, as_str, from_stored, requires_secret, same_mode,
}
use simply_firewall.Dispatch.Screen.{Url}
use simply_firewall.Webhooks.{
  WebhookSummary, summary_of, webhook_by_id, trimmed, is_privileged, effective_template,
  check_target_url, check_events, check_template, parsed_mode, find_own_webhook, require_group_read,
}

pub record UpdateWebhookPayload : Type 0 where
  pub name : Option Text
  pub target_url : Option Text
  pub hmac_template : Option Text
  pub secret_token : Option Text
  pub headers_json : Option Text
  pub payload_template : Option Text
  pub events : Option Text
  pub is_active : Option Bool
  pub group_id : Option Uuid
  pub auth_mode : Option Text
  pub api_key : Option Text
  pub signature_header : Option Text
  pub signature_prefix : Option Text

pub record UpdateWebhookResponse : Type 0 where
  pub webhook : WebhookSummary
  pub secret_rotated : Bool
  pub secret_token : Option Text

-- `secret_token` and `generated_secret` of the update.
pub record Replacement : Type 0 where
  pub new_secret : Option Text
  pub generated : Option Text

abbrev pub replaces : Option Text → Text → Bool
replaces x old = is_some_and x (λ t. not (text_eq t old))

module _ (target : WebhookConfig) (payload : UpdateWebhookPayload)
    (requested : Option AuthMode) where
  abbrev pub current_mode : AuthMode
  current_mode = from_stored target.auth_mode

  abbrev pub effective_mode : AuthMode
  effective_mode = unwrap_or requested current_mode

  abbrev pub is_repointed : Bool
  is_repointed =
      replaces payload.target_url target.target_url
      || replaces (nonempty payload.hmac_template) (effective_template target)
      || is_some_and requested (λ m. not (same_mode m current_mode))

  -- A blank key clears the stored one.
  abbrev pub new_api_key : Option Text
  new_api_key =
      if is_some payload.api_key then nonempty (trimmed payload.api_key) else target.api_key

  abbrev pub must_rotate : Bool
  must_rotate = is_repointed && requires_secret effective_mode

-- What the active model sets.
abbrev pub set_or_keep : Option Text → Option Text → Option Text
set_or_keep none old = old
set_or_keep (some t) old = nonempty (some t)

abbrev pub mode_text : Option AuthMode → Text → Text
mode_text none old = old
mode_text (some mode) old = as_str mode

abbrev pub edited :
    UpdateWebhookPayload
    → Option AuthMode
    → (new_secret api_key : Option Text) → WebhookConfig
    → WebhookConfig
edited payload requested new_secret api_key w = record w {
  name = unwrap_or payload.name w.name;
  target_url = unwrap_or payload.target_url w.target_url;
  hmac_template = set_or_keep payload.hmac_template w.hmac_template;
  headers_json = or_else payload.headers_json w.headers_json;
  payload_template = unwrap_or payload.payload_template w.payload_template;
  events = or_else payload.events w.events;
  is_active = unwrap_or payload.is_active w.is_active;
  secret_token = unwrap_or new_secret w.secret_token;
  group_id = unwrap_or payload.group_id w.group_id;
  auth_mode = mode_text requested w.auth_mode;
  api_key = api_key;
  signature_header = set_or_keep (trimmed payload.signature_header) w.signature_header;
  signature_prefix = or_else payload.signature_prefix w.signature_prefix;
}

abbrev pub edit_at : Uuid → (WebhookConfig → WebhookConfig) → WebhookConfig → WebhookConfig
edit_at id f w = if w.id == id then f w else w

-- `active.update(db)`, with the foreign key on the group.
unfoldable pub update_webhook_row :
    (id : Uuid) (f : WebhookConfig → WebhookConfig) → Db → Written (Unit {0})
update_webhook_row id f db =
    if not (is_some (webhook_by_id id db))
    then refused DbErr.record_not_updated
    else if is_some_and (webhook_by_id id db) (λ w. is_some (group_by_id (f w).group_id db))
    then stored tt (record db { webhooks = map (edit_at id f) db.webhooks })
    else refused DbErr.foreign_key_violation

module _ (o : Outside) where
  unfoldable pub guard_retarget : ApiKey → WebhookConfig → Option Uuid → Action (Unit {0})
  guard_retarget key target none = pure tt
  guard_retarget key target (some group) =
      if not (group == target.group_id) then require_group_read o key group else pure tt

  unfoldable pub replacement : (must : Bool) (supplied : Option Text) → Action Replacement
  replacement must (some supplied) = pure (record { new_secret = some supplied; generated = none })
  replacement true none = do
    secret ← generate_signing_secret o
    pure (record { new_secret = some secret; generated = some secret })
  replacement false none = pure (record { new_secret = none; generated = none })

  unfoldable pub update_webhook :
      (parse_url : Text → Option Url)
      → Caller
      → Uuid
      → UpdateWebhookPayload
      → Action UpdateWebhookResponse
  unfolding guard_retarget replacement
  update_webhook parse_url caller id payload = do
    target ← find_own_webhook o caller.key id
    lift (check_target_url parse_url payload.target_url)
    lift (check_events payload.events)
    lift (check_template payload.hmac_template)
    guard_retarget caller.key target payload.group_id
    requested ← lift (parsed_mode payload.auth_mode)
    refuse_if
        ((is_repointed target payload requested || is_some payload.api_key)
          && is_privileged target
          && not caller.key.is_master)
        (forbidden Message.privileged_edit)
    let api_key = new_api_key target payload requested
    let mode = effective_mode target payload requested
    refuse_if (same_mode mode api_key_only && not (is_some api_key))
        (invalid_input Message.api_key_required)
    let rotate = must_rotate target payload requested
    secret ← replacement rotate (nonempty (trimmed payload.secret_token))
    refuse_if
        (requires_secret mode
          && not (is_some secret.new_secret || not (is_empty target.secret_token)))
        (invalid_input Message.secret_required)
    let change = edited payload requested secret.new_secret api_key
    execute o (update_webhook_row id change)
    create_audit_log o caller AuditAction.webhook_update none none
        (some (Details.webhook_updated (change target).name rotate))
    pure (record {
      webhook = summary_of (change target);
      secret_rotated = rotate;
      secret_token = secret.generated;
    })
