-- ===== src/Webhooks.antt =====
-- src/api/webhooks.rs: what the endpoints on webhooks share. The URL parser is a parameter.
pub mod Edit
pub mod Manage
pub mod Executions
pub mod Cloned
pub mod Visibility
use simply_firewall.Prelude.{
  ℕ, Bool, true, false, not, ◌&&◌, ◌||◌, Option, none, some, List, [], ◌∷◌, map, Text, codes,
  text_eq, split, trim, starts_with, if◌then◌else◌, ◌==◌, any, find, keep, is_empty, is_some,
  is_some_and, unwrap_or,
}
use simply_firewall.Entities.{Uuid, DateTime, ApiKey, Permission, WebhookConfig}
use simply_firewall.Error.{AppError, Result, ok, err, invalid_input, forbidden, not_found, Message}
use simply_firewall.Outside.{Outside}
use simply_firewall.Store.{Db, Action, pure, raise, lift, ok_or, ◌>>=◌, ◌>>◌, refuse_if, query}
use simply_firewall.Guards.{caller_group_permission}
use simply_firewall.Dispatch.Modes.{AuthMode, parse_mode, from_stored, as_str}
use simply_firewall.Dispatch.Templates.{default_hmac_template}
use simply_firewall.Dispatch.Prepare.{default_signature_header, default_signature_prefix}
use simply_firewall.Dispatch.Screen.{Url}

abbrev pub ip_event_actions : List Text
ip_event_actions = codes "IP_ADD" ∷ codes "IP_UPDATE" ∷ codes "IP_DELETE" ∷ []

abbrev pub webhook_by_id : Uuid → Db → Option WebhookConfig
webhook_by_id id db = find (λ h. h.id == id) db.webhooks

-- `str::contains`
unfoldable pub contains_text : (text part : Text) → Bool
contains_text [] part = is_empty part
contains_text (c ∷ text) part =
    let later = contains_text text part in starts_with (c ∷ text) part || later

abbrev pub trimmed : Option Text → Option Text
trimmed none = none
trimmed (some s) = some (trim s)

-- A webhook whose dispatches carry a credential of another system.
abbrev pub is_privileged : WebhookConfig → Bool
is_privileged h = is_some_and h.api_key (λ k. not (is_empty k))

abbrev pub effective_template : WebhookConfig → Text
effective_template h = unwrap_or h.hmac_template default_hmac_template

-- What a webhook's summary shows: no secret, and no key.
pub record WebhookSummary : Type 0 where
  pub id : Uuid
  pub name : Text
  pub target_url : Text
  pub headers_json : Option Text
  pub payload_template : Text
  pub group_id : Uuid
  pub is_active : Bool
  pub events : Option Text
  pub auth_mode : Text
  pub hmac_template : Text
  pub has_api_key : Bool
  pub signature_header : Text
  pub signature_prefix : Text
  pub created_at : DateTime

unfoldable pub summary_of : WebhookConfig → WebhookSummary
summary_of w = record {
  id = w.id;
  name = w.name;
  target_url = w.target_url;
  headers_json = w.headers_json;
  payload_template = w.payload_template;
  group_id = w.group_id;
  is_active = w.is_active;
  events = w.events;
  auth_mode = as_str (from_stored w.auth_mode);
  hmac_template = effective_template w;
  has_api_key = is_privileged w;
  signature_header = unwrap_or w.signature_header default_signature_header;
  signature_prefix = unwrap_or w.signature_prefix default_signature_prefix;
  created_at = w.created_at;
}

check_parsed : Option Url → Result (Unit {0})
check_parsed none = err (invalid_input Message.target_url_malformed)
check_parsed (some url) =
    if not (text_eq url.scheme (codes "http")) && not (text_eq url.scheme (codes "https"))
    then err (invalid_input Message.target_url_scheme)
    else if is_some url.host
    then ok tt
    else err (invalid_input Message.target_url_host)

check_tokens : List Text → Result (Unit {0})
check_tokens [] = ok tt
check_tokens (token ∷ rest) =
    let later = check_tokens rest in
    if not (any (text_eq token) ip_event_actions)
    then err (invalid_input (Message.invalid_event token))
    else later

unfoldable pub check_events : Option Text → Result (Unit {0})
unfolding check_tokens
check_events none = ok tt
check_events (some events) = check_tokens (map trim (split b',' events))

unfoldable pub check_template : Option Text → Result (Unit {0})
check_template none = ok tt
check_template (some template) =
    if not (contains_text template (codes "{body}"))
    then err (invalid_input Message.template_without_body)
    else ok tt

mode_or_error : Text → Option AuthMode → Result (Option AuthMode)
mode_or_error raw none = err (invalid_input (Message.invalid_auth_mode raw))
mode_or_error raw (some mode) = ok (some mode)

unfoldable pub parsed_mode : Option Text → Result (Option AuthMode)
unfolding mode_or_error
parsed_mode none = ok none
parsed_mode (some raw) = mode_or_error raw (parse_mode raw)

module _ (parse_url : Text → Option Url) where
  unfoldable pub check_target_url : Option Text → Result (Unit {0})
  unfolding check_parsed
  check_target_url none = ok tt
  check_target_url (some url) = check_parsed (parse_url url)

abbrev pub owns : ApiKey → WebhookConfig → Bool
owns key h = is_some_and h.owner_key_id (λ id. id == key.id)

abbrev can_read_rows : Option Permission → Bool
can_read_rows perm = is_some_and perm (λ p. p.can_read)

module _ (o : Outside) where
  unfoldable pub require_webhook_scope : ApiKey → Action (Unit {0})
  require_webhook_scope key =
      refuse_if (not key.is_master && not key.can_manage_webhooks)
        (forbidden Message.permission_denied)

  -- The webhook that the caller may act on. One of another key is reported as absent.
  unfoldable pub find_own_webhook : ApiKey → Uuid → Action WebhookConfig
  unfolding require_webhook_scope
  find_own_webhook key id = do
    require_webhook_scope key
    found ← query o (webhook_by_id id)
    target ← ok_or not_found found
    refuse_if (not key.is_master && not (owns key target)) not_found
    pure target

  unfoldable pub require_group_read : ApiKey → (group : Uuid) → Action (Unit {0})
  require_group_read key group = if key.is_master then pure tt else do
    perm ← caller_group_permission o key.id group
    refuse_if (not (can_read_rows perm)) (forbidden Message.no_group_read)
