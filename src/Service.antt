-- ===== src/Service.antt =====
-- src/lib.rs: `create_app`, the table of routes, for the endpoints on keys, groups, IP records
-- and webhooks that are modelled; each request comes with the key that the middleware authenticated for it.
pub mod Credentials
pub mod Others
pub mod Writers
pub mod Deletion
pub mod OnRecords
pub mod OnWebhooks
pub mod Safety
use simply_firewall.Prelude.{ℕ, ℤ, Bool, Option, Text, List, [], ◌∷◌}
use simply_firewall.Error.{Result}
use simply_firewall.Entities.{Uuid, IpGroup}
use simply_firewall.Outside.{Outside}
use simply_firewall.Store.{World, Action, pure, ◌>>=◌}
use simply_firewall.Guards.{GroupPermInput}
use simply_firewall.Support.{Caller}
use simply_firewall.Keys.Listing.{MeResponse, ApiKeySummary, get_me, list_api_keys}
use simply_firewall.Keys.Create.{CreateApiKeyPayload, CreateApiKeyResponse, create_api_key}
use simply_firewall.Keys.Update.{UpdateApiKeyPayload, update_api_key}
use simply_firewall.Keys.Rotate.{
  RotateKeyResponse, RotateSigningSecretResponse, rotate_api_key, rotate_signing_secret,
}
use simply_firewall.Keys.Grants.{update_key_group_permissions, revoke_key_group_permission}
use simply_firewall.Keys.Delete.{ResolutionEntry, delete_api_key}
use simply_firewall.Groups.{
  CreateIpGroupPayload, CreatedGroup, create_ip_group, list_ip_groups, delete_ip_group,
  reassign_group_owner,
}
use simply_firewall.Dispatch.Modes.{AuthMode}
use simply_firewall.Dispatch.Prepare.{WebhookEvent}
use simply_firewall.Dispatch.Screen.{Url}
use simply_firewall.Records.{
  Cidrs, DeleteIpQuery, Removal, delete_ip, delete_ip_record, restore_ip_record, purge_ip_records,
}
use simply_firewall.Webhooks.{WebhookSummary}
use simply_firewall.Webhooks.Executions.{delete_webhook_execution}
use simply_firewall.Webhooks.Edit.{UpdateWebhookPayload, UpdateWebhookResponse, update_webhook}
use simply_firewall.Webhooks.Manage.{
  CreateWebhookPayload, create_webhook, clone_webhook, list_webhooks, delete_webhook,
  reassign_webhook_owner,
}

-- The parsers that the routes use, and the configured window of the purge.
pub record Parsers : Type 1 where
  pub parse_url : Text → Option Url
  pub cidrs : Cidrs
  pub retention_days : ℤ

pub data Request : Type 0 where
  show_me list_keys : Request
  post_key : CreateApiKeyPayload → Request
  put_key : Uuid → UpdateApiKeyPayload → Request
  delete_key : Uuid → List ResolutionEntry → Request
  rotate_key rotate_secret : Uuid → Request
  post_permission : Uuid → GroupPermInput → Request
  delete_permission : Uuid → (identifier : Text) → Request
  list_groups : Request
  post_group : CreateIpGroupPayload → Request
  delete_group : Uuid → Request
  put_group_owner : Uuid → Option Uuid → Request
  delete_ips : DeleteIpQuery → Result DeleteIpQuery → Request
  delete_record : Uuid → (hard : Option Bool) → Request
  restore_record : Uuid → Request
  purge_ips : Result (Option ℤ) → Request
  post_webhook : CreateWebhookPayload → Request
  get_webhooks : Request
  put_webhook : Uuid → UpdateWebhookPayload → Request
  remove_webhook : Uuid → Request
  put_webhook_owner : Uuid → Option Uuid → Request
  post_clone : Uuid → (name : Text) → Request
  delete_execution : Uuid → Request

pub data Response : Type 0 where
  done : Response
  me : MeResponse → Response
  key_list : List ApiKeySummary → Response
  key_created : CreateApiKeyResponse → Response
  key_updated : ApiKeySummary → Response
  key_rotated : RotateKeyResponse → Response
  secret_rotated : RotateSigningSecretResponse → Response
  group_list : List IpGroup → Response
  group_created : CreatedGroup → Response
  group_owner : Uuid × Option Uuid → Response
  ip_deleted : WebhookEvent → Response
  record_deleted : Removal → Response
  record_restored : Uuid → Response
  purged : ℕ × ℤ → Response
  webhook_created : Uuid × Text × AuthMode → Response
  webhook_list : List WebhookSummary → Response
  webhook_updated : UpdateWebhookResponse → Response
  webhook_owner : Uuid × Option Uuid → Response
  webhook_cloned : WebhookSummary × Option Text → Response

unfoldable pub responding : {A : Type 0} → (A → Response) → Action A → Action Response
responding f m = m >>= λ a. pure (f a)

module _ (o : Outside) (parsers : Parsers) where
  unfoldable pub handle : Caller → Request → Action Response
  unfolding responding
  handle caller show_me = responding me (get_me o caller.key)
  handle caller list_keys = responding key_list (list_api_keys o caller.key)
  handle caller (post_key payload) = responding key_created (create_api_key o caller payload)
  handle caller (put_key id payload) = responding key_updated (update_api_key o caller id payload)
  handle caller (delete_key id entries) =
      responding (λ _. done) (delete_api_key o caller id entries)
  handle caller (rotate_key id) = responding key_rotated (rotate_api_key o caller id)
  handle caller (rotate_secret id) = responding secret_rotated (rotate_signing_secret o caller id)
  handle caller (post_permission id payload) =
      responding (λ _. done) (update_key_group_permissions o caller id payload)
  handle caller (delete_permission id identifier) =
      responding (λ _. done) (revoke_key_group_permission o caller id identifier)
  handle caller list_groups = responding group_list (list_ip_groups o caller.key)
  handle caller (post_group payload) = responding group_created (create_ip_group o caller payload)
  handle caller (delete_group id) = responding (λ _. done) (delete_ip_group o caller id)
  handle caller (put_group_owner id owner) =
      responding group_owner (reassign_group_owner o caller id owner)
  handle caller (delete_ips query_params body) =
      responding ip_deleted (delete_ip o parsers.cidrs caller query_params body)
  handle caller (delete_record id hard) =
      responding record_deleted (delete_ip_record o caller id hard)
  handle caller (restore_record id) = responding record_restored (restore_ip_record o caller id)
  handle caller (purge_ips body) =
      responding purged (purge_ip_records o parsers.retention_days caller body)
  handle caller (post_webhook payload) =
      responding webhook_created (create_webhook o parsers.parse_url caller payload)
  handle caller get_webhooks = responding webhook_list (list_webhooks o caller.key)
  handle caller (put_webhook id payload) =
      responding webhook_updated (update_webhook o parsers.parse_url caller id payload)
  handle caller (remove_webhook id) = responding (λ _. done) (delete_webhook o caller id)
  handle caller (put_webhook_owner id owner) =
      responding webhook_owner (reassign_webhook_owner o caller id owner)
  handle caller (delete_execution id) =
      responding (λ _. done) (delete_webhook_execution o caller id)
  handle caller (post_clone id name) = responding webhook_cloned (clone_webhook o caller id name)

  -- The requests of a run, one after another; a failed one does not stop the next.
  unfoldable pub serve : List (Caller × Request) → World → World
  unfolding handle
  serve [] w = w
  serve ((caller, request) ∷ rest) w = serve rest (handle caller request w).1
