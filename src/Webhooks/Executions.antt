-- ===== src/Webhooks/Executions.antt =====
-- src/api/webhooks.rs: `delete_webhook_execution`.
use simply_firewall.Prelude.{not, Option, none, some, find, if◌then◌else◌, ◌==◌, is_some_and}
use simply_firewall.Entities.{Uuid, ApiKey, WebhookExecution}
use simply_firewall.Error.{not_found}
use simply_firewall.Outside.{Outside}
use simply_firewall.Store.{
  AuditAction, Details, Db, Action, pure, ok_or, ◌>>=◌, ◌>>◌, refuse_if, execute, query,
}
use simply_firewall.Store.Aged.{delete_executions}
use simply_firewall.Support.{Caller, create_audit_log}
use simply_firewall.Webhooks.{webhook_by_id, owns, require_webhook_scope}

abbrev pub execution_by_id : Uuid → Db → Option WebhookExecution
execution_by_id id db = find (λ x. x.id == id) db.executions

module _ (o : Outside) where
  -- An execution belongs to the owner of its webhook.
  unfoldable pub require_own_execution : ApiKey → WebhookExecution → Action (Unit {0})
  require_own_execution key execution = if key.is_master then pure tt else do
    webhook ← query o (webhook_by_id execution.webhook_id)
    refuse_if (not (is_some_and webhook (owns key))) not_found

  unfoldable pub delete_webhook_execution : Caller → Uuid → Action (Unit {0})
  delete_webhook_execution caller id = do
    require_webhook_scope o caller.key
    found ← query o (execution_by_id id)
    execution ← ok_or not_found found
    require_own_execution caller.key execution
    rows_affected ← execute o (delete_executions (λ x. x.id == id))
    refuse_if (rows_affected == 0) not_found
    create_audit_log o caller AuditAction.webhook_execution_delete none none
        (some (Details.execution_id id))
