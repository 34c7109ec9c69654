-- ===== src/Service/OnWebhooks.antt =====
-- The endpoints of src/api/webhooks.rs, against `Authority`.
use simply_firewall.Prelude.{ℕ, Bool, ◌≡◌, Option, Text, arith}
use simply_firewall.Entities.{Uuid, WebhookExecution, WebhookConfig}
use simply_firewall.Outside.{Outside}
use simply_firewall.Store.{Db, stored}
use simply_firewall.Store.OtherTables.{delete_webhook-keys}
use simply_firewall.Guards.Effects.{resolve_owner_assignment-Reads}
use simply_firewall.Store.Tables.{update_webhook_owner}
use simply_firewall.Support.{Caller}
use simply_firewall.Authority.Safe.{
  Safe, Safe-of_Reads, Safe-bind, Safe-pure, Safe-lift, Safe-ok_or, Safe-query, Safe-execute,
  Safe-refuse_if, Safe-new_uuid, Safe-now, Safe-create_audit_log,
}
use simply_firewall.Dispatch.Screen.{Url}
use simply_firewall.Store.Spec.{Spec-if}
use simply_firewall.Store.Aged.{delete_executions}
use simply_firewall.Webhooks.Executions.{require_own_execution, delete_webhook_execution}
use simply_firewall.Webhooks.Visibility.{
  find_own_webhook-Reads, require_webhook_scope-Reads, require_group_read-Reads,
}
use simply_firewall.Webhooks.Edit.{UpdateWebhookPayload, update_webhook_row, update_webhook}
use simply_firewall.Webhooks.Edit.Updated.{guard_retarget-Reads, replacement-Reads}
use simply_firewall.Webhooks.Cloned.{clone_secret-Reads}
use simply_firewall.Webhooks.Manage.{
  CreateWebhookPayload, insert_webhook, reown_webhook, create_webhook, clone_webhook, list_webhooks,
  delete_webhook, reassign_webhook_owner,
}

module _ {a : Unit {0}} (db db' : Db) where
  insert_webhook-keys :
      (row : WebhookConfig) → insert_webhook row db ≡ stored a db' → db'.api_keys ≡ db.api_keys
  unfolding insert_webhook
  insert_webhook-keys row e = ground arith

  update_webhook_row-keys :
      (id : Uuid) (f : WebhookConfig → WebhookConfig)
      → update_webhook_row id f db ≡ stored a db'
      → db'.api_keys ≡ db.api_keys
  unfolding update_webhook_row
  update_webhook_row-keys id f e = ground arith

  reown_webhook-keys :
      (id : Uuid) (owner : Option Uuid)
      → reown_webhook id owner db ≡ stored a db'
      → db'.api_keys ≡ db.api_keys
  unfolding reown_webhook update_webhook_owner
  reown_webhook-keys id owner e = ground arith

delete_executions-keys :
    {n : ℕ} (db db' : Db) (p : WebhookExecution → Bool)
    → delete_executions p db ≡ stored n db'
    → db'.api_keys ≡ db.api_keys
unfolding delete_executions
delete_executions-keys db db' p e = ground arith

module _ (o : Outside) (caller : Caller) where
  pub create_webhook-Safe :
      (parse_url : Text → Option Url) (payload : CreateWebhookPayload) (db : Db)
      → Safe caller.key (create_webhook o parse_url caller payload) db
  unfolding create_webhook
  create_webhook-Safe parse_url payload db =
      Safe-bind caller.key (Safe-of_Reads caller.key (require_webhook_scope-Reads o caller.key db))
        λ _ d1.
          Safe-bind caller.key
            (Safe-of_Reads caller.key (require_group_read-Reads o caller.key d1 _))
            λ _ d2. Safe-bind caller.key (Safe-lift caller.key d2 _) λ _ d3.
              Safe-bind caller.key (Safe-lift caller.key d3 _) λ _ d4.
                Safe-bind caller.key (Safe-lift caller.key d4 _) λ requested d5.
                  Safe-bind caller.key (Safe-refuse_if caller.key d5 _ _) λ _ d6.
                    Safe-bind caller.key (Safe-refuse_if caller.key d6 _ _) λ _ d7.
                      Safe-bind caller.key (Safe-lift caller.key d7 _) λ _ d8.
                        Safe-bind caller.key (Safe-new_uuid caller.key d8 o) λ id d9.
                          Safe-bind caller.key (Safe-now caller.key d9 o) λ t d10.
                            Safe-bind caller.key
                              (Safe-execute caller.key d10 o _
                                (λ _ d e. insert_webhook-keys d10 d _ e))
                              λ _ d11.
                                Safe-bind caller.key (Safe-create_audit_log o caller _ _ _ _ d11)
                                  λ _ d12. Safe-pure caller.key d12 _

  pub update_webhook-Safe :
      (parse_url : Text → Option Url) (id : Uuid) (payload : UpdateWebhookPayload) (db : Db)
      → Safe caller.key (update_webhook o parse_url caller id payload) db
  unfolding update_webhook
  update_webhook-Safe parse_url id payload db =
      Safe-bind caller.key (Safe-of_Reads caller.key (find_own_webhook-Reads o caller.key db id))
        λ target d1. Safe-bind caller.key (Safe-lift caller.key d1 _) λ _ d2.
          Safe-bind caller.key (Safe-lift caller.key d2 _) λ _ d3.
            Safe-bind caller.key (Safe-lift caller.key d3 _) λ _ d4.
              Safe-bind caller.key
                (Safe-of_Reads caller.key (guard_retarget-Reads o caller.key d4 target _))
                λ _ d5. Safe-bind caller.key (Safe-lift caller.key d5 _) λ requested d6.
                  Safe-bind caller.key (Safe-refuse_if caller.key d6 _ _) λ _ d7.
                    Safe-bind caller.key (Safe-refuse_if caller.key d7 _ _) λ _ d8.
                      Safe-bind caller.key
                        (Safe-of_Reads caller.key (replacement-Reads o caller.key d8 _ _))
                        λ secret d9.
                          Safe-bind caller.key (Safe-refuse_if caller.key d9 _ _) λ _ d10.
                            Safe-bind caller.key
                              (Safe-execute caller.key d10 o _
                                (λ _ d e. update_webhook_row-keys d10 d _ _ e))
                              λ _ d11.
                                Safe-bind caller.key (Safe-create_audit_log o caller _ _ _ _ d11)
                                  λ _ d12. Safe-pure caller.key d12 _

  pub clone_webhook-Safe :
      (id : Uuid) (name : Text) (db : Db) → Safe caller.key (clone_webhook o caller id name) db
  unfolding clone_webhook
  clone_webhook-Safe id name db =
      Safe-bind caller.key (Safe-of_Reads caller.key (find_own_webhook-Reads o caller.key db id))
        λ source d1.
          Safe-bind caller.key
            (Safe-of_Reads caller.key (require_group_read-Reads o caller.key d1 _))
            λ _ d2. Safe-bind caller.key (Safe-refuse_if caller.key d2 _ _) λ _ d3.
              Safe-bind caller.key (Safe-of_Reads caller.key (clone_secret-Reads o d3 _))
                λ secret d4. Safe-bind caller.key (Safe-new_uuid caller.key d4 o) λ new_id d5.
                  Safe-bind caller.key (Safe-now caller.key d5 o) λ t d6.
                    Safe-bind caller.key
                      (Safe-execute caller.key d6 o _ (λ _ d e. insert_webhook-keys d6 d _ e))
                      λ _ d7.
                        Safe-bind caller.key (Safe-create_audit_log o caller _ _ _ _ d7)
                          λ _ d8. Safe-pure caller.key d8 _

  pub list_webhooks-Safe : (db : Db) → Safe caller.key (list_webhooks o caller.key) db
  unfolding list_webhooks
  list_webhooks-Safe db =
      Safe-bind caller.key (Safe-of_Reads caller.key (require_webhook_scope-Reads o caller.key db))
        λ _ d1.
          Safe-bind caller.key (Safe-query caller.key d1 o _) λ rows d2. Safe-pure caller.key d2 _

  pub delete_webhook-Safe : (id : Uuid) (db : Db) → Safe caller.key (delete_webhook o caller id) db
  unfolding delete_webhook
  delete_webhook-Safe id db =
      Safe-bind caller.key (Safe-of_Reads caller.key (find_own_webhook-Reads o caller.key db id))
        λ _ d1.
          Safe-bind caller.key
            (Safe-execute caller.key d1 o _ (λ _ d e. delete_webhook-keys d1 d _ e))
            λ _ d2.
              Safe-bind caller.key (Safe-refuse_if caller.key d2 _ _)
                λ _ d3. Safe-create_audit_log o caller _ _ _ _ d3

  pub reassign_webhook_owner-Safe :
      (id : Uuid) (owner : Option Uuid) (db : Db)
      → Safe caller.key (reassign_webhook_owner o caller id owner) db
  unfolding reassign_webhook_owner
  reassign_webhook_owner-Safe id owner db =
      Safe-bind caller.key (Safe-refuse_if caller.key db _ _) λ _ d1.
        Safe-bind caller.key (Safe-query caller.key d1 o _) λ found d2.
          Safe-bind caller.key (Safe-ok_or caller.key d2 _ found) λ webhook d3.
            Safe-bind caller.key
              (Safe-of_Reads caller.key (resolve_owner_assignment-Reads o d3 owner))
              λ _ d4.
                Safe-bind caller.key
                  (Safe-execute caller.key d4 o _ (λ _ d e. reown_webhook-keys d4 d _ _ e))
                  λ _ d5.
                    Safe-bind caller.key (Safe-create_audit_log o caller _ _ _ _ d5)
                      λ _ d6. Safe-pure caller.key d6 _

  require_own_execution-Safe :
      (execution : WebhookExecution) (db : Db)
      → Safe caller.key (require_own_execution o caller.key execution) db
  unfolding require_own_execution
  require_own_execution-Safe execution db =
      Spec-if db caller.key.is_master _ _ (λ _. Safe-pure caller.key db _)
        λ _.
          Safe-bind caller.key (Safe-query caller.key db o _)
            λ _ d1. Safe-refuse_if caller.key d1 _ _

  pub delete_webhook_execution-Safe :
      (id : Uuid) (db : Db) → Safe caller.key (delete_webhook_execution o caller id) db
  unfolding delete_webhook_execution
  delete_webhook_execution-Safe id db =
      Safe-bind caller.key (Safe-of_Reads caller.key (require_webhook_scope-Reads o caller.key db))
        λ _ d1. Safe-bind caller.key (Safe-query caller.key d1 o _) λ found d2.
          Safe-bind caller.key (Safe-ok_or caller.key d2 _ found) λ execution d3.
            Safe-bind caller.key (require_own_execution-Safe execution d3) λ _ d4.
              Safe-bind caller.key
                (Safe-execute caller.key d4 o _ (λ _ d e. delete_executions-keys d4 d _ e))
                λ _ d5.
                  Safe-bind caller.key (Safe-refuse_if caller.key d5 _ _)
                    λ _ d6. Safe-create_audit_log o caller _ _ _ _ d6
