-- ===== src/Service/Safety.antt =====
-- The routes of src/lib.rs, and runs of requests, against `Authority`.
use simply_firewall.Prelude.{◌≡◌, ◌∙◌, refl, false, List, [], ◌∷◌, All}
use simply_firewall.Entities.{ApiKey}
use simply_firewall.Error.{Result, ok, err}
use simply_firewall.Outside.{Outside}
use simply_firewall.Store.{Db, World, Action}
use simply_firewall.Store.Spec.{Post}
use simply_firewall.Store.Tables.{key_by_id}
use simply_firewall.Support.{Caller}
use simply_firewall.Authority.{
  SameMasters, NoScopeGained, ScopesWithin-refl, ScopesWithin-trans, IsValid, Permitted,
}
use simply_firewall.Authority.Safe.{Safe, Safe-bind, Safe-pure}
use simply_firewall.Service.{
  Request, Response, responding, handle, serve, show_me, list_keys, post_key, put_key, delete_key,
  rotate_key, rotate_secret, post_permission, delete_permission, list_groups, post_group,
  delete_group, put_group_owner, Parsers, delete_ips, delete_record, restore_record, purge_ips,
  post_webhook, get_webhooks, put_webhook, remove_webhook, put_webhook_owner, post_clone,
  delete_execution,
}
use simply_firewall.Service.Credentials.{
  create_api_key-Safe, update_api_key-Safe, rotate_api_key-Safe, rotate_signing_secret-Safe,
}
use simply_firewall.Service.Others.{get_me-Safe, list_api_keys-Safe, list_ip_groups-Safe}
use simply_firewall.Service.Writers.{
  update_key_group_permissions-Safe, revoke_key_group_permission-Safe, create_ip_group-Safe,
  delete_ip_group-Safe, reassign_group_owner-Safe,
}
use simply_firewall.Service.Deletion.{delete_api_key-Safe}
use simply_firewall.Service.OnRecords.{
  delete_ip-Safe, delete_ip_record-Safe, restore_ip_record-Safe, purge_ip_records-Safe,
}
use simply_firewall.Service.OnWebhooks.{
  create_webhook-Safe, delete_webhook_execution-Safe, update_webhook-Safe, clone_webhook-Safe,
  list_webhooks-Safe, delete_webhook-Safe, reassign_webhook_owner-Safe,
}

module _ (o : Outside) (parsers : Parsers) (caller : Caller) (db : Db) where
  responding-Safe :
      {A : Type 0} (f : A → Response) {m : Action A}
      → Safe caller.key m db
      → Safe caller.key (responding f m) db
  unfolding responding
  responding-Safe f s = Safe-bind caller.key s λ _ d. Safe-pure caller.key d _

  handled : (request : Request) → Safe caller.key (handle o parsers caller request) db
  unfolding handle
  handled show_me = responding-Safe _ (get_me-Safe o caller.key db caller.key)
  handled list_keys = responding-Safe _ (list_api_keys-Safe o caller.key caller.key db)
  handled (post_key payload) = responding-Safe _ (create_api_key-Safe o caller db payload)
  handled (put_key id payload) = responding-Safe _ (update_api_key-Safe o caller db id payload)
  handled (delete_key id entries) = responding-Safe _ (delete_api_key-Safe o caller id entries db)
  handled (rotate_key id) = responding-Safe _ (rotate_api_key-Safe o caller db id)
  handled (rotate_secret id) = responding-Safe _ (rotate_signing_secret-Safe o caller db id)
  handled (post_permission id payload) =
      responding-Safe _ (update_key_group_permissions-Safe o caller id payload db)
  handled (delete_permission id identifier) =
      responding-Safe _ (revoke_key_group_permission-Safe o caller id identifier db)
  handled list_groups = responding-Safe _ (list_ip_groups-Safe o caller.key caller.key db)
  handled (post_group payload) = responding-Safe _ (create_ip_group-Safe o caller payload db)
  handled (delete_group id) = responding-Safe _ (delete_ip_group-Safe o caller id db)
  handled (put_group_owner id owner) =
      responding-Safe _ (reassign_group_owner-Safe o caller id owner db)
  handled (delete_ips query_params body) =
      responding-Safe _ (delete_ip-Safe o caller parsers.cidrs query_params body db)
  handled (delete_record id hard) = responding-Safe _ (delete_ip_record-Safe o caller id hard db)
  handled (restore_record id) = responding-Safe _ (restore_ip_record-Safe o caller id db)
  handled (purge_ips body) =
      responding-Safe _ (purge_ip_records-Safe o caller parsers.retention_days body db)
  handled (post_webhook payload) =
      responding-Safe _ (create_webhook-Safe o caller parsers.parse_url payload db)
  handled get_webhooks = responding-Safe _ (list_webhooks-Safe o caller db)
  handled (put_webhook id payload) =
      responding-Safe _ (update_webhook-Safe o caller parsers.parse_url id payload db)
  handled (remove_webhook id) = responding-Safe _ (delete_webhook-Safe o caller id db)
  handled (put_webhook_owner id owner) =
      responding-Safe _ (reassign_webhook_owner-Safe o caller id owner db)
  handled (delete_execution id) = responding-Safe _ (delete_webhook_execution-Safe o caller id db)
  handled (post_clone id name) = responding-Safe _ (clone_webhook-Safe o caller id name db)

Permitted-of_Post :
    (caller : ApiKey) (db : Db) (r : Result Response × World)
    → Post (λ _ d. Permitted caller db d) (λ _ d. Permitted caller db d) r
    → Permitted caller db r.1.db
Permitted-of_Post caller db (ok a, w) p = p
Permitted-of_Post caller db (err e, w) p = p

-- One request, with any payload, from any caller, answered or failed at any statement: unique ids
-- and parentless masters stay so; no master appears, disappears or changes but in its `bound_ips`;
-- and unless the caller is the master, no key, new or old, gains a global scope.
pub handle-Permitted :
    (o : Outside) (parsers : Parsers) (caller : Caller) (request : Request) (w : World)
    → Permitted caller.key w.db (handle o parsers caller request w).1.db
handle-Permitted o parsers caller request w =
    Permitted-of_Post caller.key w.db (handle o parsers caller request w)
      ((handled o parsers caller w.db request).at w.step)

-- Any run of requests from valid tables, whoever sends them, ends in valid tables with the same
-- masters, each unchanged but in its `bound_ips`.
pub serve-SameMasters :
    (o : Outside) (parsers : Parsers) (requests : List (Caller × Request)) (w : World)
    → IsValid w.db
    → IsValid (serve o parsers requests w).db × SameMasters w.db (serve o parsers requests w).db
unfolding serve
serve-SameMasters o parsers [] w v = (v, λ id. refl)
serve-SameMasters o parsers ((caller, request) ∷ rest) w v =
    let p = handle-Permitted o parsers caller request w in
    let (v', s) =
      serve-SameMasters o parsers rest (handle o parsers caller request w).1 (p.valid v) in
    (v', λ id. s id ∙ p.masters v id)

-- A run of requests, none of them sent by a master, adds no global scope to any key and creates no
-- key that has one.
pub serve-NoScopeGained :
    (o : Outside) (parsers : Parsers) (requests : List (Caller × Request)) (w : World)
    → All (λ r. r.0.key.is_master ≡ false) requests
    → IsValid w.db
    → NoScopeGained w.db (serve o parsers requests w).db
unfolding serve
serve-NoScopeGained o parsers [] w h v id = ScopesWithin-refl (key_by_id id w.db)
serve-NoScopeGained o parsers ((caller, request) ∷ rest) w (ordinary, h) v id =
    let p = handle-Permitted o parsers caller request w in
    ScopesWithin-trans
      (key_by_id id (serve o parsers rest (handle o parsers caller request w).1).db)
      (key_by_id id (handle o parsers caller request w).1.db) (key_by_id id w.db)
      (serve-NoScopeGained o parsers rest (handle o parsers caller request w).1 h (p.valid v) id)
      (p.scopes ordinary v id)
