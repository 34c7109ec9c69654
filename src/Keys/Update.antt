-- ===== src/Keys/Update.antt =====
-- src/api/keys.rs: `update_api_key`.
use simply_firewall.Prelude.{
  Bool, not, ◌||◌, Option, none, some, Text, codes, if◌then◌else◌, is_some, ◌==◌, unwrap_or,
}
use simply_firewall.Entities.{Uuid, DateTime, ApiKey}
use simply_firewall.Error.{forbidden, Result, ok, err, Message}
use simply_firewall.Outside.{Outside}
use simply_firewall.Store.{AuditAction, Details, Action, lift, ◌>>=◌, ◌>>◌, refuse_if, now, execute}
use simply_firewall.Store.Tables.{update_key}
use simply_firewall.Guards.{
  guard_scope_elevation, guard_master_target, guard_master_immutable, ◌then_check◌,
}
use simply_firewall.Support.{Caller, create_audit_log}
use simply_firewall.Keys.Subtree.{find_administrable_key}
use simply_firewall.Keys.Listing.{ApiKeySummary, full_api_key_summary}
use simply_firewall.Keys.Create.{lacks_key_scope, check_bound_ips}

pub record UpdateApiKeyPayload : Type 0 where
  pub name : Option Text
  pub bound_ips : Option Text
  pub can_manage_keys : Option Bool
  pub can_manage_webhooks : Option Bool
  pub can_create_groups : Option Bool

abbrev pub touches_other_fields : UpdateApiKeyPayload → Bool
touches_other_fields payload =
    is_some payload.name
    || is_some payload.can_manage_keys
    || is_some payload.can_manage_webhooks
    || is_some payload.can_create_groups

-- Section 5's exception: the master may edit its own `bound_ips`.
guard_master_edit : (key target : ApiKey) → UpdateApiKeyPayload → Result (Unit {0})
guard_master_edit key target payload =
    if not target.is_master
    then ok tt
    else (if touches_other_fields payload
        then guard_master_immutable target (codes "renamed or re-scoped")
        else ok tt)
      then_check (if not (key.id == target.id)
          then err (forbidden Message.only_master_itself)
          else ok tt)

unfoldable pub guard_update : (key target : ApiKey) → UpdateApiKeyPayload → Result (Unit {0})
unfolding guard_master_edit
guard_update key target payload =
    guard_master_target key target
    then_check guard_master_edit key target payload
    then_check guard_scope_elevation key
        (record {
          manage_keys = payload.can_manage_keys;
          create_groups = payload.can_create_groups;
          manage_webhooks = payload.can_manage_webhooks;
        })
        (record {
          manage_keys = target.can_manage_keys;
          create_groups = target.can_create_groups;
          manage_webhooks = target.can_manage_webhooks;
        })

abbrev pub or_keep : Option Text → Option Text → Option Text
or_keep none old = old
or_keep (some t) old = some t

-- The columns that `active` sets.
abbrev pub updated : UpdateApiKeyPayload → DateTime → ApiKey → ApiKey
updated payload t k = record k {
  name = unwrap_or payload.name k.name;
  bound_ips = or_keep payload.bound_ips k.bound_ips;
  can_manage_keys = unwrap_or payload.can_manage_keys k.can_manage_keys;
  can_manage_webhooks = unwrap_or payload.can_manage_webhooks k.can_manage_webhooks;
  can_create_groups = unwrap_or payload.can_create_groups k.can_create_groups;
  updated_at = t;
}

unfoldable pub update_api_key : Outside → Caller → Uuid → UpdateApiKeyPayload → Action ApiKeySummary
update_api_key o caller id payload = do
  refuse_if (lacks_key_scope caller.key) (forbidden Message.permission_denied)
  target ← find_administrable_key o caller.key id
  lift (guard_update caller.key target payload)
  lift (check_bound_ips o payload.bound_ips)
  t ← now o
  execute o (update_key id (updated payload t))
  create_audit_log o caller AuditAction.key_update none none
      (some (Details.of_key (updated payload t target).name id))
  full_api_key_summary o (updated payload t target)
