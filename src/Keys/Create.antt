-- ===== src/Keys/Create.antt =====
-- src/api/keys.rs: `create_api_key`.
use simply_firewall.Prelude.{
  Bool, false, not, ◌&&◌, Option, none, some, List, [], ◌∷◌, Text, if◌then◌else◌, is_some, take,
  trim, split, unwrap_or,
}
use simply_firewall.Entities.{Uuid, ApiKey}
use simply_firewall.Error.{forbidden, invalid_input, Result, ok, err, Message}
use simply_firewall.Outside.{Outside}
use simply_firewall.Store.{
  AuditAction, Details, Action, pure, lift, ◌>>=◌, ◌>>◌, refuse_if, new_uuid, now, execute,
}
use simply_firewall.Store.Tables.{insert_key}
use simply_firewall.Guards.{Scopes, guard_scope_elevation}
use simply_firewall.Support.{Caller, generate_random_key, hash_key, create_audit_log}
use simply_firewall.Crypto.{generate_signing_secret, seal}

pub record CreateApiKeyPayload : Type 0 where
  pub name : Text
  pub bound_ips : Option Text
  pub can_manage_keys : Option Bool
  pub can_manage_webhooks : Option Bool
  pub can_create_groups : Option Bool

pub record CreateApiKeyResponse : Type 0 where
  pub id : Uuid
  pub plaintext_key : Text
  pub signing_secret : Text
  pub name : Text
  pub bound_ips : Option Text

abbrev pub no_scopes : Scopes Bool
no_scopes = record { manage_keys = false; create_groups = false; manage_webhooks = false }

-- The refusal that each endpoint on keys begins with.
abbrev pub lacks_key_scope : ApiKey → Bool
lacks_key_scope key = not key.is_master && not key.can_manage_keys

module _ (o : Outside) where
  -- `for cidr in bips.split(',') { cidr.trim().parse()… }`
  check_cidrs : List Text → Result (Unit {0})
  check_cidrs [] = ok tt
  check_cidrs (cidr ∷ cidrs) =
      if is_some (o.parse_network (trim cidr))
      then check_cidrs cidrs
      else err (invalid_input (Message.invalid_cidr cidr))

  unfoldable pub check_bound_ips : Option Text → Result (Unit {0})
  unfolding check_cidrs
  check_bound_ips none = ok tt
  check_bound_ips (some bips) = check_cidrs (split b',' bips)

  unfoldable pub create_api_key : Caller → CreateApiKeyPayload → Action CreateApiKeyResponse
  unfolding check_bound_ips
  create_api_key caller payload = do
    refuse_if (lacks_key_scope caller.key) (forbidden Message.permission_denied)
    lift (
        guard_scope_elevation caller.key
          (record {
            manage_keys = payload.can_manage_keys;
            create_groups = payload.can_create_groups;
            manage_webhooks = payload.can_manage_webhooks;
          })
          no_scopes)
    lift (check_bound_ips payload.bound_ips)
    plaintext_key ← generate_random_key o
    signing_secret ← generate_signing_secret o
    stored_signing_secret ← seal o signing_secret
    id ← new_uuid o
    created_at ← now o
    execute o (
        insert_key (record {
          id = id;
          name = payload.name;
          key_hash = hash_key o plaintext_key;
          signing_secret = some stored_signing_secret;
          prefix = take 8 plaintext_key;
          bound_ips = payload.bound_ips;
          is_master = false;
          can_manage_keys = unwrap_or payload.can_manage_keys false;
          can_manage_webhooks = unwrap_or payload.can_manage_webhooks false;
          can_create_groups = unwrap_or payload.can_create_groups false;
          parent_key_id = some caller.key.id;
          created_at = created_at;
          updated_at = created_at;
        }))
    create_audit_log o caller AuditAction.key_create none none
        (some (Details.key_name payload.name))
    pure (record {
      id = id;
      plaintext_key = plaintext_key;
      signing_secret = signing_secret;
      name = payload.name;
      bound_ips = payload.bound_ips;
    })
