-- ===== src/Support.antt =====
-- src/api/support.rs: credentials, audit rows and the resolution of groups.
pub mod Effects
use simply_firewall.Prelude.{ℕ, Option, none, some, Text, codes}
use simply_firewall.Entities.{Uuid, ApiKey, IpGroup}
use simply_firewall.Error.{AppError, invalid_input, internal, Message}
use simply_firewall.Outside.{Outside}
use simply_firewall.Store.{
  AuditAction, Details, Action, pure, raise, ok_or, ◌>>=◌, ◌>>◌, new_uuid, now, random, execute,
  query,
}
use simply_firewall.Store.Tables.{
  group_by_id, group_by_name, insert_group_or_skip, insert_audit_log,
}

-- What the caller of every handler is: the key that the middleware authenticated, as a handler
-- sees it, and the client's address.
pub record Caller : Type 0 where
  pub key : ApiKey
  pub client_ip : Text

abbrev pub banlist : Text
banlist = codes "banlist"

abbrev pub whitelist : Text
whitelist = codes "whitelist"

module _ (o : Outside) where
  unfoldable pub generate_random_key : Action Text
  generate_random_key = do bytes ← random o; pure (o.hex_encode bytes)

  unfoldable pub hash_key : Text → Text
  hash_key key = o.hex_encode (o.sha256 key)

  unfoldable pub create_audit_log :
      Caller → AuditAction → (target groups : Option Text) → Option Details → Action (Unit {0})
  create_audit_log caller action target groups details = do
    id ← new_uuid o
    timestamp ← now o
    execute o (
        insert_audit_log (record {
          id = id;
          api_key_id = some caller.key.id;
          api_key_name = caller.key.name;
          api_key_prefix = caller.key.prefix;
          client_ip = caller.client_ip;
          action = action;
          target_address = target;
          group_names = groups;
          details = details;
          timestamp = timestamp;
        }))

  unfoldable pub get_or_create_group :
      (name group_type : Text) → (owner : Option Uuid) → Action IpGroup
  get_or_create_group name group_type owner = do
    id ← new_uuid o
    created_at ← now o
    execute o (
        insert_group_or_skip (record {
          id = id;
          name = name;
          group_type = group_type;
          description = none;
          owner_key_id = owner;
          created_at = created_at;
        }))
    found ← query o (group_by_name name)
    ok_or internal found

  unfoldable pub resolve_group_ref : Option Uuid → Option Text → Action (Option IpGroup)
  resolve_group_ref (some _) (some _) = raise (invalid_input Message.either_id_or_name)
  resolve_group_ref none none = raise (invalid_input Message.id_or_name_required)
  resolve_group_ref (some id) none = query o (group_by_id id)
  resolve_group_ref none (some name) = query o (group_by_name name)

  -- The rest of `resolve_group_by_identifier`, once the lookup by id has answered.
  by_name_unless : Text → Option IpGroup → Action (Option IpGroup)
  by_name_unless identifier (some g) = pure (some g)
  by_name_unless identifier none = query o (group_by_name identifier)

  by_parsed_id : Text → Option Uuid → Action (Option IpGroup)
  unfolding by_name_unless
  by_parsed_id identifier none = query o (group_by_name identifier)
  by_parsed_id identifier (some id) = do
    found ← query o (group_by_id id)
    by_name_unless identifier found

  unfoldable pub resolve_group_by_identifier : Text → Action (Option IpGroup)
  unfolding by_parsed_id
  resolve_group_by_identifier identifier = by_parsed_id identifier (o.parse_uuid identifier)

  unfoldable pub resolve_group_ref_flexible : Option Text → Option Text → Action (Option IpGroup)
  unfolding resolve_group_by_identifier
  resolve_group_ref_flexible (some _) (some _) = raise (invalid_input Message.either_id_or_name)
  resolve_group_ref_flexible none none = raise (invalid_input Message.id_or_name_required)
  resolve_group_ref_flexible (some identifier) none = resolve_group_by_identifier identifier
  resolve_group_ref_flexible none (some name) = query o (group_by_name name)
