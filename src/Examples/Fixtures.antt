-- ===== src/Examples/Fixtures.antt =====
-- A small vault: a master, a delegated key with one child, and a group with a webhook.
use simply_firewall.Prelude.{
  is_empty, if◌then◌else◌, Option, pos, ℕ, ◌+◌, ◌-◌, true, false, none, some, [], ◌∷◌, Text, codes,
  map,
}
use simply_firewall.Entities.{ApiKey, Permission, IpGroup, WebhookConfig, IpRecord, Membership}
use simply_firewall.Outside.{Outside}
use simply_firewall.Store.{Db, World}
use simply_firewall.Guards.{GroupPermInput}
use simply_firewall.Dispatch.Screen.{Url}
use simply_firewall.Records.{Cidrs}
use simply_firewall.Webhooks.Edit.{UpdateWebhookPayload}
use simply_firewall.Service.{Parsers}
use simply_firewall.Support.{Caller}

abbrev zeros : Text
zeros = 0 ∷ 0 ∷ 0 ∷ 0 ∷ 0 ∷ 0 ∷ []

-- An outside that never fails. Its hex keeps bytes apart from the dot by adding 47.
abbrev pub calm : Outside
calm = record {
  uuid = λ n. 1000 + n;
  clock = λ n. n;
  failure = λ n. none;
  random_bytes = λ n. n ∷ 7 ∷ [];
  random_nonce = λ n. n ∷ 0 ∷ 0 ∷ 0 ∷ 0 ∷ 0 ∷ 0 ∷ 0 ∷ 0 ∷ 0 ∷ 0 ∷ 0 ∷ 0 ∷ 0 ∷ 0 ∷ 0 ∷ 0 ∷ 0 ∷ zeros;
  sha256 = λ t. t;
  hex_encode = map (λ c. c + 47);
  hex_decode = λ t. some (map (λ c. c - 47) t);
  encrypt = λ nonce plaintext. some (5 ∷ plaintext);
  decrypt = λ nonce ciphertext. elim ciphertext [ [] ↦ none | c ∷ cs ↦ some cs ];
  is_encrypting = true;
  hmac = λ secret message. message;
  parse_uuid = λ t. none;
  show_uuid = λ id. id ∷ [];
  Network = ℕ;
  parse_network = λ t. some 0;
}

abbrev pub master : ApiKey
master = record {
  id = 1;
  name = codes "master";
  key_hash = codes "h1";
  signing_secret = none;
  prefix = codes "m";
  bound_ips = none;
  is_master = true;
  can_manage_keys = true;
  can_manage_webhooks = true;
  can_create_groups = true;
  parent_key_id = none;
  created_at = 0;
  updated_at = 0;
}

abbrev pub manager : ApiKey
manager = record {
  id = 2;
  name = codes "manager";
  key_hash = codes "h2";
  signing_secret = none;
  prefix = codes "a";
  bound_ips = none;
  is_master = false;
  can_manage_keys = true;
  can_manage_webhooks = false;
  can_create_groups = false;
  parent_key_id = some 1;
  created_at = 0;
  updated_at = 0;
}

abbrev pub child : ApiKey
child = record {
  id = 3;
  name = codes "child";
  key_hash = codes "h3";
  signing_secret = none;
  prefix = codes "c";
  bound_ips = none;
  is_master = false;
  can_manage_keys = false;
  can_manage_webhooks = false;
  can_create_groups = false;
  parent_key_id = some 2;
  created_at = 0;
  updated_at = 0;
}

abbrev pub ban_group : IpGroup
ban_group = record {
  id = 10;
  name = codes "ssh";
  group_type = codes "banlist";
  description = none;
  owner_key_id = some 3;
  created_at = 0;
}

abbrev pub hook : WebhookConfig
hook = record {
  id = 20;
  name = codes "notify";
  target_url = codes "http://x";
  secret_token = [];
  auth_mode = [];
  api_key = none;
  hmac_template = none;
  signature_header = none;
  signature_prefix = none;
  headers_json = none;
  payload_template = [];
  group_id = 10;
  is_active = true;
  events = none;
  owner_key_id = some 3;
  created_at = 0;
}

abbrev pub managed : Permission
managed = record {
  id = 30;
  api_key_id = 2;
  group_id = 10;
  can_read = true;
  can_write = false;
  can_delete = false;
  can_manage = true;
  created_at = 0;
}

abbrev pub vault : Db
vault = record {
  api_keys = master ∷ manager ∷ child ∷ [];
  permissions = managed ∷ [];
  groups = ban_group ∷ [];
  memberships = [];
  webhooks = hook ∷ [];
  executions = [];
  ip_records = [];
  audit_logs = [];
}

abbrev pub banned : IpRecord
banned = record {
  id = 40;
  target_address = codes "a";
  cause = none;
  is_locked = false;
  created_at = 0;
  updated_at = 0;
  last_seen_at = 0;
  is_deleted = false;
  deleted_at = none;
  deleted_by = none;
}

abbrev pub held : Membership
held = record { ip_record_id = 40; group_id = 10 }

abbrev pub start : World
start = record { db = vault; step = 0 }

abbrev pub as_master : Caller
as_master = record { key = master; client_ip = codes "10.0.0.1" }

abbrev pub as_manager : Caller
as_manager = record { key = manager; client_ip = codes "10.0.0.2" }

-- Read access, asked for by the name of the group.
abbrev pub read_access : GroupPermInput
read_access = record {
  group_id = none;
  group_name = some (codes "ssh");
  can_read = true;
  can_write = false;
  can_delete = false;
  can_manage = false;
}

-- Every text but the empty one is an address with a full prefix.
abbrev host_of : Text → Option Text
host_of t = if is_empty t then none else some t

abbrev pub hosts : Cidrs
hosts = record {
  Net = Text;
  parse = host_of;
  is_ipv4 = λ n. true;
  prefix = λ n. 32;
  ip_text = λ n. n;
  network_text = λ n. n;
  prefix_text = λ n. codes "32";
}

abbrev pub any_url : Text → Option Url
any_url t = some (record { scheme = codes "https"; host = some t; port_or_known_default = none })

abbrev pub simple_parsers : Parsers
simple_parsers = record { parse_url = any_url; cidrs = hosts; retention_days = pos 92 }

-- The webhook is to send to another server.
abbrev pub repoint : UpdateWebhookPayload
repoint = record {
  name = none;
  target_url = some (codes "https://y");
  hmac_template = none;
  secret_token = none;
  headers_json = none;
  payload_template = none;
  events = some (codes "IP_ADD, IP_DELETE");
  is_active = none;
  group_id = none;
  auth_mode = none;
  api_key = none;
  signature_header = none;
  signature_prefix = none;
}
