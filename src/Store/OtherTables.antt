-- ===== src/Store/OtherTables.antt =====
-- The statements on the other tables, and the table of keys.
use simply_firewall.Prelude.{ℕ, ◌≡◌, Option, arith}
use simply_firewall.Entities.{Uuid, Permission, IpGroup}
use simply_firewall.Store.{Db, stored}
use simply_firewall.Store.Tables.{
  insert_group, insert_group_or_skip, insert_permission, upsert_permission, delete_permission,
  reown_group, update_group_owner, update_webhook_owner, delete_group, delete_webhook,
}

module _ {a : Unit {0}} (db db' : Db) where
  pub insert_group-keys :
      (row : IpGroup) → insert_group row db ≡ stored a db' → db'.api_keys ≡ db.api_keys
  unfolding insert_group
  insert_group-keys row e = ground arith

  pub insert_group_or_skip-keys :
      (row : IpGroup) → insert_group_or_skip row db ≡ stored a db' → db'.api_keys ≡ db.api_keys
  unfolding insert_group_or_skip insert_group
  insert_group_or_skip-keys row e = ground arith

  pub insert_permission-keys :
      (row : Permission) → insert_permission row db ≡ stored a db' → db'.api_keys ≡ db.api_keys
  unfolding insert_permission
  insert_permission-keys row e = ground arith

  pub upsert_permission-keys :
      (row : Permission) → upsert_permission row db ≡ stored a db' → db'.api_keys ≡ db.api_keys
  unfolding upsert_permission
  upsert_permission-keys row e = ground (arith, insert_permission-keys row)

  pub reown_group-keys :
      (id : Uuid) (owner : Option Uuid)
      → reown_group id owner db ≡ stored a db'
      → db'.api_keys ≡ db.api_keys
  unfolding reown_group update_group_owner
  reown_group-keys id owner e = ground arith

  pub update_group_owner-keys :
      (id : Uuid) (owner : Option Uuid)
      → update_group_owner id owner db ≡ stored a db'
      → db'.api_keys ≡ db.api_keys
  unfolding update_group_owner
  update_group_owner-keys id owner e = ground arith

  pub update_webhook_owner-keys :
      (id : Uuid) (owner : Option Uuid)
      → update_webhook_owner id owner db ≡ stored a db'
      → db'.api_keys ≡ db.api_keys
  unfolding update_webhook_owner
  update_webhook_owner-keys id owner e = ground arith

module _ {n : ℕ} (db db' : Db) where
  pub delete_group-keys :
      (id : Uuid) → delete_group id db ≡ stored n db' → db'.api_keys ≡ db.api_keys
  unfolding delete_group
  delete_group-keys id e = ground arith

  pub delete_webhook-keys :
      (id : Uuid) → delete_webhook id db ≡ stored n db' → db'.api_keys ≡ db.api_keys
  unfolding delete_webhook
  delete_webhook-keys id e = ground arith

  pub delete_permission-keys :
      (key group : Uuid)
      → delete_permission key group db ≡ stored n db'
      → db'.api_keys ≡ db.api_keys
  unfolding delete_permission
  delete_permission-keys key group e = ground arith
