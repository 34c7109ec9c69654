-- ===== src/Keys/Rotate.antt =====
-- src/api/keys.rs: `rotate_api_key` and `rotate_signing_secret`.
pub mod Fresh
use simply_firewall.Prelude.{none, some, Text, codes, take}
use simply_firewall.Entities.{Uuid, DateTime, ApiKey}
use simply_firewall.Error.{forbidden, Message}
use simply_firewall.Outside.{Outside}
use simply_firewall.Store.{
  AuditAction, Details, Action, pure, lift, ◌>>=◌, ◌>>◌, refuse_if, now, execute,
}
use simply_firewall.Store.Tables.{update_key, update_key_hash}
use simply_firewall.Guards.{guard_master_target, guard_master_immutable}
use simply_firewall.Support.{Caller, generate_random_key, hash_key, create_audit_log}
use simply_firewall.Crypto.{generate_signing_secret, seal}
use simply_firewall.Keys.Subtree.{find_administrable_key}
use simply_firewall.Keys.Create.{lacks_key_scope}

pub record RotateKeyResponse : Type 0 where
  pub id : Uuid
  pub plaintext_key : Text
  pub signing_secret : Text

pub record RotateSigningSecretResponse : Type 0 where
  pub id : Uuid
  pub name : Text
  pub signing_secret : Text

abbrev pub rotated : (hash prefix secret : Text) → DateTime → ApiKey → ApiKey
rotated hash prefix secret t k = record k {
  key_hash = hash;
  prefix = prefix;
  signing_secret = some secret;
  updated_at = t;
}

abbrev pub rekeyed : (secret : Text) → DateTime → ApiKey → ApiKey
rekeyed secret t k = record k { signing_secret = some secret; updated_at = t }

module _ (o : Outside) where
  unfoldable pub rotate_api_key : Caller → Uuid → Action RotateKeyResponse
  rotate_api_key caller id = do
    refuse_if (lacks_key_scope caller.key) (forbidden Message.permission_denied)
    target ← find_administrable_key o caller.key id
    lift (guard_master_target caller.key target)
    lift (guard_master_immutable target (codes "rotated"))
    plaintext_key ← generate_random_key o
    signing_secret ← generate_signing_secret o
    stored_signing_secret ← seal o signing_secret
    t ← now o
    execute o (
        update_key_hash id (hash_key o plaintext_key)
          (rotated (hash_key o plaintext_key) (take 8 plaintext_key) stored_signing_secret t))
    create_audit_log o caller AuditAction.key_rotate none none
        (some (Details.of_key target.name id))
    pure (record { id = id; plaintext_key = plaintext_key; signing_secret = signing_secret })

  unfoldable pub rotate_signing_secret : Caller → Uuid → Action RotateSigningSecretResponse
  rotate_signing_secret caller id = do
    refuse_if (lacks_key_scope caller.key) (forbidden Message.permission_denied)
    target ← find_administrable_key o caller.key id
    lift (guard_master_target caller.key target)
    lift (guard_master_immutable target (codes "re-keyed"))
    signing_secret ← generate_signing_secret o
    stored_signing_secret ← seal o signing_secret
    t ← now o
    execute o (update_key id (rekeyed stored_signing_secret t))
    create_audit_log o caller AuditAction.key_secret_rotate none none
        (some (Details.of_key target.name id))
    pure (record { id = id; name = target.name; signing_secret = signing_secret })
