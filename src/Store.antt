-- ===== src/Store.antt =====
-- The database as the service sees it (src/db.rs opens it, src/migration declares its tables), and
-- a request handler as an action on it: it returns or fails, and what it wrote before a failure
-- stays written, unless it is in a `Store.Transaction`. A table is the list of its rows.
-- Each call of the outside takes the next number, so the outside may answer each call differently.
pub mod Tables
pub mod Transaction
pub mod Aged
pub mod Lookup
pub mod Rows
pub mod Chain
pub mod Spec
pub mod OtherTables
use simply_firewall.Prelude.{ℕ, suc, Option, none, some, List, Text, Bool, if◌then◌else◌}
use simply_firewall.Entities.{
  Uuid, DateTime, ApiKey, Permission, IpGroup, WebhookConfig, IpRecord, Membership,
  WebhookExecution,
}
use simply_firewall.Error.{DbErr, AppError, db_error, Result, ok, err}
use simply_firewall.Outside.{Outside}

pub data AuditAction : Type 0 where
  key_create key_update key_delete key_rotate key_secret_rotate : AuditAction
  key_perm_update key_perm_revoke : AuditAction
  group_create group_delete group_owner_reassign : AuditAction
  webhook_owner_reassign webhook_create webhook_update webhook_clone webhook_delete : AuditAction
  webhook_execution_delete : AuditAction
  ip_hard_delete ip_soft_delete ip_restore ip_purge ip_delete : AuditAction

-- The `details` of an audit row. A key is named by its name and id (`format_key_reference`).
pub data Details : Type 0 where
  key_name : Text → Details
  of_key : (name : Text) (id : Uuid) → Details
  deleted_key : (name : Text) (id : Uuid) (descendants deleted reassigned : ℕ) → Details
  group_id : Uuid → Details
  owner_set : Uuid → Details
  owner_cleared : Details
  permanently_deleted restored : Details
  webhook_url : Text → Details
  webhook_id : Uuid → Details
  execution_id : Uuid → Details
  webhook_owner : (name : Text) (owner : Option Uuid) → Details
  webhook_updated : (name : Text) (rotated : Bool) → Details
  webhook_cloned : (name : Text) (id : Uuid) (clone_name : Text) (clone : Uuid) → Details
  soft_deleted_by : (name : Text) (id : Uuid) → Details
  purged : (count days : ℕ) → Details

pub record AuditLog : Type 0 where
  pub id : Uuid
  pub api_key_id : Option Uuid
  pub api_key_name : Text
  pub api_key_prefix : Text
  pub client_ip : Text
  pub action : AuditAction
  pub target_address : Option Text
  pub group_names : Option Text
  pub details : Option Details
  pub timestamp : DateTime

pub record Db : Type 0 where
  pub api_keys : List ApiKey
  pub permissions : List Permission
  pub groups : List IpGroup
  pub memberships : List Membership
  pub webhooks : List WebhookConfig
  pub executions : List WebhookExecution
  pub ip_records : List IpRecord
  pub audit_logs : List AuditLog

pub record World : Type 0 where
  pub db : Db
  pub step : ℕ

abbrev pub Action : Type 0 → Type 0
Action A = World → Result A × World

-- What the engine does with a statement that it can run: it stores, or a constraint refuses it.
pub data Written (A : Type 0) : Type 0 where
  stored : A → Db → Written A
  refused : DbErr → Written A

module _ {A : Type 0} where
  unfoldable pub pure : A → Action A
  pure a w = (ok a, w)

  unfoldable pub raise : AppError → Action A
  raise e w = (err e, w)

  -- A pure computation that may fail.
  unfoldable pub lift : Result A → Action A
  lift r w = (r, w)

  -- `Option::ok_or`
  unfoldable pub ok_or : AppError → Option A → Action A
  unfolding pure raise
  ok_or e none = raise e
  ok_or e (some a) = pure a

  pub continue : {B : Type 0} → (A → Action B) → Result A × World → Result B × World
  continue f (ok a, w) = f a w
  continue f (err e, w) = (err e, w)

infixl 5 ◌>>=◌ ◌>>◌
unfoldable pub ◌>>=◌ : {A B : Type 0} → Action A → (A → Action B) → Action B
unfolding continue pure raise lift ok_or
◌>>=◌ m f w = continue f (m w)

abbrev pub ◌>>◌ : {A B : Type 0} → Action A → Action B → Action B
m >> k = m >>= λ _. k

-- `if c { return Err(e); }`
unfoldable pub refuse_if : Bool → AppError → Action (Unit {0})
unfolding pure raise
refuse_if c e = if c then raise e else pure tt

module _ (o : Outside) where
  unfoldable pub new_uuid : Action Uuid
  new_uuid w = (ok (o.uuid w.step), record w { step = suc w.step })

  unfoldable pub now : Action DateTime
  now w = (ok (o.clock w.step), record w { step = suc w.step })

  unfoldable pub random : Action Text
  random w = (ok (o.random_bytes w.step), record w { step = suc w.step })

  unfoldable pub new_nonce : Action Text
  new_nonce w = (ok (o.random_nonce w.step), record w { step = suc w.step })

-- A statement, with its result handed back: an engine failure or a refusal writes nothing.
unfoldable pub run_written : {A : Type 0} → Db → ℕ → Written A → Result (Result A) × World
run_written db n (stored a db') = (ok (ok a), record { db = db'; step = n })
run_written db n (refused e) = (ok (err (db_error e)), record { db = db; step = n })

unfoldable pub run_statement :
    {A : Type 0} → Option DbErr → (Db → Written A) → World → Result (Result A) × World
unfolding run_written
run_statement (some e) f w = (ok (err (db_error e)), record w { step = suc w.step })
run_statement none f w = run_written w.db (suc w.step) (f w.db)

module _ (o : Outside) {A : Type 0} where
  -- `….exec(&state.db).await`, matched by the caller
  unfoldable pub attempt : (Db → Written A) → Action (Result A)
  unfolding run_statement
  attempt f w = run_statement (o.failure w.step) f w

  -- `….exec(&state.db).await?`
  unfoldable pub execute : (Db → Written A) → Action A
  unfolding attempt ◌>>=◌
  execute f = attempt f >>= lift

  -- `….one(&state.db).await?` and `….all(&state.db).await?`
  unfoldable pub query : (Db → A) → Action A
  unfolding execute
  query f = execute (λ db. stored (f db) db)
