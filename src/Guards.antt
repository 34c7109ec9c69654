-- ===== src/Guards.antt =====
-- src/api/guards.rs: who may do what. A guard returns or refuses, and writes nothing.
-- The warnings that some guards log are left out.
pub mod Rules
pub mod Effects
use simply_firewall.Prelude.{
  Bool, true, false, not, ◌&&◌, ◌||◌, Option, none, some, List, [], ◌∷◌, Text, if◌then◌else◌,
  is_some, is_some_and, ◌==◌, find,
}
use simply_firewall.Entities.{Uuid, ApiKey, Permission}
use simply_firewall.Error.{
  AppError, invalid_input, forbidden, Result, ok, err, Scope, can_manage_keys, can_create_groups,
  can_manage_webhooks, Message,
}
use simply_firewall.Outside.{Outside}
use simply_firewall.Store.{Db, Action, pure, raise, ok_or, ◌>>=◌, ◌>>◌, refuse_if, query}
use simply_firewall.Store.Tables.{key_by_id, permission_of}

-- keys.rs, the body of a grant request.
pub record GroupPermInput : Type 0 where
  pub group_id : Option Text
  pub group_name : Option Text
  pub can_read : Bool
  pub can_write : Bool
  pub can_delete : Bool
  pub can_manage : Bool

-- The two tests that most guards end in.
abbrev pub allow_if : Bool → AppError → Result (Unit {0})
allow_if c e = if c then ok tt else err e

unfoldable pub resource_owner : ApiKey → Option Uuid
resource_owner creator = if not creator.is_master then some creator.id else none

unfoldable pub guard_resource_lifecycle :
    ApiKey → Option Uuid → (resource action : Text) → Result (Unit {0})
guard_resource_lifecycle caller owner resource action =
    allow_if (caller.is_master || is_some_and owner (λ id. id == caller.id))
      (forbidden (Message.not_lifecycle_holder resource action))

unfoldable pub guard_group_manage :
    ApiKey → Option Permission → (group_name action : Text) → Result (Unit {0})
guard_group_manage caller perm group_name action =
    if caller.is_master
    then ok tt
    else allow_if (caller.can_manage_keys && is_some_and perm (λ p. p.can_manage))
        (forbidden (Message.cannot_manage_group action group_name))

-- Whether a request confers some verb that a row does not have.
abbrev pub exceeds : GroupPermInput → Permission → Bool
exceeds requested held =
    (requested.can_read && not held.can_read)
    || (requested.can_write && not held.can_write)
    || (requested.can_delete && not held.can_delete)
    || (requested.can_manage && not held.can_manage)

unfoldable pub widens_permissions : GroupPermInput → Option Permission → Bool
widens_permissions requested none = true
widens_permissions requested (some held) = exceeds requested held

-- The part of `guard_delegated_group_grant` below its R2 test.
guard_verbs : ApiKey → Option Permission → (group_name action : Text) → GroupPermInput → Result Unit
guard_verbs caller none group_name action requested =
    err (forbidden (Message.cannot_manage_group action group_name))
guard_verbs caller (some held) group_name action requested =
    if exceeds requested held
    then err (forbidden (Message.beyond_your_own action group_name))
    else ok tt

-- `f(…)?; g(…)` on guards.
infixl 5 ◌then_check◌
abbrev pub ◌then_check◌ : Result (Unit {0}) → Result (Unit {0}) → Result (Unit {0})
ok _ then_check r = r
err e then_check r = err e

unfoldable pub guard_delegated_group_grant :
    ApiKey → Option Permission → (group_name action : Text) → GroupPermInput → Result (Unit {0})
unfolding guard_group_manage guard_verbs
guard_delegated_group_grant caller perm group_name action requested =
    guard_group_manage caller perm group_name action
    then_check (if caller.is_master
        then ok tt
        else guard_verbs caller perm group_name action requested)

-- One round of the loop over `MASTER_ONLY_SCOPES`.
abbrev pub asks_for : Option Bool → Bool
asks_for request = is_some_and request (λ b. b)

guard_scope : Scope → Option Bool → Bool → Result (Unit {0})
guard_scope name request held =
    allow_if (not (asks_for request && not held)) (forbidden (Message.scope_reserved name))

-- A value for each of `MASTER_ONLY_SCOPES`.
pub record Scopes (A : Type 0) : Type 0 where
  pub manage_keys : A
  pub create_groups : A
  pub manage_webhooks : A

unfoldable pub guard_scope_elevation :
    ApiKey → Scopes (Option Bool) → Scopes Bool → Result (Unit {0})
unfolding guard_scope
guard_scope_elevation caller requested held =
    if caller.is_master
    then ok tt
    else guard_scope can_manage_keys requested.manage_keys held.manage_keys
      then_check guard_scope can_create_groups requested.create_groups held.create_groups
      then_check guard_scope can_manage_webhooks requested.manage_webhooks held.manage_webhooks

unfoldable pub guard_master_target : (caller target : ApiKey) → Result (Unit {0})
guard_master_target caller target =
    allow_if (not (target.is_master && not caller.is_master)) (forbidden Message.master_target)

unfoldable pub guard_master_immutable : ApiKey → (operation : Text) → Result (Unit {0})
guard_master_immutable target operation =
    allow_if (not target.is_master) (forbidden (Message.master_immutable operation))

module _ (o : Outside) where
  unfoldable pub caller_group_permission : (key group : Uuid) → Action (Option Permission)
  caller_group_permission key group = query o (permission_of key group)

  unfoldable pub holds_any_group_manage : Uuid → Action Bool
  holds_any_group_manage key =
      query o (λ db. is_some (find (λ p. p.api_key_id == key && p.can_manage) db.permissions))

  unfoldable pub guard_may_administer_any_group : ApiKey → Action (Unit {0})
  unfolding holds_any_group_manage
  guard_may_administer_any_group caller =
      if caller.is_master
      then pure tt
      else if not caller.can_manage_keys
      then raise (forbidden Message.permission_denied)
      else do
        holds ← holds_any_group_manage caller.id
        refuse_if (not holds) (forbidden Message.permission_denied)

  unfoldable pub resolve_owner_assignment : Option Uuid → Action (Option Uuid)
  resolve_owner_assignment none = pure none
  resolve_owner_assignment (some owner_id) = do
    owner ← query o (key_by_id owner_id)
    key ← ok_or (invalid_input Message.no_such_owner) owner
    refuse_if key.is_master (invalid_input Message.master_cannot_own)
    pure (some owner_id)
