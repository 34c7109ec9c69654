-- ===== src/Guards/Rules.antt =====
-- What the pure guards decide: rules R1, R2, R4, R7 and sections 3 and 5 of RBAC_MODEL.md.
use simply_firewall.Prelude.{
  ◌≡◌, ◌↔◌, ◌⊎◌, Bool, true, false, Option, none, some, Text, arith, InSome,
}
use simply_firewall.Entities.{Uuid, ApiKey, Permission}
use simply_firewall.Error.{ok}
use simply_firewall.Guards.{
  GroupPermInput, Scopes, guard_resource_lifecycle, guard_group_manage, widens_permissions,
  guard_delegated_group_grant, guard_scope_elevation, guard_master_target, asks_for,
}

-- Section 3: exactly the master and the recorded owner of a resource may delete or rename it.
pub guard_resource_lifecycle_iff :
    (caller : ApiKey) (owner : Option Uuid) (resource action : Text)
    → (guard_resource_lifecycle caller owner resource action ≡ ok tt)
      ↔ ((caller.is_master ≡ true) ⊎ (owner ≡ some caller.id))
unfolding guard_resource_lifecycle
guard_resource_lifecycle_iff caller none resource action = ground arith
guard_resource_lifecycle_iff caller (some id) resource action = ground arith

-- R2: a key that is not the master passes exactly if it has the global `can_manage_keys` scope and
-- `can_manage` on its own row for the group; the master always passes.
pub guard_group_manage_iff :
    (caller : ApiKey) (perm : Option Permission) (group_name action : Text)
    → (guard_group_manage caller perm group_name action ≡ ok tt) ↔ (
        (caller.is_master ≡ true)
        ⊎ ((caller.can_manage_keys ≡ true) × InSome (λ p. p.can_manage ≡ true) perm))
unfolding guard_group_manage
guard_group_manage_iff caller none group_name action = ground arith
guard_group_manage_iff caller (some p) group_name action = ground arith

-- A Boolean is at most another.
abbrev pub AtMost : Bool → Bool → Type 0
AtMost a b = (a ≡ false) ⊎ (b ≡ true)

-- Every verb of the request is one that the row has.
abbrev pub Covers : GroupPermInput → Permission → Type 0
Covers requested held =
    AtMost requested.can_read held.can_read
    × AtMost requested.can_write held.can_write
    × AtMost requested.can_delete held.can_delete
    × AtMost requested.can_manage held.can_manage

-- R1 with R7: a key that is not the master may grant a set of verbs exactly if it has
-- `can_manage_keys` and a row for the group with `can_manage` and every verb of the set; the
-- master always may.
pub guard_delegated_group_grant_iff :
    (caller : ApiKey) (perm : Option Permission) (group_name action : Text)
    (requested : GroupPermInput)
    → (guard_delegated_group_grant caller perm group_name action requested ≡ ok tt) ↔ (
        (caller.is_master ≡ true)
        ⊎ ((caller.can_manage_keys ≡ true)
            × InSome (λ p. (p.can_manage ≡ true) × Covers requested p) perm))
unfolding guard_delegated_group_grant
guard_delegated_group_grant_iff caller none group_name action requested = ground arith
guard_delegated_group_grant_iff caller (some p) group_name action requested = ground arith

-- A request widens nothing exactly if the target has a row that covers it.
pub widens_permissions_iff :
    (requested : GroupPermInput) (perm : Option Permission)
    → (widens_permissions requested perm ≡ false) ↔ InSome (Covers requested) perm
unfolding widens_permissions
widens_permissions_iff requested none = ground arith
widens_permissions_iff requested (some p) = ground arith

-- R4: a key that is not the master may submit global scopes exactly if each one that it sets is
-- held already; the master may submit any.
pub guard_scope_elevation_iff :
    (caller : ApiKey) (requested : Scopes (Option Bool)) (held : Scopes Bool)
    → (guard_scope_elevation caller requested held ≡ ok tt) ↔ (
        (caller.is_master ≡ true)
        ⊎ (AtMost (asks_for requested.manage_keys) held.manage_keys
            × AtMost (asks_for requested.create_groups) held.create_groups
            × AtMost (asks_for requested.manage_webhooks) held.manage_webhooks))
unfolding guard_scope_elevation
guard_scope_elevation_iff caller requested held = ground arith

-- Section 5: no key but a master may operate on a master.
pub guard_master_target_iff :
    (caller target : ApiKey)
    → (guard_master_target caller target ≡ ok tt)
      ↔ ((target.is_master ≡ false) ⊎ (caller.is_master ≡ true))
unfolding guard_master_target
guard_master_target_iff caller target = ground arith
