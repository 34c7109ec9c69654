-- ===== src/Examples/Rules.antt =====
-- The rules on the keys of the small vault.
use simply_firewall.Prelude.{◌≡◌, ◌↔◌, ◌⊎◌, Bool, true, false, Option, none, some, codes, InSome}
use simply_firewall.Entities.{Uuid}
use simply_firewall.Error.{ok, invalid_input, Message}
use simply_firewall.Store.Chain.{Reads}
use simply_firewall.Store.Tables.{key_by_id}
use simply_firewall.Guards.{
  Scopes, guard_resource_lifecycle, guard_group_manage, guard_delegated_group_grant,
  guard_scope_elevation, resolve_owner_assignment, asks_for,
}
use simply_firewall.Guards.Rules.{
  AtMost, Covers, guard_resource_lifecycle_iff, guard_group_manage_iff,
  guard_delegated_group_grant_iff, guard_scope_elevation_iff,
}
use simply_firewall.Guards.Effects.{DbFailure, resolve_owner_assignment-Reads}
use simply_firewall.Examples.Fixtures.{calm, manager, managed, vault, read_access}

abbrev owner : Option Uuid
owner = some 2

guard_resource_lifecycle_iff_example :
    (guard_resource_lifecycle manager owner (codes "group") (codes "delete") ≡ ok tt)
    ↔ ((manager.is_master ≡ true) ⊎ (owner ≡ some manager.id))
guard_resource_lifecycle_iff_example =
    guard_resource_lifecycle_iff manager owner (codes "group") (codes "delete")

guard_group_manage_iff_example :
    (guard_group_manage manager (some managed) (codes "ssh") (codes "revoke") ≡ ok tt) ↔ (
      (manager.is_master ≡ true)
      ⊎ ((manager.can_manage_keys ≡ true) × InSome (λ p. p.can_manage ≡ true) (some managed)))
guard_group_manage_iff_example =
    guard_group_manage_iff manager (some managed) (codes "ssh") (codes "revoke")

guard_delegated_group_grant_iff_example :
    (guard_delegated_group_grant manager (some managed) (codes "ssh") (codes "grant") read_access
      ≡ ok tt)
    ↔ ((manager.is_master ≡ true)
        ⊎ ((manager.can_manage_keys ≡ true)
            × InSome (λ p. (p.can_manage ≡ true) × Covers read_access p) (some managed)))
guard_delegated_group_grant_iff_example =
    guard_delegated_group_grant_iff manager (some managed) (codes "ssh") (codes "grant") read_access

abbrev wanted : Scopes (Option Bool)
wanted = record { manage_keys = some true; create_groups = none; manage_webhooks = some false }

abbrev held : Scopes Bool
held = record { manage_keys = true; create_groups = false; manage_webhooks = false }

guard_scope_elevation_iff_example : (guard_scope_elevation manager wanted held ≡ ok tt) ↔ (
    (manager.is_master ≡ true)
    ⊎ (AtMost (asks_for wanted.manage_keys) held.manage_keys
        × AtMost (asks_for wanted.create_groups) held.create_groups
        × AtMost (asks_for wanted.manage_webhooks) held.manage_webhooks))
guard_scope_elevation_iff_example = guard_scope_elevation_iff manager wanted held

abbrev chosen : Option Uuid
chosen = some 3

resolve_owner_assignment-Reads_example :
    Reads
      (resolve_owner_assignment calm chosen)
      vault
      (λ found.
        (found ≡ chosen)
        × ((chosen ≡ none)
            ⊎ InSome (λ id. InSome (λ k. k.is_master ≡ false) (key_by_id id vault)) chosen))
      (λ e.
        DbFailure e
        ⊎ (e ≡ invalid_input Message.no_such_owner)
        ⊎ (e ≡ invalid_input Message.master_cannot_own))
resolve_owner_assignment-Reads_example = resolve_owner_assignment-Reads calm vault chosen
