-- ===== src/Service/Writers.antt =====
-- The endpoints that write groups and grants (src/api/keys.rs, src/api/groups.rs), against
-- `Authority`.
use simply_firewall.Prelude.{ℕ, Option, none, some, Text}
use simply_firewall.Entities.{Uuid, ApiKey, IpGroup}
use simply_firewall.Outside.{Outside}
use simply_firewall.Store.{Db}
use simply_firewall.Store.OtherTables.{
  insert_group-keys, insert_group_or_skip-keys, insert_permission-keys, upsert_permission-keys,
  reown_group-keys, delete_group-keys, delete_permission-keys,
}
use simply_firewall.Store.Spec.{Spec-if}
use simply_firewall.Guards.{GroupPermInput}
use simply_firewall.Guards.Effects.{
  caller_group_permission-Reads, guard_may_administer_any_group-Reads,
  resolve_owner_assignment-Reads,
}
use simply_firewall.Support.{Caller, get_or_create_group}
use simply_firewall.Support.Effects.{
  resolve_group_by_identifier-Reads, resolve_group_ref_flexible-Reads,
}
use simply_firewall.Authority.Safe.{
  Safe, Safe-of_Reads, Safe-bind, Safe-pure, Safe-raise, Safe-lift, Safe-ok_or, Safe-query,
  Safe-execute, Safe-attempt, Safe-refuse_if, Safe-new_uuid, Safe-now, Safe-create_audit_log,
}
use simply_firewall.Keys.Grants.{
  target_group, change_grant, update_key_group_permissions, revoke_key_group_permission,
}
use simply_firewall.Groups.{
  CreateIpGroupPayload, provision, create_ip_group, delete_ip_group, reassign_group_owner,
}

module _ (o : Outside) (caller : Caller) where
  get_or_create_group-Safe :
      (name type : Text) (owner : Option Uuid) (db : Db)
      → Safe caller.key (get_or_create_group o name type owner) db
  unfolding get_or_create_group
  get_or_create_group-Safe name type owner db =
      Safe-bind caller.key (Safe-new_uuid caller.key db o) λ id d1.
        Safe-bind caller.key (Safe-now caller.key d1 o) λ t d2.
          Safe-bind caller.key
            (Safe-execute caller.key d2 o _ (λ _ d e. insert_group_or_skip-keys d2 d _ e))
            λ _ d3.
              Safe-bind caller.key (Safe-query caller.key d3 o _)
                λ found d4. Safe-ok_or caller.key d4 _ found

  target_group-Safe :
      (found : Option IpGroup) (name : Option Text) (db : Db)
      → Safe caller.key (target_group o caller.key found name) db
  unfolding target_group
  target_group-Safe (some g) name db = Safe-pure caller.key db g
  target_group-Safe none none db = Safe-raise caller.key db _
  target_group-Safe none (some name) db =
      Safe-bind caller.key (Safe-refuse_if caller.key db _ _)
        λ _ d. get_or_create_group-Safe name _ _ d

  change_grant-Safe :
      (id : Uuid) (target : ApiKey) (group : IpGroup) (payload : GroupPermInput) (db : Db)
      → Safe caller.key (change_grant o caller id target group payload) db
  unfolding change_grant
  change_grant-Safe id target group payload db =
      Safe-bind caller.key (Safe-of_Reads caller.key (caller_group_permission-Reads o db _ _))
        λ _ d1.
          Safe-bind caller.key (Safe-of_Reads caller.key (caller_group_permission-Reads o d1 _ _))
            λ _ d2. Safe-bind caller.key (Safe-lift caller.key d2 _) λ _ d3.
              Safe-bind caller.key (Safe-now caller.key d3 o) λ t d4.
                Safe-bind caller.key (Safe-new_uuid caller.key d4 o) λ row d5.
                  Safe-bind caller.key
                    (Safe-execute caller.key d5 o _ (λ _ d e. upsert_permission-keys d5 d _ e))
                    λ _ d6. Safe-create_audit_log o caller _ _ _ _ d6

  pub update_key_group_permissions-Safe :
      (id : Uuid) (payload : GroupPermInput) (db : Db)
      → Safe caller.key (update_key_group_permissions o caller id payload) db
  unfolding update_key_group_permissions
  update_key_group_permissions-Safe id payload db =
      Safe-bind caller.key
        (Safe-of_Reads caller.key (guard_may_administer_any_group-Reads o db caller.key))
        λ _ d1. Safe-bind caller.key (Safe-query caller.key d1 o _) λ found d2.
          Safe-bind caller.key (Safe-ok_or caller.key d2 _ found) λ target d3.
            Safe-bind caller.key (Safe-refuse_if caller.key d3 _ _) λ _ d4.
              Safe-bind caller.key (Safe-refuse_if caller.key d4 _ _) λ _ d5.
                Safe-bind caller.key
                  (Safe-of_Reads caller.key (resolve_group_ref_flexible-Reads o d5 _ _))
                  λ existing d6.
                    Safe-bind caller.key (target_group-Safe existing _ d6)
                      λ group d7. change_grant-Safe id target group payload d7

  pub revoke_key_group_permission-Safe :
      (id : Uuid) (identifier : Text) (db : Db)
      → Safe caller.key (revoke_key_group_permission o caller id identifier) db
  unfolding revoke_key_group_permission
  revoke_key_group_permission-Safe id identifier db =
      Safe-bind caller.key
        (Safe-of_Reads caller.key (guard_may_administer_any_group-Reads o db caller.key))
        λ _ d1.
          Safe-bind caller.key
            (Safe-of_Reads caller.key (resolve_group_by_identifier-Reads o d1 identifier))
            λ found d2. Safe-bind caller.key (Safe-ok_or caller.key d2 _ found) λ group d3.
              Safe-bind caller.key
                (Safe-of_Reads caller.key (caller_group_permission-Reads o d3 _ _))
                λ _ d4. Safe-bind caller.key (Safe-refuse_if caller.key d4 _ _) λ _ d5.
                  Safe-bind caller.key
                    (Safe-of_Reads caller.key (caller_group_permission-Reads o d5 _ _))
                    λ _ d6. Safe-bind caller.key (Safe-lift caller.key d6 _) λ _ d7.
                      Safe-bind caller.key
                        (Safe-execute caller.key d7 o _
                          (λ _ d e. delete_permission-keys d7 d _ _ e))
                        λ _ d8. Safe-bind caller.key (Safe-refuse_if caller.key d8 _ _) λ _ d9.
                          Safe-bind caller.key (Safe-query caller.key d9 o _) λ target d10.
                            Safe-bind caller.key (Safe-ok_or caller.key d10 _ target)
                              λ _ d11. Safe-create_audit_log o caller _ _ _ _ d11

  provision-Safe :
      (group : Uuid) (t : ℕ) (db : Db) → Safe caller.key (provision o caller.key group t) db
  unfolding provision
  provision-Safe group t db =
      Spec-if db caller.key.is_master _ _ (λ _. Safe-pure caller.key db _)
        λ _.
          Safe-bind caller.key (Safe-new_uuid caller.key db o)
            λ id d. Safe-execute caller.key d o _ (λ _ d' e. insert_permission-keys d d' _ e)

  pub create_ip_group-Safe :
      (payload : CreateIpGroupPayload) (db : Db)
      → Safe caller.key (create_ip_group o caller payload) db
  unfolding create_ip_group
  create_ip_group-Safe payload db = Safe-bind caller.key (Safe-refuse_if caller.key db _ _) λ _ d1.
      Safe-bind caller.key (Safe-new_uuid caller.key d1 o) λ id d2.
        Safe-bind caller.key (Safe-now caller.key d2 o) λ t d3.
          Safe-bind caller.key
            (Safe-attempt caller.key d3 o _ (λ _ d e. insert_group-keys d3 d _ e))
            λ outcome d4. Safe-bind caller.key (Safe-lift caller.key d4 _) λ _ d5.
              Safe-bind caller.key (provision-Safe id t d5) λ _ d6.
                Safe-bind caller.key (Safe-create_audit_log o caller _ _ _ _ d6)
                  λ _ d7. Safe-pure caller.key d7 _

  pub delete_ip_group-Safe :
      (id : Uuid) (db : Db) → Safe caller.key (delete_ip_group o caller id) db
  unfolding delete_ip_group
  delete_ip_group-Safe id db = Safe-bind caller.key (Safe-query caller.key db o _) λ found d1.
      Safe-bind caller.key (Safe-ok_or caller.key d1 _ found) λ group d2.
        Safe-bind caller.key (Safe-lift caller.key d2 _) λ _ d3.
          Safe-bind caller.key
            (Safe-execute caller.key d3 o _ (λ _ d e. delete_group-keys d3 d _ e))
            λ _ d4.
              Safe-bind caller.key (Safe-refuse_if caller.key d4 _ _)
                λ _ d5. Safe-create_audit_log o caller _ _ _ _ d5

  pub reassign_group_owner-Safe :
      (id : Uuid) (owner : Option Uuid) (db : Db)
      → Safe caller.key (reassign_group_owner o caller id owner) db
  unfolding reassign_group_owner
  reassign_group_owner-Safe id owner db =
      Safe-bind caller.key (Safe-refuse_if caller.key db _ _) λ _ d1.
        Safe-bind caller.key (Safe-query caller.key d1 o _) λ found d2.
          Safe-bind caller.key (Safe-ok_or caller.key d2 _ found) λ group d3.
            Safe-bind caller.key
              (Safe-of_Reads caller.key (resolve_owner_assignment-Reads o d3 owner))
              λ _ d4.
                Safe-bind caller.key
                  (Safe-execute caller.key d4 o _ (λ _ d e. reown_group-keys d4 d _ _ e))
                  λ _ d5.
                    Safe-bind caller.key (Safe-create_audit_log o caller _ _ _ _ d5)
                      λ _ d6. Safe-pure caller.key d6 _
