-- ===== src/Keys/Delete/Collateral.antt =====
-- src/api/keys.rs, `delete_api_key`: the webhooks on a group that the map resolves as deleted.
use simply_firewall.Prelude.{ℕ, ◌≡◌, ◌⊎◌, true, ◌&&◌, some, List, any, Member, ◌==◌, arith, subst}
use simply_firewall.Entities.{Uuid, ApiKey, IpGroup}
use simply_firewall.Error.{OwnedEntity}
use simply_firewall.Outside.{Outside}
use simply_firewall.Store.{Db, stored}
use simply_firewall.Store.Tables.{delete_keys}
use simply_firewall.Store.Spec.{Spec, Spec-mono, Spec-both, Spec-bind}
use simply_firewall.Keys.Delete.{ResolutionEntry, apply_deletion, delete_api_key}
use simply_firewall.Keys.Delete.Pending.{is_group, Pending}
use simply_firewall.Keys.Delete.Cascade.{delete_api_key-IsDeleted}
use simply_firewall.Guards.Effects.{DbFailure}
use simply_firewall.Keys.Delete.Effects.{IsInventory-Reads, check_reassignments-Reads}
use simply_firewall.Keys.Subtree.Reach.{Descends, IsSubtree, collect_key_subtree-Reads}
use simply_firewall.Keys.Subtree.Visibility.{find_administrable_key-Reads}
use simply_firewall.Store.Chain.{after_refuse, after_lift, after_read, after_execute}
use simply_firewall.Support.{Caller}
use simply_firewall.Support.Effects.{Spec-create_audit_log}
use simply_firewall.Keys.Delete.Webhooks.{NoneOn, Anything, IsDoomed, apply_all-NoneOn}

delete_keys-webhooks :
    (ids : List Uuid) (db db' : Db) {n : ℕ}
    → delete_keys ids db ≡ stored n db'
    → db'.webhooks ≡ db.webhooks
unfolding delete_keys
delete_keys-webhooks ids db db' done = ground arith

module _ (o : Outside) (caller : Caller) (target : ApiKey) (id : Uuid)
    (entries : List ResolutionEntry) (db : Db) (group : Uuid) where
  apply_deletion-NoneOn :
      (subtree : List Uuid) (inventory : List OwnedEntity)
      → IsDoomed group entries
      → any (λ e. is_group e && e.id == group) inventory ≡ true
      → Spec
          (apply_deletion o caller target id subtree inventory entries)
          db
          (λ _ d. NoneOn group d)
          Anything
  unfolding apply_deletion
  apply_deletion-NoneOn subtree inventory doomed listed =
      Spec-bind (apply_all-NoneOn o group entries inventory db doomed listed) λ _ d none_on.
        after_execute o (λ _. tt) _
          λ n d' done.
            after_refuse _ _ (λ _. tt)
              λ _.
                Spec-create_audit_log o d' caller _ _ _ _ (λ _. tt)
                  λ row is h m.
                    none_on h (subst (Member h) (delete_keys-webhooks subtree d d' done) m)

-- Where the map resolves a group of a doomed key as deleted, a deletion that returns has left no
-- webhook on that group: neither one that the map reassigns, nor one of a key outside the subtree,
-- which no inventory named. A refused deletion has written nothing.
pub delete_api_key-NoneOn :
    (o : Outside) (caller : Caller) (id : Uuid) (entries : List ResolutionEntry) (db : Db)
    (group : IpGroup) (owner : Uuid)
    → Member group db.groups
    → group.owner_key_id ≡ some owner
    → Descends db id owner
    → IsDoomed group.id entries
    → Spec
        (delete_api_key o caller id entries)
        db
        (λ _ d. NoneOn group.id d)
        (λ e d. DbFailure e ⊎ (d ≡ db))
unfolding delete_api_key
delete_api_key-NoneOn o caller id entries db group owner m owned inside doomed =
    Spec-mono (Spec-both run (delete_api_key-IsDeleted o caller id entries db)) (λ _ _ q. q.0)
      (λ _ _ q. q.1)
  where
    listed :
        (subtree : List Uuid) (inventory : List OwnedEntity)
        → IsSubtree db id subtree
        → Pending subtree inventory db
        → any (λ e. is_group e && e.id == group.id) inventory ≡ true
    listed subtree inventory is p = p.groups group m (rw owned ((is owner).1 inside))

    run : Spec (delete_api_key o caller id entries) db (λ _ d. NoneOn group.id d) Anything
    run =
        after_refuse _ _ (λ _. tt)
          λ _.
            after_refuse _ _ (λ _. tt)
              λ _.
                after_read (find_administrable_key-Reads o db caller.key id) (λ _ _. tt)
                  λ target found.
                    after_lift _ (λ _ _. tt)
                      λ _ _.
                        after_lift _ (λ _ _. tt)
                          λ _ _.
                            after_read (collect_key_subtree-Reads o db id) (λ _ _. tt)
                              λ subtree is.
                                after_refuse _ _ (λ _. tt)
                                  λ _.
                                    after_read (IsInventory-Reads o subtree db) (λ _ _. tt)
                                      λ inventory (known, pending).
                                        after_lift _ (λ _ _. tt)
                                          λ _ _.
                                            after_read
                                              (check_reassignments-Reads o subtree entries db)
                                              (λ _ _. tt)
                                              λ _ _.
                                                apply_deletion-NoneOn o caller target id entries db
                                                  group.id subtree inventory doomed
                                                  (listed subtree inventory is pending)
