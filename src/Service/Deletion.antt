-- ===== src/Service/Deletion.antt =====
-- `delete_api_key` of src/api/keys.rs against `Authority`.
use simply_firewall.Prelude.{◌≡◌, ◌∙◌, ap, List, sym, find, ◌==◌}
use simply_firewall.Entities.{Uuid, ApiKey}
use simply_firewall.Error.{OwnedEntity}
use simply_firewall.Outside.{Outside}
use simply_firewall.Store.{Db}
use simply_firewall.Store.Spec.{Spec-mono, Spec-bind, Spec-execute}
use simply_firewall.Store.Chain.{after_refuse, after_lift, after_read}
use simply_firewall.Store.Tables.{delete_keys}
use simply_firewall.Support.{Caller}
use simply_firewall.Authority.{IsValid, Permitted, Permitted-other}
use simply_firewall.Authority.Removal.{AreOrdinary, Descends-ordinary, delete_keys-Permitted}
use simply_firewall.Authority.Safe.{
  Safe, Permitted-refl, Safe-from, Safe-bind, Safe-refuse_if, Safe-create_audit_log,
}
use simply_firewall.Keys.Subtree.Reach.{collect_key_subtree-Reads}
use simply_firewall.Keys.Subtree.Visibility.{find_administrable_key-Reads}
use simply_firewall.Keys.Delete.{ResolutionEntry, apply_deletion, delete_api_key}
use simply_firewall.Keys.Delete.Effects.{
  apply_all-KeepsKeys, IsInventory-Reads, check_reassignments-Reads,
}
use simply_firewall.Service.Credentials.{ordinary_of_mutable}

ordinary_elsewhere :
    (d db : Db) (ids : List Uuid)
    → d.api_keys ≡ db.api_keys
    → AreOrdinary ids db
    → AreOrdinary ids d
ordinary_elsewhere d db ids same ordinary id k inside found =
    ordinary id k inside (ap (find (λ x. x.id == id)) (sym same) ∙ found)

module _ (o : Outside) where
  module _ (caller : Caller) where
    apply_deletion-Safe :
        (target : ApiKey) (id : Uuid) (subtree : List Uuid) (inventory : List OwnedEntity)
        (entries : List ResolutionEntry) (db : Db)
        → (IsValid db → AreOrdinary subtree db)
        → Safe caller.key (apply_deletion o caller target id subtree inventory entries) db
    unfolding apply_deletion
    apply_deletion-Safe target id subtree inventory entries db ordinary =
        Spec-bind
          (Spec-mono (apply_all-KeepsKeys o entries inventory db) (λ _ d q. q)
            (λ _ d q. Permitted-other caller.key db d q))
          λ _ d same. Safe-from caller.key (Permitted-other caller.key db d same) (
            Safe-bind caller.key
              (Spec-execute o d (delete_keys subtree) (λ _. Permitted-refl caller.key d)
                λ n d' done. delete_keys-Permitted subtree d d' done caller.key λ v.
                  ordinary_elsewhere d db subtree same
                    (ordinary ((Permitted-other caller.key d db (sym same)).valid v)))
              λ n d1.
                Safe-bind caller.key (Safe-refuse_if caller.key d1 _ _)
                  λ _ d2. Safe-create_audit_log o caller _ _ _ _ d2)

    pub delete_api_key-Safe :
        (id : Uuid) (entries : List ResolutionEntry) (db : Db)
        → Safe caller.key (delete_api_key o caller id entries) db
    unfolding delete_api_key
    delete_api_key-Safe id entries db =
        let same : Permitted caller.key db db = Permitted-refl caller.key db in
        after_refuse _ _ (λ _. same)
          λ _.
            after_refuse _ _ (λ _. same)
              λ _.
                after_read (find_administrable_key-Reads o db caller.key id) (λ _ _. same)
                  λ target found.
                    after_lift _ (λ _ _. same)
                      λ _ _.
                        after_lift _ (λ _ _. same)
                          λ _ mutable.
                            after_read (collect_key_subtree-Reads o db id) (λ _ _. same)
                              λ subtree is.
                                after_refuse _ _ (λ _. same)
                                  λ _.
                                    after_read (IsInventory-Reads o subtree db) (λ _ _. same)
                                      λ inventory _.
                                        after_lift _ (λ _ _. same)
                                          λ _ _.
                                            after_read
                                              (check_reassignments-Reads o subtree entries db)
                                              (λ _ _. same)
                                              λ _ _.
                                                apply_deletion-Safe target id subtree inventory
                                                  entries db
                                                  λ v j k inside.
                                                    Descends-ordinary target k v found.0
                                                      (ordinary_of_mutable target _ mutable)
                                                      ((is j).0 inside)
