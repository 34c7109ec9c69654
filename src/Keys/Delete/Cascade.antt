-- ===== src/Keys/Delete/Cascade.antt =====
-- src/api/keys.rs: `delete_api_key` as a whole.
use simply_firewall.Prelude.{
  ℕ, ◌≡◌, refl, ap, ◌∙◌, ◌⊎◌, inl, inr, true, false, none, some, List, [], ◌∷◌, ◌++◌, All, Member,
  keep, length, contains, find, ◌==◌, arith,
}
use simply_firewall.Entities.{Uuid, ApiKey, IpGroup, WebhookConfig}
use simply_firewall.Error.{AppError, OwnedEntity}
use simply_firewall.Outside.{Outside}
use simply_firewall.Store.{AuditAction, AuditLog, Db, stored}
use simply_firewall.Store.Tables.{key_by_id, delete_keys}
use simply_firewall.Store.Spec.{Spec, Spec-mono, Spec-bind, Spec-both}
use simply_firewall.Store.Chain.{after_refuse, after_lift, after_read, after_execute}
use simply_firewall.Guards.Effects.{DbFailure}
use simply_firewall.Support.{Caller}
use simply_firewall.Support.Effects.{with_row, Spec-create_audit_log}
use simply_firewall.Authority.Removal.{key_by_id-delete_keys}
use simply_firewall.Keys.Subtree.Reach.{Descends, here, IsSubtree, collect_key_subtree-Reads}
use simply_firewall.Keys.Subtree.Visibility.{find_administrable_key-Reads}
use simply_firewall.Keys.Delete.{ResolutionEntry, apply_deletion, delete_api_key}
use simply_firewall.Keys.Delete.Pending.{Pending, Resolved, apply_all-Pending}
use simply_firewall.Keys.Delete.Effects.{
  apply_all-KeepsKeys, IsInventory-Reads, check_reassignments-Reads, check_map-Resolved,
}

-- The tables after a deletion, described by the tree of keys alone.
pub record IsDeleted (caller : Caller) (root : Uuid) (db d : Db) : Type 0 where
  -- every key at or below the root is gone, and every other key is as it was
  pub gone : (j : Uuid) → Descends db root j → key_by_id j d ≡ none
  pub kept : (j : Uuid) → (¬ Descends db root j) → key_by_id j d ≡ key_by_id j db
  -- no group and no webhook is left with an owner that is gone
  pub groups :
      (g : IpGroup) (owner : Uuid)
      → Member g d.groups
      → g.owner_key_id ≡ some owner
      → ¬ Descends db root owner
  pub webhooks :
      (h : WebhookConfig) (owner : Uuid)
      → Member h d.webhooks
      → h.owner_key_id ≡ some owner
      → ¬ Descends db root owner
  -- and the deletion is on record
  pub recorded :
      (row : AuditLog) × Member row d.audit_logs
      × (row.action ≡ AuditAction.key_delete)
      × (row.api_key_id ≡ some caller.key.id)

some_row_removed :
    (ids : List Uuid) (id : Uuid) (target : ApiKey) (xs : List ApiKey)
    → contains id ids ≡ true
    → find (λ k. k.id == id) xs ≡ some target
    → length (keep (λ k. contains k.id ids) xs) == 0 ≡ false
some_row_removed ids id target [] c e = absurd cc
some_row_removed ids id target (x ∷ xs) c e =
    ground
      (arith, some_row_removed ids id target xs c, λ (h : x.id ≡ id). ap (λ i. contains i ids) h)

last_Member : (row : AuditLog) (xs : List AuditLog) → Member row (xs ++ row ∷ [])
last_Member row [] = inl refl
last_Member row (x ∷ xs) = inr (last_Member row xs)

module _ (o : Outside) (caller : Caller) (target : ApiKey) (id : Uuid) (db : Db) where
  abbrev Deletes : AppError → Db → Type 0
  Deletes e d = DbFailure e ⊎ (d ≡ db)

  module _ (subtree : List Uuid) (is : IsSubtree db id subtree) where
    not_inside : (j : Uuid) → (¬ Descends db id j) → contains j subtree ≡ false
    not_inside j out = ground (arith, (is j).0, out)

    after_delete_keys :
        (d d' : Db) {n : ℕ}
        → delete_keys subtree d ≡ stored n d'
        → d.api_keys ≡ db.api_keys
        → Pending subtree [] d
        → (row : AuditLog) → (row.action ≡ AuditAction.key_delete)
        → (row.api_key_id ≡ some caller.key.id)
        → IsDeleted caller id db (with_row d' row)
    unfolding delete_keys
    after_delete_keys d d' done same p row act who = record {
      gone = λ j inside. ground (arith, key_by_id-delete_keys subtree d d' done j, (is j).1 inside);
      kept = λ j out.
          ground (arith, key_by_id-delete_keys subtree d d' done j, not_inside j out)
          ∙ ap (find (λ k. k.id == j)) same;
      groups = λ g owner m e inside. ground (arith, p.groups g, (is owner).1 inside);
      webhooks = λ h owner m e inside. ground (arith, p.webhooks h, (is owner).1 inside);
      recorded = (row, last_Member row d'.audit_logs, act, who);
    }

    removed_count :
        (d d' : Db) {n : ℕ}
        → delete_keys subtree d ≡ stored n d'
        → d.api_keys ≡ db.api_keys
        → key_by_id id db ≡ some target
        → n == 0 ≡ false
    unfolding delete_keys
    removed_count d d' done same found =
        ground (arith, some_row_removed subtree id target d.api_keys ((is id).1 here))

    apply_deletion-Spec :
        (inventory : List OwnedEntity) (entries : List ResolutionEntry)
        → key_by_id id db ≡ some target
        → All (Resolved subtree entries) inventory
        → Pending subtree inventory db
        → Spec
            (apply_deletion o caller target id subtree inventory entries)
            db
            (λ _ d. IsDeleted caller id db d)
            Deletes
    unfolding apply_deletion
    apply_deletion-Spec inventory entries found resolved p =
        Spec-bind
          (Spec-mono
            (Spec-both (apply_all-KeepsKeys o entries inventory db)
              (apply_all-Pending subtree o entries inventory db resolved p))
            (λ _ d q. q) (λ _ d q. inl q.1))
          λ _ d (same, none_left).
            after_execute o (λ _. inl refl) _
              λ n d' done.
                after_refuse _ _ (λ e. absurd (ground (arith, removed_count d d' done same found)))
                  λ _.
                    Spec-create_audit_log o d' caller _ _ _ _ (λ _. inl refl)
                      λ row r. after_delete_keys d d' done same none_left row r.1 r.0

-- A deletion that returns has removed exactly the keys at or below its target, has left no group
-- and no webhook with a removed owner, and has recorded itself. One that is refused for any reason
-- has written nothing; only a failure of the database can leave the work half done.
pub delete_api_key-IsDeleted :
    (o : Outside) (caller : Caller) (id : Uuid) (entries : List ResolutionEntry) (db : Db)
    → Spec
        (delete_api_key o caller id entries)
        db
        (λ _ d. IsDeleted caller id db d)
        (λ e d. DbFailure e ⊎ (d ≡ db))
unfolding delete_api_key
delete_api_key-IsDeleted o caller id entries db =
    after_refuse _ _ (λ _. inr refl)
      λ _.
        after_refuse _ _ (λ _. inr refl)
          λ _.
            after_read (find_administrable_key-Reads o db caller.key id) (λ _ _. inr refl)
              λ target found.
                after_lift _ (λ _ _. inr refl)
                  λ _ _.
                    after_lift _ (λ _ _. inr refl)
                      λ _ _.
                        after_read (collect_key_subtree-Reads o db id) (λ _ _. inr refl)
                          λ subtree is.
                            after_refuse _ _ (λ _. inr refl)
                              λ _.
                                after_read (IsInventory-Reads o subtree db) (λ _ _. inr refl)
                                  λ inventory (known, pending).
                                    after_lift _ (λ _ _. inr refl)
                                      λ _ checked.
                                        after_read (check_reassignments-Reads o subtree entries db)
                                          (λ _ _. inr refl)
                                          λ _ survive.
                                            apply_deletion-Spec o caller target id db subtree is
                                              inventory entries found.0
                                              (check_map-Resolved target id subtree inventory
                                                entries checked survive known)
                                              pending
