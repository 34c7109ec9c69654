-- ===== src/Service/Others.antt =====
-- The endpoints of src/api/keys.rs and src/api/groups.rs that only read, against `Authority`.
use simply_firewall.Prelude.{Option, none, some, List, [], ◌∷◌, is_empty, contains, not}
use simply_firewall.Entities.{Uuid, ApiKey}
use simply_firewall.Outside.{Outside}
use simply_firewall.Store.{Db}
use simply_firewall.Store.Spec.{Spec-if}
use simply_firewall.Authority.Safe.{
  Safe, Safe-of_Reads, Safe-bind, Safe-pure, Safe-query, Safe-refuse_if,
}
use simply_firewall.Keys.Subtree.Reach.{collect_key_subtree-Reads}
use simply_firewall.Keys.Listing.{
  one_full, one_minimal, full_api_key_summary, minimal_api_key_summary, get_me,
  groups_the_caller_manages, shared_keys, full_summaries, subtree_summaries, shared_summaries,
  list_api_keys,
}
use simply_firewall.Groups.{listed_groups, list_ip_groups}

module _ (o : Outside) (caller : ApiKey) (db : Db) where
  pub full_api_key_summary-Safe : (k : ApiKey) → Safe caller (full_api_key_summary o k) db
  unfolding full_api_key_summary
  full_api_key_summary-Safe k =
      Safe-bind caller (Safe-query caller db o _) λ _ d. Safe-pure caller d _

  minimal_api_key_summary-Safe :
      (k : ApiKey) (visible : List Uuid) → Safe caller (minimal_api_key_summary o k visible) db
  unfolding minimal_api_key_summary
  minimal_api_key_summary-Safe k visible =
      Safe-bind caller (Safe-query caller db o _) λ _ d. Safe-pure caller d _

  pub get_me-Safe : (key : ApiKey) → Safe caller (get_me o key) db
  unfolding get_me
  get_me-Safe key = Safe-bind caller (Safe-query caller db o _) λ _ d. Safe-pure caller d _

module _ (o : Outside) (caller : ApiKey) where
  full_summaries-Safe : (ks : List ApiKey) (db : Db) → Safe caller (full_summaries o ks) db
  unfolding full_summaries
  full_summaries-Safe [] db = Safe-pure caller db _
  full_summaries-Safe (k ∷ ks) db =
      Safe-bind caller (full_api_key_summary-Safe o caller db k)
        λ _ d. Safe-bind caller (full_summaries-Safe ks d) λ _ d'. Safe-pure caller d' _

  one_full-Safe : (found : Option ApiKey) (db : Db) → Safe caller (one_full o found) db
  unfolding one_full
  one_full-Safe none db = Safe-pure caller db _
  one_full-Safe (some k) db =
      Safe-bind caller (full_api_key_summary-Safe o caller db k) λ _ d. Safe-pure caller d _

  subtree_summaries-Safe : (ids : List Uuid) (db : Db) → Safe caller (subtree_summaries o ids) db
  unfolding subtree_summaries
  subtree_summaries-Safe [] db = Safe-pure caller db _
  subtree_summaries-Safe (id ∷ ids) db = Safe-bind caller (Safe-query caller db o _) λ found d.
      Safe-bind caller (one_full-Safe found d)
        λ _ d'. Safe-bind caller (subtree_summaries-Safe ids d') λ _ d''. Safe-pure caller d'' _

  one_minimal-Safe :
      (found : Option ApiKey) (managed : List Uuid) (db : Db)
      → Safe caller (one_minimal o found managed) db
  unfolding one_minimal
  one_minimal-Safe none managed db = Safe-pure caller db _
  one_minimal-Safe (some k) managed db =
      Safe-bind caller (minimal_api_key_summary-Safe o caller db k managed)
        λ _ d. Safe-pure caller d _

  shared_summaries-Safe :
      (managed seen ids : List Uuid) (db : Db)
      → Safe caller (shared_summaries o managed seen ids) db
  unfolding shared_summaries
  shared_summaries-Safe managed seen [] db = Safe-pure caller db _
  shared_summaries-Safe managed seen (id ∷ ids) db =
      Spec-if db (contains id seen) _ _ (λ _. shared_summaries-Safe managed seen ids db)
        λ _. Safe-bind caller (Safe-query caller db o _) λ found d.
          Safe-bind caller (one_minimal-Safe found managed d) λ _ d'.
            Safe-bind caller (shared_summaries-Safe managed (id ∷ seen) ids d')
              λ _ d''. Safe-pure caller d'' _

  groups_the_caller_manages-Safe :
      (key : ApiKey) (db : Db) → Safe caller (groups_the_caller_manages o key) db
  unfolding groups_the_caller_manages
  groups_the_caller_manages-Safe key db =
      Spec-if db (not key.can_manage_keys) _ _ (λ _. Safe-pure caller db _)
        (λ _. Safe-query caller db o _)

  shared_keys-Safe :
      (managed subtree : List Uuid) (db : Db) → Safe caller (shared_keys o managed subtree) db
  unfolding shared_keys
  shared_keys-Safe managed subtree db =
      Spec-if db (is_empty managed) _ _ (λ _. Safe-pure caller db _) (λ _. Safe-query caller db o _)

  pub list_api_keys-Safe : (key : ApiKey) (db : Db) → Safe caller (list_api_keys o key) db
  unfolding list_api_keys
  list_api_keys-Safe key db = Safe-bind caller (Safe-refuse_if caller db _ _) λ _ d.
      Spec-if d key.is_master _ _
        (λ _. Safe-bind caller (Safe-query caller d o _) λ keys d'. full_summaries-Safe keys d')
        λ _.
          Safe-bind caller (Safe-of_Reads caller (collect_key_subtree-Reads o d key.id))
            λ subtree d1. Safe-bind caller (groups_the_caller_manages-Safe key d1) λ managed d2.
              Safe-bind caller (shared_keys-Safe managed subtree d2) λ shared d3.
                Safe-bind caller (subtree_summaries-Safe subtree d3) λ own d4.
                  Safe-bind caller (shared_summaries-Safe managed _ shared d4)
                    λ _ d5. Safe-pure caller d5 _

  listed_groups-Safe : (ids : List Uuid) (db : Db) → Safe caller (listed_groups o ids) db
  unfolding listed_groups
  listed_groups-Safe ids db =
      Spec-if db (is_empty ids) _ _ (λ _. Safe-pure caller db _) (λ _. Safe-query caller db o _)

  pub list_ip_groups-Safe : (key : ApiKey) (db : Db) → Safe caller (list_ip_groups o key) db
  unfolding list_ip_groups
  list_ip_groups-Safe key db =
      Spec-if db key.is_master _ _ (λ _. Safe-query caller db o _)
        λ _. Safe-bind caller (Safe-query caller db o _) λ ids d. listed_groups-Safe ids d
