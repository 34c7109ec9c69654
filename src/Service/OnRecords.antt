-- ===== src/Service/OnRecords.antt =====
-- The endpoints of src/api/records.rs, against `Authority`.
use simply_firewall.Prelude.{ℕ, ◌≡◌, ap, Bool, false, Option, ℤ, arith, unwrap_or}
use simply_firewall.Entities.{Uuid, IpRecord}
use simply_firewall.Error.{Result}
use simply_firewall.Outside.{Outside}
use simply_firewall.Store.{Db, stored}
use simply_firewall.Store.Spec.{Spec-if, Spec-mono}
use simply_firewall.Store.Aged.{delete_records, update_record}
use simply_firewall.Support.{Caller}
use simply_firewall.Authority.{Permitted-other}
use simply_firewall.Authority.Safe.{
  Safe, Safe-of_Reads, Safe-bind, Safe-pure, Safe-lift, Safe-ok_or, Safe-query, Safe-execute,
  Safe-refuse_if, Safe-now, Safe-create_audit_log,
}
use simply_firewall.Retention.{purge_expired_ip_records}
use simply_firewall.Retention.Purged.{purge_expired_ip_records-keys}
use simply_firewall.Records.{
  Cidrs, DeleteIpQuery, hard_delete, soft_delete, delete_ip_record, restore_ip_record,
  purge_ip_records, delete_ip,
}
use simply_firewall.Records.Removed.{caller_may_delete_record-Reads}
use simply_firewall.Records.Atomic.{delete_ip-IsRemoved}

delete_records-keys :
    {n : ℕ} (p : IpRecord → Bool) (db db' : Db)
    → delete_records p db ≡ stored n db'
    → db'.api_keys ≡ db.api_keys
unfolding delete_records
delete_records-keys p db db' e = ground arith

update_record-keys :
    {a : Unit {0}} (id : Uuid) (f : IpRecord → IpRecord) (db db' : Db)
    → update_record id f db ≡ stored a db'
    → db'.api_keys ≡ db.api_keys
unfolding update_record
update_record-keys id f db db' e = ground arith

module _ (o : Outside) (caller : Caller) where
  hard_delete-Safe : (row : IpRecord) (db : Db) → Safe caller.key (hard_delete o caller row) db
  unfolding hard_delete
  hard_delete-Safe row db =
      Safe-bind caller.key (Safe-execute caller.key db o _ (λ _ d e. delete_records-keys _ db d e))
        λ _ d1.
          Safe-bind caller.key (Safe-create_audit_log o caller _ _ _ _ d1)
            λ _ d2. Safe-pure caller.key d2 _

  soft_delete-Safe : (row : IpRecord) (db : Db) → Safe caller.key (soft_delete o caller row) db
  unfolding soft_delete
  soft_delete-Safe row db =
      Spec-if db row.is_deleted _ _ (λ _. Safe-pure caller.key db _)
        λ _. Safe-bind caller.key (Safe-now caller.key db o) λ t d1.
          Safe-bind caller.key
            (Safe-execute caller.key d1 o _ (λ _ d e. update_record-keys _ _ d1 d e))
            λ _ d2.
              Safe-bind caller.key (Safe-create_audit_log o caller _ _ _ _ d2)
                λ _ d3. Safe-pure caller.key d3 _

  pub delete_ip_record-Safe :
      (id : Uuid) (hard : Option Bool) (db : Db)
      → Safe caller.key (delete_ip_record o caller id hard) db
  unfolding delete_ip_record
  delete_ip_record-Safe id hard db = Safe-bind caller.key (Safe-query caller.key db o _) λ found d1.
      Safe-bind caller.key (Safe-ok_or caller.key d1 _ found) λ row d2.
        Safe-bind caller.key
          (Safe-of_Reads caller.key (caller_may_delete_record-Reads o caller d2 id))
          λ allowed d3. Safe-bind caller.key (Safe-refuse_if caller.key d3 _ _) λ _ d4.
            Safe-bind caller.key (Safe-refuse_if caller.key d4 _ _) λ _ d5.
              Safe-bind caller.key (Safe-refuse_if caller.key d5 _ _) λ _ d6.
                Spec-if d6 (unwrap_or hard false) _ _ (λ _. hard_delete-Safe row d6)
                  (λ _. soft_delete-Safe row d6)

  pub restore_ip_record-Safe :
      (id : Uuid) (db : Db) → Safe caller.key (restore_ip_record o caller id) db
  unfolding restore_ip_record
  restore_ip_record-Safe id db = Safe-bind caller.key (Safe-refuse_if caller.key db _ _) λ _ d1.
      Safe-bind caller.key (Safe-query caller.key d1 o _) λ found d2.
        Safe-bind caller.key (Safe-ok_or caller.key d2 _ found) λ row d3.
          Safe-bind caller.key (Safe-refuse_if caller.key d3 _ _) λ _ d4.
            Safe-bind caller.key (Safe-now caller.key d4 o) λ t d5.
              Safe-bind caller.key
                (Safe-execute caller.key d5 o _ (λ _ d e. update_record-keys _ _ d5 d e))
                λ _ d6.
                  Safe-bind caller.key (Safe-create_audit_log o caller _ _ _ _ d6)
                    λ _ d7. Safe-pure caller.key d7 _

  purge-Safe : (days : ℤ) (db : Db) → Safe caller.key (purge_expired_ip_records o days) db
  purge-Safe days db =
      Spec-mono (purge_expired_ip_records-keys o db days)
        (λ n d h. Permitted-other caller.key db d h) (λ e d h. Permitted-other caller.key db d h)

  pub purge_ip_records-Safe :
      (configured : ℤ) (body : Result (Option ℤ)) (db : Db)
      → Safe caller.key (purge_ip_records o configured caller body) db
  unfolding purge_ip_records
  purge_ip_records-Safe configured body db =
      Safe-bind caller.key (Safe-refuse_if caller.key db _ _) λ _ d1.
        Safe-bind caller.key (Safe-lift caller.key d1 _) λ asked d2.
          Safe-bind caller.key (Safe-lift caller.key d2 _) λ days d3.
            Safe-bind caller.key (purge-Safe days d3) λ n d4.
              Safe-bind caller.key (Safe-create_audit_log o caller _ _ _ _ d4)
                λ _ d5. Safe-pure caller.key d5 _

  pub delete_ip-Safe :
      (c : Cidrs) (query_params : DeleteIpQuery) (body : Result DeleteIpQuery) (db : Db)
      → Safe caller.key (delete_ip o c caller query_params body) db
  delete_ip-Safe c query_params body db =
      Spec-mono (delete_ip-IsRemoved o caller c db query_params body)
        (λ a d h. Permitted-other caller.key db d (ap (λ (x : Db). x.api_keys) h.result))
        (λ e d h. Permitted-other caller.key db d (ap (λ (x : Db). x.api_keys) h))
