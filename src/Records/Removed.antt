-- ===== src/Records/Removed.antt =====
-- src/api/records.rs: `delete_ip_record`, in both forms.
use mathlib.Core.Option
use simply_firewall.Prelude.{
  ℕ, ◌≡◌, ◌≢◌, ◌⊎◌, refl, sym, subst, ap, ◌∙◌, inl, inr, Bool, true, false, not, ◌&&◌, Option, none,
  some, List, [], ◌∷◌, keep, map, contains, find, is_some, is_empty, Member, ◌==◌, if◌then◌else◌,
  InSome, arith, unwrap_or,
}
use simply_firewall.Entities.{Uuid, DateTime, ApiKey, Permission, IpRecord}
use simply_firewall.Error.{AppError, DbErr}
use simply_firewall.Outside.{Outside}
use simply_firewall.Store.{Db, stored, refused}
use simply_firewall.Store.Lookup.{by_key_sound, by_key-update, find_sound}
use simply_firewall.Store.Rows.{HasVerb, Holds, contains-map-keep}
use simply_firewall.Store.Aged.{record_by_id, delete_records, update_record, update_record_at}
use simply_firewall.Store.Spec.{eq_of_stored, Spec, Spec-bind, Spec-pure, Spec-if}
use simply_firewall.Store.Chain.{
  Reads, after_read, after_refuse, after_ok_or, after_query, after_execute, after_now,
}
use simply_firewall.Guards.Effects.{DbFailure}
use simply_firewall.Support.{Caller}
use simply_firewall.Support.Effects.{Spec-create_audit_log}
use simply_firewall.Records.{
  Removal, permanent, soft, groups_holding, deletable_in, delete_access, caller_may_delete_record,
  hard_delete, soft_delete, delete_ip_record, flagged,
}

-- The caller is the master, or has a row that allows deletion on a group with a membership of the
-- record.
abbrev pub MayDeleteRecord : ApiKey → Uuid → Db → Type 0
MayDeleteRecord key id db =
    (key.is_master ≡ true)
    ⊎ ((group : Uuid) × Holds group id db × HasVerb (λ p. p.can_delete) key.id group db)

held_by :
    (id group : Uuid) (db : Db) → contains group (groups_holding id db) ≡ true → Holds group id db
held_by id group db h =
    let (m, there, t, same) =
      contains-map-keep (λ m. m.ip_record_id == id) group db.memberships h in
    (m, there, ground (arith, t), same)

found_deletable :
    (key : ApiKey) (id : Uuid) (db : Db) (x : Option Permission)
    → deletable_in key.id (groups_holding id db) db ≡ x
    → is_some x ≡ true
    → MayDeleteRecord key id db
found_deletable key id db none e h = absurd cc
found_deletable key id db (some p) e h =
    let (there, t) = find_sound _ db.permissions p e in
    inr (
      p.group_id,
      held_by id p.group_id db (ground (arith, t)),
      (p, there, ground (arith, t), refl, ground (arith, t)),
    )

-- The answer: gone for good, or flagged, under the address that the row had.
abbrev pub IsEffect : ApiKey → Uuid → IpRecord → Removal → Db → Type 0
IsEffect key id row (permanent address) d =
    (key.is_master ≡ true) × (address ≡ row.target_address) × (record_by_id id d ≡ none)
IsEffect key id row (soft address already) d =
    (address ≡ row.target_address)
    × (already ≡ row.is_deleted)
    × InSome (λ r. (r.is_deleted ≡ true) × (r.target_address ≡ row.target_address))
        (record_by_id id d)

pub record IsDeletedRecord (key : ApiKey) (id : Uuid) (db : Db) (answer : Removal) (d : Db)
    : Type 0 where
  pub row : IpRecord
  pub was_there : Member row db.ip_records × (row.id ≡ id)
  pub allowed : MayDeleteRecord key id db
  pub unlocked : row.is_locked ≡ false
  pub effect : IsEffect key id row answer d
  pub others : (j : Uuid) → j ≢ id → record_by_id j d ≡ record_by_id j db

find_gone :
    (id : Uuid) (rows : List IpRecord)
    → find (λ r. r.id == id) (keep (λ r. not (r.id == id)) rows) ≡ none
find_gone id [] = refl
find_gone id (r ∷ rows) = ground (arith, find_gone id rows)

find_kept :
    (j id : Uuid) (rows : List IpRecord)
    → j ≢ id
    → find (λ r. r.id == j) (keep (λ r. not (r.id == id)) rows) ≡ find (λ r. r.id == j) rows
find_kept j id [] h = refl
find_kept j id (r ∷ rows) h = ground (arith, find_kept j id rows h)

after_delete :
    (i : Uuid) (db d : Db) (n : ℕ)
    → delete_records (λ r. r.id == i) db ≡ stored n d
    → d.ip_records ≡ keep (λ r. not (r.id == i)) db.ip_records
unfolding delete_records
after_delete i db d n done = sym (ap (λ (x : Db). x.ip_records) (eq_of_stored done).1)

stored_if :
    (x : DbErr) (found : Bool) (d' d : Db)
    → (if found then stored tt d' else refused x) ≡ stored tt d
    → d' ≡ d
stored_if x true d' d e = (eq_of_stored e).1
stored_if x false d' d e = absurd cc

after_update :
    (i : Uuid) (f : IpRecord → IpRecord) (db d : Db)
    → update_record i f db ≡ stored tt d
    → d.ip_records ≡ map (update_record_at i f) db.ip_records
unfolding update_record
after_update i f db d done =
    sym (ap (λ (x : Db). x.ip_records) (stored_if _ (is_some (record_by_id i db)) _ d done))

find_after_delete :
    (i j : Uuid) (db d : Db)
    → d.ip_records ≡ keep (λ r. not (r.id == i)) db.ip_records
    → j ≢ i
    → record_by_id j d ≡ record_by_id j db
find_after_delete i j db d e other = rw e (find_kept j i db.ip_records other)

gone_after_delete :
    (i : Uuid) (db d : Db)
    → d.ip_records ≡ keep (λ r. not (r.id == i)) db.ip_records
    → record_by_id i d ≡ none
gone_after_delete i db d e = rw e (find_gone i db.ip_records)

module _ (i : Uuid) (f : IpRecord → IpRecord) (db d : Db)
    (same_id : (r : IpRecord) → (f r).id ≡ r.id)
    (updated : d.ip_records ≡ map (update_record_at i f) db.ip_records) where
  find_after_update :
      (j : Uuid)
      → record_by_id j d ≡ (if j == i then Option.map f (record_by_id j db) else record_by_id j db)
  find_after_update j =
      rw updated (by_key-update (λ (r : IpRecord). r.id) i j f db.ip_records same_id)

  find_updated : (row : IpRecord) → record_by_id i db ≡ some row → record_by_id i d ≡ some (f row)
  find_updated row e = find_after_update i ∙ ground (arith, e)

  find_others : (j : Uuid) → j ≢ i → record_by_id j d ≡ record_by_id j db
  find_others j other = find_after_update j ∙ ground (arith, other)

in_found : {A : Type 0} (P : A → Type 0) {a : A} (x : Option A) → x ≡ some a → P a → InSome P x
in_found P x e p = subst (InSome P) (sym e) p

module _ (o : Outside) (caller : Caller) where
  pub caller_may_delete_record-Reads :
      (db : Db) (id : Uuid)
      → Reads
          (caller_may_delete_record o caller.key id)
          db
          (λ b. b ≡ true → MayDeleteRecord caller.key id db)
          DbFailure
  unfolding caller_may_delete_record delete_access
  caller_may_delete_record-Reads db id =
      Spec-if db caller.key.is_master _ _ (λ master. Spec-pure db true (refl, λ _. inl master))
        λ _.
          after_query o (λ _. (refl, refl)) _ _
            (Spec-if db (is_empty (groups_holding id db)) _ _
              (λ _. Spec-pure db false (refl, λ h. absurd cc))
              λ _.
                after_query o (λ _. (refl, refl)) _ _
                  (Spec-pure db _ (refl, λ h. found_deletable caller.key id db _ refl h)))

  module _ (id : Uuid) (db : Db) (row : IpRecord) (found : record_by_id id db ≡ some row)
      (may : MayDeleteRecord caller.key id db) (unlocked : row.is_locked ≡ false) where
    abbrev Failed : AppError → Db → Type 0
    Failed e d = DbFailure e ⊎ (d ≡ db)

    is_at : row.id ≡ id
    is_at = (by_key_sound (λ (r : IpRecord). r.id) id db.ip_records row found).1

    there : Member row db.ip_records × (row.id ≡ id)
    there =
        let (m, t) = find_sound (λ (r : IpRecord). r.id == id) db.ip_records row found in (m, is_at)

    hard-IsDeletedRecord :
        caller.key.is_master ≡ true
        → Spec (hard_delete o caller row) db (IsDeletedRecord caller.key id db) Failed
    unfolding hard_delete delete_records
    hard-IsDeletedRecord master =
        after_execute o (λ _. inl refl) _
          λ n d done.
            Spec-bind {P = λ _ d'. d'.ip_records ≡ d.ip_records}
              (Spec-create_audit_log o d caller _ _ _ _ (λ _. inl refl) (λ _ _. refl))
              λ _ d' same. Spec-pure d' _ (record {
                row = row;
                was_there = there;
                allowed = may;
                unlocked = unlocked;
                effect = (
                  master,
                  refl,
                  subst (λ i. record_by_id i d' ≡ none) is_at
                      (gone_after_delete row.id db d' (same ∙ after_delete row.id db d n done)),
                );
                others = λ j other.
                    find_after_delete row.id j db d' (same ∙ after_delete row.id db d n done)
                      (λ e. other (e ∙ is_at));
              })

    found_at : record_by_id row.id db ≡ some row
    found_at = subst (λ i. record_by_id i db ≡ some row) (sym is_at) found

    flagged_there :
        (clock : DateTime) (d : Db)
        → d.ip_records
          ≡ map (update_record_at row.id (flagged (o.show_uuid caller.key.id) clock)) db.ip_records
        → InSome
            (λ r. (r.is_deleted ≡ true) × (r.target_address ≡ row.target_address))
            (record_by_id id d)
    flagged_there clock d e =
        in_found _ (record_by_id id d)
          (subst (λ i. record_by_id i d ≡ some (flagged (o.show_uuid caller.key.id) clock row))
            is_at
            (find_updated row.id (flagged (o.show_uuid caller.key.id) clock) db d (λ _. refl) e row
              found_at))
          (refl, refl)

    soft-IsDeletedRecord :
        Spec (soft_delete o caller row) db (IsDeletedRecord caller.key id db) Failed
    unfolding soft_delete update_record
    soft-IsDeletedRecord =
        Spec-if db row.is_deleted _ _
          (λ already. Spec-pure db _ (record {
            row = row;
            was_there = there;
            allowed = may;
            unlocked = unlocked;
            effect = (refl, sym already, rw found (already, refl));
            others = λ j other. refl;
          }))
          λ fresh. after_now o λ clock.
            after_execute o (λ _. inl refl) _
              λ n d done.
                Spec-bind {P = λ _ d'. d'.ip_records ≡ d.ip_records}
                  (Spec-create_audit_log o d caller _ _ _ _ (λ _. inl refl) (λ _ _. refl))
                  λ _ d' same. Spec-pure d' _ (record {
                    row = row;
                    was_there = there;
                    allowed = may;
                    unlocked = unlocked;
                    effect = (
                      refl,
                      sym fresh,
                      flagged_there clock d' (same ∙ after_update row.id _ db d done),
                    );
                    others = λ j other.
                        find_others row.id (flagged (o.show_uuid caller.key.id) clock) db d'
                          (λ _. refl) (same ∙ after_update row.id _ db d done) j
                          (λ e. other (e ∙ is_at));
                  })

  -- A deletion of a record that returns finds the row of the table, unlocked, and comes from the master
  -- or from a key with a row that allows deletion on a group that has a membership of the record. Only the master removes it for good; else it stays
  -- under its identifier and address with the flag set. Lookups of other records answer as before. One
  -- that fails has changed nothing, unless the database failed.
  pub delete_ip_record-IsDeletedRecord :
      (db : Db) (id : Uuid) (hard : Option Bool)
      → Spec
          (delete_ip_record o caller id hard)
          db
          (IsDeletedRecord caller.key id db)
          (λ e d. DbFailure e ⊎ (d ≡ db))
  unfolding delete_ip_record
  delete_ip_record-IsDeletedRecord db id hard =
      after_query o (λ _. inl refl) _ _
        (after_ok_or _ (record_by_id id db) (λ _. inr refl)
          λ row found.
            after_read (caller_may_delete_record-Reads db id) (λ _ _. inr refl)
              λ allowed may.
                after_refuse (not allowed) _ (λ _. inr refl)
                  λ is_allowed.
                    after_refuse row.is_locked _ (λ _. inr refl)
                      λ unlocked.
                        after_refuse (unwrap_or hard false && not caller.key.is_master) _
                          (λ _. inr refl)
                          λ master.
                            Spec-if db (unwrap_or hard false) _ _
                              (λ is_hard.
                                hard-IsDeletedRecord id db row found
                                  (may (ground (arith, is_allowed))) unlocked
                                  (ground (arith, master, is_hard)))
                              (λ _.
                                soft-IsDeletedRecord id db row found
                                  (may (ground (arith, is_allowed))) unlocked))
