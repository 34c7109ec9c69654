-- ===== src/Authority/Removal.antt =====
-- Removing keys: permitted if no master is among them, and none is in the subtree of a key that is
-- no master.
use simply_firewall.Prelude.{
  ◌≡◌, ap, true, false, not, none, some, List, if◌then◌else◌, keep, contains, Member, arith,
  Bool-cases, Option-cases, inl, inr, ℕ,
}
use simply_firewall.Entities.{Uuid, ApiKey}
use simply_firewall.Store.{Db, stored}
use simply_firewall.Store.Tables.{key_by_id, delete_keys}
use simply_firewall.Store.Lookup.{by_key-keep, Member-keep}
use simply_firewall.Keys.Subtree.Reach.{Descends, here, below}
use simply_firewall.Authority.{
  frozen_if_master, ScopesWithin, ScopesWithin-refl, IsValid, Permitted,
}

-- The rows found at some ids are no masters.
abbrev pub AreOrdinary : List Uuid → Db → Type 0
AreOrdinary ids db =
    (id : Uuid) (k : ApiKey)
    → contains id ids ≡ true
    → key_by_id id db ≡ some k
    → k.is_master ≡ false

pub Descends-ordinary :
    {db : Db} {root id : Uuid} (target k : ApiKey)
    → IsValid db
    → key_by_id root db ≡ some target
    → target.is_master ≡ false
    → Descends db root id
    → key_by_id id db ≡ some k
    → k.is_master ≡ false
Descends-ordinary target k v found ordinary here e = ground arith
Descends-ordinary {db} target k v found ordinary (below d (x, m, parent, same)) e =
    elim (Bool-cases k.is_master) [
      | inl master ↦
          let found_x : key_by_id x.id db ≡ some x = v.unique x m in
          ground (arith, v.rooted x m, ap (λ (i : Uuid). key_by_id i db) same)
      | inr no_master ↦ no_master
    ]

module _ (ids : List Uuid) (db db' : Db) {n : ℕ} (done : delete_keys ids db ≡ stored n db') where
  delete_keys-eq : db'.api_keys ≡ keep (λ k. not (contains k.id ids)) db.api_keys
  unfolding delete_keys
  delete_keys-eq = ground arith

  pub key_by_id-delete_keys :
      (j : Uuid) → key_by_id j db' ≡ (if contains j ids then none else key_by_id j db)
  key_by_id-delete_keys j = rw delete_keys-eq (by_key-keep (λ k. k.id) j ids db.api_keys)

  survivor :
      (k : ApiKey) → Member k db'.api_keys → Member k db.api_keys × (contains k.id ids ≡ false)
  survivor k m =
      let (old, e) =
        Member-keep (λ (x : ApiKey). not (contains x.id ids)) k db.api_keys
          (rw delete_keys-eq at m) in
      (old, ground arith)

  masters_survive :
      (j : Uuid)
      → AreOrdinary ids db
      → frozen_if_master (key_by_id j db') ≡ frozen_if_master (key_by_id j db)
  masters_survive j ordinary = elim (Option-cases (key_by_id j db)) [
    | inl absent ↦ ground (arith, key_by_id-delete_keys j)
    | inr (k, found) ↦ ground (arith, key_by_id-delete_keys j, ordinary j k)
  ]

  no_scope_gained : (j : Uuid) → ScopesWithin (key_by_id j db') (key_by_id j db)
  no_scope_gained j = ground (arith, key_by_id-delete_keys j, ScopesWithin-refl (key_by_id j db))

  pub delete_keys-Permitted :
      (caller : ApiKey) → (IsValid db → AreOrdinary ids db) → Permitted caller db db'
  delete_keys-Permitted caller ordinary = record {
    valid = λ v. record {
      unique = λ k m.
          ground (arith, key_by_id-delete_keys k.id, survivor k m, v.unique k (survivor k m).0);
      rooted = λ k m. v.rooted k (survivor k m).0;
    };
    masters = λ v j. masters_survive j (ordinary v);
    scopes = λ o v j. no_scope_gained j;
  }
