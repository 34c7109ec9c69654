-- ===== src/Authority/Statements.antt =====
-- Which statements on `api_keys` are permitted, and under which conditions on their rows.
use mathlib.Core.Option
use mathlib.Core.Path.{subst₂}
use native.Mathlib.Decide.{ℕ_discrete as dec_eq}
use simply_firewall.Prelude.{
  ◌≡◌, refl, sym, ap, subst, ◌⊎◌, inl, inr, Bool, true, false, Option, none, some, List, [], ◌∷◌,
  ◌++◌, map, any, if◌then◌else◌, Member, arith, ◌==◌, Option-cases, text_eq, ⊎_elim, ◌&&◌, ◌||◌,
  Text,
}
use simply_firewall.Entities.{Uuid, ApiKey}
use simply_firewall.Store.{Db, stored}
use simply_firewall.Store.Tables.{key_by_id, insert_key, update_row, update_key, update_key_hash}
use simply_firewall.Store.Lookup.{
  by_key, by_key-append, by_key-append_old, by_key-update, Member-append, Member-map,
}
use simply_firewall.Authority.{
  frozen, frozen_if_master, ScopesWithin, ScopesWithin-refl, IsValid, Permitted,
}

abbrev pub HasNoScope : ApiKey → Type 0
HasNoScope k =
    (k.can_manage_keys ≡ false) × (k.can_manage_webhooks ≡ false) × (k.can_create_groups ≡ false)

abbrev clashes : ApiKey → ApiKey → Bool
clashes row k = k.id == row.id || text_eq k.key_hash row.key_hash || (k.is_master && row.is_master)

absent_of_no_clash :
    (row : ApiKey) (xs : List ApiKey)
    → any (clashes row) xs ≡ false
    → by_key (λ k. k.id) row.id xs ≡ none
absent_of_no_clash row [] e = refl
absent_of_no_clash row (x ∷ xs) e = ground (arith, absent_of_no_clash row xs)

module _ (row : ApiKey) (db db' : Db) {a : Unit {0}}
    (inserted : insert_key row db ≡ stored a db') where
  insert_key-eq : (db'.api_keys ≡ db.api_keys ++ row ∷ []) × (key_by_id row.id db ≡ none)
  unfolding insert_key
  insert_key-eq = ground (arith, absent_of_no_clash row db.api_keys)

  -- What a lookup finds after the insertion.
  pub key_by_id-insert_new :
      (id : Uuid)
      → key_by_id id db ≡ none
      → key_by_id id db' ≡ (if row.id == id then some row else none)
  key_by_id-insert_new id e = rw insert_key-eq.0 (by_key-append (λ k. k.id) id db.api_keys row e)

  pub key_by_id-insert_old :
      (id : Uuid) (k : ApiKey) → key_by_id id db ≡ some k → key_by_id id db' ≡ some k
  key_by_id-insert_old id k e =
      rw insert_key-eq.0 (by_key-append_old (λ k. k.id) id db.api_keys row k e)

  module _ (v : IsValid db) (ordinary : row.is_master ≡ false) where
    unique_after : (k : ApiKey) → Member k db'.api_keys → key_by_id k.id db' ≡ some k
    unique_after k m =
        ⊎_elim (λ old. key_by_id-insert_old k.id k (v.unique k old))
          (λ e. rw e (ground (arith, key_by_id-insert_new row.id insert_key-eq.1)))
          (Member-append k db.api_keys row (rw insert_key-eq.0 at m))

    rooted_after :
        (k : ApiKey) → Member k db'.api_keys → k.is_master ≡ true → k.parent_key_id ≡ none
    rooted_after k m e =
        ⊎_elim (λ old. v.rooted k old e)
          (λ same. absurd (ground (arith, ap (λ (x : ApiKey). x.is_master) same)))
          (Member-append k db.api_keys row (rw insert_key-eq.0 at m))

  -- A new key that is no master is permitted; a caller that is no master gives it no scope.
  pub insert_key-Permitted :
      (caller : ApiKey)
      → row.is_master ≡ false
      → (caller.is_master ≡ true) ⊎ HasNoScope row
      → Permitted caller db db'
  insert_key-Permitted caller ordinary bounded = record {
    valid = λ v. record { unique = unique_after v ordinary; rooted = rooted_after v ordinary };
    masters = λ v id. elim (Option-cases (key_by_id id db)) [
      | inl absent ↦ ground (arith, key_by_id-insert_new id)
      | inr (k, found) ↦ ground (arith, key_by_id-insert_old id k)
    ];
    scopes = λ o v id. elim (Option-cases (key_by_id id db)) [
      | inl absent ↦ ground (arith, key_by_id-insert_new id)
      | inr (k, found) ↦ ground (arith, key_by_id-insert_old id k)
    ];
  }

-- An update of one row that keeps its identity.
module _ (id : Uuid) (f : ApiKey → ApiKey) (db db' : Db) {a : Unit {0}}
    (same_id : (k : ApiKey) → (f k).id ≡ k.id)
    (same_master : (k : ApiKey) → (f k).is_master ≡ k.is_master)
    (same_parent : (k : ApiKey) → (f k).parent_key_id ≡ k.parent_key_id)
    (done : update_key id f db ≡ stored a db') where
  update_key-eq : db'.api_keys ≡ map (update_row id f) db.api_keys
  unfolding update_key
  update_key-eq = ground arith

  pub key_by_id-update :
      (j : Uuid)
      → key_by_id j db' ≡ (if j == id then Option.map f (key_by_id j db) else key_by_id j db)
  key_by_id-update j = rw update_key-eq (by_key-update (λ k. k.id) id j f db.api_keys same_id)

  -- A relation between lookups holds everywhere if it does at the updated row.
  pub lookups_related :
      (P : Option ApiKey → Option ApiKey → Type 0) (target : ApiKey)
      → key_by_id id db ≡ some target
      → P (some (f target)) (some target)
      → ((x : Option ApiKey) → P x x)
      → (j : Uuid) → P (key_by_id j db') (key_by_id j db)
  lookups_related P target found here elsewhere j = elim (dec_eq j id) [
    | yes e ↦
        subst (λ i. P (key_by_id i db') (key_by_id i db)) (sym e)
          (subst₂ P (sym (ground (arith, key_by_id-update id))) (sym found) here)
    | no ne ↦
        subst (λ x. P x (key_by_id j db)) (sym (ground (arith, key_by_id-update j)))
          (elsewhere (key_by_id j db))
  ]

  module _ (v : IsValid db) where
    unique_updated : (k : ApiKey) → Member k db'.api_keys → key_by_id k.id db' ≡ some k
    unique_updated k m =
        let (x, old, e) = Member-map (update_row id f) k db.api_keys (rw update_key-eq at m) in
        ground
          (arith, key_by_id-update k.id, v.unique x old, same_id x, ap (λ (y : ApiKey). y.id) e)

    rooted_updated :
        (k : ApiKey) → Member k db'.api_keys → k.is_master ≡ true → k.parent_key_id ≡ none
    rooted_updated k m h =
        let (x, old, e) = Member-map (update_row id f) k db.api_keys (rw update_key-eq at m) in
        ground (
          arith,
          v.rooted x old,
          same_master x,
          same_parent x,
          ap (λ (y : ApiKey). y.is_master) e,
          ap (λ (y : ApiKey). y.parent_key_id) e,
        )

  -- Such an update is permitted if it leaves a master's frozen columns alone, and, from a caller
  -- that is no master, adds no scope.
  pub update_key-Permitted :
      (caller target : ApiKey)
      → key_by_id id db ≡ some target
      → (target.is_master ≡ false) ⊎ (frozen (f target) ≡ frozen target)
      → (caller.is_master ≡ true) ⊎ ScopesWithin (some (f target)) (some target)
      → Permitted caller db db'
  update_key-Permitted caller target found kept bounded = record {
    valid = λ v. record { unique = unique_updated v; rooted = rooted_updated v };
    masters = λ v.
        lookups_related (λ new old. frozen_if_master new ≡ frozen_if_master old) target found
          (ground (arith, same_master target)) (λ x. refl);
    scopes = λ o v. lookups_related ScopesWithin target found (ground arith) ScopesWithin-refl;
  }

-- The same where the statement also checks a new `key_hash`.
pub update_key_of_hash :
    (id : Uuid) (hash : Text) (f : ApiKey → ApiKey) (db db' : Db) {a : Unit {0}}
    → update_key_hash id hash f db ≡ stored a db'
    → update_key id f db ≡ stored a db'
unfolding update_key_hash
update_key_of_hash id hash f db db' e = ground arith
