-- ===== src/Keys/Grants/Rows.antt =====
-- What the upsert of a grant does to the rows of `api_key_group_permissions`.
use simply_firewall.Prelude.{
  ◌≡◌, refl, Bool, true, false, ◌&&◌, Option, none, List, [], ◌∷◌, ◌++◌, map, find, ◌==◌, is_some,
  InSome, arith, Bool-cases, inl, inr,
}
use simply_firewall.Entities.{Uuid, Permission}
use simply_firewall.Store.{Db, stored}
use simply_firewall.Store.Tables.{permission_of, set_verbs, insert_permission, upsert_permission}

abbrev row_of : (key group : Uuid) → List Permission → Option Permission
row_of key group = find (λ p. p.api_key_id == key && p.group_id == group)

-- A row has the verbs of another.
abbrev pub SameVerbs : Permission → Permission → Type 0
SameVerbs row p =
    (p.can_read ≡ row.can_read)
    × (p.can_write ≡ row.can_write)
    × (p.can_delete ≡ row.can_delete)
    × (p.can_manage ≡ row.can_manage)

abbrev pub is_for : Permission → (key group : Uuid) → Bool
is_for row key group = row.api_key_id == key && row.group_id == group

module _ (row : Permission) (key group : Uuid) where
  other_after_update :
      (xs : List Permission)
      → is_for row key group ≡ false
      → row_of key group (map (set_verbs row) xs) ≡ row_of key group xs
  other_after_update [] e = refl
  other_after_update (x ∷ xs) e = ground (arith, other_after_update xs e)

  other_after_append :
      (xs : List Permission)
      → is_for row key group ≡ false
      → row_of key group (xs ++ row ∷ []) ≡ row_of key group xs
  other_after_append [] e = ground arith
  other_after_append (x ∷ xs) e = ground (arith, other_after_append xs e)

module _ (row : Permission) where
  own_after_update :
      (xs : List Permission)
      → is_some (row_of row.api_key_id row.group_id xs) ≡ true
      → InSome (SameVerbs row) (row_of row.api_key_id row.group_id (map (set_verbs row) xs))
  own_after_update [] e = absurd cc
  own_after_update (x ∷ xs) e =
      elim (Bool-cases (x.api_key_id == row.api_key_id && x.group_id == row.group_id)) [
        | inl t ↦ rw (t, t) (refl, refl, refl, refl)
        | inr f ↦ rw (f, f) (own_after_update xs (rw f at e))
      ]

  own_after_append :
      (xs : List Permission)
      → row_of row.api_key_id row.group_id xs ≡ none
      → InSome (SameVerbs row) (row_of row.api_key_id row.group_id (xs ++ row ∷ []))
  own_after_append [] e = ground arith
  own_after_append (x ∷ xs) e = ground (arith, own_after_append xs)

  module _ (db db' : Db) {a : Unit {0}} (done : upsert_permission row db ≡ stored a db') where
    pub own-upsert : InSome (SameVerbs row) (permission_of row.api_key_id row.group_id db')
    unfolding upsert_permission insert_permission
    own-upsert = ground (arith, own_after_update db.permissions, own_after_append db.permissions)

    pub other-upsert :
        (key group : Uuid)
        → is_for row key group ≡ false
        → permission_of key group db' ≡ permission_of key group db
    unfolding upsert_permission insert_permission
    other-upsert key group e = ground (
      arith,
      other_after_update row key group db.permissions e,
      other_after_append row key group db.permissions e,
    )
