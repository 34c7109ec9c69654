-- ===== src/Keys/Subtree/Walk.antt =====
-- One round of the walk: which ids it adds, and that it uses up unvisited rows.
use simply_firewall.Prelude.{
  ℕ, suc, ◌≤◌, ◌<◌, ◌≡◌, refl, inl, inr, ◌==◌, Bool, true, false, ◌||◌, Option, none, some, List,
  [], ◌∷◌, map, arith, if◌then◌else◌, keep, contains, length, Member, Bool-cases,
}
use simply_firewall.Entities.{Uuid, ApiKey}
use simply_firewall.Store.{Db}
use simply_firewall.Store.Tables.{is_in}
use simply_firewall.Keys.Subtree.{children_of, insert_all}

-- `id` is the id of a row whose parent is `p`.
abbrev pub IsChildAmong : List ApiKey → Uuid → Uuid → Type 0
IsChildAmong keys p id = (k : ApiKey) × Member k keys × (k.parent_key_id ≡ some p) × (k.id ≡ id)

pub child_ids : List Uuid → List ApiKey → List Uuid
child_ids frontier keys = map (λ k. k.id) (keep (λ k. is_in frontier k.parent_key_id) keys)

pub children_of-eq :
    (frontier : List Uuid) (db : Db) → children_of frontier db ≡ child_ids frontier db.api_keys
unfolding children_of child_ids
children_of-eq frontier db = refl

is_in_parent :
    (frontier : List Uuid) (c : Option Uuid)
    → is_in frontier c ≡ true
    → (p : Uuid) × (c ≡ some p) × (contains p frontier ≡ true)
is_in_parent frontier none h = cc
is_in_parent frontier (some p) h = (p, refl, h)

-- `id` is the id of a row whose parent is in the set.
abbrev pub HasParentIn : List Uuid → List ApiKey → Uuid → Type 0
HasParentIn frontier keys id = (p : Uuid) × (contains p frontier ≡ true) × IsChildAmong keys p id

HasParentIn-cons :
    (frontier : List Uuid) (k : ApiKey) (ks : List ApiKey) (id : Uuid)
    → HasParentIn frontier ks id
    → HasParentIn frontier (k ∷ ks) id
HasParentIn-cons frontier k ks id (p, q, (x, m, e, e')) = (p, q, (x, inr m, e, e'))

child_of_row :
    (frontier : List Uuid) (id : Uuid) (k : ApiKey) (ks : List ApiKey) (b : Bool)
    → is_in frontier k.parent_key_id ≡ b
    → contains id (
        map
          (λ x. x.id)
          (if b
            then k ∷ keep (λ x. is_in frontier x.parent_key_id) ks
            else keep (λ x. is_in frontier x.parent_key_id) ks))
      ≡ true
    → (contains id (child_ids frontier ks) ≡ true → HasParentIn frontier ks id)
    → HasParentIn frontier (k ∷ ks) id
unfolding child_ids
child_of_row frontier id k ks false e h ih = HasParentIn-cons frontier k ks id (ih h)
child_of_row frontier id k ks true e h ih = elim (Bool-cases (id == k.id)) [
  | inl same ↦
      let (p, is_parent, q) = is_in_parent frontier k.parent_key_id e in
      (p, q, (k, inl refl, is_parent, ground arith))
  | inr other ↦ HasParentIn-cons frontier k ks id (ih (ground arith))
]

pub child_ids_sound :
    (frontier : List Uuid) (id : Uuid) (keys : List ApiKey)
    → contains id (child_ids frontier keys) ≡ true
    → HasParentIn frontier keys id
unfolding child_ids
child_ids_sound frontier id [] h = cc
child_ids_sound frontier id (k ∷ ks) h =
    child_of_row frontier id k ks (is_in frontier k.parent_key_id) refl h
      (child_ids_sound frontier id ks)

pub child_ids_complete :
    (frontier : List Uuid) (p id : Uuid) (k : ApiKey) (keys : List ApiKey)
    → Member k keys
    → k.parent_key_id ≡ some p
    → k.id ≡ id
    → contains p frontier ≡ true
    → contains id (child_ids frontier keys) ≡ true
unfolding child_ids
child_ids_complete frontier p id k [] m e e' h = absurd m
child_ids_complete frontier p id k (x ∷ xs) m e e' h =
    ground (arith, child_ids_complete frontier p id k xs)

-- What `insert_all` makes of the set and of the list of new ids.
pub insert_all_lem :
    (visited cs : List Uuid) (id : Uuid)
    → (contains id (insert_all visited cs).1 ≡ (contains id cs || contains id visited))
      × (contains id (insert_all visited cs).1
          ≡ (contains id (insert_all visited cs).0 || contains id visited))
unfolding insert_all
insert_all_lem visited [] id = (refl, refl)
insert_all_lem visited (c ∷ cs) id =
    ground (arith, insert_all_lem visited cs id, insert_all_lem (c ∷ visited) cs id)

pub insert_all_fresh :
    (visited cs : List Uuid) (c : Uuid) (rest : List Uuid)
    → (insert_all visited cs).0 ≡ c ∷ rest
    → (contains c visited ≡ false) × (contains c cs ≡ true)
unfolding insert_all
insert_all_fresh visited [] c rest e = cc
insert_all_fresh visited (d ∷ cs) c rest e = ground (arith, insert_all_fresh visited cs c rest)

-- How many rows of the table are not in the set.
pub unvisited : List Uuid → List ApiKey → ℕ
unvisited visited [] = 0
unvisited visited (k ∷ ks) =
    let rest = unvisited visited ks in if contains k.id visited then rest else suc rest

pub unvisited-le-length :
    (visited : List Uuid) (keys : List ApiKey) → unvisited visited keys ≤ length keys
unfolding unvisited
unvisited-le-length visited [] = omega arith
unvisited-le-length visited (k ∷ ks) = ground (arith, unvisited-le-length visited ks)

module _ (v v' : List Uuid)
    (grows : (id : Uuid) → contains id v ≡ true → contains id v' ≡ true) where
  unvisited_mono : (keys : List ApiKey) → unvisited v' keys ≤ unvisited v keys
  unfolding unvisited
  unvisited_mono [] = omega arith
  unvisited_mono (k ∷ ks) = ground (arith, unvisited_mono ks, grows k.id)

  pub unvisited_falls :
      (c : Uuid) (k : ApiKey) (keys : List ApiKey)
      → Member k keys
      → k.id ≡ c
      → contains c v ≡ false
      → contains c v' ≡ true
      → unvisited v' keys < unvisited v keys
  unfolding unvisited
  unvisited_falls c k [] m e out now_in = absurd m
  unvisited_falls c k (x ∷ xs) (inl same) e out now_in = ground (arith, unvisited_mono xs)
  unvisited_falls c k (x ∷ xs) (inr m) e out now_in =
      ground (arith, unvisited_falls c k xs m e out now_in, grows x.id)
