-- ===== src/Store/Rows.antt =====
-- What a lookup finds, stated with membership in the table.
use simply_firewall.Prelude.{
  ◌≡◌, inl, inr, Bool, true, some, List, [], ◌∷◌, ◌==◌, Text, text_eq_iff, map, keep, contains,
  Member, arith, length, Bool-cases, false, refl,
}
use simply_firewall.Entities.{Uuid, Permission, IpGroup, IpRecord, Membership}
use simply_firewall.Store.{Db}
use simply_firewall.Store.Lookup.{find_sound}
use simply_firewall.Store.Tables.{permission_of, group_by_id, group_by_name}
use simply_firewall.Store.Aged.{record_by_address}

-- A key has a verb on a group: there is a row that says so.
abbrev pub HasVerb : (verb : Permission → Bool) → (key group : Uuid) → Db → Type 0
HasVerb verb key group db =
    (p : Permission) × Member p db.permissions
    × (p.api_key_id ≡ key)
    × (p.group_id ≡ group)
    × (verb p ≡ true)

-- A group holds a record.
abbrev pub Holds : (group record_id : Uuid) → Db → Type 0
Holds group record_id db =
    (m : Membership) × Member m db.memberships × (m.ip_record_id ≡ record_id) × (m.group_id ≡ group)

pub permission_of-HasVerb :
    (verb : Permission → Bool) (key group : Uuid) (db : Db) (p : Permission)
    → permission_of key group db ≡ some p
    → verb p ≡ true
    → HasVerb verb key group db
permission_of-HasVerb verb key group db p e h =
    let (m, t) = find_sound _ db.permissions p e in (p, m, ground (arith, t), ground (arith, t), h)

pub group_by_name_sound :
    (name : Text) (db : Db) (g : IpGroup)
    → group_by_name name db ≡ some g
    → Member g db.groups × (g.name ≡ name)
group_by_name_sound name db g e =
    let (m, t) = find_sound _ db.groups g e in (m, (text_eq_iff g.name name).0 t)

pub group_by_id_sound :
    (id : Uuid) (db : Db) (g : IpGroup)
    → group_by_id id db ≡ some g
    → Member g db.groups × (g.id ≡ id)
group_by_id_sound id db g e = let (m, t) = find_sound _ db.groups g e in (m, ground (arith, t))

pub record_by_address_sound :
    (address : Text) (db : Db) (r : IpRecord)
    → record_by_address address db ≡ some r
    → Member r db.ip_records × (r.target_address ≡ address)
record_by_address_sound address db r e =
    let (m, t) = find_sound _ db.ip_records r e in (m, (text_eq_iff r.target_address address).0 t)

-- Among the groups of the memberships that pass a test.
pub contains-map-keep :
    (test : Membership → Bool) (group : Uuid) (ms : List Membership)
    → contains group (map (λ m. m.group_id) (keep test ms)) ≡ true
    → (m : Membership) × Member m ms × (test m ≡ true) × (m.group_id ≡ group)
contains-map-keep test group [] h = absurd cc
contains-map-keep test group (m ∷ ms) h = elim (Bool-cases (test m)) [
  | inl t ↦ elim (Bool-cases (group == m.group_id)) [
    | inl g ↦ (m, inl refl, t, ground (arith, g))
    | inr g ↦ further (contains-map-keep test group ms (ground (arith, h, t, g)))
  ]
  | inr f ↦ further (contains-map-keep test group ms (ground (arith, h, f)))
]
  where
    further :
        ((x : Membership) × Member x ms × (test x ≡ true) × (x.group_id ≡ group))
        → (x : Membership) × Member x (m ∷ ms) × (test x ≡ true) × (x.group_id ≡ group)
    further (x, i, t, g) = (x, inr i, t, g)

-- A filter that leaves something.
pub length-keep_positive :
    {A : Type 0} (test : A → Bool) (xs : List A)
    → length (keep test xs) == 0 ≡ false
    → (a : A) × Member a xs × (test a ≡ true)
length-keep_positive test [] h = absurd cc
length-keep_positive test (x ∷ xs) h = elim (Bool-cases (test x)) [
  | inl t ↦ (x, inl refl, t)
  | inr f ↦ let (y, i, t) = length-keep_positive test xs (ground (arith, h, f)) in (y, inr i, t)
]
