-- ===== src/Keys/Delete/Effects.antt =====
-- What the parts of `delete_api_key` read and write.
use simply_firewall.Prelude.{
  ◌≡◌, refl, ◌∙◌, ap, inl, inr, Bool, true, ◌&&◌, Option, none, some, List, [], ◌∷◌, ◌++◌, map, any,
  find, keep, All, Member, InSome, text_eq, contains, ◌==◌, arith, is_some, is_empty, Bool-cases,
}
use simply_firewall.Entities.{Uuid, ApiKey, IpGroup, WebhookConfig}
use simply_firewall.Error.{internal, ok, OwnedEntity}
use simply_firewall.Outside.{Outside}
use simply_firewall.Store.{Db, Action, Written, stored, execute}
use simply_firewall.Store.Spec.{
  Spec, Spec-mono, Spec-bind, Spec-execute, Spec-pure, Spec-raise, Spec-if, Spec-refuse_if,
}
use simply_firewall.Store.Chain.{after_read, Reads, after_query}
use simply_firewall.Store.OtherTables.{
  update_group_owner-keys, update_webhook_owner-keys, delete_group-keys, delete_webhook-keys,
}
use simply_firewall.Store.Tables.{is_in}
use simply_firewall.Guards.Effects.{DbFailure, resolve_owner_assignment-Reads}
use simply_firewall.Keys.Delete.{
  Resolution, delete, reassign, ResolutionEntry, group_type, webhook_type, resolution_of,
  unresolved, group_entity, webhook_entity, check_map, inventory_owned_entities, check_resolution,
  check_reassignments, apply_resolution, apply_found, apply_all,
}
use simply_firewall.Keys.Delete.Pending.{is_group, is_webhook, IsKnown, Pending, Survives, Resolved}

-- A resource of a doomed key is among the entities that the inventory lists.
module _ (owners : List ApiKey) (doomed : List Uuid) where
  abbrev groups_of : List IpGroup → List OwnedEntity
  groups_of gs = map (group_entity owners) (keep (λ g. is_in doomed g.owner_key_id) gs)

  abbrev webhooks_of : List WebhookConfig → List OwnedEntity
  webhooks_of hs = map (webhook_entity owners) (keep (λ h. is_in doomed h.owner_key_id) hs)

  group_listed :
      (g : IpGroup) (gs : List IpGroup) (rest : List OwnedEntity)
      → Member g gs
      → is_in doomed g.owner_key_id ≡ true
      → any (λ e. is_group e && e.id == g.id) (groups_of gs ++ rest) ≡ true
  unfolding text_eq
  group_listed g [] rest m owned = absurd m
  group_listed g (x ∷ gs) rest (inl e) owned =
      ground (arith, ap (λ (y : IpGroup). y.id) e, ap (λ (y : IpGroup). y.owner_key_id) e)
  group_listed g (x ∷ gs) rest (inr m) owned = ground (arith, group_listed g gs rest m owned)

  webhook_listed :
      (h : WebhookConfig) (gs : List IpGroup) (hs : List WebhookConfig)
      → Member h hs
      → is_in doomed h.owner_key_id ≡ true
      → any (λ e. is_webhook e && e.id == h.id) (groups_of gs ++ webhooks_of hs) ≡ true
  unfolding text_eq
  webhook_listed h [] [] m owned = absurd m
  webhook_listed h [] (x ∷ hs) (inl e) owned =
      ground
        (arith, ap (λ (y : WebhookConfig). y.id) e, ap (λ (y : WebhookConfig). y.owner_key_id) e)
  webhook_listed h [] (x ∷ hs) (inr m) owned = ground (arith, webhook_listed h [] hs m owned)
  webhook_listed h (g ∷ gs) hs m owned = ground (arith, webhook_listed h gs hs m owned)

  webhooks-IsKnown : (hs : List WebhookConfig) → All IsKnown (webhooks_of hs)
  unfolding text_eq
  webhooks-IsKnown [] = tt
  webhooks-IsKnown (h ∷ hs) = elim (Bool-cases (is_in doomed h.owner_key_id)) [
    | inl e ↦ rw e (inr (refl, refl), webhooks-IsKnown hs)
    | inr e ↦ rw e (webhooks-IsKnown hs)
  ]

  entities-IsKnown :
      (gs : List IpGroup) (hs : List WebhookConfig) → All IsKnown (groups_of gs ++ webhooks_of hs)
  unfolding text_eq
  entities-IsKnown [] hs = webhooks-IsKnown hs
  entities-IsKnown (g ∷ gs) hs = elim (Bool-cases (is_in doomed g.owner_key_id)) [
    | inl e ↦ rw e (inl (refl, refl), entities-IsKnown gs hs)
    | inr e ↦ rw e (entities-IsKnown gs hs)
  ]

-- Whatever the outcome, the table of keys is as it was.
abbrev pub KeepsKeys : {A : Type 0} → Action A → Db → Type 0
KeepsKeys m db = Spec m db (λ _ d. d.api_keys ≡ db.api_keys) (λ _ d. d.api_keys ≡ db.api_keys)

KeepsKeys-execute :
    (o : Outside) {A : Type 0} (f : Db → Written A) (db : Db)
    → ((a : A) (db' : Db) → f db ≡ stored a db' → db'.api_keys ≡ db.api_keys)
    → KeepsKeys (execute o f) db
KeepsKeys-execute o f db h = Spec-execute o db f (λ e. refl) h

module _ (o : Outside) where
  apply_resolution-KeepsKeys :
      (e : OwnedEntity) (r : Resolution) (db : Db) → KeepsKeys (apply_resolution o e r) db
  unfolding apply_resolution
  apply_resolution-KeepsKeys e delete db =
      Spec-if db (text_eq e.entity_type group_type) _ _
        (λ _.
          Spec-bind (KeepsKeys-execute o _ db (λ _ d h. delete_group-keys db d _ h))
            (λ _ d h. Spec-pure d tt h))
        λ _.
          Spec-if db (text_eq e.entity_type webhook_type) _ _
            (λ _.
              Spec-bind (KeepsKeys-execute o _ db (λ _ d h. delete_webhook-keys db d _ h))
                (λ _ d h. Spec-pure d tt h))
            λ _. Spec-raise db internal refl
  apply_resolution-KeepsKeys e (reassign owner) db =
      Spec-if db (text_eq e.entity_type group_type) _ _
        (λ _. KeepsKeys-execute o _ db (λ _ d h. update_group_owner-keys db d _ _ h))
        λ _.
          Spec-if db (text_eq e.entity_type webhook_type) _ _
            (λ _. KeepsKeys-execute o _ db (λ _ d h. update_webhook_owner-keys db d _ _ h))
            λ _. Spec-raise db internal refl

  pub apply_found-KeepsKeys :
      (e : OwnedEntity) (x : Option ResolutionEntry) (db : Db) → KeepsKeys (apply_found o e x) db
  unfolding apply_found
  apply_found-KeepsKeys e none db = Spec-raise db internal refl
  apply_found-KeepsKeys e (some r) db = apply_resolution-KeepsKeys e r.resolution db

  pub apply_all-KeepsKeys :
      (entries : List ResolutionEntry) (es : List OwnedEntity) (db : Db)
      → KeepsKeys (apply_all o entries es) db
  unfolding apply_all
  apply_all-KeepsKeys entries [] db = Spec-pure db tt refl
  apply_all-KeepsKeys entries (e ∷ es) db =
      Spec-bind (apply_found-KeepsKeys e (resolution_of entries e) db)
        λ _ d h. Spec-mono (apply_all-KeepsKeys entries es d) (λ _ d' q. q ∙ h) (λ _ d' q. q ∙ h)

  -- The inventory misses nothing that a doomed key owns.
  abbrev pub IsInventory : List Uuid → Db → List OwnedEntity → Type 0
  IsInventory doomed db es = All IsKnown es × Pending doomed es db

  pub IsInventory-Reads :
      (subtree : List Uuid) (db : Db)
      → Reads (inventory_owned_entities o subtree) db (IsInventory subtree db) DbFailure
  unfolding inventory_owned_entities
  IsInventory-Reads subtree db =
      let owners : List ApiKey = keep (λ k. contains k.id subtree) db.api_keys in
      after_query o (λ _. (refl, refl)) _ _
        (after_query o (λ _. (refl, refl)) _ _
          (after_query o (λ _. (refl, refl)) _ _
            (Spec-pure db _ (
              refl,
              (
                entities-IsKnown owners subtree db.groups db.webhooks,
                record {
                  groups = λ g. group_listed owners subtree g db.groups _;
                  webhooks = λ h. webhook_listed owners subtree h db.groups db.webhooks;
                },
              ),
            ))))

  check_resolution-Reads :
      (doomed : List Uuid) (r : Resolution) (db : Db)
      → Reads (check_resolution o doomed r) db (λ _. Survives doomed r) (λ _. Unit)
  unfolding check_resolution
  check_resolution-Reads doomed delete db = Spec-pure db tt (refl, tt)
  check_resolution-Reads doomed (reassign owner) db =
      after_read (resolve_owner_assignment-Reads o db (some owner)) (λ _ _. (refl, tt))
        λ _ _. Spec-refuse_if db (contains owner doomed) _ (λ _. (refl, tt)) (λ e. (refl, e))

  pub check_reassignments-Reads :
      (doomed : List Uuid) (rs : List ResolutionEntry) (db : Db)
      → Reads
          (check_reassignments o doomed rs)
          db
          (λ _. All (λ r. Survives doomed r.resolution) rs)
          (λ _. Unit)
  unfolding check_reassignments
  check_reassignments-Reads doomed [] db = Spec-pure db tt (refl, tt)
  check_reassignments-Reads doomed (r ∷ rs) db =
      after_read (check_resolution-Reads doomed r.resolution db) (λ _ _. (refl, tt))
        λ _ s.
          Spec-mono (check_reassignments-Reads doomed rs db) (λ _ d q. (q.0, (s, q.1))) (λ _ d q. q)

-- What the check of the map establishes.
found_in :
    (P : ResolutionEntry → Type 0) (p : ResolutionEntry → Bool) (rs : List ResolutionEntry)
    → All P rs
    → is_some (find p rs) ≡ true
    → InSome P (find p rs)
found_in P p [] h e = absurd cc
found_in P p (r ∷ rs) (h, hs) e = elim (Bool-cases (p r)) [
  | inl t ↦ rw t h
  | inr f ↦ rw f (found_in P p rs hs (rw f at e))
]

entities-Resolved :
    (doomed : List Uuid) (entries : List ResolutionEntry) (es : List OwnedEntity)
    → All (λ r. Survives doomed r.resolution) entries
    → All IsKnown es
    → is_empty (unresolved entries es) ≡ true
    → All (Resolved doomed entries) es
entities-Resolved doomed entries [] s k e = tt
entities-Resolved doomed entries (x ∷ es) s (k, ks) e =
    elim (Bool-cases (is_some (resolution_of entries x))) [
      | inl t ↦
          ((k, found_in _ _ entries s t), entities-Resolved doomed entries es s ks (rw t at e))
      | inr f ↦ absurd (ground arith)
    ]

pub check_map-Resolved :
    (target : ApiKey) (id : Uuid) (doomed : List Uuid) (es : List OwnedEntity)
    (entries : List ResolutionEntry)
    → check_map target id doomed es entries ≡ ok tt
    → All (λ r. Survives doomed r.resolution) entries
    → All IsKnown es
    → All (Resolved doomed entries) es
unfolding check_map
check_map-Resolved target id doomed es entries e s k =
    entities-Resolved doomed entries es s k (ground arith)
