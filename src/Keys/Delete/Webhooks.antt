-- ===== src/Keys/Delete/Webhooks.antt =====
-- The loop of `delete_api_key` that applies the resolutions, and the webhooks on a group that goes.
use simply_firewall.Prelude.{
  ℕ, ◌≡◌, ap, sym, ◌∙◌, inl, inr, true, false, not, ◌&&◌, Option, none, some, List, [], ◌∷◌, any,
  find, Member, InSome, Text, text_eq_iff, ◌==◌, arith, Bool-cases, subst,
}
use simply_firewall.Entities.{Uuid, WebhookConfig}
use simply_firewall.Error.{AppError, internal, OwnedEntity}
use simply_firewall.Outside.{Outside}
use simply_firewall.Store.{Db, stored}
use simply_firewall.Store.Tables.{
  on_group, set_webhook_owner, delete_group, delete_webhook, update_group_owner,
  update_webhook_owner,
}
use simply_firewall.Store.Lookup.{Member-keep, Member-map}
use simply_firewall.Store.Spec.{
  Spec, Spec-mono, Spec-bind, Spec-execute, Spec-pure, Spec-raise, Spec-if,
}
use simply_firewall.Keys.Delete.{
  Resolution, delete, reassign, ResolutionEntry, group_type, same_key, resolution_of,
  apply_resolution, apply_found, apply_all,
}
use simply_firewall.Keys.Delete.Pending.{is_group, is_webhook}
use simply_firewall.Keys.Delete.Effects.{apply_found-KeepsKeys}

-- No webhook is on the group.
abbrev pub NoneOn : Uuid → Db → Type 0
NoneOn group d = (h : WebhookConfig) → Member h d.webhooks → on_group group h ≡ false

abbrev pub Anything : AppError → Db → Type 0
Anything e d = Unit

module _ (group : Uuid) (db db' : Db) where
  delete_group-NoneOn : {n : ℕ} → delete_group group db ≡ stored n db' → NoneOn group db'
  unfolding delete_group
  delete_group-NoneOn done h m =
      let (old, kept) =
        Member-keep (λ (x : WebhookConfig). not (on_group group x)) h db.webhooks (ground arith) in
      ground arith

  module _ (before : NoneOn group db) where
    delete_group-keeps : {n : ℕ} (id : Uuid) → delete_group id db ≡ stored n db' → NoneOn group db'
    unfolding delete_group
    delete_group-keeps id done h m =
        before h
          (Member-keep (λ (x : WebhookConfig). not (on_group id x)) h db.webhooks (ground arith)).0

    delete_webhook-keeps :
        {n : ℕ} (id : Uuid) → delete_webhook id db ≡ stored n db' → NoneOn group db'
    unfolding delete_webhook
    delete_webhook-keeps id done h m =
        before h
          (Member-keep (λ (x : WebhookConfig). not (x.id == id)) h db.webhooks (ground arith)).0

    update_group_owner-keeps :
        {a : Unit {0}} (id : Uuid) (owner : Option Uuid)
        → update_group_owner id owner db ≡ stored a db'
        → NoneOn group db'
    unfolding update_group_owner
    update_group_owner-keeps id owner done h m = before h (ground arith)

    update_webhook_owner-keeps :
        {a : Unit {0}} (id : Uuid) (owner : Option Uuid)
        → update_webhook_owner id owner db ≡ stored a db'
        → NoneOn group db'
    unfolding update_webhook_owner
    update_webhook_owner-keeps id owner done h m =
        let (x, old, same) = Member-map (set_webhook_owner id owner) h db.webhooks (ground arith) in
        ground (arith, before x old, ap (λ (y : WebhookConfig). y.group_id) same)

-- The map resolves the group as deleted.
abbrev pub IsDoomed : Uuid → List ResolutionEntry → Type 0
IsDoomed group entries =
    InSome (λ r. r.resolution ≡ delete) (find (same_key group_type group) entries)

module _ (o : Outside) (group : Uuid) where
  apply_resolution-keeps :
      (e : OwnedEntity) (r : Resolution) (db : Db)
      → NoneOn group db
      → Spec (apply_resolution o e r) db (λ _ d. NoneOn group d) Anything
  unfolding apply_resolution
  apply_resolution-keeps e delete db b =
      Spec-if db (is_group e) _ _
        (λ _.
          Spec-bind {P = λ _ d. NoneOn group d}
            (Spec-execute o db _ (λ _. tt) (λ _ d h. delete_group-keeps group db d b e.id h))
            (λ _ d q. Spec-pure d tt q))
        λ _.
          Spec-if db (is_webhook e) _ _
            (λ _.
              Spec-bind {P = λ _ d. NoneOn group d}
                (Spec-execute o db _ (λ _. tt) (λ _ d h. delete_webhook-keeps group db d b e.id h))
                (λ _ d q. Spec-pure d tt q))
            λ _. Spec-raise db internal tt
  apply_resolution-keeps e (reassign owner) db b =
      Spec-if db (is_group e) _ _
        (λ _.
          Spec-execute o db _ (λ _. tt)
            (λ _ d h. update_group_owner-keeps group db d b e.id (some owner) h))
        λ _.
          Spec-if db (is_webhook e) _ _
            (λ _.
              Spec-execute o db _ (λ _. tt)
                (λ _ d h. update_webhook_owner-keeps group db d b e.id (some owner) h))
            λ _. Spec-raise db internal tt

  apply_found-keeps :
      (e : OwnedEntity) (x : Option ResolutionEntry) (db : Db)
      → NoneOn group db
      → Spec (apply_found o e x) db (λ _ d. NoneOn group d) Anything
  unfolding apply_found
  apply_found-keeps e none db b = Spec-raise db internal tt
  apply_found-keeps e (some r) db b = apply_resolution-keeps e r.resolution db b

  apply_all-keeps :
      (entries : List ResolutionEntry) (es : List OwnedEntity) (db : Db)
      → NoneOn group db
      → Spec (apply_all o entries es) db (λ _ d. NoneOn group d) Anything
  unfolding apply_all
  apply_all-keeps entries [] db b = Spec-pure db tt b
  apply_all-keeps entries (e ∷ es) db b =
      Spec-bind (apply_found-keeps e (resolution_of entries e) db b)
        λ _ d q. apply_all-keeps entries es d q

  apply_delete-NoneOn :
      (e : OwnedEntity) (r : Resolution) (db : Db)
      → r ≡ delete
      → is_group e ≡ true
      → e.id ≡ group
      → Spec (apply_resolution o e r) db (λ _ d. NoneOn group d) Anything
  unfolding apply_resolution
  apply_delete-NoneOn e (reassign owner) db x t i = absurd cc
  apply_delete-NoneOn e delete db x t i =
      Spec-if db (is_group e) _ _
        (λ _.
          Spec-bind {P = λ _ d. NoneOn group d}
            (Spec-execute o db _ (λ _. tt)
              (λ _ d h. subst (λ g. NoneOn g d) i (delete_group-NoneOn e.id db d h)))
            (λ _ d q. Spec-pure d tt q))
        (λ f. absurd cc)

  apply_found-NoneOn :
      (e : OwnedEntity) (x : Option ResolutionEntry) (db : Db)
      → InSome (λ r. r.resolution ≡ delete) x
      → is_group e ≡ true
      → e.id ≡ group
      → Spec (apply_found o e x) db (λ _ d. NoneOn group d) Anything
  unfolding apply_found
  apply_found-NoneOn e none db x t i = absurd x
  apply_found-NoneOn e (some r) db x t i = apply_delete-NoneOn e r.resolution db x t i

  resolution_of-group :
      (entries : List ResolutionEntry) (e : OwnedEntity)
      → is_group e ≡ true
      → e.id ≡ group
      → resolution_of entries e ≡ find (same_key group_type group) entries
  resolution_of-group entries e t i =
      ap (λ (type : Text). find (same_key type e.id) entries)
        ((text_eq_iff e.entity_type group_type).0 t)
      ∙ ap (λ (id : Uuid). find (same_key group_type id) entries) i

  pub apply_all-NoneOn :
      (entries : List ResolutionEntry) (es : List OwnedEntity) (db : Db)
      → IsDoomed group entries
      → any (λ e. is_group e && e.id == group) es ≡ true
      → Spec (apply_all o entries es) db (λ _ d. NoneOn group d) Anything
  unfolding apply_all
  apply_all-NoneOn entries [] db x listed = absurd cc
  apply_all-NoneOn entries (e ∷ es) db x listed = elim (Bool-cases (is_group e && e.id == group)) [
    | inl t ↦
        Spec-bind
          (apply_found-NoneOn e (resolution_of entries e) db
            (subst (InSome (λ r. r.resolution ≡ delete))
              (sym (resolution_of-group entries e (ground arith) (ground arith))) x)
            (ground arith) (ground arith))
          λ _ d q. apply_all-keeps entries es d q
    | inr f ↦
        Spec-bind
          (Spec-mono (apply_found-KeepsKeys o e (resolution_of entries e) db) (λ _ _ q. q)
            (λ _ _ q. tt))
          λ _ d q. apply_all-NoneOn entries es d x (ground arith)
  ]
