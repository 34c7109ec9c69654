-- ===== src/Keys/Delete/Pending.antt =====
-- The loop of `delete_api_key` that applies the resolutions: which resources of the doomed keys are
-- still to be dealt with.
use simply_firewall.Prelude.{
  ℕ, ◌≡◌, refl, ap, ◌⊎◌, Bool, true, false, not, ◌&&◌, Option, none, some, List, [], ◌∷◌, All, any,
  Member, InSome, text_eq, ◌==◌, contains, arith,
}
use simply_firewall.Entities.{Uuid, IpGroup, WebhookConfig}
use simply_firewall.Error.{internal, OwnedEntity}
use simply_firewall.Outside.{Outside}
use simply_firewall.Store.{Db, stored}
use simply_firewall.Store.Tables.{
  is_in, on_group, set_owner, set_webhook_owner, delete_group, delete_webhook, update_group_owner,
  update_webhook_owner,
}
use simply_firewall.Store.Lookup.{Member-keep, Member-map}
use simply_firewall.Store.Spec.{Spec, Spec-bind, Spec-execute, Spec-pure, Spec-raise, Spec-if}
use simply_firewall.Guards.Effects.{DbFailure}
use simply_firewall.Keys.Delete.{
  Resolution, delete, reassign, ResolutionEntry, group_type, webhook_type, resolution_of,
  apply_resolution, apply_found, apply_all,
}

abbrev pub is_group : OwnedEntity → Bool
is_group e = text_eq e.entity_type group_type

abbrev pub is_webhook : OwnedEntity → Bool
is_webhook e = text_eq e.entity_type webhook_type

-- An entity has one of the two types.
abbrev pub IsKnown : OwnedEntity → Type 0
IsKnown e =
    ((is_group e ≡ true) × (is_webhook e ≡ false)) ⊎ ((is_group e ≡ false) × (is_webhook e ≡ true))

module _ (doomed : List Uuid) where
  -- Every group and webhook that a doomed key owns is among the entities.
  pub record Pending (es : List OwnedEntity) (db : Db) : Type 0 where
    pub groups :
        (g : IpGroup)
        → Member g db.groups
        → is_in doomed g.owner_key_id ≡ true
        → any (λ e. is_group e && e.id == g.id) es ≡ true
    pub webhooks :
        (h : WebhookConfig)
        → Member h db.webhooks
        → is_in doomed h.owner_key_id ≡ true
        → any (λ e. is_webhook e && e.id == h.id) es ≡ true

  -- A new owner is not doomed.
  abbrev pub Survives : Resolution → Type 0
  Survives delete = Unit
  Survives (reassign owner) = contains owner doomed ≡ false

  module _ (e : OwnedEntity) (es : List OwnedEntity) (db db' : Db) (p : Pending (e ∷ es) db) where
    module _ {n : ℕ} where
      Pending-delete_group :
          is_group e ≡ true
          → is_webhook e ≡ false
          → delete_group e.id db ≡ stored n db'
          → Pending es db'
      unfolding delete_group
      Pending-delete_group t t' done = record {
        groups = λ g m owned.
            let (old, kept) =
              Member-keep (λ (x : IpGroup). not (x.id == e.id)) g db.groups (ground arith) in
            ground (arith, p.groups g old);
        webhooks = λ h m owned.
            let (old, kept) =
              Member-keep (λ (x : WebhookConfig). not (on_group e.id x)) h db.webhooks
                (ground arith) in
            ground (arith, p.webhooks h old);
      }

      Pending-delete_webhook :
          is_group e ≡ false
          → is_webhook e ≡ true
          → delete_webhook e.id db ≡ stored n db'
          → Pending es db'
      unfolding delete_webhook
      Pending-delete_webhook t t' done = record {
        groups = λ g m owned. ground (arith, p.groups g (ground arith));
        webhooks = λ h m owned.
            let (old, kept) =
              Member-keep (λ (x : WebhookConfig). not (x.id == e.id)) h db.webhooks
                (ground arith) in
            ground (arith, p.webhooks h old);
      }

    module _ {a : Unit {0}} (owner : Uuid) (survives : contains owner doomed ≡ false) where
      Pending-update_group_owner :
          is_group e ≡ true
          → is_webhook e ≡ false
          → update_group_owner e.id (some owner) db ≡ stored a db'
          → Pending es db'
      unfolding update_group_owner
      Pending-update_group_owner t t' done = record {
        groups = λ g m owned.
            let (x, old, same) =
              Member-map (set_owner e.id (some owner)) g db.groups (ground arith) in
            ground (
              arith,
              p.groups x old,
              ap (λ (y : IpGroup). y.owner_key_id) same,
              ap (λ (y : IpGroup). y.id) same,
            );
        webhooks = λ h m owned. ground (arith, p.webhooks h (ground arith));
      }

      Pending-update_webhook_owner :
          is_group e ≡ false
          → is_webhook e ≡ true
          → update_webhook_owner e.id (some owner) db ≡ stored a db'
          → Pending es db'
      unfolding update_webhook_owner
      Pending-update_webhook_owner t t' done = record {
        groups = λ g m owned. ground (arith, p.groups g (ground arith));
        webhooks = λ h m owned.
            let (x, old, same) =
              Member-map (set_webhook_owner e.id (some owner)) h db.webhooks (ground arith) in
            ground (
              arith,
              p.webhooks x old,
              ap (λ (y : WebhookConfig). y.owner_key_id) same,
              ap (λ (y : WebhookConfig). y.id) same,
            );
      }

  -- What one resolution does to what is left to do.
  apply_resolution-Pending :
      (o : Outside) (e : OwnedEntity) (es : List OwnedEntity) (r : Resolution) (db : Db)
      → IsKnown e
      → Survives r
      → Pending (e ∷ es) db
      → Spec (apply_resolution o e r) db (λ _ d. Pending es d) (λ x _. DbFailure x)
  unfolding apply_resolution
  apply_resolution-Pending o e es delete db known s p =
      Spec-if db (is_group e) _ _
        (λ t.
          Spec-bind {P = λ _ d. Pending es d}
            (Spec-execute o db _ (λ _. refl)
              (λ _ d h. Pending-delete_group e es db d p t (ground arith) h))
            (λ _ d q. Spec-pure d tt q))
        λ f.
          Spec-if db (is_webhook e) _ _
            (λ t.
              Spec-bind {P = λ _ d. Pending es d}
                (Spec-execute o db _ (λ _. refl)
                  (λ _ d h. Pending-delete_webhook e es db d p f t h))
                (λ _ d q. Spec-pure d tt q))
            λ f'. Spec-raise db internal (absurd (ground arith))
  apply_resolution-Pending o e es (reassign owner) db known s p =
      Spec-if db (is_group e) _ _
        (λ t.
          Spec-execute o db _ (λ _. refl)
            (λ _ d h. Pending-update_group_owner e es db d p owner s t (ground arith) h))
        λ f.
          Spec-if db (is_webhook e) _ _
            (λ t.
              Spec-execute o db _ (λ _. refl)
                (λ _ d h. Pending-update_webhook_owner e es db d p owner s f t h))
            λ f'. Spec-raise db internal (absurd (ground arith))

  -- An entity has a resolution, and its new owner is not doomed.
  abbrev pub Resolved : List ResolutionEntry → OwnedEntity → Type 0
  Resolved entries e = IsKnown e × InSome (λ r. Survives r.resolution) (resolution_of entries e)

  apply_found-Pending :
      (o : Outside) (e : OwnedEntity) (es : List OwnedEntity) (x : Option ResolutionEntry) (db : Db)
      → IsKnown e
      → InSome (λ r. Survives r.resolution) x
      → Pending (e ∷ es) db
      → Spec (apply_found o e x) db (λ _ d. Pending es d) (λ x _. DbFailure x)
  unfolding apply_found
  apply_found-Pending o e es none db known s p = absurd s
  apply_found-Pending o e es (some r) db known s p =
      apply_resolution-Pending o e es r.resolution db known s p

  -- When the loop returns, no doomed key owns anything; it fails only where the database does.
  pub apply_all-Pending :
      (o : Outside) (entries : List ResolutionEntry) (es : List OwnedEntity) (db : Db)
      → All (Resolved entries) es
      → Pending es db
      → Spec (apply_all o entries es) db (λ _ d. Pending [] d) (λ x _. DbFailure x)
  unfolding apply_all
  apply_all-Pending o entries [] db h p = Spec-pure db tt p
  apply_all-Pending o entries (e ∷ es) db ((known, s), h) p =
      Spec-bind (apply_found-Pending o e es (resolution_of entries e) db known s p)
        λ _ d q. apply_all-Pending o entries es d h q
