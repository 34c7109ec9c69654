-- ===== src/Webhooks/Cloned.antt =====
-- src/api/webhooks.rs: what `clone_webhook` copies.
use simply_firewall.Prelude.{
  ◌∙◌, ◌≡◌, not, ◌&&◌, Bool-cases, ◌⊎◌, inl, inr, refl, sym, ap, Bool, true, false, Option, none,
  some, [], ◌∷◌, ◌++◌, Text, is_some, if◌then◌else◌, unwrap_or, arith,
}
use simply_firewall.Entities.{Uuid, ApiKey, WebhookConfig}
use simply_firewall.Error.{DbErr}
use simply_firewall.Outside.{Outside}
use simply_firewall.Crypto.Effects.{IsGenerated, generate_signing_secret-Reads}
use simply_firewall.Guards.{resource_owner}
use simply_firewall.Guards.Effects.{DbFailure}
use simply_firewall.Store.{Db, stored, refused}
use simply_firewall.Store.Spec.{eq_of_stored, Spec, Spec-bind, Spec-pure, Spec-if}
use simply_firewall.Store.Chain.{
  Reads, after_read, after_refuse, after_execute, after_uuid, after_now,
}
use simply_firewall.Support.{Caller}
use simply_firewall.Support.Effects.{Spec-create_audit_log}
use simply_firewall.Dispatch.Modes.{
  AuthMode, from_stored, as_str, requires_secret, Signs, SignsNothing, requires_secret-Signs,
  requires_secret-SignsNothing,
}
use simply_firewall.Webhooks.{WebhookSummary, webhook_by_id, is_privileged}
use simply_firewall.Webhooks.Visibility.{
  CarriesKey, is_privileged-CarriesKey, HasScope, Reachable, MayRead, find_own_webhook-Reads,
  require_group_read-Reads,
}
use simply_firewall.Webhooks.Manage.{insert_webhook, clone_secret, clone_webhook}

-- The secret of a clone: new from the generator and shown in the answer if its mode signs, else
-- empty.
abbrev pub IsOwnSecret : Outside → AuthMode → (generated : Option Text) → (secret : Text) → Type 0
IsOwnSecret o mode generated secret =
    (Signs mode × IsGenerated o secret × (generated ≡ some secret))
    ⊎ (SignsNothing mode × (generated ≡ none) × (secret ≡ []))

pub record IsCloned (o : Outside) (key : ApiKey) (id : Uuid) (name : Text) (db : Db)
    (answer : WebhookSummary × Option Text) (d : Db) : Type 0 where
  pub source : WebhookConfig
  pub clone : WebhookConfig
  pub scope : HasScope key
  pub reachable : Reachable key db id source
  pub may_read : MayRead key source.group_id db
  pub plain : (key.is_master ≡ true) ⊎ (¬ CarriesKey source)
  pub appended : d.webhooks ≡ db.webhooks ++ clone ∷ []
  pub new_id : webhook_by_id clone.id db ≡ none
  pub secret : IsOwnSecret o (from_stored source.auth_mode) answer.1 clone.secret_token
  pub owner :
      ((key.is_master ≡ true) × (clone.owner_key_id ≡ none))
      ⊎ ((key.is_master ≡ false) × (clone.owner_key_id ≡ some key.id))
  -- the rest is the source's
  pub copied :
      record clone {
        id = source.id;
        secret_token = source.secret_token;
        created_at = source.created_at;
        owner_key_id = source.owner_key_id;
      }
      ≡ record source { name = name; auth_mode = as_str (from_stored source.auth_mode) }

inserted :
    (x y : DbErr) (seen : Option WebhookConfig) (refers : Bool) (d' d : Db)
    → (if is_some seen then refused x else if refers then stored tt d' else refused y) ≡ stored tt d
    → (d' ≡ d) × (seen ≡ none)
inserted x y none true d' d e = ((eq_of_stored e).1, refl)
inserted x y none false d' d e = absurd cc
inserted x y (some h) refers d' d e = absurd cc

insert_webhook-new :
    (row : WebhookConfig) (db d : Db)
    → insert_webhook row db ≡ stored tt d
    → (d.webhooks ≡ db.webhooks ++ row ∷ []) × (webhook_by_id row.id db ≡ none)
unfolding insert_webhook
insert_webhook-new row db d e =
    let (same, fresh) = inserted _ _ (webhook_by_id row.id db) _ _ d e in
    (sym (ap (λ (x : Db). x.webhooks) same), fresh)

plain_of :
    (key : ApiKey) (source : WebhookConfig)
    → (is_privileged source && not key.is_master) ≡ false
    → (key.is_master ≡ true) ⊎ (¬ CarriesKey source)
plain_of key source e = elim (Bool-cases key.is_master) [
  | inl master ↦ inl master
  | inr delegated ↦
      inr (λ carries. ground (arith, e, delegated, is_privileged-CarriesKey source carries))
]

owner_of :
    (key : ApiKey)
    → ((key.is_master ≡ true) × (resource_owner key ≡ none))
      ⊎ ((key.is_master ≡ false) × (resource_owner key ≡ some key.id))
unfolding resource_owner
owner_of key = elim (Bool-cases key.is_master) [
  | inl h ↦ inl (h, ground (arith, h))
  | inr h ↦ inr (h, ground (arith, h))
]

module _ (o : Outside) where
  pub clone_secret-Reads :
      (db : Db) (mode : AuthMode)
      → Reads (clone_secret o mode) db (λ x. IsOwnSecret o mode x (unwrap_or x [])) (λ _. Unit)
  unfolding clone_secret
  clone_secret-Reads db mode =
      Spec-if db (requires_secret mode) _ _
        (λ signs.
          after_read (generate_signing_secret-Reads o db) (λ _ h. absurd h)
            λ secret drawn.
              Spec-pure db _ (refl, inl (requires_secret-Signs mode signs, drawn, refl)))
        (λ unsigned.
          Spec-pure db none (refl, inr (requires_secret-SignsNothing mode unsigned, refl, refl)))

  -- A webhook is cloned for a caller that may act on it and read its group, and one that carries a key
  -- only for the master. The clone has a new identifier, belongs to the caller (to nobody, for the
  -- master), and copies all but the secret: if its mode signs, its own is drawn from the generator and
  -- shown in the answer, and it is empty if not. No other row of the
  -- table changes. A request that fails has changed nothing, unless the database failed.
  pub clone_webhook-IsCloned :
      (caller : Caller) (db : Db) (id : Uuid) (name : Text)
      → Spec
          (clone_webhook o caller id name)
          db
          (IsCloned o caller.key id name db)
          (λ e d. DbFailure e ⊎ (d ≡ db))
  unfolding clone_webhook
  clone_webhook-IsCloned caller db id name =
      after_read (find_own_webhook-Reads o caller.key db id) (λ _ _. inr refl)
        λ source own.
          after_read (require_group_read-Reads o caller.key db source.group_id) (λ _ _. inr refl)
            λ _ may.
              after_refuse _ _ (λ _. inr refl)
                λ plain.
                  after_read (clone_secret-Reads db (from_stored source.auth_mode))
                    (λ _ _. inr refl)
                    λ generated secret. after_uuid o λ new_id. after_now o λ t.
                      after_execute o (λ _. inl refl) _
                        λ _ d done.
                          Spec-bind {P = λ _ d'. d'.webhooks ≡ d.webhooks}
                            (Spec-create_audit_log o d caller _ _ _ _ (λ _. inl refl) (λ _ _. refl))
                            λ _ d' same. Spec-pure d' _ (record {
                              source = source;
                              clone = _;
                              scope = own.0;
                              reachable = own.1;
                              may_read = may;
                              plain = plain_of caller.key source plain;
                              owner = owner_of caller.key;
                              appended = same ∙ (insert_webhook-new _ db d done).0;
                              new_id = (insert_webhook-new _ db d done).1;
                              secret = secret;
                              copied = refl;
                            })
