-- ===== src/Webhooks/Edit/Updated.antt =====
-- src/api/webhooks.rs: `update_webhook`, from its guards to the stored row.
use simply_firewall.Prelude.{
  ◌≡◌, ◌⊎◌, inl, inr, refl, sym, ap, ◌∙◌, nonempty, Bool, true, false, not, ◌&&◌, ◌||◌, Option,
  none, some, map, Text, if◌then◌else◌, is_some, arith,
}
use simply_firewall.Entities.{Uuid, ApiKey, WebhookConfig}
use simply_firewall.Error.{DbErr, Result}
use simply_firewall.Outside.{Outside}
use simply_firewall.Crypto.Effects.{generate_signing_secret-Reads}
use simply_firewall.Store.{Db, stored, refused}
use simply_firewall.Store.Lookup.{by_key-updated, by_key-others}
use simply_firewall.Store.Spec.{eq_of_stored, Spec, Spec-bind, Spec-pure, Spec-if, Spec-mono}
use simply_firewall.Store.Chain.{Reads, after_read, after_refuse, after_lift, after_execute}
use simply_firewall.Guards.Effects.{DbFailure}
use simply_firewall.Support.{Caller}
use simply_firewall.Support.Effects.{Spec-create_audit_log}
use simply_firewall.Dispatch.Modes.{AuthMode}
use simply_firewall.Dispatch.Screen.{Url}
use simply_firewall.Webhooks.{summary_of, webhook_by_id, trimmed, is_privileged, check_template}
use simply_firewall.Webhooks.Visibility.{
  is_privileged-CarriesKey, HasScope, Reachable, find_own_webhook-Reads, require_group_read-Reads,
}
use simply_firewall.Webhooks.Edit.{
  UpdateWebhookPayload, UpdateWebhookResponse, Replacement, is_repointed, must_rotate, new_api_key,
  edited, edit_at, update_webhook_row, guard_retarget, replacement, update_webhook,
}
use simply_firewall.Webhooks.Edit.Vouching.{
  IsUpdated, IsChosen, edited-SamePoint, vouching, kept_key,
}

stored_if :
    (x y : DbErr) (missing refers : Bool) (d' d : Db)
    → (if missing then refused x else if refers then stored tt d' else refused y) ≡ stored tt d
    → d' ≡ d
stored_if x y true refers d' d e = absurd cc
stored_if x y false true d' d e = (eq_of_stored e).1
stored_if x y false false d' d e = absurd cc

after_row :
    (id : Uuid) (f : WebhookConfig → WebhookConfig) (db d : Db)
    → update_webhook_row id f db ≡ stored tt d
    → d.webhooks ≡ map (edit_at id f) db.webhooks
unfolding update_webhook_row
after_row id f db d e = sym (ap (λ (x : Db). x.webhooks) (stored_if _ _ _ _ _ d e))

module _ (o : Outside) (key : ApiKey) (db : Db) where
  pub guard_retarget-Reads :
      (target : WebhookConfig) (group : Option Uuid)
      → Reads (guard_retarget o key target group) db (λ _. Unit) (λ _. Unit)
  unfolding guard_retarget
  guard_retarget-Reads target none = Spec-pure db tt (refl, tt)
  guard_retarget-Reads target (some group) =
      Spec-if db _ _ _
        (λ _.
          Spec-mono (require_group_read-Reads o key db group) (λ _ _ q. (q.0, tt))
            (λ _ _ q. (q.0, tt)))
        (λ _. Spec-pure db tt (refl, tt))

  pub replacement-Reads :
      (must : Bool) (supplied : Option Text)
      → Reads (replacement o must supplied) db (IsChosen o must supplied) (λ _. Unit)
  unfolding replacement
  replacement-Reads must (some supplied) = Spec-pure db _ (refl, λ _. (supplied, refl, inl refl))
  replacement-Reads true none =
      after_read (generate_signing_secret-Reads o db) (λ _ h. absurd h)
        λ secret drawn. Spec-pure db _ (refl, λ _. (secret, refl, inr (drawn, refl)))
  replacement-Reads false none = Spec-pure db _ (refl, λ h. absurd cc)

module _ (o : Outside) (parse_url : Text → Option Url) (caller : Caller) where
  -- An update of a webhook that returns comes from the master, or from the key in its owner column with
  -- `can_manage_webhooks`. Either the URL, the template in effect and the mode are as before, or the
  -- mode signs nothing, or the secret is what the caller gives in this request, or it is drawn from the
  -- generator and shown in the answer. A webhook that carries a key keeps the key, the URL, the template and the mode, unless
  -- the caller is the master. The owner and every other webhook stay as they were. An update that fails
  -- has changed nothing, unless the database failed.
  pub update_webhook-IsUpdated :
      (db : Db) (id : Uuid) (payload : UpdateWebhookPayload)
      → Spec
          (update_webhook o parse_url caller id payload)
          db
          (IsUpdated o caller.key id payload db)
          (λ e d. DbFailure e ⊎ (d ≡ db))
  unfolding update_webhook
  update_webhook-IsUpdated db id payload =
      after_read (find_own_webhook-Reads o caller.key db id) (λ _ _. inr refl)
        λ old own.
          after_lift _ (λ _ _. inr refl)
            λ _ _.
              after_lift _ (λ _ _. inr refl)
                λ _ _.
                  after_lift _ (λ _ _. inr refl)
                    λ _ covers.
                      after_read (guard_retarget-Reads o caller.key db old _) (λ _ _. inr refl)
                        λ _ _.
                          after_lift _ (λ _ _. inr refl)
                            λ requested _.
                              after_refuse _ _ (λ _. inr refl)
                                λ guarded.
                                  after_refuse _ _ (λ _. inr refl)
                                    λ _.
                                      after_read (replacement-Reads o caller.key db _ _)
                                        (λ _ _. inr refl)
                                        λ secret chosen.
                                          after_refuse _ _ (λ _. inr refl)
                                            λ _.
                                              after_execute o (λ _. inl refl) _
                                                λ _ d done.
                                                  Spec-bind {P = λ _ d'. d'.webhooks ≡ d.webhooks}
                                                    (Spec-create_audit_log o d caller _ _ _ _
                                                      (λ _. inl refl) (λ _ _. refl))
                                                    λ _ d' same. Spec-pure d' _ (
                                                      row_updated old (own.1.0, who own) requested
                                                        secret d' covers guarded chosen
                                                        (same ∙ after_row id _ db d done))
    where
      answer_of : WebhookConfig → Option AuthMode → Replacement → UpdateWebhookResponse
      answer_of old requested secret = record {
        webhook =
            summary_of
              (edited payload requested secret.new_secret (new_api_key old payload requested) old);
        secret_rotated = must_rotate old payload requested;
        secret_token = secret.generated;
      }

      who :
          {h : WebhookConfig}
          → HasScope caller.key × Reachable caller.key db id h
          → (caller.key.is_master ≡ true)
            ⊎ ((caller.key.can_manage_webhooks ≡ true) × (h.owner_key_id ≡ some caller.key.id))
      who (inl master, r) = inl master
      who (inr scope, (found, inl master)) = inl master
      who (inr scope, (found, inr mine)) = inr (scope, mine)

      row_updated :
          (old : WebhookConfig)
          → (webhook_by_id id db ≡ some old)
            × ((caller.key.is_master ≡ true)
                ⊎ ((caller.key.can_manage_webhooks ≡ true)
                    × (old.owner_key_id ≡ some caller.key.id)))
          → (requested : Option AuthMode) (secret : Replacement) (d : Db)
          → check_template payload.hmac_template ≡ Result.ok tt
          → ((is_repointed old payload requested || is_some payload.api_key)
              && is_privileged old
              && not caller.key.is_master)
            ≡ false
          → IsChosen o
              (must_rotate old payload requested)
              (nonempty (trimmed payload.secret_token))
              secret
          → d.webhooks
            ≡ map
                (edit_at id
                  (edited payload requested secret.new_secret (new_api_key old payload requested)))
                db.webhooks
          → IsUpdated o caller.key id payload db (answer_of old requested secret) d
      row_updated old own requested secret d covers guarded chosen rows =
          let api_key = new_api_key old payload requested in
          let f = edited payload requested secret.new_secret api_key in
          let answer = answer_of old requested secret in
          record {
            old = old;
            new = f old;
            was_there = own.0;
            is_there = rw rows (
                by_key-updated (λ (h : WebhookConfig). h.id) id f db.webhooks old (λ _. refl)
                  own.0);
            allowed = own.1;
            same_owner = refl;
            vouches =
                vouching o id payload db old requested own.0 covers secret api_key answer chosen
                  refl;
            credential = λ delegated carries.
                let privileged = is_privileged-CarriesKey old carries in
                (
                  edited-SamePoint old payload requested secret.new_secret api_key covers
                      (ground (arith, guarded, delegated, privileged)),
                  kept_key o id payload db old requested own.0 covers
                      (ground (arith, guarded, delegated, privileged)),
                );
            others = λ j other.
                rw rows (
                  by_key-others (λ (h : WebhookConfig). h.id) id j f db.webhooks (λ _. refl) other);
          }
