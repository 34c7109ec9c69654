-- ===== src/Webhooks/Edit/Vouching.antt =====
-- src/api/webhooks.rs: what `update_webhook` may do to a stored credential.
use simply_firewall.Prelude.{
  [], ◌∷◌, subst, trim, ◌≡◌, ◌≢◌, ◌⊎◌, inl, inr, refl, sym, ap, ◌∙◌, nonempty, Bool, Bool-cases,
  true, false, not, Option, none, some, Text, text_eq_iff, is_empty, is_some, is_some_and,
  unwrap_or, arith,
}
use simply_firewall.Entities.{Uuid, ApiKey, WebhookConfig}
use simply_firewall.Error.{Result}
use simply_firewall.Outside.{Outside}
use simply_firewall.Store.{Db}
use simply_firewall.Crypto.Effects.{IsGenerated}
use simply_firewall.Webhooks.Visibility.{CarriesKey}
use simply_firewall.Dispatch.Modes.{
  AuthMode, from_stored, requires_secret, SignsNothing, requires_secret-SignsNothing, same_mode,
  eq_of_same_mode, from_stored-as_str,
}
use simply_firewall.Dispatch.Templates.{default_hmac_template}
use simply_firewall.Webhooks.{webhook_by_id, trimmed, check_template, contains_text}
use simply_firewall.Webhooks.Edit.{
  UpdateWebhookPayload, UpdateWebhookResponse, Replacement, replaces, effective_mode, is_repointed,
  must_rotate, new_api_key, set_or_keep, mode_text, edited,
}

-- Where a webhook sends, and what its signature attests to and how.
abbrev pub SamePoint : WebhookConfig → WebhookConfig → Type 0
SamePoint old new =
    (new.target_url ≡ old.target_url)
    × (unwrap_or new.hmac_template default_hmac_template
        ≡ unwrap_or old.hmac_template default_hmac_template)
    × (from_stored new.auth_mode ≡ from_stored old.auth_mode)

-- The caller gives the secret itself.
abbrev pub Supplies : UpdateWebhookPayload → Text → Type 0
Supplies payload secret =
    (given : Text) × (payload.secret_token ≡ some given) × (trim given ≡ secret)

-- The secret is the caller's own, or it is drawn from the generator and shown in the answer.
abbrev pub IsReplaced :
    Outside → UpdateWebhookPayload → UpdateWebhookResponse → WebhookConfig → Type 0
IsReplaced o payload answer new =
    Supplies payload new.secret_token
    ⊎ (IsGenerated o new.secret_token × (answer.secret_token ≡ some new.secret_token))

pub record IsUpdated (o : Outside) (key : ApiKey) (id : Uuid) (payload : UpdateWebhookPayload)
    (db : Db) (answer : UpdateWebhookResponse) (d : Db) : Type 0 where
  pub old : WebhookConfig
  pub new : WebhookConfig
  pub was_there : webhook_by_id id db ≡ some old
  pub is_there : webhook_by_id id d ≡ some new
  pub allowed :
      (key.is_master ≡ true) ⊎ ((key.can_manage_webhooks ≡ true) × (old.owner_key_id ≡ some key.id))
  pub same_owner : new.owner_key_id ≡ old.owner_key_id
  pub vouches :
      SamePoint old new
      ⊎ (SignsNothing (from_stored new.auth_mode) ⊎ IsReplaced o payload answer new)
  pub credential :
      key.is_master ≡ false → CarriesKey old → SamePoint old new × (new.api_key ≡ old.api_key)
  pub others : (j : Uuid) → j ≢ id → webhook_by_id j d ≡ webhook_by_id j db

kept_unless_replaced :
    (x : Option Text) (old : Text) → replaces x old ≡ false → unwrap_or x old ≡ old
kept_unless_replaced none old h = refl
kept_unless_replaced (some t) old h = ground (arith, text_eq_iff t old, h)

template_nonempty : (t : Text) → check_template (some t) ≡ Result.ok tt → is_empty t ≡ false
unfolding check_template contains_text
template_nonempty [] h = absurd cc
template_nonempty (c ∷ t) h = refl

template_kept :
    (x old : Option Text)
    → check_template x ≡ Result.ok tt
    → replaces (nonempty x) (unwrap_or old default_hmac_template) ≡ false
    → unwrap_or (set_or_keep x old) default_hmac_template ≡ unwrap_or old default_hmac_template
template_kept none old h e = refl
template_kept (some t) old h e =
    ground (arith, template_nonempty t h, text_eq_iff t (unwrap_or old default_hmac_template), e)

mode_read_back :
    (requested : Option AuthMode) (old : Text)
    → from_stored (mode_text requested old) ≡ unwrap_or requested (from_stored old)
mode_read_back none old = refl
mode_read_back (some m) old = from_stored-as_str.0 m

mode_kept :
    (requested : Option AuthMode) (current : AuthMode)
    → is_some_and requested (λ m. not (same_mode m current)) ≡ false
    → unwrap_or requested current ≡ current
mode_kept none current h = refl
mode_kept (some m) current h = eq_of_same_mode m current (ground (arith, h))

module _ (old : WebhookConfig) (payload : UpdateWebhookPayload) (requested : Option AuthMode)
    (new_secret api_key : Option Text) where
  abbrev new_row : WebhookConfig
  new_row = edited payload requested new_secret api_key old

  pub edited-SamePoint :
      check_template payload.hmac_template ≡ Result.ok tt
      → is_repointed old payload requested ≡ false
      → SamePoint old new_row
  edited-SamePoint h e = (
    kept_unless_replaced payload.target_url old.target_url (ground (arith, e)),
    template_kept payload.hmac_template old.hmac_template h (ground (arith, e)),
    mode_read_back requested old.auth_mode
        ∙ mode_kept requested (from_stored old.auth_mode) (ground (arith, e)),
  )

  reads_as : from_stored new_row.auth_mode ≡ effective_mode old payload requested
  reads_as = mode_read_back requested old.auth_mode

-- What the choice of a secret answers.
abbrev pub IsChosen : Outside → (must : Bool) (supplied : Option Text) → Replacement → Type 0
IsChosen o must supplied r =
    must ≡ true
    → (secret : Text) × (r.new_secret ≡ some secret)
      × ((supplied ≡ some secret) ⊎ (IsGenerated o secret × (r.generated ≡ some secret)))

supplied_of :
    (payload : UpdateWebhookPayload) (secret : Text)
    → nonempty (trimmed payload.secret_token) ≡ some secret
    → Supplies payload secret
supplied_of payload secret e = go payload.secret_token e
  where
    go :
        (x : Option Text)
        → nonempty (trimmed x) ≡ some secret
        → (given : Text) × (x ≡ some given) × (trim given ≡ secret)
    go none e = absurd cc
    go (some t) e = elim (Bool-cases (is_empty (trim t))) [
      | inl h ↦ absurd (ground (arith, e, h))
      | inr h ↦ (t, refl, ground (arith, e, h))
    ]

module _ (o : Outside) (id : Uuid) (payload : UpdateWebhookPayload) (db : Db) (old : WebhookConfig)
    (requested : Option AuthMode) (found : webhook_by_id id db ≡ some old)
    (covers : check_template payload.hmac_template ≡ Result.ok tt) where
  pub kept_key : is_some payload.api_key ≡ false → new_api_key old payload requested ≡ old.api_key
  kept_key e = ground (arith, e)

  pub vouching :
      (secret : Replacement) (api_key : Option Text) (answer : UpdateWebhookResponse)
      → IsChosen o
          (must_rotate old payload requested)
          (nonempty (trimmed payload.secret_token))
          secret
      → answer.secret_token ≡ secret.generated
      → let new = edited payload requested secret.new_secret api_key old in
        SamePoint old new
        ⊎ (SignsNothing (from_stored new.auth_mode) ⊎ IsReplaced o payload answer new)
  vouching secret api_key answer chosen shown =
      elim (Bool-cases (is_repointed old payload requested)) [
        | inr kept ↦
            inl (edited-SamePoint old payload requested secret.new_secret api_key covers kept)
        | inl moved ↦ elim (Bool-cases (requires_secret (effective_mode old payload requested))) [
          | inr unsigned ↦ inr (
              inl (
                requires_secret-SignsNothing _ (
                  ap requires_secret (reads_as old payload requested secret.new_secret api_key)
                  ∙ unsigned)))
          | inl signs ↦
              let (fresh, is_new, how) = chosen (ground (arith, moved, signs)) in
              let same = ap (λ x. some (unwrap_or x old.secret_token)) is_new in
              inr (inr (own_or_shown fresh same how))
        ]
      ]
    where
      own_or_shown :
          (fresh : Text)
          → some (unwrap_or secret.new_secret old.secret_token) ≡ some fresh
          → (nonempty (trimmed payload.secret_token) ≡ some fresh)
            ⊎ (IsGenerated o fresh × (secret.generated ≡ some fresh))
          → IsReplaced o payload answer (edited payload requested secret.new_secret api_key old)
      own_or_shown fresh same (inl e) = inl (supplied_of payload _ (e ∙ sym same))
      own_or_shown fresh same (inr (drawn, e)) =
          inr (
            subst (IsGenerated o) (ap (λ x. unwrap_or x []) (sym same)) drawn,
            shown ∙ e ∙ sym same,
          )
