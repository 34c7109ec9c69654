-- ===== src/Webhooks/Visibility.antt =====
-- src/api/webhooks.rs: which webhooks a caller can act on.
use simply_firewall.Prelude.{
  ◌≡◌, ◌≢◌, ◌==◌, ap, not, ◌&&◌, Bool-cases, ◌⊎◌, inl, inr, refl, true, false, Option, none, some,
  InSome, is_some_and, is_empty, Text, arith,
}
use simply_firewall.Entities.{Uuid, ApiKey, Permission, WebhookConfig}
use simply_firewall.Error.{AppError, forbidden, not_found, Message}
use simply_firewall.Outside.{Outside}
use simply_firewall.Store.{Db}
use simply_firewall.Store.Tables.{permission_of}
use simply_firewall.Store.Rows.{HasVerb, permission_of-HasVerb}
use simply_firewall.Store.Spec.{Spec-pure, Spec-if, Spec-refuse_if}
use simply_firewall.Store.Chain.{Reads, after_read, after_refuse, after_ok_or, after_query}
use simply_firewall.Guards.{caller_group_permission}
use simply_firewall.Guards.Effects.{DbFailure}
use simply_firewall.Webhooks.{
  webhook_by_id, owns, is_privileged, find_own_webhook, require_webhook_scope, require_group_read,
}

-- The caller may act on webhooks at all.
abbrev pub HasScope : ApiKey → Type 0
HasScope key = (key.is_master ≡ true) ⊎ (key.can_manage_webhooks ≡ true)

-- The webhook is there, and it is the caller's or the caller is the master.
abbrev pub Reachable : ApiKey → Db → Uuid → WebhookConfig → Type 0
Reachable key db id h =
    (webhook_by_id id db ≡ some h) × ((key.is_master ≡ true) ⊎ (h.owner_key_id ≡ some key.id))

-- The webhook sends a credential of another system.
abbrev pub CarriesKey : WebhookConfig → Type 0
CarriesKey h = InSome (λ k. is_empty k ≡ false) h.api_key

pub is_privileged-CarriesKey : (h : WebhookConfig) → CarriesKey h → is_privileged h ≡ true
is_privileged-CarriesKey h carries = go h.api_key carries
  where
    go :
        (x : Option Text)
        → InSome (λ k. is_empty k ≡ false) x
        → is_some_and x (λ k. not (is_empty k)) ≡ true
    go none c = absurd c
    go (some k) c = ground (arith, c)

abbrev pub LacksScope : ApiKey → Type 0
LacksScope key = (key.is_master ≡ false) × (key.can_manage_webhooks ≡ false)

-- The webhook is not there, or the caller is neither the master nor the key in its owner column.
abbrev pub Hidden : ApiKey → Db → Uuid → Type 0
Hidden key db id =
    (webhook_by_id id db ≡ none)
    ⊎ ((key.is_master ≡ false) × InSome (λ h. h.owner_key_id ≢ some key.id) (webhook_by_id id db))

-- Why a webhook is not found.
abbrev pub Unreachable : ApiKey → Db → Uuid → AppError → Type 0
Unreachable key db id e =
    DbFailure e
    ⊎ (((e ≡ forbidden Message.permission_denied) × LacksScope key)
        ⊎ ((e ≡ not_found) × Hidden key db id))

abbrev pub MayRead : ApiKey → (group : Uuid) → Db → Type 0
MayRead key group db = (key.is_master ≡ true) ⊎ HasVerb (λ p. p.can_read) key.id group db

readable :
    (key group : Uuid) (db : Db) (x : Option Permission)
    → permission_of key group db ≡ x
    → is_some_and x (λ p. p.can_read) ≡ true
    → HasVerb (λ p. p.can_read) key group db
readable key group db none e h = absurd cc
readable key group db (some p) e h = permission_of-HasVerb _ key group db p e h

owner_of_owns :
    (key : ApiKey) (h : WebhookConfig) → owns key h ≡ true → h.owner_key_id ≡ some key.id
owner_of_owns key h e = go h.owner_key_id e
  where
    go : (x : Option Uuid) → is_some_and x (λ id. id == key.id) ≡ true → x ≡ some key.id
    go none e = absurd cc
    go (some id) e = ap some (ground (arith, e))

not_owner_of_owns :
    (key : ApiKey) (h : WebhookConfig) → owns key h ≡ false → h.owner_key_id ≢ some key.id
not_owner_of_owns key h e owner = go h.owner_key_id owner e
  where
    go : (x : Option Uuid) → x ≡ some key.id → is_some_and x (λ id. id == key.id) ≡ false → ⊥
    go none same e = cc
    go (some id) same e = ground (arith, e, same)

may_act :
    (key : ApiKey) (h : WebhookConfig)
    → (not key.is_master && not (owns key h)) ≡ false
    → (key.is_master ≡ true) ⊎ (h.owner_key_id ≡ some key.id)
may_act key h e = elim (Bool-cases (owns key h)) [
  | inl mine ↦ inr (owner_of_owns key h mine)
  | inr foreign ↦ inl (ground (arith, e, foreign))
]

module _ (o : Outside) (key : ApiKey) (db : Db) where
  pub require_webhook_scope-Reads :
      Reads
        (require_webhook_scope o key)
        db
        (λ _. HasScope key)
        (λ e. (e ≡ forbidden Message.permission_denied) × LacksScope key)
  unfolding require_webhook_scope
  require_webhook_scope-Reads =
      Spec-refuse_if db _ _ (λ e. (refl, (refl, ground (arith, e))))
        (λ e. (refl, ground (arith, e)))

  -- A request on one webhook finds it exactly where it is there and the caller is the master or the key
  -- in its owner column, with the scope for webhooks; one without an owner is the master's alone. To a caller with that scope an absent webhook and another
  -- key's both are `not_found`, and nothing else fails but the database.
  pub find_own_webhook-Reads :
      (id : Uuid)
      → Reads
          (find_own_webhook o key id)
          db
          (λ h. HasScope key × Reachable key db id h)
          (Unreachable key db id)
  unfolding find_own_webhook
  find_own_webhook-Reads id =
      after_read require_webhook_scope-Reads (λ _ q. (refl, inr (inl q)))
        λ _ scope.
          after_query o (λ _. (refl, inl refl)) _ _
            (after_ok_or _ (webhook_by_id id db) (λ absent. (refl, inr (inr (refl, inl absent))))
              λ old found.
                after_refuse _ _
                  (λ foreign. (
                    refl,
                    inr (
                        inr (
                          refl,
                          inr (
                            ground (arith, foreign),
                            rw found (not_owner_of_owns key old (ground (arith, foreign))),
                          ),
                        )),
                  ))
                  λ mine. Spec-pure db old (refl, (scope, (found, may_act key old mine))))

  pub require_group_read-Reads :
      (group : Uuid)
      → Reads (require_group_read o key group) db (λ _. MayRead key group db) (λ _. Unit)
  unfolding require_group_read caller_group_permission
  require_group_read-Reads group =
      Spec-if db key.is_master _ _ (λ master. Spec-pure db tt (refl, inl master))
        λ _.
          after_query o (λ _. (refl, tt)) _ _
            (Spec-refuse_if db _ _ (λ _. (refl, tt))
              (λ e. (refl, inr (readable key.id group db _ refl (ground (arith, e))))))
