-- ===== src/Service/Credentials.antt =====
-- `create_api_key`, `update_api_key` and the two rotations of src/api/keys.rs against `Authority`.
use simply_firewall.Prelude.{◌≡◌, refl, ◌⊎◌, inl, inr, true, false, arith, unwrap_or, some, Text}
use simply_firewall.Entities.{Uuid, DateTime, ApiKey}
use simply_firewall.Error.{ok}
use simply_firewall.Outside.{Outside}
use simply_firewall.Store.{Db}
use simply_firewall.Store.Chain.{
  after_refuse, after_lift, after_read, after_uuid, after_now, after_execute,
}
use simply_firewall.Guards.{guard_scope_elevation, guard_master_target, guard_master_immutable}
use simply_firewall.Guards.Rules.{guard_scope_elevation_iff}
use simply_firewall.Support.{Caller}
use simply_firewall.Crypto.Effects.{
  generate_random_key-Reads, generate_signing_secret-Reads, seal-Reads,
}
use simply_firewall.Authority.{frozen, ScopesWithin, ScopesWithin-refl, Permitted}
use simply_firewall.Authority.Statements.{
  insert_key-Permitted, update_key-Permitted, update_key_of_hash,
}
use simply_firewall.Authority.Safe.{
  Safe, Permitted-refl, Safe-from, Safe-bind, Safe-pure, Safe-create_audit_log,
}
use simply_firewall.Keys.Subtree.Visibility.{find_administrable_key-Reads}
use simply_firewall.Service.Others.{full_api_key_summary-Safe}
use simply_firewall.Keys.Create.{CreateApiKeyPayload, create_api_key, no_scopes}
use simply_firewall.Keys.Update.{UpdateApiKeyPayload, guard_update, updated, update_api_key}
use simply_firewall.Keys.Rotate.{rotate_api_key, rotate_signing_secret}

no_scope_beyond_none :
    (caller : ApiKey) (payload : CreateApiKeyPayload)
    → guard_scope_elevation caller
        (record {
          manage_keys = payload.can_manage_keys;
          create_groups = payload.can_create_groups;
          manage_webhooks = payload.can_manage_webhooks;
        })
        no_scopes
      ≡ ok tt
    → (caller.is_master ≡ true)
      ⊎ ((unwrap_or payload.can_manage_keys false ≡ false)
          × (unwrap_or payload.can_manage_webhooks false ≡ false)
          × (unwrap_or payload.can_create_groups false ≡ false))
no_scope_beyond_none caller payload e = ground (
  arith,
  guard_scope_elevation_iff caller
      (record {
        manage_keys = payload.can_manage_keys;
        create_groups = payload.can_create_groups;
        manage_webhooks = payload.can_manage_webhooks;
      })
      no_scopes,
)

pub ordinary_of_mutable :
    (target : ApiKey) (operation : Text)
    → guard_master_immutable target operation ≡ ok tt
    → target.is_master ≡ false
unfolding guard_master_immutable
ordinary_of_mutable target operation e = ground arith

module _ (o : Outside) (caller : Caller) (db : Db) where
  abbrev same : Permitted caller.key db db
  same = Permitted-refl caller.key db

  pub create_api_key-Safe :
      (payload : CreateApiKeyPayload) → Safe caller.key (create_api_key o caller payload) db
  unfolding create_api_key
  create_api_key-Safe payload =
      after_refuse _ _ (λ _. same)
        λ _.
          after_lift _ (λ _ _. same)
            λ _ bounded.
              after_lift _ (λ _ _. same)
                λ _ _.
                  after_read (generate_random_key-Reads o db) (λ _ h. absurd h)
                    λ plaintext _.
                      after_read (generate_signing_secret-Reads o db) (λ _ h. absurd h)
                        λ secret _.
                          after_read (seal-Reads o db secret) (λ _ _. same)
                            λ sealed _. after_uuid o λ id. after_now o λ t.
                              after_execute o (λ _. same) _
                                λ _ db' done.
                                  Safe-from caller.key
                                    (insert_key-Permitted _ db db' done caller.key refl
                                      (no_scope_beyond_none caller.key payload bounded))
                                    (Safe-bind caller.key
                                      (Safe-create_audit_log o caller _ _ _ _ db')
                                      λ _ d. Safe-pure caller.key d _)

  -- What the four checks of an update leave possible.
  update_bounded :
      (target : ApiKey) (payload : UpdateApiKeyPayload) (t : DateTime)
      → guard_update caller.key target payload ≡ ok tt
      → ((target.is_master ≡ false) ⊎ (frozen (updated payload t target) ≡ frozen target))
        × ((caller.key.is_master ≡ true)
            ⊎ ScopesWithin (some (updated payload t target)) (some target))
  unfolding guard_update guard_master_target guard_master_immutable guard_scope_elevation
  update_bounded target payload t e = ground arith

  pub update_api_key-Safe :
      (id : Uuid) (payload : UpdateApiKeyPayload)
      → Safe caller.key (update_api_key o caller id payload) db
  unfolding update_api_key
  update_api_key-Safe id payload =
      after_refuse _ _ (λ _. same)
        λ _.
          after_read (find_administrable_key-Reads o db caller.key id) (λ _ _. same)
            λ target found.
              after_lift _ (λ _ _. same)
                λ _ guarded.
                  after_lift _ (λ _ _. same)
                    λ _ _. after_now o λ t.
                      after_execute o (λ _. same) _
                        λ _ db' done.
                          Safe-from caller.key
                            (update_key-Permitted id (updated payload t) db db' (λ k. refl)
                              (λ k. refl) (λ k. refl) done caller.key target found.0
                              (update_bounded target payload t guarded).0
                              (update_bounded target payload t guarded).1)
                            (Safe-bind caller.key (Safe-create_audit_log o caller _ _ _ _ db')
                              λ _ d. full_api_key_summary-Safe o caller.key d _)

  pub rotate_api_key-Safe : (id : Uuid) → Safe caller.key (rotate_api_key o caller id) db
  unfolding rotate_api_key
  rotate_api_key-Safe id =
      after_refuse _ _ (λ _. same)
        λ _.
          after_read (find_administrable_key-Reads o db caller.key id) (λ _ _. same)
            λ target found.
              after_lift _ (λ _ _. same)
                λ _ _.
                  after_lift _ (λ _ _. same)
                    λ _ mutable.
                      after_read (generate_random_key-Reads o db) (λ _ h. absurd h)
                        λ plaintext _.
                          after_read (generate_signing_secret-Reads o db) (λ _ h. absurd h)
                            λ secret _.
                              after_read (seal-Reads o db secret) (λ _ _. same)
                                λ sealed _. after_now o λ t.
                                  after_execute o (λ _. same) _
                                    λ _ db' done.
                                      Safe-from caller.key
                                        (update_key-Permitted id _ db db' (λ k. refl) (λ k. refl)
                                          (λ k. refl) (update_key_of_hash id _ _ db db' done)
                                          caller.key target found.0
                                          (inl (ordinary_of_mutable target _ mutable))
                                          (inr (ScopesWithin-refl (some target))))
                                        (Safe-bind caller.key
                                          (Safe-create_audit_log o caller _ _ _ _ db')
                                          λ _ d. Safe-pure caller.key d _)

  pub rotate_signing_secret-Safe :
      (id : Uuid) → Safe caller.key (rotate_signing_secret o caller id) db
  unfolding rotate_signing_secret
  rotate_signing_secret-Safe id =
      after_refuse _ _ (λ _. same)
        λ _.
          after_read (find_administrable_key-Reads o db caller.key id) (λ _ _. same)
            λ target found.
              after_lift _ (λ _ _. same)
                λ _ _.
                  after_lift _ (λ _ _. same)
                    λ _ mutable.
                      after_read (generate_signing_secret-Reads o db) (λ _ h. absurd h)
                        λ secret _.
                          after_read (seal-Reads o db secret) (λ _ _. same)
                            λ sealed _. after_now o λ t.
                              after_execute o (λ _. same) _
                                λ _ db' done.
                                  Safe-from caller.key
                                    (update_key-Permitted id _ db db' (λ k. refl) (λ k. refl)
                                      (λ k. refl) done caller.key target found.0
                                      (inl (ordinary_of_mutable target _ mutable))
                                      (inr (ScopesWithin-refl (some target))))
                                    (Safe-bind caller.key
                                      (Safe-create_audit_log o caller _ _ _ _ db')
                                      λ _ d. Safe-pure caller.key d _)
