-- ===== src/Guards/Effects.antt =====
-- The guards of src/api/guards.rs that ask the database, against the tables.
use simply_firewall.Prelude.{
  ◌≡◌, refl, ◌⊎◌, inl, inr, true, false, not, Option, none, some, arith, InSome,
}
use simply_firewall.Entities.{Uuid, ApiKey}
use simply_firewall.Error.{AppError, is_db_error, invalid_input, forbidden, Message}
use simply_firewall.Outside.{Outside}
use simply_firewall.Store.{Db, query}
use simply_firewall.Store.Tables.{key_by_id, permission_of}
use simply_firewall.Store.Spec.{Spec-query, Spec-pure, Spec-raise, Spec-if, Spec-refuse_if}
use simply_firewall.Store.Chain.{Reads, after_query, after_ok_or, after_refuse}
use simply_firewall.Guards.{
  caller_group_permission, holds_any_group_manage, guard_may_administer_any_group,
  resolve_owner_assignment,
}

abbrev pub DbFailure : AppError → Type 0
DbFailure e = is_db_error e ≡ true

module _ (o : Outside) (db : Db) where
  pub query-Reads : {A : Type 0} (f : Db → A) → Reads (query o f) db (λ a. a ≡ f db) DbFailure
  query-Reads f = Spec-query o db f (λ e. (refl, refl)) (refl, refl)

  pub caller_group_permission-Reads :
      (key group : Uuid)
      → Reads
          (caller_group_permission o key group)
          db
          (λ p. p ≡ permission_of key group db)
          DbFailure
  unfolding caller_group_permission
  caller_group_permission-Reads key group = query-Reads (permission_of key group)

  -- The pre-gate lets through only the master and keys with the global scope.
  pub guard_may_administer_any_group-Reads :
      (caller : ApiKey)
      → Reads
          (guard_may_administer_any_group o caller)
          db
          (λ _. (caller.is_master ≡ true) ⊎ (caller.can_manage_keys ≡ true))
          (λ e. DbFailure e ⊎ (e ≡ forbidden Message.permission_denied))
  unfolding guard_may_administer_any_group holds_any_group_manage
  guard_may_administer_any_group-Reads caller =
      Spec-if db caller.is_master _ _ (λ master. Spec-pure db tt (refl, inl master))
        λ _.
          Spec-if db (not caller.can_manage_keys) _ _ (λ _. Spec-raise db _ (refl, inr refl))
            λ scope.
              after_query o (λ e. (refl, inl refl)) _ _
                (Spec-refuse_if db _ _ (λ _. (refl, inr refl)) (λ _. (refl, inr (ground arith))))

  -- The requested owner is returned only if it is none, or a key that exists and is no master. It
  -- fails only where the database does or with one of two refusals, and changes no table.
  pub resolve_owner_assignment-Reads :
      (requested : Option Uuid)
      → Reads
          (resolve_owner_assignment o requested)
          db
          (λ owner.
            (owner ≡ requested)
            × ((requested ≡ none)
                ⊎ InSome (λ id. InSome (λ k. k.is_master ≡ false) (key_by_id id db)) requested))
          (λ e.
            DbFailure e
            ⊎ (e ≡ invalid_input Message.no_such_owner)
            ⊎ (e ≡ invalid_input Message.master_cannot_own))
  unfolding resolve_owner_assignment
  resolve_owner_assignment-Reads none = Spec-pure db none (refl, (refl, inl refl))
  resolve_owner_assignment-Reads (some id) =
      after_query o (λ e. (refl, inl refl)) _ _
        (after_ok_or _ _ (λ _. (refl, inr (inl refl)))
          λ k found.
            after_refuse k.is_master _ (λ _. (refl, inr (inr refl)))
              λ ordinary. Spec-pure db _ (refl, (refl, inr (rw found ordinary))))
