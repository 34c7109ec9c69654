-- ===== src/Support/Effects.antt =====
-- The helpers of src/api/support.rs against the tables.
use simply_firewall.Prelude.{
  ◌≡◌, refl, ◌⊎◌, inl, inr, Option, none, some, subst, sym, arith, Text, [], ◌∷◌, ◌++◌, InSome,
}
use simply_firewall.Entities.{Uuid, IpGroup}
use simply_firewall.Error.{AppError, invalid_input, Message}
use simply_firewall.Outside.{Outside}
use simply_firewall.Store.{AuditAction, Details, AuditLog, Db, stored}
use simply_firewall.Store.Tables.{group_by_id, group_by_name, insert_audit_log}
use simply_firewall.Store.Spec.{Spec, Spec-execute, Spec-pure, Spec-raise, Spec-mono}
use simply_firewall.Store.Chain.{Reads, Fallible, after_uuid, after_now, after_query}
use simply_firewall.Guards.Effects.{DbFailure, query-Reads}
use simply_firewall.Support.{
  Caller, create_audit_log, resolve_group_by_identifier, resolve_group_ref_flexible, by_parsed_id,
  by_name_unless,
}

-- The row is the caller's, with the action and details given.
abbrev pub IsRowOf : Caller → AuditAction → Option Details → AuditLog → Type 0
IsRowOf caller action details row =
    (row.api_key_id ≡ some caller.key.id)
    × (row.action ≡ action)
    × (row.details ≡ details)
    × (row.api_key_prefix ≡ caller.key.prefix)
    × (row.client_ip ≡ caller.client_ip)

abbrev pub with_row : Db → AuditLog → Db
with_row db row = record db { audit_logs = db.audit_logs ++ row ∷ [] }

stored_row :
    (row : AuditLog) (db db' : Db) {a : Unit {0}}
    → insert_audit_log row db ≡ stored a db'
    → db' ≡ with_row db row
unfolding insert_audit_log
stored_row row db db' e = ground arith

module _ (o : Outside) (db : Db) where
  pub Spec-create_audit_log :
      {Q : Unit {0} → Db → Type 0} {E : AppError → Db → Type 0} (caller : Caller)
      (action : AuditAction) (target groups : Option Text) (details : Option Details)
      → Fallible E db
      → ((row : AuditLog) → IsRowOf caller action details row → Q tt (with_row db row))
      → Spec (create_audit_log o caller action target groups details) db Q E
  unfolding create_audit_log
  Spec-create_audit_log {Q} caller action target groups details fails c = after_uuid o λ id.
      after_now o λ t.
        Spec-execute o db _ fails
          λ a db' e. subst (Q a) (sym (stored_row _ db db' e)) (c _ (refl, refl, refl, refl, refl))

  by_name_unless-Reads :
      (identifier : Text) (x : Option IpGroup)
      → Reads (by_name_unless o identifier x) db (λ _. Unit) DbFailure
  unfolding by_name_unless
  by_name_unless-Reads identifier (some g) = Spec-pure db _ (refl, tt)
  by_name_unless-Reads identifier none =
      Spec-mono (query-Reads o db _) (λ a db' q. (q.0, tt)) (λ e db' q. q)

  by_parsed_id-Reads :
      (identifier : Text) (x : Option Uuid)
      → Reads (by_parsed_id o identifier x) db (λ _. Unit) DbFailure
  unfolding by_parsed_id
  by_parsed_id-Reads identifier none = by_name_unless-Reads identifier none
  by_parsed_id-Reads identifier (some id) =
      after_query o (λ e. (refl, refl)) _ _ (by_name_unless-Reads identifier (group_by_id id db))

  pub resolve_group_by_identifier-Reads :
      (identifier : Text)
      → Reads (resolve_group_by_identifier o identifier) db (λ _. Unit) DbFailure
  unfolding resolve_group_by_identifier
  resolve_group_by_identifier-Reads identifier =
      by_parsed_id-Reads identifier (o.parse_uuid identifier)

  pub resolve_group_ref_flexible-Reads :
      (id name : Option Text)
      → Reads
          (resolve_group_ref_flexible o id name)
          db
          (λ found. (name ≡ none) ⊎ (InSome (λ n. found ≡ group_by_name n db) name))
          (λ e.
            (DbFailure e)
            ⊎ (e ≡ invalid_input Message.either_id_or_name)
            ⊎ (e ≡ invalid_input Message.id_or_name_required))
  unfolding resolve_group_ref_flexible
  resolve_group_ref_flexible-Reads (some i) (some n) = Spec-raise db _ (refl, inr (inl refl))
  resolve_group_ref_flexible-Reads none none = Spec-raise db _ (refl, inr (inr refl))
  resolve_group_ref_flexible-Reads (some i) none =
      Spec-mono (resolve_group_by_identifier-Reads i) (λ a db' q. (q.0, inl refl))
        (λ e db' q. (q.0, inl q.1))
  resolve_group_ref_flexible-Reads none (some n) =
      Spec-mono (query-Reads o db _) (λ a db' q. (q.0, inr q.1)) (λ e db' q. (q.0, inl q.1))
