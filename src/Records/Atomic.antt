-- ===== src/Records/Atomic.antt =====
-- src/api/records.rs: `delete_ip`, whose statements are one transaction.
use simply_firewall.Prelude.{
  nonempty, or_else, ◌≢◌, Bool-cases, ◌&&◌, Member, is_empty, ◌≡◌, ◌⊎◌, refl, sym, subst, ap, inl,
  inr, true, false, not, Option, none, some, [], ◌∷◌, ◌++◌, Text, keep, length, ◌==◌, arith,
}
use simply_firewall.Entities.{Uuid, Permission, IpGroup, IpRecord}
use simply_firewall.Error.{Result}
use simply_firewall.Outside.{Outside}
use simply_firewall.Store.{AuditAction, AuditLog, Db}
use simply_firewall.Store.Tables.{permission_of}
use simply_firewall.Store.Rows.{
  HasVerb, Holds, permission_of-HasVerb, group_by_id_sound, group_by_name_sound,
  record_by_address_sound, length-keep_positive,
}
use simply_firewall.Store.Aged.{record_by_address, delete_membership, is_membership}
use simply_firewall.Store.Transaction.{Spec-transaction}
use simply_firewall.Store.Spec.{
  eq_of_stored, Spec, Spec-bind, Spec-pure, Spec-raise, Spec-refuse_if, Spec-if, Spec-mono,
  Spec-query,
}
use simply_firewall.Store.Chain.{
  Reads, after_read, after_refuse, after_lift, after_ok_or, after_query, after_execute,
}
use simply_firewall.Support.{Caller, resolve_group_ref}
use simply_firewall.Support.Effects.{with_row, Spec-create_audit_log}
use simply_firewall.Dispatch.Prepare.{WebhookEvent}
use simply_firewall.Records.{
  Cidrs, is_single_host, normalized, DeleteIpQuery, merge, normalize_ip_or_cidr, delete_ip,
  guard_group_delete, require_delete, remove_from_group, deletion_event,
}

-- The caller may delete on a group.
abbrev pub MayDelete : Caller → (group : Uuid) → Db → Type 0
MayDelete caller group db =
    (caller.key.is_master ≡ true) ⊎ HasVerb (λ p. p.can_delete) caller.key.id group db

-- The query string names a value, or leaves it to the body.
abbrev pub Asked : {A : Type 0} → (in_query in_body : Option A) → A → Type 0
Asked in_query in_body a = (in_query ≡ some a) ⊎ ((in_query ≡ none) × (in_body ≡ some a))

-- The form under which an address is stored: a single host without its prefix, a network under its
-- first address, and what is neither as it is.
pub data IsCanonical (c : Cidrs) (input : Text) : Text → Type 0 where
  no_network : c.parse input ≡ none → IsCanonical c input input
  host :
      {net : c.Net}
      → c.parse input ≡ some net
      → ((c.is_ipv4 net ≡ true) × (c.prefix net ≡ 32))
        ⊎ ((c.is_ipv4 net ≡ false) × (c.prefix net ≡ 128))
      → IsCanonical c input (c.ip_text net)
  range :
      {net : c.Net}
      → c.parse input ≡ some net
      → (c.is_ipv4 net ≡ true → c.prefix net ≢ 32)
      → (c.is_ipv4 net ≡ false → c.prefix net ≢ 128)
      → IsCanonical c input (c.network_text net ++ b'/' ∷ c.prefix_text net)

-- The tables after a record has left a group.
record HasLeft (caller : Caller) (address : Text) (group : IpGroup) (db : Db) (row : IpRecord)
    (d : Db) : Type 0 where
  found : record_by_address address db ≡ some row
  unlocked : row.is_locked ≡ false
  was_held : Holds group.id row.id db
  log : AuditLog
  logged : (log.action ≡ AuditAction.ip_delete) × (log.api_key_id ≡ some caller.key.id)
  result : d ≡ record db {
    memberships =
        keep (λ m. not (m.ip_record_id == row.id && m.group_id == group.id)) db.memberships;
    audit_logs = db.audit_logs ++ log ∷ [];
  }

pub record IsRemoved (c : Cidrs) (caller : Caller) (query_params : DeleteIpQuery)
    (body : Result DeleteIpQuery) (db : Db) (event : WebhookEvent) (d : Db) : Type 0 where
  pub body_params : DeleteIpQuery
  pub decoded : body ≡ Result.ok body_params
  pub row : IpRecord
  pub group : IpGroup
  pub given : Text
  pub asked_address : Asked query_params.target_address body_params.target_address given
  pub canonical : IsCanonical c given row.target_address
  pub asked_group :
      Asked query_params.group_id body_params.group_id group.id
      ⊎ Asked query_params.group_name body_params.group_name group.name
  pub row_there : Member row db.ip_records
  pub group_there : Member group db.groups
  pub log : AuditLog
  pub notifies : (event.address ≡ row.target_address) × (event.group_id ≡ some group.id)
  pub allowed : MayDelete caller group.id db
  pub unlocked : row.is_locked ≡ false
  pub was_held : Holds group.id row.id db
  pub logged : (log.action ≡ AuditAction.ip_delete) × (log.api_key_id ≡ some caller.key.id)
  -- one membership is gone, one audit row is there, and that is all
  pub result : d ≡ record db {
    memberships =
        keep (λ m. not (m.ip_record_id == row.id && m.group_id == group.id)) db.memberships;
    audit_logs = db.audit_logs ++ log ∷ [];
  }

or_else-Asked : {A : Type 0} (x y : Option A) (a : A) → or_else x y ≡ some a → Asked x y a
or_else-Asked none y a e = inr (refl, e)
or_else-Asked (some b) y a e = inl e

of_nonempty : (x : Option Text) (t : Text) → nonempty x ≡ some t → x ≡ some t
of_nonempty none t e = absurd cc
of_nonempty (some s) t e = elim (Bool-cases (is_empty s)) [
  | inl h ↦ absurd (ground (arith, e, h))
  | inr h ↦ ground (arith, e, h)
]

normalized-IsCanonical :
    (c : Cidrs) (input : Text) (x : Option c.Net)
    → c.parse input ≡ x
    → IsCanonical c input (normalized c input x)
unfolding normalized
normalized-IsCanonical c input none e = no_network e
normalized-IsCanonical c input (some net) e = elim (Bool-cases (is_single_host c net)) [
  | inl h ↦ rw h (host e (ground (arith, h)))
  | inr h ↦ rw h (range e (λ v p. ground (arith, h)) (λ v p. ground (arith, h)))
]

normalize_ip_or_cidr-IsCanonical :
    (c : Cidrs) (input : Text) → IsCanonical c input (normalize_ip_or_cidr c input)
unfolding normalize_ip_or_cidr
normalize_ip_or_cidr-IsCanonical c input = normalized-IsCanonical c input (c.parse input) refl

held_of :
    (row group : Uuid) (db : Db)
    → length (keep (is_membership row group) db.memberships) == 0 ≡ false
    → Holds group row db
held_of row group db h =
    let (m, there, t) = length-keep_positive (is_membership row group) db.memberships h in
    (m, there, ground (arith, t), ground (arith, t))

-- The group that a reference finds has the identifier or the name that it gives.
abbrev IsReferred : Option Uuid → Option Text → Db → IpGroup → Type 0
IsReferred id name db g = Member g db.groups × ((id ≡ some g.id) ⊎ (name ≡ some g.name))

module _ (o : Outside) (caller : Caller) where
  require_delete-Reads :
      (db : Db) (x : Option Permission)
      → Reads
          (require_delete o x)
          db
          (λ _. (p : Permission) × (x ≡ some p) × (p.can_delete ≡ true))
          (λ _. Unit)
  unfolding require_delete
  require_delete-Reads db none = Spec-raise db _ (refl, tt)
  require_delete-Reads db (some p) =
      Spec-refuse_if db _ _ (λ _. (refl, tt)) (λ e. (refl, (p, refl, ground (arith, e))))

  guard_group_delete-Reads :
      (db : Db) (group : Uuid)
      → Reads
          (guard_group_delete o caller.key group)
          db
          (λ _. MayDelete caller group db)
          (λ _. Unit)
  unfolding guard_group_delete
  guard_group_delete-Reads db group =
      Spec-if db caller.key.is_master _ _ (λ master. Spec-pure db tt (refl, inl master))
        λ _.
          after_query o (λ _. (refl, tt)) _ _
            (Spec-mono (require_delete-Reads db (permission_of caller.key.id group db))
              (λ _ _ q. (q.0, inr (permission_of-HasVerb _ _ group db q.1.0 q.1.1 q.1.2)))
              (λ _ _ q. q))

  remove_from_group-HasLeft :
      (db : Db) (address : Text) (group : IpGroup)
      → Spec
          (remove_from_group o caller address group)
          db
          (HasLeft caller address group db)
          (λ _ _. Unit)
  unfolding remove_from_group delete_membership
  remove_from_group-HasLeft db address group =
      after_query o (λ _. tt) _ _
        (after_ok_or _ (record_by_address address db) (λ _. tt)
          λ row found.
            after_refuse row.is_locked _ (λ _. tt)
              λ unlocked.
                after_execute o (λ _. tt) _
                  λ n d done.
                    after_refuse (n == 0) _ (λ _. tt)
                      λ some_gone.
                        let (count, after) = eq_of_stored done in
                        Spec-bind {P = λ _ d'. HasLeft caller address group db row d'}
                          (Spec-create_audit_log o d caller _ _ _ _ (λ _. tt)
                            λ log is. record {
                              found = found;
                              unlocked = unlocked;
                              was_held =
                                  held_of row.id group.id db
                                    (subst (λ k. k == 0 ≡ false) (sym count) some_gone);
                              log = log;
                              logged = (is.1, is.0);
                              result = ap (λ x. with_row x log) (sym after);
                            })
                          (λ _ d' h. Spec-pure d' row h))

  resolve_group_ref-Reads :
      (db : Db) (id : Option Uuid) (name : Option Text)
      → Reads
          (resolve_group_ref o id name)
          db
          (λ found. (g : IpGroup) → found ≡ some g → IsReferred id name db g)
          (λ _. Unit)
  unfolding resolve_group_ref
  resolve_group_ref-Reads db (some i) (some n) = Spec-raise db _ (refl, tt)
  resolve_group_ref-Reads db none none = Spec-raise db _ (refl, tt)
  resolve_group_ref-Reads db (some i) none =
      Spec-query o db _ (λ _. (refl, tt))
        (refl, λ g e. let (m, same) = group_by_id_sound i db g e in (m, inl (ap some (sym same))))
  resolve_group_ref-Reads db none (some n) =
      Spec-query o db _ (λ _. (refl, tt))
        (refl, λ g e. let (m, same) = group_by_name_sound n db g e in (m, inr (ap some (sym same))))

  -- A removal of an address from a group is all or nothing. One that returns comes from a caller that
  -- may delete on the group; the row is one of the table, unlocked, and stored under the canonical
  -- form of the address that the query, or else the body, names; the group is one of the table with
  -- the identifier or the name asked for, and it holds the row. Exactly that membership goes, one
  -- audit row is added, and the event names the two. One that fails, at whatever statement, the commit
  -- included, has changed nothing.
  pub delete_ip-IsRemoved :
      (c : Cidrs) (db : Db) (query_params : DeleteIpQuery) (body : Result DeleteIpQuery)
      → Spec
          (delete_ip o c caller query_params body)
          db
          (IsRemoved c caller query_params body db)
          (λ e d. d ≡ db)
  unfolding delete_ip merge
  delete_ip-IsRemoved c db query_params body =
      after_lift body (λ _ _. refl)
        λ body_params decoded.
          after_ok_or _ (nonempty (merge query_params body_params).target_address) (λ _. refl)
            λ given is_given.
              after_read (resolve_group_ref-Reads db _ _) (λ _ _. refl)
                λ found referred.
                  after_ok_or _ found (λ _. refl)
                    λ group is_found.
                      after_read (guard_group_delete-Reads db group.id) (λ _ _. refl)
                        λ _ may.
                          Spec-bind
                            {P = λ row d.
                              HasLeft caller (normalize_ip_or_cidr c given) group db row d}
                            (Spec-transaction o db (λ _. refl) (λ _ _ _. refl)
                              (remove_from_group-HasLeft db (normalize_ip_or_cidr c given) group))
                            (λ row d h. Spec-pure d _ (
                              removed body_params group row d given decoded is_given
                                (referred group is_found) may h))
    where
      asked_group_of :
          (body_params : DeleteIpQuery) (group : IpGroup)
          → (or_else query_params.group_id body_params.group_id ≡ some group.id)
            ⊎ (or_else query_params.group_name body_params.group_name ≡ some group.name)
          → Asked query_params.group_id body_params.group_id group.id
            ⊎ Asked query_params.group_name body_params.group_name group.name
      asked_group_of body_params group (inl e) = inl (or_else-Asked _ _ _ e)
      asked_group_of body_params group (inr e) = inr (or_else-Asked _ _ _ e)

      removed :
          (body_params : DeleteIpQuery) (group : IpGroup) (row : IpRecord) (d : Db) (given : Text)
          → body ≡ Result.ok body_params
          → nonempty (or_else query_params.target_address body_params.target_address) ≡ some given
          → IsReferred
              (or_else query_params.group_id body_params.group_id)
              (or_else query_params.group_name body_params.group_name)
              db
              group
          → MayDelete caller group.id db
          → HasLeft caller (normalize_ip_or_cidr c given) group db row d
          → IsRemoved c caller query_params body db (deletion_event o row group) d
      removed body_params group row d given decoded is_given referred may h =
          let (there, stored_as) =
            record_by_address_sound (normalize_ip_or_cidr c given) db row h.found in
          record {
            body_params = body_params;
            decoded = decoded;
            row = row;
            group = group;
            given = given;
            asked_address = or_else-Asked _ _ given (of_nonempty _ given is_given);
            canonical =
                subst (IsCanonical c given) (sym stored_as)
                  (normalize_ip_or_cidr-IsCanonical c given);
            asked_group = asked_group_of body_params group referred.1;
            row_there = there;
            group_there = referred.0;
            log = h.log;
            notifies = (refl, refl);
            allowed = may;
            unlocked = h.unlocked;
            was_held = h.was_held;
            logged = h.logged;
            result = h.result;
          }
