-- ===== src/Keys/Grants/Bounded.antt =====
-- src/api/keys.rs: `update_key_group_permissions` as a whole, against R1, R2, R6 and R7 of
-- RBAC_MODEL.md.
use simply_firewall.Prelude.{
  ◌≡◌, refl, ap, ◌∙◌, ◌⊎◌, inl, inr, true, false, ◌&&◌, Option, none, some, Text, InSome, ◌==◌,
  arith, Bool-cases, find, codes,
}
use simply_firewall.Entities.{Uuid, ApiKey, Permission, IpGroup}
use simply_firewall.Error.{AppError, ok}
use simply_firewall.Outside.{Outside}
use simply_firewall.Store.{Db, stored}
use simply_firewall.Store.Tables.{permission_of, insert_group, insert_group_or_skip}
use simply_firewall.Store.Spec.{Spec, Spec-bind, Spec-pure, Spec-raise, Spec-ok_or}
use simply_firewall.Store.Chain.{
  after_refuse, after_lift, after_read, after_uuid, after_now, after_query, after_ok_or,
  after_execute,
}
use simply_firewall.Guards.{GroupPermInput, widens_permissions}
use simply_firewall.Guards.Rules.{
  Covers, guard_group_manage_iff, guard_delegated_group_grant_iff, widens_permissions_iff,
}
use simply_firewall.Guards.Effects.{
  DbFailure, caller_group_permission-Reads, guard_may_administer_any_group-Reads,
}
use simply_firewall.Support.{Caller, get_or_create_group}
use simply_firewall.Support.Effects.{Spec-create_audit_log, resolve_group_ref_flexible-Reads}
use simply_firewall.Keys.Grants.{
  guard_change, grant_row, target_group, change_grant, update_key_group_permissions,
}
use simply_firewall.Keys.Grants.Rows.{own-upsert, other-upsert}

-- The standing that the rules ask for: the master, or the global scope together with `can_manage`
-- on the caller's own row for the group, which also has every verb of the request unless the
-- request takes nothing but verbs away.
abbrev pub MayChange : ApiKey → (target group : Uuid) → GroupPermInput → Db → Type 0
MayChange caller target group payload db =
    (caller.is_master ≡ true)
    ⊎ ((caller.can_manage_keys ≡ true)
        × InSome
            (λ held.
              (held.can_manage ≡ true)
              × (Covers payload held ⊎ InSome (Covers payload) (permission_of target group db)))
            (permission_of caller.id group db))

abbrev pub HasVerbs : GroupPermInput → Permission → Type 0
HasVerbs payload p =
    (p.can_read ≡ payload.can_read)
    × (p.can_write ≡ payload.can_write)
    × (p.can_delete ≡ payload.can_delete)
    × (p.can_manage ≡ payload.can_manage)

-- One row is written, by a caller that may, with the verbs of the request; every other row is as
-- it was.
pub record IsChanged (caller : ApiKey) (target : Uuid) (payload : GroupPermInput) (db d : Db)
    : Type 0 where
  pub group : Uuid
  pub allowed : MayChange caller target group payload db
  pub written : InSome (HasVerbs payload) (permission_of target group d)
  pub others :
      (k g : Uuid)
      → (target == k && group == g) ≡ false
      → permission_of k g d ≡ permission_of k g db

may_change :
    (caller : ApiKey) (target group : Uuid) (name : Text) (payload : GroupPermInput) (db : Db)
    (mine theirs : Option Permission)
    → mine ≡ permission_of caller.id group db
    → theirs ≡ permission_of target group db
    → guard_change caller mine theirs name payload ≡ ok tt
    → MayChange caller target group payload db
unfolding guard_change
may_change caller target group name payload db mine theirs m t e =
    elim (Bool-cases (widens_permissions payload theirs)) [
      | inl w ↦
          ground (arith, guard_delegated_group_grant_iff caller mine name (codes "grant") payload)
      | inr w ↦ ground (
        arith,
        guard_group_manage_iff caller mine name (codes "revoke"),
        widens_permissions_iff payload theirs,
      )
    ]

permission_of-same :
    (db before : Db)
    → db.permissions ≡ before.permissions
    → (key group : Uuid) → permission_of key group db ≡ permission_of key group before
permission_of-same db before same key group =
    ap (find (λ p. p.api_key_id == key && p.group_id == group)) same

insert_group_or_skip-permissions :
    (row : IpGroup) (db db' : Db) {a : Unit {0}}
    → insert_group_or_skip row db ≡ stored a db'
    → db'.permissions ≡ db.permissions
unfolding insert_group_or_skip insert_group
insert_group_or_skip-permissions row db db' e = ground arith

module _ (o : Outside) (caller : Caller) (payload : GroupPermInput) where
  -- A refusal leaves every grant as it was.
  abbrev pub Unchanged : Db → AppError → Db → Type 0
  Unchanged db e d = DbFailure e ⊎ (d.permissions ≡ db.permissions)

  change_grant-IsChanged :
      (id : Uuid) (target : ApiKey) (group : IpGroup) (before db : Db)
      → db.permissions ≡ before.permissions
      → Spec
          (change_grant o caller id target group payload)
          db
          (λ _ d. IsChanged caller.key id payload before d)
          (Unchanged before)
  unfolding change_grant
  change_grant-IsChanged id target group before db same =
      after_read (caller_group_permission-Reads o db _ _) (λ _ h. inl h)
        λ mine m.
          after_read (caller_group_permission-Reads o db _ _) (λ _ h. inl h)
            λ theirs t.
              after_lift _ (λ _ _. inr same)
                λ _ passed. after_now o λ now. after_uuid o λ row.
                  after_execute o (λ _. inl refl) _
                    λ _ d done.
                      Spec-create_audit_log o d caller _ _ _ _ (λ _. inl refl)
                        λ log is. record {
                          group = group.id;
                          allowed =
                              may_change caller.key id group.id group.name payload before mine
                                theirs
                                (m ∙ permission_of-same db before same caller.key.id group.id)
                                (t ∙ permission_of-same db before same id group.id) passed;
                          written = own-upsert (grant_row row id group.id payload now) db d done;
                          others = λ k g e.
                              other-upsert (grant_row row id group.id payload now) db d done k g e
                              ∙ permission_of-same db before same k g;
                        }

  get_or_create_group-permissions :
      (name type : Text) (owner : Option Uuid) (db : Db)
      → Spec
          (get_or_create_group o name type owner)
          db
          (λ _ d. d.permissions ≡ db.permissions)
          (Unchanged db)
  unfolding get_or_create_group
  get_or_create_group-permissions name type owner db = after_uuid o λ id. after_now o λ t.
      after_execute o (λ _. inl refl) _
        λ _ d done.
          after_query o (λ _. inl refl) _ _
            (Spec-ok_or d _ _ (λ _. inr (insert_group_or_skip-permissions _ db d done))
              (λ _ _. insert_group_or_skip-permissions _ db d done))

  target_group-permissions :
      (found : Option IpGroup) (name : Option Text) (db : Db)
      → Spec
          (target_group o caller.key found name)
          db
          (λ _ d. d.permissions ≡ db.permissions)
          (Unchanged db)
  unfolding target_group
  target_group-permissions (some g) name db = Spec-pure db g refl
  target_group-permissions none none db = Spec-raise db _ (inr refl)
  target_group-permissions none (some name) db =
      after_refuse _ _ (λ _. inr refl) λ _. get_or_create_group-permissions name _ _ db

-- A grant request that returns has written the verbs of the request, from a caller that rules R1,
-- R2, R6 and R7 admit for that group, and has touched no other grant: a caller that is not the master
-- holds `can_manage_keys` and `can_manage` on the group, and holds every verb that the target ends
-- up with unless the target had all of them before. A refused request has changed no grant, unless the
-- database failed.
pub update_key_group_permissions-IsChanged :
    (o : Outside) (caller : Caller) (id : Uuid) (payload : GroupPermInput) (db : Db)
    → Spec
        (update_key_group_permissions o caller id payload)
        db
        (λ _ d. IsChanged caller.key id payload db d)
        (λ e d. DbFailure e ⊎ (d.permissions ≡ db.permissions))
unfolding update_key_group_permissions
update_key_group_permissions-IsChanged o caller id payload db =
    after_read (guard_may_administer_any_group-Reads o db caller.key) (λ _ _. inr refl)
      λ _ _.
        after_query o (λ _. inl refl) _ _
          (after_ok_or _ _ (λ _. inr refl)
            λ target found.
              after_refuse _ _ (λ _. inr refl)
                λ _.
                  after_refuse _ _ (λ _. inr refl)
                    λ _.
                      after_read (resolve_group_ref_flexible-Reads o db _ _) (λ _ _. inr refl)
                        λ existing _.
                          Spec-bind
                            (target_group-permissions o caller payload existing payload.group_name
                              db)
                            λ group d same.
                              change_grant-IsChanged o caller payload id target group db d same)
