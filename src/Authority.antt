-- ===== src/Authority.antt =====
-- RBAC_MODEL.md, R4 and section 5, as a relation between the tables before and after a request: the
-- abstract specification for the handlers of src/api.
pub mod Statements
pub mod Removal
pub mod Safe
use simply_firewall.Prelude.{
  ◌≡◌, refl, ◌∙◌, ◌⊎◌, inl, inr, Bool, true, false, Option, none, some, if◌then◌else◌, Member,
  arith, is_some_and,
}
use simply_firewall.Entities.{Uuid, ApiKey}
use simply_firewall.Store.{Db}
use simply_firewall.Store.Tables.{key_by_id}
use simply_firewall.Guards.Rules.{AtMost}

-- What section 5 freezes of a key: all but its `bound_ips`, and the time of the last update.
abbrev pub frozen : ApiKey → ApiKey
frozen k = record k { bound_ips = none; updated_at = 0 }

abbrev pub frozen_if_master : Option ApiKey → Option ApiKey
frozen_if_master none = none
frozen_if_master (some k) = if k.is_master then some (frozen k) else none

-- No master appears, disappears, or changes in a frozen column.
abbrev pub SameMasters : Db → Db → Type 0
SameMasters db db' =
    (id : Uuid) → frozen_if_master (key_by_id id db') ≡ frozen_if_master (key_by_id id db)

-- The global scopes of a key are scopes that it had.
abbrev pub ScopesWithin : Option ApiKey → Option ApiKey → Type 0
ScopesWithin new old =
    AtMost (is_some_and new (λ k. k.can_manage_keys)) (is_some_and old (λ k. k.can_manage_keys))
    × AtMost (is_some_and new (λ k. k.can_manage_webhooks))
        (is_some_and old (λ k. k.can_manage_webhooks))
    × AtMost (is_some_and new (λ k. k.can_create_groups))
        (is_some_and old (λ k. k.can_create_groups))

-- No key gains a global scope.
abbrev pub NoScopeGained : Db → Db → Type 0
NoScopeGained db db' = (id : Uuid) → ScopesWithin (key_by_id id db') (key_by_id id db)

-- Ids are unique, and a master has no parent: `create_api_key` is the only writer of the parent
-- column, and bootstrap writes the master.
pub record IsValid (db : Db) : Type 0 where
  pub unique : (k : ApiKey) → Member k db.api_keys → key_by_id k.id db ≡ some k
  pub rooted : (k : ApiKey) → Member k db.api_keys → k.is_master ≡ true → k.parent_key_id ≡ none

-- What a caller may do to the keys.
pub record Permitted (caller : ApiKey) (db db' : Db) : Type 0 where
  pub valid : IsValid db → IsValid db'
  pub masters : IsValid db → SameMasters db db'
  pub scopes : caller.is_master ≡ false → IsValid db → NoScopeGained db db'

pub ScopesWithin-trans :
    (a b c : Option ApiKey) → ScopesWithin a b → ScopesWithin b c → ScopesWithin a c
ScopesWithin-trans a b c p q = ground arith

pub ScopesWithin-refl : (a : Option ApiKey) → ScopesWithin a a
ScopesWithin-refl none = ground arith
ScopesWithin-refl (some k) = ground arith

module _ (caller : ApiKey) where
  -- A statement that leaves the table of keys alone is permitted.
  pub Permitted-other : (db db' : Db) → db'.api_keys ≡ db.api_keys → Permitted caller db db'
  Permitted-other db db' e = record {
    valid = λ v. record { unique = rw e v.unique; rooted = rw e v.rooted };
    masters = λ v id. rw e refl;
    scopes = λ o v id. rw e (ScopesWithin-refl (key_by_id id db));
  }

  pub Permitted-trans :
      (a b c : Db) → Permitted caller a b → Permitted caller b c → Permitted caller a c
  Permitted-trans a b c p q = record {
    valid = λ v. q.valid (p.valid v);
    masters = λ v id. q.masters (p.valid v) id ∙ p.masters v id;
    scopes = λ o v id.
        ScopesWithin-trans (key_by_id id c) (key_by_id id b) (key_by_id id a)
          (q.scopes o (p.valid v) id) (p.scopes o v id);
  }
