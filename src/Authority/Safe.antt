-- ===== src/Authority/Safe.antt =====
-- Actions whose every outcome, failures included, is permitted to the caller.
use simply_firewall.Prelude.{◌≡◌, refl, Option, Text, ap, Bool}
use simply_firewall.Entities.{ApiKey}
use simply_firewall.Error.{AppError, Result}
use simply_firewall.Outside.{Outside}
use simply_firewall.Store.{
  AuditAction, Details, Db, Action, Written, stored, pure, raise, lift, ok_or, refuse_if, new_uuid,
  now, attempt, execute, query, ◌>>=◌,
}
use simply_firewall.Store.Spec.{
  Spec, Spec-mono, Spec-bind, Spec-execute, Spec-attempt, Spec-query, Spec-pure, Spec-raise,
  Spec-lift, Spec-ok_or, Spec-refuse_if, Spec-new_uuid, Spec-now,
}
use simply_firewall.Store.Chain.{Reads}
use simply_firewall.Support.{Caller, create_audit_log}
use simply_firewall.Support.Effects.{Spec-create_audit_log}
use simply_firewall.Authority.{Permitted, Permitted-other, Permitted-trans}

abbrev pub Safe : {A : Type 0} → ApiKey → Action A → Db → Type 0
Safe caller m db = Spec m db (λ _ db'. Permitted caller db db') (λ _ db'. Permitted caller db db')

module _ (caller : ApiKey) where
  pub Permitted-refl : (db : Db) → Permitted caller db db
  Permitted-refl db = Permitted-other caller db db refl

  module _ {A : Type 0} {m : Action A} {db : Db} where
    pub Safe-of_Reads : {R : A → Type 0} {F : AppError → Type 0} → Reads m db R F → Safe caller m db
    Safe-of_Reads s =
        Spec-mono s (λ a db' q. Permitted-other caller db db' (ap (λ (d : Db). d.api_keys) q.0))
          (λ e db' q. Permitted-other caller db db' (ap (λ (d : Db). d.api_keys) q.0))

    -- What is safe after a permitted change is safe from before it.
    pub Safe-from :
        {before : Db}
        → Permitted caller before db
        → Safe caller m db
        → Spec m db (λ _ d. Permitted caller before d) (λ _ d. Permitted caller before d)
    Safe-from {before} p s =
        Spec-mono s (λ a d q. Permitted-trans caller before db d p q)
          (λ e d q. Permitted-trans caller before db d p q)

    pub Safe-bind :
        {B : Type 0} {k : A → Action B}
        → Safe caller m db
        → ((a : A) (db' : Db) → Safe caller (k a) db')
        → Safe caller (m >>= k) db
    Safe-bind s c = Spec-bind s (λ a db' p. Safe-from' p (c a db'))
      where
        Safe-from' :
            {C : Type 0} {n : Action C} {db' : Db}
            → Permitted caller db db'
            → Safe caller n db'
            → Spec n db' (λ _ d. Permitted caller db d) (λ _ d. Permitted caller db d)
        Safe-from' {db'} p s' =
            Spec-mono s' (λ a d q. Permitted-trans caller db db' d p q)
              (λ e d q. Permitted-trans caller db db' d p q)

  module _ {A : Type 0} (db : Db) where
    pub Safe-pure : (a : A) → Safe caller (pure a) db
    Safe-pure a = Spec-pure db a (Permitted-refl db)

    pub Safe-raise : (e : AppError) → Safe caller (raise {A = A} e) db
    Safe-raise e = Spec-raise db e (Permitted-refl db)

    pub Safe-lift : (r : Result A) → Safe caller (lift r) db
    Safe-lift r = Spec-lift db r (λ a e. Permitted-refl db) (λ x e. Permitted-refl db)

    pub Safe-ok_or : (e : AppError) (x : Option A) → Safe caller (ok_or e x) db
    Safe-ok_or e x = Spec-ok_or db e x (λ h. Permitted-refl db) (λ a h. Permitted-refl db)

    pub Safe-query : (o : Outside) (f : Db → A) → Safe caller (query o f) db
    Safe-query o f = Spec-query o db f (λ e. Permitted-refl db) (Permitted-refl db)

    -- A statement on another table.
    module _ (o : Outside) (f : Db → Written A) where
      abbrev pub OnOtherTables : Type 0
      OnOtherTables = (a : A) (db' : Db) → f db ≡ stored a db' → db'.api_keys ≡ db.api_keys

      pub Safe-execute : OnOtherTables → Safe caller (execute o f) db
      Safe-execute h =
          Spec-execute o db f (λ e. Permitted-refl db)
            (λ a db' e. Permitted-other caller db db' (h a db' e))

      pub Safe-attempt : OnOtherTables → Safe caller (attempt o f) db
      Safe-attempt h =
          Spec-attempt o db f (λ e. Permitted-refl db)
            (λ a db' e. Permitted-other caller db db' (h a db' e))

  module _ (db : Db) where
    pub Safe-refuse_if : (b : Bool) (e : AppError) → Safe caller (refuse_if b e) db
    Safe-refuse_if b e = Spec-refuse_if db b e (λ h. Permitted-refl db) (λ h. Permitted-refl db)

    pub Safe-new_uuid : (o : Outside) → Safe caller (new_uuid o) db
    Safe-new_uuid o = Spec-new_uuid o db (λ id. Permitted-refl db)

    pub Safe-now : (o : Outside) → Safe caller (now o) db
    Safe-now o = Spec-now o db (λ t. Permitted-refl db)

pub Safe-create_audit_log :
    (o : Outside) (caller : Caller) (action : AuditAction) (target groups : Option Text)
    (details : Option Details) (db : Db)
    → Safe caller.key (create_audit_log o caller action target groups details) db
Safe-create_audit_log o caller action target groups details db =
    Spec-create_audit_log o db caller action target groups details
      (λ e. Permitted-refl caller.key db) (λ row h. Permitted-other caller.key db _ refl)
