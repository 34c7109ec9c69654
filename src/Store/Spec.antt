-- ===== src/Store/Spec.antt =====
-- Total correctness of actions: from given tables, a result meets `Q` and a failure meets `E`,
-- whatever the outside answers. One rule for each way to build an action.
use simply_firewall.Prelude.{
  ℕ, suc, ◌≡◌, refl, Bool, true, false, Option, none, some, Text, if◌then◌else◌, subst,
}
use simply_firewall.Entities.{Uuid, DateTime}
use simply_firewall.Error.{DbErr, AppError, db_error, Result, ok, err}
use simply_firewall.Outside.{Outside}
use simply_firewall.Store.{
  Db, World, Action, Written, stored, refused, pure, raise, lift, ok_or, ◌>>=◌, continue, refuse_if,
  new_uuid, now, random, new_nonce, run_written, run_statement, attempt, execute, query,
}

module _ {A : Type 0} where
  abbrev pub Answer : (A → Db → Type 0) → (AppError → Db → Type 0) → Result A → Db → Type 0
  Answer Q E (ok a) db = Q a db
  Answer Q E (err e) db = E e db

  abbrev pub Post : (A → Db → Type 0) → (AppError → Db → Type 0) → Result A × World → Type 0
  Post Q E (r, w) = Answer Q E r w.db

  pub record Spec (m : Action A) (db : Db) (Q : A → Db → Type 0) (E : AppError → Db → Type 0)
      : Type 0 where
    pub at : (n : ℕ) → Post Q E (m (record { db = db; step = n }))

  -- What a specification says of a run, by how the run ended.
  module _ {m : Action A} {w w' : World} {Q : A → Db → Type 0} {E : AppError → Db → Type 0}
      (s : Spec m w.db Q E) where
    pub result_of_Spec : {a : A} → m w ≡ (ok a, w') → Q a w'.db
    result_of_Spec e = subst (Post Q E) e (s.at w.step)

    pub failure_of_Spec : {x : AppError} → m w ≡ (err x, w') → E x w'.db
    failure_of_Spec e = subst (Post Q E) e (s.at w.step)

  module _ {Q : A → Db → Type 0} {E : AppError → Db → Type 0} (db : Db) where
    pub Spec-pure : (a : A) → Q a db → Spec (pure a) db Q E
    unfolding pure
    Spec-pure a h = record { at = λ n. h }

    pub Spec-raise : (e : AppError) → E e db → Spec (raise e) db Q E
    unfolding raise
    Spec-raise e h = record { at = λ n. h }

    pub Spec-answer : (r : Result A) → Answer Q E r db → Spec (lift r) db Q E
    unfolding lift
    Spec-answer r h = record { at = λ n. h }

    pub Spec-lift :
        (r : Result A)
        → ((a : A) → r ≡ ok a → Q a db)
        → ((e : AppError) → r ≡ err e → E e db)
        → Spec (lift r) db Q E
    unfolding lift
    Spec-lift (ok a) h k = record { at = λ n. h a refl }
    Spec-lift (err e) h k = record { at = λ n. k e refl }

    pub Spec-ok_or :
        (e : AppError) (x : Option A)
        → (x ≡ none → E e db)
        → ((a : A) → x ≡ some a → Q a db)
        → Spec (ok_or e x) db Q E
    unfolding ok_or
    Spec-ok_or e none h k = record { at = λ n. h refl }
    Spec-ok_or e (some a) h k = record { at = λ n. k a refl }

    pub Spec-if :
        (b : Bool) (m k : Action A)
        → (b ≡ true → Spec m db Q E)
        → (b ≡ false → Spec k db Q E)
        → Spec (if b then m else k) db Q E
    Spec-if true m k h h' = h refl
    Spec-if false m k h h' = h' refl

module _ {Q : Unit {0} → Db → Type 0} {E : AppError → Db → Type 0} (db : Db) where
  pub Spec-refuse_if :
      (b : Bool) (e : AppError)
      → (b ≡ true → E e db)
      → (b ≡ false → Q tt db)
      → Spec (refuse_if b e) db Q E
  unfolding refuse_if
  Spec-refuse_if true e h k = record { at = λ n. h refl }
  Spec-refuse_if false e h k = record { at = λ n. k refl }

module _ {A B : Type 0} {Q : B → Db → Type 0} {E : AppError → Db → Type 0} where
  Post-continue :
      {P : A → Db → Type 0} (f : A → Action B) (r : Result A × World)
      → Post P E r
      → ((a : A) (db : Db) → P a db → Spec (f a) db Q E)
      → Post Q E (continue f r)
  unfolding continue
  Post-continue f (ok a, w) p h = (h a w.db p).at w.step
  Post-continue f (err e, w) p h = p

  pub Spec-bind :
      {P : A → Db → Type 0} {m : Action A} {f : A → Action B} {db : Db}
      → Spec m db P E
      → ((a : A) (db' : Db) → P a db' → Spec (f a) db' Q E)
      → Spec (m >>= f) db Q E
  unfolding ◌>>=◌
  Spec-bind {m} {f} {db} s h = record {
    at = λ n. Post-continue f (m (record { db = db; step = n })) (s.at n) h;
  }

module _ {A : Type 0} {Q Q' : A → Db → Type 0} {E E' : AppError → Db → Type 0} where
  pub Post-mono :
      (r : Result A × World)
      → ((a : A) (db : Db) → Q a db → Q' a db)
      → ((e : AppError) (db : Db) → E e db → E' e db)
      → Post Q E r
      → Post Q' E' r
  Post-mono (ok a, w) h k p = h a w.db p
  Post-mono (err e, w) h k p = k e w.db p

  pub Spec-mono :
      {m : Action A} {db : Db}
      → Spec m db Q E
      → ((a : A) (db' : Db) → Q a db' → Q' a db')
      → ((e : AppError) (db' : Db) → E e db' → E' e db')
      → Spec m db Q' E'
  Spec-mono {m} {db} s h k = record {
    at = λ n. Post-mono (m (record { db = db; step = n })) h k (s.at n);
  }

module _ {A : Type 0} (Q Q' : A → Db → Type 0) (E E' : AppError → Db → Type 0) where
  Post-both :
      (r : Result A × World)
      → Post Q E r
      → Post Q' E' r
      → Post (λ a db. Q a db × Q' a db) (λ e db. E e db × E' e db) r
  Post-both (ok a, w) p q = (p, q)
  Post-both (err e, w) p q = (p, q)

-- Two specifications hold together.
module _ {A : Type 0} {Q Q' : A → Db → Type 0} {E E' : AppError → Db → Type 0} where
  pub Spec-both :
      {m : Action A} {db : Db}
      → Spec m db Q E
      → Spec m db Q' E'
      → Spec m db (λ a db'. Q a db' × Q' a db') (λ e db'. E e db' × E' e db')
  Spec-both {m} {db} s s' = record {
    at = λ n. Post-both Q Q' E E' (m (record { db = db; step = n })) (s.at n) (s'.at n);
  }

module _ (o : Outside) (db : Db) {E : AppError → Db → Type 0} where
  pub Spec-new_uuid : {Q : Uuid → Db → Type 0} → ((id : Uuid) → Q id db) → Spec (new_uuid o) db Q E
  unfolding new_uuid
  Spec-new_uuid h = record { at = λ n. h (o.uuid n) }

  pub Spec-now : {Q : DateTime → Db → Type 0} → ((t : DateTime) → Q t db) → Spec (now o) db Q E
  unfolding now
  Spec-now h = record { at = λ n. h (o.clock n) }

  pub Spec-random : {Q : Text → Db → Type 0} → ((t : Text) → Q t db) → Spec (random o) db Q E
  unfolding random
  Spec-random h = record { at = λ n. h (o.random_bytes n) }

  pub Spec-drawn :
      {Q : Text → Db → Type 0} → ((n : ℕ) → Q (o.random_bytes n) db) → Spec (random o) db Q E
  unfolding random
  Spec-drawn h = record { at = λ n. h n }

  pub Spec-new_nonce :
      {Q : Text → Db → Type 0} → ((n : ℕ) → Q (o.random_nonce n) db) → Spec (new_nonce o) db Q E
  unfolding new_nonce
  Spec-new_nonce h = record { at = λ n. h n }

module _ {A : Type 0} (P : Result A → Db → Type 0) (E : AppError → Db → Type 0) (db : Db) where
  Post-run_written :
      (n : ℕ) (r : Written A)
      → ((e : DbErr) → P (err (db_error e)) db)
      → ((a : A) (db' : Db) → r ≡ stored a db' → P (ok a) db')
      → Post P E (run_written db n r)
  unfolding run_written
  Post-run_written n (stored a db') h k = k a db' refl
  Post-run_written n (refused e) h k = h e

  Post-run_statement :
      (n : ℕ) (x : Option DbErr) (f : Db → Written A)
      → ((e : DbErr) → P (err (db_error e)) db)
      → ((a : A) (db' : Db) → f db ≡ stored a db' → P (ok a) db')
      → Post P E (run_statement x f (record { db = db; step = n }))
  unfolding run_statement
  Post-run_statement n (some e) f h k = h e
  Post-run_statement n none f h k = Post-run_written (suc n) (f db) h k

pub eq_of_stored :
    {A : Type 0} {a a' : A} {db db' : Db}
    → ◌≡◌ {A = Written A} (stored a db) (stored a' db')
    → (a ≡ a') × (db ≡ db')
eq_of_stored e = (cc, cc)

module _ (o : Outside) {A : Type 0} (db : Db) {E : AppError → Db → Type 0} where
  -- A statement whose failure the caller looks at.
  pub Spec-attempt :
      {P : Result A → Db → Type 0} (f : Db → Written A)
      → ((e : DbErr) → P (err (db_error e)) db)
      → ((a : A) (db' : Db) → f db ≡ stored a db' → P (ok a) db')
      → Spec (attempt o f) db P E
  unfolding attempt
  Spec-attempt {P} f h k = record { at = λ n. Post-run_statement P E db n (o.failure n) f h k }

  module _ {Q : A → Db → Type 0} where
    pub Spec-execute :
        (f : Db → Written A)
        → ((e : DbErr) → E (db_error e) db)
        → ((a : A) (db' : Db) → f db ≡ stored a db' → Q a db')
        → Spec (execute o f) db Q E
    unfolding execute
    Spec-execute f h k =
        Spec-bind {P = Answer Q E} (Spec-attempt f h k) (λ r db' p. Spec-answer db' r p)

    pub Spec-query :
        (f : Db → A) → ((e : DbErr) → E (db_error e) db) → Q (f db) db → Spec (query o f) db Q E
    unfolding query
    Spec-query f h k =
        Spec-execute (λ x. stored (f x) x) h
          λ a db' e.
            let (same_a, same_db) = eq_of_stored e in
            subst (λ x. Q x db') same_a (subst (Q (f db)) same_db k)

-- A run that starts with the clock, by what the clock reads at its step.
module _ (o : Outside) {A : Type 0} {Q : A → Db → Type 0} {E : AppError → Db → Type 0} where
  pub Post-now :
      (k : DateTime → Action A) (db : Db) (n : ℕ)
      → Spec (k (o.clock n)) db Q E
      → Post Q E ((now o >>= k) (record { db = db; step = n }))
  unfolding now ◌>>=◌ continue
  Post-now k db n s = s.at (suc n)
