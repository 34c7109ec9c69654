-- ===== src/Store/Chain.antt =====
-- The rules of `Store.Spec` for the head of a `do` block.
use simply_firewall.Prelude.{ℕ, ◌≡◌, sym, Bool, true, false, Option, none, some, Text, subst}
use simply_firewall.Entities.{Uuid, DateTime}
use simply_firewall.Error.{DbErr, AppError, db_error, Result, ok, err}
use simply_firewall.Outside.{Outside}
use simply_firewall.Store.{
  Db, Action, Written, stored, lift, ok_or, ◌>>=◌, ◌>>◌, refuse_if, new_uuid, now, random,
  new_nonce, execute, query,
}
use simply_firewall.Store.Spec.{
  Spec, Spec-bind, Spec-lift, Spec-ok_or, Spec-refuse_if, Spec-new_uuid, Spec-now, Spec-execute,
  Spec-query, Spec-random, Spec-drawn, Spec-new_nonce, Spec-mono,
}

-- An action that changes no table: its results meet `R`, its failures `F`.
abbrev pub Reads : {A : Type 0} → Action A → Db → (A → Type 0) → (AppError → Type 0) → Type 0
Reads m db R F = Spec m db (λ a db'. (db' ≡ db) × R a) (λ e db'. (db' ≡ db) × F e)

-- A failure of the database is among the failures.
abbrev pub Fallible : (AppError → Db → Type 0) → Db → Type 0
Fallible E db = (e : DbErr) → E (db_error e) db

module _ {B : Type 0} {Q : B → Db → Type 0} {E : AppError → Db → Type 0} {db : Db} where
  pub after_read :
      {A : Type 0} {m : Action A} {k : A → Action B} {R : A → Type 0} {F : AppError → Type 0}
      → Reads m db R F
      → ((e : AppError) → F e → E e db)
      → ((a : A) → R a → Spec (k a) db Q E)
      → Spec (m >>= k) db Q E
  after_read {A} {k} {R} s h c =
      Spec-bind {P = λ a db'. (db' ≡ db) × R a}
        (Spec-mono s (λ a db' q. q) (λ e db' p. subst (E e) (sym p.0) (h e p.1)))
        (λ a db' q. subst (λ d. Spec (k a) d Q E) (sym q.0) (c a q.1))

  pub after_refuse :
      {k : Action B} (b : Bool) (e : AppError)
      → (b ≡ true → E e db)
      → (b ≡ false → Spec k db Q E)
      → Spec (refuse_if b e >> k) db Q E
  after_refuse {k} b e h c =
      Spec-bind {P = λ _ db'. Spec k db' Q E} (Spec-refuse_if db b e h c) (λ _ db' s. s)

  module _ {A : Type 0} {k : A → Action B} where
    pub after_lift :
        (r : Result A)
        → ((e : AppError) → r ≡ err e → E e db)
        → ((a : A) → r ≡ ok a → Spec (k a) db Q E)
        → Spec (lift r >>= k) db Q E
    after_lift r h c =
        Spec-bind {P = λ a db'. Spec (k a) db' Q E} (Spec-lift db r c h) (λ a db' s. s)

    pub after_ok_or :
        (e : AppError) (x : Option A)
        → (x ≡ none → E e db)
        → ((a : A) → x ≡ some a → Spec (k a) db Q E)
        → Spec (ok_or e x >>= k) db Q E
    after_ok_or e x h c =
        Spec-bind {P = λ a db'. Spec (k a) db' Q E} (Spec-ok_or db e x h c) (λ a db' s. s)

  module _ (o : Outside) where
    pub after_uuid :
        {k : Uuid → Action B} → ((id : Uuid) → Spec (k id) db Q E) → Spec (new_uuid o >>= k) db Q E
    after_uuid {k} c =
        Spec-bind {P = λ a db'. Spec (k a) db' Q E} (Spec-new_uuid o db c) (λ a db' s. s)

    pub after_now :
        {k : DateTime → Action B} → ((t : DateTime) → Spec (k t) db Q E) → Spec (now o >>= k) db Q E
    after_now {k} c = Spec-bind {P = λ a db'. Spec (k a) db' Q E} (Spec-now o db c) (λ a db' s. s)

    pub after_random :
        {k : Text → Action B} → ((t : Text) → Spec (k t) db Q E) → Spec (random o >>= k) db Q E
    after_random {k} c =
        Spec-bind {P = λ a db'. Spec (k a) db' Q E} (Spec-random o db c) (λ a db' s. s)

    -- With the number of the draw.
    pub after_drawn :
        (k : Text → Action B)
        → ((n : ℕ) → Spec (k (o.random_bytes n)) db Q E)
        → Spec (random o >>= k) db Q E
    after_drawn k c = Spec-bind {P = λ a db'. Spec (k a) db' Q E} (Spec-drawn o db c) (λ a db' s. s)

    pub after_new_nonce :
        (k : Text → Action B)
        → ((n : ℕ) → Spec (k (o.random_nonce n)) db Q E)
        → Spec (new_nonce o >>= k) db Q E
    after_new_nonce k c =
        Spec-bind {P = λ a db'. Spec (k a) db' Q E} (Spec-new_nonce o db c) (λ a db' s. s)

    module _ {A : Type 0} (fails : Fallible E db) where
      pub after_query :
          (f : Db → A) (k : A → Action B) → Spec (k (f db)) db Q E → Spec (query o f >>= k) db Q E
      after_query f k c =
          Spec-bind {P = λ a db'. Spec (k a) db' Q E} (Spec-query o db f fails c) (λ a db' s. s)

      pub after_execute :
          {k : A → Action B} (f : Db → Written A)
          → ((a : A) (db' : Db) → f db ≡ stored a db' → Spec (k a) db' Q E)
          → Spec (execute o f >>= k) db Q E
      after_execute {k} f c =
          Spec-bind {P = λ a db'. Spec (k a) db' Q E} (Spec-execute o db f fails c) (λ a db' s. s)
