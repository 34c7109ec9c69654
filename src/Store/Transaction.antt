-- ===== src/Store/Transaction.antt =====
-- A database transaction (`begin_with_options`, `commit`, and the rollback of one that is dropped), as
-- the endpoints on IP records use it.
use simply_firewall.Prelude.{suc, Option, none, some}
use simply_firewall.Error.{DbErr, AppError, db_error, Result, ok, err}
use simply_firewall.Outside.{Outside}
use simply_firewall.Store.{Db, World, Action, ◌>>=◌, query}
use simply_firewall.Store.Spec.{Spec, Post}
use simply_firewall.Store.Chain.{after_query}

module _ {A : Type 0} where
  -- What `commit` leaves: a statement that may fail, and then nothing stays written.
  commit : Option DbErr → Db → A → World → Result A × World
  commit (some e) before a w = (err (db_error e), record { db = before; step = suc w.step })
  commit none before a w = (ok a, record w { step = suc w.step })

  settle : Outside → Db → Result A × World → Result A × World
  unfolding commit
  settle o before (err e, w) = (err e, record w { db = before })
  settle o before (ok a, w) = commit (o.failure w.step) before a w

  body_of : Outside → Action A → Action A
  unfolding settle
  body_of o body w = settle o w.db (body w)

  unfoldable pub transaction : Outside → Action A → Action A
  unfolding body_of
  transaction o body = do _ ← query o (λ _. tt); body_of o body

module _ (o : Outside) {A : Type 0} (db : Db) (Q : A → Db → Type 0) (F E : AppError → Db → Type 0)
    (fails : (e : DbErr) → E (db_error e) db)
    (back : (e : AppError) (d : Db) → F e d → E e db) where
  Post-commit : (x : Option DbErr) (a : A) (w : World) → Q a w.db → Post Q E (commit x db a w)
  unfolding commit
  Post-commit (some e) a w q = fails e
  Post-commit none a w q = q

  Post-settle : (r : Result A × World) → Post Q F r → Post Q E (settle o db r)
  unfolding settle
  Post-settle (err e, w) p = back e w.db p
  Post-settle (ok a, w) p = Post-commit (o.failure w.step) a w p

-- A transaction that fails leaves the tables as they were.
module _ (o : Outside) {A : Type 0} (db : Db) {Q : A → Db → Type 0}
    {F E : AppError → Db → Type 0} where
  pub Spec-transaction :
      {body : Action A}
      → ((e : DbErr) → E (db_error e) db)
      → ((e : AppError) (d : Db) → F e d → E e db)
      → Spec body db Q F
      → Spec (transaction o body) db Q E
  unfolding transaction body_of
  Spec-transaction {body} fails back s =
      after_query o fails _ _ (record { at = λ n. Post-settle o db Q F E fails back _ (s.at n) })
