-- ===== src/Middleware/Results.antt =====
-- `?` on results, and `Option::ok_or`, without a state.
use simply_firewall.Prelude.{◌≡◌, refl, Option, none, some}
use simply_firewall.Error.{AppError, Result, ok, err}

infixl 5 ◌>>=◌
unfoldable pub ◌>>=◌ : {A B : Type 0} → Result A → (A → Result B) → Result B
ok a >>= f = f a
err e >>= f = err e

unfoldable pub ok_or_err : {A : Type 0} → AppError → Option A → Result A
ok_or_err e none = err e
ok_or_err e (some a) = ok a

module _ {A B : Type 0} where
  -- A chain that succeeds has succeeded at its first step.
  pub ok_of_bind :
      (r : Result A) (f : A → Result B) {b : B}
      → (r >>= f) ≡ ok b
      → (x : A) × (r ≡ ok x) × (f x ≡ ok b)
  unfolding ◌>>=◌
  ok_of_bind (ok a) f e = (a, refl, e)
  ok_of_bind (err x) f e = absurd cc

module _ {A : Type 0} where
  pub some_of_ok : (e : AppError) {a : A} (x : Option A) → ok_or_err e x ≡ ok a → x ≡ some a
  unfolding ok_or_err
  some_of_ok e none h = absurd cc
  some_of_ok e (some b) h = cc

  pub ok-injective : {x y : A} → ok x ≡ ok y → x ≡ y
  ok-injective e = cc

module _ {A B C : Type 0} {e : AppError} where
  -- Chains that begin alike fail alike, if they fail alike from there.
  pub err_along :
      (r : Result A) (f : A → Result B) (g : A → Result C)
      → ((x : A) → f x ≡ err e → g x ≡ err e)
      → (r >>= f) ≡ err e
      → (r >>= g) ≡ err e
  unfolding ◌>>=◌
  err_along (ok a) f g k h = k a h
  err_along (err x) f g k h = cc

module _ {A : Type 0} where
  pub ok_is_no_err : {a : A} {e : AppError} {P : Type 0} → ok a ≡ err e → P
  ok_is_no_err h = absurd cc
