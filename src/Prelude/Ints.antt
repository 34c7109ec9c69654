-- ===== src/Prelude/Ints.antt =====
-- `i64` and the decimal parsers of std: signed integers over the native numbers, saturating
-- subtraction, the wrapping absolute value, and `str::parse`.
use Prim.Native.Nat.{ℕ, suc, ◌+◌, ◌-◌, ◌*◌, ◌^◌, ◌≤◌}
use mathlib.Core.Bool.{Bool, ◌&&◌}
use mathlib.Core.Option.{Option, none, some}
use mathlib.Core.Logic.{inl, inr}
use native.Mathlib.Omega.{arith}
use mathlib.Core.List.{[], ◌∷◌}
use simply_firewall.Prelude.Tests.{Bool-cases, ◌==◌, ltb, leb, if◌then◌else◌}
use simply_firewall.Prelude.Texts.{Text}

-- `negsuc n` is -(n + 1).
pub data ℤ : Type 0 where
  pos : ℕ → ℤ
  negsuc : ℕ → ℤ

abbrev pub pos_part : ℤ → ℕ
pos_part (pos n) = n
pos_part (negsuc n) = 0

abbrev pub neg_part : ℤ → ℕ
neg_part (pos n) = 0
neg_part (negsuc n) = suc n

abbrev pub sub_ℕ : ℕ → ℕ → ℤ
sub_ℕ a b = if leb b a then pos (a - b) else negsuc (b - a - 1)

infixl 65 ◌-ℤ◌
infix 50 ◌≤ℤ◌
unfoldable pub ◌-ℤ◌ : ℤ → ℤ → ℤ
a -ℤ b = sub_ℕ (pos_part a + neg_part b) (neg_part a + pos_part b)

abbrev pub ◌≤ℤ◌ : ℤ → ℤ → Type 0
a ≤ℤ b = pos_part a + neg_part b ≤ pos_part b + neg_part a

abbrev pub ltb_ℤ : ℤ → ℤ → Bool
ltb_ℤ a b = ltb (pos_part a + neg_part b) (pos_part b + neg_part a)

abbrev pub i64_max : ℕ
i64_max = 2 ^ 63 - 1

-- `i64::saturating_sub`
unfoldable pub saturate : ℤ → ℤ
saturate (pos n) = if ltb i64_max n then pos i64_max else pos n
saturate (negsuc n) = if ltb i64_max n then negsuc i64_max else negsuc n

-- `i64::abs`, which wraps at the least value.
unfoldable pub abs_i64 : ℤ → ℤ
abs_i64 (pos n) = pos n
abs_i64 (negsuc n) = if n == i64_max then negsuc n else pos (suc n)

-- Whatever is there satisfies `P`.
abbrev pub WhereSome {ℓ} : {A : Type ℓ} → (A → Type 0) → Option A → Type 0
WhereSome P none = Unit
WhereSome P (some a) = P a

abbrev pub IsI64 : ℤ → Type 0
IsI64 (pos n) = n ≤ i64_max
IsI64 (negsuc n) = n ≤ i64_max

-- The value of a run of digits.
unfoldable pub digits_value : (acc : ℕ) → Text → Option ℕ
digits_value acc [] = some acc
digits_value acc (c ∷ s) =
    let rest = digits_value (acc * 10 + (c - b'0')) s in
    if leb b'0' c && leb c b'9' then rest else none

digits : Text → Option ℕ
unfolding digits_value
digits [] = none
digits (c ∷ s) = digits_value 0 (c ∷ s)

at_most : ℕ → Option ℕ → Option ℕ
at_most bound none = none
at_most bound (some n) = if leb n bound then some n else none

-- `str::parse` at an unsigned type with the given greatest value.
unfoldable pub parse_unsigned : (greatest : ℕ) → Text → Option ℕ
unfolding digits at_most
parse_unsigned greatest [] = none
parse_unsigned greatest (c ∷ s) =
    if c == b'+' then at_most greatest (digits s) else at_most greatest (digits (c ∷ s))

negative : Option ℕ → Option ℤ
negative none = none
negative (some n) = some (sub_ℕ 0 n)

nonnegative : Option ℕ → Option ℤ
nonnegative none = none
nonnegative (some n) = some (pos n)

-- `str::parse::<i64>`
unfoldable pub parse_i64 : Text → Option ℤ
unfolding negative nonnegative digits at_most parse_unsigned
parse_i64 [] = none
parse_i64 (c ∷ s) =
    if c == b'-'
    then negative (at_most (suc i64_max) (digits s))
    else nonnegative (parse_unsigned i64_max (c ∷ s))

at_most-le : (bound : ℕ) (x : Option ℕ) → WhereSome (λ n. n ≤ bound) (at_most bound x)
unfolding at_most
at_most-le bound none = tt
at_most-le bound (some n) = ground arith

pub parse_unsigned-le :
    (greatest : ℕ) (s : Text) → WhereSome (λ n. n ≤ greatest) (parse_unsigned greatest s)
unfolding parse_unsigned
parse_unsigned-le greatest [] = tt
parse_unsigned-le greatest (c ∷ s) = elim (Bool-cases (c == b'+')) [
  | inl e ↦ rw e (at_most-le greatest (digits s))
  | inr e ↦ rw e (at_most-le greatest (digits (c ∷ s)))
]

negative-IsI64 : (x : Option ℕ) → WhereSome (λ n. n ≤ suc i64_max) x → WhereSome IsI64 (negative x)
unfolding negative
negative-IsI64 none h = tt
negative-IsI64 (some n) h = ground arith

nonnegative-IsI64 :
    (x : Option ℕ) → WhereSome (λ n. n ≤ i64_max) x → WhereSome IsI64 (nonnegative x)
unfolding nonnegative
nonnegative-IsI64 none h = tt
nonnegative-IsI64 (some n) h = h

pub parse_i64-IsI64 : (s : Text) → WhereSome IsI64 (parse_i64 s)
unfolding parse_i64
parse_i64-IsI64 [] = tt
parse_i64-IsI64 (c ∷ s) = elim (Bool-cases (c == b'-')) [
  | inl e ↦ rw e (negative-IsI64 _ (at_most-le (suc i64_max) (digits s)))
  | inr e ↦ rw e (nonnegative-IsI64 _ (parse_unsigned-le i64_max (c ∷ s)))
]
