-- ===== src/Dispatch/Delivery/Backoff.antt =====
-- src/dispatch.rs: the pauses between attempts.
use simply_firewall.Prelude.{ℕ, zero, suc, ◌≡◌, ◌≤◌, ◌-◌, ◌*◌, ◌^◌, sym, ap, ◌∙◌, arith}
use simply_firewall.Config.{u64_max, min_of}
use simply_firewall.Dispatch.Delivery.{backoff_ms}

shift_held : (k : ℕ) → k ≤ 20 → min_of (suc k - 1) 20 ≡ k
shift_held k h = ground arith

backoff_ms-shift : (base k : ℕ) → k ≤ 20 → backoff_ms base (suc k) ≡ min_of (base * 2 ^ k) u64_max
unfolding backoff_ms
backoff_ms-shift base k h = ap (λ s. min_of (base * 2 ^ s) u64_max) (shift_held k h)

double : (base p : ℕ) → base * (2 * p) ≡ 2 * (base * p)
double base p = grind arith

min_of-double : (x bound : ℕ) → min_of (2 * x) bound ≡ min_of (2 * min_of x bound) bound
min_of-double x bound = ground arith

-- The first pause is the configured one, each of the next twenty is twice the one before, and all are
-- held to 64 bits; the shift never reaches the width of the word.
pub backoff_ms-doubles :
    (base attempt : ℕ)
    → base ≤ u64_max
    → 1 ≤ attempt
    → attempt ≤ 20
    → (backoff_ms base 1 ≡ base)
      × (backoff_ms base (suc attempt) ≡ min_of (2 * backoff_ms base attempt) u64_max)
backoff_ms-doubles base zero h h1 h2 = absurd (omega arith)
backoff_ms-doubles base (suc k) h h1 h2 = (
  backoff_ms-shift base 0 (omega arith) ∙ ground arith,
  backoff_ms-shift base (suc k) (omega arith)
      ∙ (ap (λ x. min_of x u64_max) (ap (λ p. base * p) pow ∙ double base (2 ^ k))
          ∙ (min_of-double (base * 2 ^ k) u64_max
              ∙ ap (λ x. min_of (2 * x) u64_max) (sym (backoff_ms-shift base k (omega arith))))),
)
  where
    pow : 2 ^ suc k ≡ 2 * 2 ^ k
    pow = omega arith
