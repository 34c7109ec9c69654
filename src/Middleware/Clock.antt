-- ===== src/Middleware/Clock.antt =====
-- src/middleware.rs: `validate_timestamp`, whose arithmetic is that of `i64`.
use simply_firewall.Prelude.{
  ◌≡◌, ◌↔◌, Option, none, some, Text, trim, arith, ℤ, pos, negsuc, IsI64, ◌-ℤ◌, ◌≤ℤ◌, saturate,
  abs_i64, parse_i64, InSome, WhereSome, parse_i64-IsI64,
}
use simply_firewall.Error.{ok}
use simply_firewall.Middleware.{skew, validate_timestamp, fresh_timestamp, max_timestamp_skew_secs}

-- On a clock after 1970 neither the saturation nor the wrap of `abs` reaches the test.
skew_exact :
    (now supplied : ℤ)
    → pos 0 ≤ℤ now
    → IsI64 now
    → IsI64 supplied
    → (skew now supplied ≤ℤ max_timestamp_skew_secs)
      ↔ ((now -ℤ supplied ≤ℤ pos 300) × (supplied -ℤ now ≤ℤ pos 300))
unfolding abs_i64 saturate ◌-ℤ◌
skew_exact (pos n) (pos k) p h h' = ground arith
skew_exact (pos n) (negsuc k) p h h' = ground arith
skew_exact (negsuc n) supplied p h h' = absurd (omega arith)

-- What a header has to say at `now`.
abbrev pub IsFresh : (now : ℤ) (header : Option Text) (raw : Text) → Type 0
IsFresh now none raw = ⊥
IsFresh now (some header) raw = (raw ≡ trim header) × InSome near (parse_i64 (trim header))
  where
    near : ℤ → Type 0
    near supplied = (now -ℤ supplied ≤ℤ pos 300) × (supplied -ℤ now ≤ℤ pos 300)

module _ (now : ℤ) (raw : Text) (p : pos 0 ≤ℤ now) (h : IsI64 now) where
  fresh_timestamp_iff :
      (text : Text) (supplied : Option ℤ)
      → WhereSome IsI64 supplied
      → (fresh_timestamp now text supplied ≡ ok raw)
        ↔ ((raw ≡ text) × InSome (λ s. (now -ℤ s ≤ℤ pos 300) × (s -ℤ now ≤ℤ pos 300)) supplied)
  unfolding fresh_timestamp
  fresh_timestamp_iff text none b = ground arith
  fresh_timestamp_iff text (some s) b = let exact = skew_exact now s p h b in ground (arith, exact)

-- On a clock after 1970 a request passes the check of `X-Timestamp` exactly if the header is there,
-- trims to an integer of 64 bits, and that integer is at most 300 seconds from the clock on either
-- side, in exact arithmetic: the saturation and the wrap of `abs` never decide. The text that is
-- signed is the trimmed header.
pub validate_timestamp_iff :
    (now : ℤ) (header : Option Text) (raw : Text)
    → pos 0 ≤ℤ now
    → IsI64 now
    → (validate_timestamp now header ≡ ok raw) ↔ IsFresh now header raw
unfolding validate_timestamp
validate_timestamp_iff now none raw p h = ground arith
validate_timestamp_iff now (some header) raw p h =
    fresh_timestamp_iff now raw p h (trim header) (parse_i64 (trim header))
      (parse_i64-IsI64 (trim header))
