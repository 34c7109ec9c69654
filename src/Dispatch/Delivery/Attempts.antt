-- ===== src/Dispatch/Delivery/Attempts.antt =====
-- src/dispatch.rs: how many attempts a delivery makes, and which.
use simply_firewall.Prelude.{
  ℕ, zero, suc, ◌≡◌, ◌≤◌, ◌<◌, ◌↔◌, ◌+◌, ◌^◌, ◌%◌, refl, ap, ◌∙◌, inl, inr, Bool, true, false,
  Option, List, [], ◌∷◌, Text, arith, Bool-cases,
}
use simply_firewall.Config.{u32_max}
use simply_firewall.Dispatch.Delivery.{
  Event, posted, logged, slept, DispatchOutcome, Reply, responded, send_failed, is_success_status,
  is_server_error, will_retry, row_at, backoff_ms, deliver_loop, attempt_delivery,
  dispatch_with_retries_config,
}

module _ (outcomes : (attempt : ℕ) → DispatchOutcome × Option Text) (durations : ℕ → ℕ)
    (max_retries base : ℕ) where
  abbrev pub retried : ℕ → Bool
  retried attempt = will_retry (outcomes attempt).0 attempt max_retries

  -- `n` attempts from `first` that are tried again, and one that is not.
  abbrev pub trace_to : (n first : ℕ) → List Event
  trace_to zero first = posted first ∷ logged (row_at outcomes durations first) ∷ []
  trace_to (suc n) first =
      posted first
      ∷ logged (row_at outcomes durations first)
      ∷ slept (backoff_ms base first)
      ∷ trace_to n (suc first)

  retried-le : (attempt : ℕ) → retried attempt ≡ true → attempt ≤ max_retries
  retried-le attempt h = go (outcomes attempt).0 h
    where
      go : (x : DispatchOutcome) → will_retry x attempt max_retries ≡ true → attempt ≤ max_retries
      go (DispatchOutcome.success _) e = absurd cc
      go (DispatchOutcome.transient _ _) e = ground arith
      go (DispatchOutcome.permanent _ _) e = absurd cc

  -- The attempts before the `n`-th are retried, and that one is not.
  abbrev pub Ends : (n first : ℕ) → Type 0
  Ends zero first = retried first ≡ false
  Ends (suc n) first = (retried first ≡ true) × Ends n (suc first)

  loop_again :
      (fuel first : ℕ)
      → retried first ≡ true
      → first < u32_max
      → deliver_loop outcomes durations max_retries base (suc fuel) first
        ≡ posted first
          ∷ logged (row_at outcomes durations first)
          ∷ slept (backoff_ms base first)
          ∷ deliver_loop outcomes durations max_retries base fuel (suc first)
  unfolding deliver_loop
  loop_again fuel first e small = rw (e, wrap) refl
    where
      wrap : (first + 1) % 2 ^ 32 ≡ suc first
      wrap = ground arith

  loop-Ends :
      (fuel first : ℕ)
      → max_retries < u32_max
      → max_retries + 2 ≤ fuel + first
      → first ≤ suc max_retries
      → (n : ℕ) × (first + n ≤ suc max_retries)
        × Ends n first
        × (deliver_loop outcomes durations max_retries base fuel first ≡ trace_to n first)
  unfolding deliver_loop
  loop-Ends zero first small enough h = absurd (omega arith)
  loop-Ends (suc fuel) first small enough h = elim (Bool-cases (retried first)) [
    | inl e ↦
        let le = retried-le first e in
        let (n, bound, stops, trace) =
          loop-Ends fuel (suc first) small (omega arith) (omega arith) in
        (
          suc n,
          omega arith,
          (e, stops),
          loop_again fuel first e (omega arith)
              ∙ ap
                  (λ t.
                    posted first
                    ∷ logged (row_at outcomes durations first)
                    ∷ slept (backoff_ms base first)
                    ∷ t)
                  trace,
        )
    | inr e ↦ (zero, omega arith, e, rw e refl)
  ]

-- The failures that may pass: no response, or a status from 500 to 599.
abbrev pub MayPass : Reply → Type 0
MayPass (responded status body) = (500 ≤ status) × (status < 600)
MayPass (send_failed reason) = Unit

module _ (tail : Text → Text) (status_text : ℕ → Text) (max_retries : ℕ) where
  retried_iff :
      (reply : Reply) (attempt : ℕ)
      → (will_retry (attempt_delivery tail status_text reply).0 attempt max_retries ≡ true)
        ↔ (MayPass reply × (attempt ≤ max_retries))
  unfolding attempt_delivery
  retried_iff (responded status body) attempt = elim (Bool-cases (is_success_status status)) [
    | inl s ↦ rw s (ground (arith, s))
    | inr s ↦ elim (Bool-cases (is_server_error status)) [
      | inl e ↦ rw (s, e) (ground (arith, e))
      | inr e ↦ rw (s, e) (ground (arith, e))
    ]
  ]
  retried_iff (send_failed reason) attempt = ground arith

  -- From an attempt on, `n` fail in a way that may pass and are within the limit; the one after them
  -- does not fail so, or is beyond the limit.
  abbrev pub Stops : (replies : ℕ → Reply) (n first : ℕ) → Type 0
  Stops replies zero first = ¬ (MayPass (replies first) × (first ≤ max_retries))
  Stops replies (suc n) first =
      MayPass (replies first) × (first ≤ max_retries) × Stops replies n (suc first)

  Ends-Stops :
      (replies : ℕ → Reply) (durations : ℕ → ℕ) (base n first : ℕ)
      → Ends (λ k. attempt_delivery tail status_text (replies k)) durations max_retries base n first
      → Stops replies n first
  Ends-Stops replies durations base zero first h =
      λ p. ground (arith, h, (retried_iff (replies first) first).1 p)
  Ends-Stops replies durations base (suc n) first (h, rest) =
      let (pass, bound) = (retried_iff (replies first) first).0 h in
      (pass, bound, Ends-Stops replies durations base n (suc first) rest)

-- A delivery makes between one attempt and `max_retries + 1`. Every attempt before the last gets no
-- response or a status from 500 to 599, is logged and followed by its pause; the last one, which is
-- logged too, gets another answer or is the one that the limit allows last. The counter of
-- attempts does not wrap, given a limit below the greatest `u32`.
pub dispatch_with_retries_config-Stops :
    (tail : Text → Text) (status_text : ℕ → Text) (replies : ℕ → Reply) (durations : ℕ → ℕ)
    → (max_retries base : ℕ) → max_retries < u32_max
    → let outcomes = λ (n : ℕ). attempt_delivery tail status_text (replies n) in
      (n : ℕ) × (n ≤ max_retries)
      × Stops tail status_text max_retries replies n 1
      × (dispatch_with_retries_config tail status_text replies durations max_retries base
          ≡ trace_to outcomes durations max_retries base n 1)
unfolding dispatch_with_retries_config
dispatch_with_retries_config-Stops tail status_text replies durations max_retries base small =
    let (n, bound, stops, trace) =
      loop-Ends (λ n. attempt_delivery tail status_text (replies n)) durations max_retries base
        (suc max_retries) 1 small (omega arith) (omega arith) in
    (
      n,
      omega arith,
      Ends-Stops tail status_text max_retries replies durations base n 1 stops,
      trace,
    )
