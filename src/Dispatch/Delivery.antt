-- ===== src/Dispatch/Delivery.antt =====
-- src/dispatch.rs: the attempts of one delivery. What the network gives back for each attempt is a
-- parameter, and so are the durations and the wording of a status; a run is the list of what it does
-- in order. An attempt is a `u32`, a backoff a `u64`.
pub mod Attempts
pub mod Backoff
use simply_firewall.Prelude.{
  ℕ, zero, suc, ◌+◌, ◌-◌, ◌*◌, ◌^◌, ◌%◌, Bool, true, false, ◌&&◌, Option, none, some, List, [], ◌∷◌,
  Text, is_empty, if◌then◌else◌, ltb, leb,
}
use simply_firewall.Config.{u32_max, u64_max, min_of}
use simply_firewall.Entities.{Uuid}
use simply_firewall.Dispatch.Templates.{snippet}

-- What `send` gives: a response with its body, where that can be read, or an error.
pub data Reply : Type 0 where
  responded : (status : ℕ) (body : Option Text) → Reply
  send_failed : (reason : Text) → Reply

pub data DispatchOutcome : Type 0 where
  success : (status : ℕ) → DispatchOutcome
  transient permanent : (status : Option ℕ) (reason : Text) → DispatchOutcome

-- The arguments of `log_execution` that differ from attempt to attempt.
pub record Logged : Type 0 where
  pub status_code : Option ℕ
  pub is_success : Bool
  pub duration_ms : ℕ
  pub response_body : Option Text

pub data Event : Type 0 where
  posted : (attempt : ℕ) → Event
  logged : Logged → Event
  slept : (ms : ℕ) → Event

abbrev pub is_success_status : ℕ → Bool
is_success_status status = leb 200 status && ltb status 300

abbrev pub is_server_error : ℕ → Bool
is_server_error status = leb 500 status && ltb status 600

nonempty_snippet : (tail : Text → Text) → Option Text → Option Text
nonempty_snippet tail none = none
nonempty_snippet tail (some b) = if is_empty b then none else some (snippet tail b)

-- `body.as_deref().or(Some(reason))`
abbrev pub or_reason : Option Text → Text → Option Text
or_reason none reason = some reason
or_reason (some b) reason = some b

unfoldable pub saturate_i32 : ℕ → ℕ
saturate_i32 n = min_of n (2 ^ 31 - 1)

-- `base_backoff_ms.saturating_mul(1u64 << (attempt - 1).min(20))`
unfoldable pub backoff_ms : (base attempt : ℕ) → ℕ
backoff_ms base attempt = min_of (base * 2 ^ min_of (attempt - 1) 20) u64_max

module _ (tail : Text → Text) (status_text : ℕ → Text) where
  unfoldable pub attempt_delivery : Reply → DispatchOutcome × Option Text
  unfolding nonempty_snippet
  attempt_delivery (responded status body) = (
    (if is_success_status status
        then success status
        else if is_server_error status
        then transient (some status) (status_text status)
        else permanent (some status) (status_text status)),
    nonempty_snippet tail body,
  )
  attempt_delivery (send_failed reason) = (transient none reason, none)

-- The row of an attempt.
abbrev pub execution_of : DispatchOutcome → Option Text → (duration : ℕ) → Logged
execution_of (success status) body duration = record {
  status_code = some status;
  is_success = true;
  duration_ms = saturate_i32 duration;
  response_body = body;
}
execution_of (transient status reason) body duration = record {
  status_code = status;
  is_success = false;
  duration_ms = saturate_i32 duration;
  response_body = or_reason body reason;
}
execution_of (permanent status reason) body duration = record {
  status_code = status;
  is_success = false;
  duration_ms = saturate_i32 duration;
  response_body = or_reason body reason;
}

-- Whether the loop takes the arm that retries.
abbrev pub will_retry : DispatchOutcome → (attempt max_retries : ℕ) → Bool
will_retry (success _) attempt max_retries = false
will_retry (permanent _ _) attempt max_retries = false
will_retry (transient _ _) attempt max_retries = leb attempt max_retries

module _ (outcomes : (attempt : ℕ) → DispatchOutcome × Option Text) (durations : ℕ → ℕ) where
  abbrev pub row_at : ℕ → Logged
  row_at attempt = execution_of (outcomes attempt).0 (outcomes attempt).1 (durations attempt)

module _ (outcomes : (attempt : ℕ) → DispatchOutcome × Option Text) (durations : ℕ → ℕ)
    (max_retries base_backoff_ms : ℕ) where
  unfoldable pub deliver_loop : (fuel attempt : ℕ) → List Event
  unfolding backoff_ms
  deliver_loop zero attempt = []
  deliver_loop (suc fuel) attempt =
      let rest = deliver_loop fuel ((attempt + 1) % 2 ^ 32) in
      if will_retry (outcomes attempt).0 attempt max_retries
      then posted attempt
        ∷ logged (row_at outcomes durations attempt)
        ∷ slept (backoff_ms base_backoff_ms attempt)
        ∷ rest
      else posted attempt ∷ logged (row_at outcomes durations attempt) ∷ []

-- `dispatch_with_retries_config`, with a round for each attempt that it may make.
unfoldable pub dispatch_with_retries_config :
    (tail : Text → Text) (status_text : ℕ → Text) (replies : ℕ → Reply) (durations : ℕ → ℕ)
    → (max_retries base_backoff_ms : ℕ) → List Event
unfolding deliver_loop attempt_delivery
dispatch_with_retries_config tail status_text replies durations max_retries base_backoff_ms =
    deliver_loop (λ n. attempt_delivery tail status_text (replies n)) durations max_retries
      base_backoff_ms (suc max_retries) 1
