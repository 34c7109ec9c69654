-- ===== src/Retention.antt =====
-- src/retention.rs: the purges. A time counts seconds, so a row is older than a window where its time
-- and the window together lie before the clock. Windows beyond what chrono can represent, at which it
-- panics, are left out, and so are the workers' timers.
pub mod Purged
use simply_firewall.Prelude.{
  ℕ, ◌+◌, ◌*◌, ◌^◌, Bool, true, false, not, ◌&&◌, Option, none, some, Text, codes, trim,
  if◌then◌else◌, ltb, is_some_and, unwrap_or, ℤ, pos, negsuc, ltb_ℤ, pos_part, parse_i64,
  parse_unsigned,
}
use simply_firewall.Entities.{DateTime, IpRecord, WebhookExecution}
use simply_firewall.Outside.{Outside}
use simply_firewall.Store.{Action, pure, ◌>>=◌, now, execute}
use simply_firewall.Store.Aged.{delete_records, delete_executions}
use simply_firewall.Config.{Env, u64_max, max_of}

abbrev pub default_retention_days : ℤ
default_retention_days = pos 92

abbrev pub default_sweep_seconds : ℕ
default_sweep_seconds = 3600

-- A window that parses and is not negative, or the default.
abbrev pub window_or : ℤ → Option ℤ → ℤ
window_or default (some (pos n)) = pos n
window_or default _ = default

abbrev pub window_of : (default : ℤ) → Option Text → ℤ
window_of default none = default
window_of default (some raw) = window_or default (parse_i64 (trim raw))

unfoldable pub retention_days_from_env : Env → ℤ
retention_days_from_env env = window_of default_retention_days (env (codes "IP_RETENTION_DAYS"))

unfoldable pub execution_retention_hours_from_env : Env → (env_var : Text) → (default : ℤ) → ℤ
execution_retention_hours_from_env env env_var default = window_of default (env env_var)

abbrev sweep_of : Option Text → ℕ
sweep_of none = default_sweep_seconds
sweep_of (some raw) = max_of (unwrap_or (parse_unsigned u64_max (trim raw)) default_sweep_seconds) 1

unfoldable pub sweep_seconds_from_env : Env → ℕ
sweep_seconds_from_env env = sweep_of (env (codes "IP_RETENTION_SWEEP_SECONDS"))

abbrev pub day_seconds : ℕ
day_seconds = 86400

abbrev pub hour_seconds : ℕ
hour_seconds = 3600

-- The three filters of the statement.
abbrev pub is_expired : (clock : DateTime) (window : ℕ) → IpRecord → Bool
is_expired clock window r = r.is_deleted && is_some_and r.deleted_at (λ t. ltb (t + window) clock)

abbrev pub is_old_execution :
    (clock : DateTime) (window : ℕ) (success : Bool) → WebhookExecution → Bool
is_old_execution clock window success x =
    same_flag x.is_success success && ltb (x.created_at + window) clock
  where
    same_flag : Bool → Bool → Bool
    same_flag true b = b
    same_flag false b = not b

module _ (o : Outside) where
  unfoldable pub purge_expired_ip_records : (retention_days : ℤ) → Action ℕ
  purge_expired_ip_records (negsuc n) = pure 0
  purge_expired_ip_records (pos days) =
      if not (ltb 0 days)
      then pure 0
      else do clock ← now o; execute o (delete_records (is_expired clock (days * day_seconds)))

  -- One of the two statements, unless its window is 0.
  unfoldable pub purge_executions : (success : Bool) (retention_hours : ℤ) → Action ℕ
  purge_executions success (negsuc n) = pure 0
  purge_executions success (pos hours) = if not (ltb 0 hours) then pure 0 else do
    clock ← now o
    execute o (delete_executions (is_old_execution clock (hours * hour_seconds) success))

  unfoldable pub purge_expired_webhook_executions :
      (success_retention_hours failure_retention_hours : ℤ) → Action ℕ
  unfolding purge_executions
  purge_expired_webhook_executions success_retention_hours failure_retention_hours = do
    succeeded ← purge_executions true success_retention_hours
    failed ← purge_executions false failure_retention_hours
    pure (succeeded + failed)
